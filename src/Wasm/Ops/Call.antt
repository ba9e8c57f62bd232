-- ===== src/Wasm/Ops/Call.antt =====
-- ngx_wasm_ops_resume on a pipeline of calls: each function is called once, in order, over as many
-- resumes as the calls yield.
use ngx_wasm_module.Common.{
  ℕ, ◌+◌, ◌<◌, ◌≤◌, ◌≡◌, ◌⊎◌, inl, inr, refl, sym, ap, ◌∙◌, false, not, Option, some, List, [], ◌∷◌,
  ◌++◌, append_assoc, arith, length, length-append, take, take-append_self, take-append_suc,
  get_elem?, ltb, if◌then◌else◌, Bool-cases, lt→ltb,
}
use mathlib.Core.Path.{subst}
use ngx_wasm_module.Wasm.Ops.{
  OpCode, OpRc, WasmOp, OpCtx, CallOutcome, CallState, state_rc, call_handler, run_handler,
  run_pipeline,
}

-- The pipeline, from the place `j` on, holds loaded calls of the functions given.
pub data Calls (ops : List WasmOp) : ℕ → List ℕ → List ℕ → Type 0 where
  no_call : (j : ℕ) → Calls ops j [] []
  one_call :
      (j p f : ℕ) (ps fs : List ℕ) (op : WasmOp)
      → get_elem? ops p ≡ some op
      → op.handler ≡ some OpCode.call_code
      → op.idx ≡ j
      → op.funcref ≡ some f
      → Calls ops (j + 1) ps fs
      → Calls ops j (p ∷ ps) (f ∷ fs)

-- The functions before `cur_idx` were called since `base` were.
pub record InCalls (base funcs : List ℕ) (ctx : OpCtx) : Type 0 where
  pub calls : ctx.called ≡ base ++ take ctx.cur_idx funcs
  pub bound : ctx.cur_idx ≤ length funcs

-- A run that returns and calls functions in order; it returns NGX_DECLINED only behind the last one,
-- and yields only after a call.
pub record RunCalls (base funcs : List ℕ) (ctx : OpCtx) (r : Option (OpRc × OpCtx)) : Type 0 where
  pub rc : OpRc
  pub last : OpCtx
  pub returns : r ≡ some (rc, last)
  pub in_calls : InCalls base funcs last
  pub same_phase : last.last_phase ≡ ctx.last_phase
  pub code :
      ((rc ≡ OpRc.declined) × (last.cur_idx ≡ length funcs))
      ⊎ (((rc ≡ OpRc.again) × (ctx.cur_idx < last.cur_idx)) ⊎ (rc ≡ OpRc.error))

-- What `call_handler` does when it is an operation's turn.
data CallEnd (ctx : OpCtx) (f : ℕ) : OpRc × OpCtx → Type 0 where
  not_created : CallEnd ctx f (OpRc.error, ctx)
  called_once :
      (rc : OpRc)
      → (rc ≡ OpRc.declined) ⊎ ((rc ≡ OpRc.again) ⊎ (rc ≡ OpRc.error))
      → CallEnd ctx f (rc, record ctx { cur_idx = ctx.cur_idx + 1; called = ctx.called ++ f ∷ [] })

pub call_handler_turn :
    (ctx : OpCtx) (op : WasmOp) (o : CallOutcome) (f : ℕ)
    → op.funcref ≡ some f
    → op.idx ≡ ctx.cur_idx
    → call_handler op o ctx ≡ (
        if not o.created then (OpRc.error, ctx) else (
          if o.returns then state_rc o.state else OpRc.error,
          record ctx { cur_idx = ctx.cur_idx + 1; called = ctx.called ++ f ∷ [] },
        ))
unfolding call_handler
call_handler_turn ctx op o f has at =
    let same : ltb op.idx ctx.cur_idx ≡ false = ground arith in rw (has, same) refl

pub call_handler_past :
    (ctx : OpCtx) (op : WasmOp) (o : CallOutcome) (f : ℕ)
    → op.funcref ≡ some f
    → op.idx < ctx.cur_idx
    → call_handler op o ctx ≡ (OpRc.declined, ctx)
unfolding call_handler
call_handler_past ctx op o f has lt = rw (has, lt→ltb _ _ lt) refl

state_rc-cases :
    (s : CallState)
    → (state_rc s ≡ OpRc.declined) ⊎ ((state_rc s ≡ OpRc.again) ⊎ (state_rc s ≡ OpRc.error))
state_rc-cases CallState.yields = inr (inl refl)
state_rc-cases CallState.fails = inr (inr refl)
state_rc-cases CallState.goes_on = inl refl

call_handler-CallEnd :
    (ctx : OpCtx) (op : WasmOp) (o : CallOutcome) (f : ℕ)
    → op.funcref ≡ some f
    → op.idx ≡ ctx.cur_idx
    → CallEnd ctx f (call_handler op o ctx)
call_handler-CallEnd ctx op o f has at =
    subst (CallEnd ctx f) (sym (call_handler_turn ctx op o f has at)) by_outcome
  where
    by_outcome : CallEnd ctx f (
        if not o.created then (OpRc.error, ctx) else (
          if o.returns then state_rc o.state else OpRc.error,
          record ctx { cur_idx = ctx.cur_idx + 1; called = ctx.called ++ f ∷ [] },
        ))
    by_outcome = elim (Bool-cases o.created) [
      | inr c ↦ rw c not_created
      | inl c ↦ elim (Bool-cases o.returns) [
        | inl r ↦ rw (c, r) (called_once _ (state_rc-cases o.state))
        | inr r ↦ rw (c, r) (called_once _ (inr (inr refl)))
      ]
    ]

InCalls-call :
    (base pre fs : List ℕ) (f : ℕ) (ctx : OpCtx)
    → ctx.cur_idx ≡ length pre
    → InCalls base (pre ++ f ∷ fs) ctx
    → InCalls base
        (pre ++ f ∷ fs)
        (record ctx { cur_idx = ctx.cur_idx + 1; called = ctx.called ++ f ∷ [] })
InCalls-call base pre fs f ctx at i =
    let more = length-append pre (f ∷ fs) in
    let before : take ctx.cur_idx (pre ++ f ∷ fs) ≡ pre =
      ap (λ k. take k (pre ++ f ∷ fs)) at ∙ take-append_self pre (f ∷ fs) in
    let after : take (ctx.cur_idx + 1) (pre ++ f ∷ fs) ≡ pre ++ f ∷ [] =
      ap (λ k. take (k + 1) (pre ++ f ∷ fs)) at ∙ take-append_suc pre f fs in
    record {
      calls =
          ap (λ xs. xs ++ f ∷ []) (i.calls ∙ ap (◌++◌ base) before)
          ∙ append_assoc base pre (f ∷ [])
          ∙ ap (◌++◌ base) (sym after);
      bound = omega (arith, more, at);
    }

module _ (proxy : WasmOp → OpRc) (guest : ℕ → CallOutcome) (ops : List WasmOp) (base : List ℕ) where
  run_handler_call :
      (op : WasmOp) (ctx : OpCtx)
      → op.handler ≡ some OpCode.call_code
      → run_handler proxy guest op ctx ≡ some (call_handler op (guest (length ctx.called)) ctx)
  unfolding run_handler
  run_handler_call op ctx h = rw h refl

  -- An operation that declines passes on to the next one; any other code ends the run.
  pub run_pipeline_declined :
      (p : ℕ) (ps : List ℕ) (rc : OpRc) (op : WasmOp) (ctx ctx' : OpCtx)
      → get_elem? ops p ≡ some op
      → op.handler ≡ some OpCode.call_code
      → call_handler op (guest (length ctx.called)) ctx ≡ (OpRc.declined, ctx')
      → run_pipeline proxy guest ops (p ∷ ps) rc ctx
        ≡ run_pipeline proxy guest ops ps OpRc.declined ctx'
  unfolding run_pipeline
  run_pipeline_declined p ps rc op ctx ctx' got h eq = rw (got, run_handler_call op ctx h, eq) refl

  run_pipeline_again :
      (p : ℕ) (ps : List ℕ) (rc : OpRc) (op : WasmOp) (ctx ctx' : OpCtx)
      → get_elem? ops p ≡ some op
      → op.handler ≡ some OpCode.call_code
      → call_handler op (guest (length ctx.called)) ctx ≡ (OpRc.again, ctx')
      → run_pipeline proxy guest ops (p ∷ ps) rc ctx ≡ some (OpRc.again, ctx')
  unfolding run_pipeline
  run_pipeline_again p ps rc op ctx ctx' got h eq = rw (got, run_handler_call op ctx h, eq) refl

  pub run_pipeline_error :
      (p : ℕ) (ps : List ℕ) (rc : OpRc) (op : WasmOp) (ctx ctx' : OpCtx)
      → get_elem? ops p ≡ some op
      → op.handler ≡ some OpCode.call_code
      → call_handler op (guest (length ctx.called)) ctx ≡ (OpRc.error, ctx')
      → run_pipeline proxy guest ops (p ∷ ps) rc ctx ≡ some (OpRc.error, ctx')
  unfolding run_pipeline
  run_pipeline_error p ps rc op ctx ctx' got h eq = rw (got, run_handler_call op ctx h, eq) refl

  pub run_pipeline-RunCalls :
      (j : ℕ) (pre ps fs : List ℕ) (ctx : OpCtx)
      → Calls ops j ps fs
      → j ≡ length pre
      → j ≤ ctx.cur_idx
      → InCalls base (pre ++ fs) ctx
      → RunCalls base (pre ++ fs) ctx (run_pipeline proxy guest ops ps OpRc.declined ctx)
  unfolding run_pipeline
  run_pipeline-RunCalls j pre _ _ ctx (no_call _) at le i =
      let size = length-append pre [] in
      let bound = i.bound in
      record {
        rc = OpRc.declined;
        last = ctx;
        returns = refl;
        in_calls = i;
        same_phase = refl;
        code = inl (refl, omega (arith, size, bound, at, le));
      }
  run_pipeline-RunCalls j pre _ _ ctx (one_call _ p f ps fs op got h idx has rest) at le i =
      by_turn (λ ctx' le' i'.
        run_pipeline-RunCalls (j + 1) (pre ++ f ∷ []) ps fs ctx' rest
          (omega (arith, length-append pre (f ∷ []), at)) le' i')
    where
      Next : OpCtx → Type 0
      Next ctx' =
          j + 1 ≤ ctx'.cur_idx
          → InCalls base ((pre ++ f ∷ []) ++ fs) ctx'
          → RunCalls base ((pre ++ f ∷ []) ++ fs) ctx'
              (run_pipeline proxy guest ops ps OpRc.declined ctx')

      assoc : (pre ++ f ∷ []) ++ fs ≡ pre ++ f ∷ fs
      assoc = append_assoc pre (f ∷ []) fs

      next :
          (ctx' : OpCtx)
          → Next ctx'
          → j + 1 ≤ ctx'.cur_idx
          → InCalls base (pre ++ f ∷ fs) ctx'
          → RunCalls base (pre ++ f ∷ fs) ctx' (run_pipeline proxy guest ops ps OpRc.declined ctx')
      next ctx' k le' i' =
          subst (λ xs. RunCalls base xs ctx' (run_pipeline proxy guest ops ps OpRc.declined ctx'))
            assoc (k le' (subst (λ xs. InCalls base xs ctx') (sym assoc) i'))

      Goal : Type 0
      Goal =
          RunCalls base (pre ++ f ∷ fs) ctx
            (run_pipeline proxy guest ops (p ∷ ps) OpRc.declined ctx)

      o : CallOutcome
      o = guest (length ctx.called)

      turned : OpCtx
      turned = record ctx { cur_idx = ctx.cur_idx + 1; called = ctx.called ++ f ∷ [] }

      by_code :
          ctx.cur_idx ≡ j
          → Next turned
          → (rc : OpRc) → call_handler op o ctx ≡ (rc, turned)
          → (rc ≡ OpRc.declined) ⊎ ((rc ≡ OpRc.again) ⊎ (rc ≡ OpRc.error))
          → Goal
      by_code here k rc eq (inl d) =
          let r = next turned k (omega arith) (InCalls-call base pre fs f ctx (here ∙ at) i) in
          record {
            rc = r.rc;
            last = r.last;
            returns =
                run_pipeline_declined p ps OpRc.declined op ctx turned got h
                  (eq ∙ ap (λ c. (c, turned)) d)
                ∙ r.returns;
            in_calls = r.in_calls;
            same_phase = r.same_phase;
            code = elim r.code [
              | inl all ↦ inl all
              | inr (inl y) ↦ inr (inl (y.0, omega (arith, y.1)))
              | inr (inr e) ↦ inr (inr e)
            ];
          }
      by_code here k rc eq (inr (inl a)) = record {
        rc = OpRc.again;
        last = turned;
        returns =
            run_pipeline_again p ps OpRc.declined op ctx turned got h
              (eq ∙ ap (λ c. (c, turned)) a);
        in_calls = InCalls-call base pre fs f ctx (here ∙ at) i;
        same_phase = refl;
        code = inr (inl (refl, omega arith));
      }
      by_code here k rc eq (inr (inr e)) = record {
        rc = OpRc.error;
        last = turned;
        returns =
            run_pipeline_error p ps OpRc.declined op ctx turned got h
              (eq ∙ ap (λ c. (c, turned)) e);
        in_calls = InCalls-call base pre fs f ctx (here ∙ at) i;
        same_phase = refl;
        code = inr (inr refl);
      }

      by_end :
          ctx.cur_idx ≡ j
          → Next turned
          → (r : OpRc × OpCtx) → call_handler op o ctx ≡ r
          → CallEnd ctx f r
          → Goal
      by_end here k _ eq not_created = record {
        rc = OpRc.error;
        last = ctx;
        returns = run_pipeline_error p ps OpRc.declined op ctx ctx got h eq;
        in_calls = i;
        same_phase = refl;
        code = inr (inr refl);
      }
      by_end here k _ eq (called_once rc c) = by_code here k rc eq c

      by_turn : ((ctx' : OpCtx) → Next ctx') → Goal
      by_turn k = elim (Bool-cases (ltb j ctx.cur_idx)) [
        | inl t ↦
            (let r = next ctx (k ctx) (ground arith) i in
              record {
                rc = r.rc;
                last = r.last;
                returns =
                    run_pipeline_declined p ps OpRc.declined op ctx ctx got h
                      (call_handler_past ctx op o f has (ground arith))
                    ∙ r.returns;
                in_calls = r.in_calls;
                same_phase = r.same_phase;
                code = r.code;
              })
        | inr t ↦
            (let here : ctx.cur_idx ≡ j = ground arith in
              by_end here (k turned) _ refl (call_handler-CallEnd ctx op o f has (idx ∙ sym here)))
      ]
