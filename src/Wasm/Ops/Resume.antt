-- ===== src/Wasm/Ops/Resume.antt =====
-- ngx_wasm_ops_resume: a phase of calls, resumed as long as a call yields.
use ngx_wasm_module.Common.{
  ℕ, ◌+◌, ◌<◌, ◌≤◌, ◌≡◌, ◌⊎◌, inl, inr, refl, sym, ap, ◌∙◌, true, Option, some, List, [], ◌∷◌, ◌++◌,
  append-nil, arith, length, take, get_elem?, ◌==◌, ◌>>=◌, Bool-cases,
}
use mathlib.Core.Path.{subst}
use ngx_wasm_module.Wasm.Ops.{
  OpRc, WasmOp, WasmPhase, Plan, OpCtx, CallOutcome, run_pipeline, set_last_phase, is_new_phase,
  enter_phase, phase_lookup, ops_resume,
}
use ngx_wasm_module.Wasm.Ops.Call.{Calls, InCalls, RunCalls, run_pipeline-RunCalls}

-- A phase is resumed until it does not yield.
unfoldable pub resume_phase :
    (WasmOp → OpRc)
    → List WasmPhase
    → Plan
    → ℕ
    → List (ℕ → CallOutcome)
    → OpCtx
    → Option (OpRc × OpCtx)
resume_phase proxy phases plan i [] ctx = some (OpRc.again, ctx)
resume_phase proxy phases plan i (guest ∷ guests) ctx = do
  (rc, ctx') ← ops_resume proxy guest phases plan i ctx
  let rest = resume_phase proxy phases plan i guests ctx'
  elim rc [ OpRc.again ↦ rest | stopped ↦ some (stopped, ctx') ]

-- The first `m` functions were called, in order: all of them, or up to an error, or, by as many
-- resumes as guests are given, at least one for each.
pub record PhaseCalls (funcs : List ℕ) (n : ℕ) (base : List ℕ) (r : Option (OpRc × OpCtx))
    : Type 0 where
  pub rc : OpRc
  pub last : OpCtx
  pub m : ℕ
  pub returns : r ≡ some (rc, last)
  pub calls : last.called ≡ base ++ take m funcs
  pub bound : m ≤ length funcs
  pub code :
      ((rc ≡ OpRc.declined) × (m ≡ length funcs))
      ⊎ ((rc ≡ OpRc.error) ⊎ ((rc ≡ OpRc.again) × (n ≤ m)))

enter_phase_called : (i : ℕ) (ctx : OpCtx) → (enter_phase i ctx).called ≡ ctx.called
enter_phase_called i ctx = elim (Bool-cases (is_new_phase i ctx.last_phase)) [
  | inl t ↦ rw t refl
  | inr f ↦ rw f refl
]

enter_phase_again :
    (i : ℕ) (ctx : OpCtx)
    → enter_phase i (set_last_phase i OpRc.again ctx) ≡ record ctx { last_phase = some i }
unfolding set_last_phase
enter_phase_again i ctx = let same : (i == i) ≡ true = ground arith in rw same refl

set_last_phase_called :
    (i : ℕ) (rc : OpRc) (ctx : OpCtx) → (set_last_phase i rc ctx).called ≡ ctx.called
unfolding set_last_phase
set_last_phase_called i OpRc.error ctx = refl
set_last_phase_called i (OpRc.http n) ctx = refl
set_last_phase_called i OpRc.ok ctx = refl
set_last_phase_called i OpRc.again ctx = refl
set_last_phase_called i OpRc.declined ctx = refl
set_last_phase_called i OpRc.done ctx = refl

pub ops_resume_eq :
    (proxy : WasmOp → OpRc) (phases : List WasmPhase) (plan : Plan) (i : ℕ) (phase : WasmPhase)
    (pipeline : List ℕ) (guest : ℕ → CallOutcome) (ctx last : OpCtx) (rc : OpRc)
    → phase_lookup phases i ≡ some phase
    → get_elem? plan.pipelines phase.index ≡ some pipeline
    → run_pipeline proxy guest plan.ops pipeline OpRc.declined (enter_phase i ctx) ≡ some (rc, last)
    → ops_resume proxy guest phases plan i ctx ≡ some (rc, set_last_phase i rc last)
unfolding ops_resume
ops_resume_eq proxy phases plan i phase pipeline guest ctx last rc look got eq =
    rw (ops_resume, look, got, eq) refl

module _ (proxy : WasmOp → OpRc) (phases : List WasmPhase) (plan : Plan) (i : ℕ) (phase : WasmPhase)
    (pipeline funcs : List ℕ) (look : phase_lookup phases i ≡ some phase)
    (got : get_elem? plan.pipelines phase.index ≡ some pipeline)
    (loaded : Calls plan.ops 0 pipeline funcs) where
  ops_resume_calls :
      (guest : ℕ → CallOutcome) (base : List ℕ) (ctx : OpCtx)
      → InCalls base funcs (enter_phase i ctx)
      → (r : RunCalls base funcs
          (enter_phase i ctx)
          (run_pipeline proxy guest plan.ops pipeline OpRc.declined (enter_phase i ctx)))
        × (ops_resume proxy guest phases plan i ctx ≡ some (r.rc, set_last_phase i r.rc r.last))
  ops_resume_calls guest base ctx inside =
      let r =
        run_pipeline-RunCalls proxy guest plan.ops base 0 [] pipeline funcs (enter_phase i ctx)
          loaded refl (omega arith) inside in
      (r, ops_resume_eq proxy phases plan i phase pipeline guest ctx r.last r.rc look got r.returns)

  module _ (guest : ℕ → CallOutcome) (guests : List (ℕ → CallOutcome)) (ctx ctx' : OpCtx) where
    resume_phase_again :
        ops_resume proxy guest phases plan i ctx ≡ some (OpRc.again, ctx')
        → resume_phase proxy phases plan i (guest ∷ guests) ctx
          ≡ resume_phase proxy phases plan i guests ctx'
    unfolding resume_phase
    resume_phase_again eq = rw eq refl

    resume_phase_declined :
        ops_resume proxy guest phases plan i ctx ≡ some (OpRc.declined, ctx')
        → resume_phase proxy phases plan i (guest ∷ guests) ctx ≡ some (OpRc.declined, ctx')
    unfolding resume_phase
    resume_phase_declined eq = rw eq refl

    resume_phase_error :
        ops_resume proxy guest phases plan i ctx ≡ some (OpRc.error, ctx')
        → resume_phase proxy phases plan i (guest ∷ guests) ctx ≡ some (OpRc.error, ctx')
    unfolding resume_phase
    resume_phase_error eq = rw eq refl

  resume_phase_from :
      (guests : List (ℕ → CallOutcome)) (base : List ℕ) (ctx : OpCtx)
      → InCalls base funcs (enter_phase i ctx)
      → PhaseCalls funcs
          (length guests + (enter_phase i ctx).cur_idx)
          base
          (resume_phase proxy phases plan i guests ctx)
  unfolding resume_phase
  resume_phase_from [] base ctx inside = record {
    rc = OpRc.again;
    last = ctx;
    m = (enter_phase i ctx).cur_idx;
    returns = refl;
    calls = sym (enter_phase_called i ctx) ∙ inside.calls;
    bound = inside.bound;
    code = inr (inr (refl, omega arith));
  }
  resume_phase_from (guest ∷ guests) base ctx inside =
      let (r, eq) = ops_resume_calls guest base ctx inside in
      by_code r eq r.code (λ c' i'. resume_phase_from guests base c' i')
    where
      by_code :
          (r : RunCalls base funcs
            (enter_phase i ctx)
            (run_pipeline proxy guest plan.ops pipeline OpRc.declined (enter_phase i ctx)))
          → ops_resume proxy guest phases plan i ctx ≡ some (r.rc, set_last_phase i r.rc r.last)
          → ((r.rc ≡ OpRc.declined) × (r.last.cur_idx ≡ length funcs))
            ⊎ (((r.rc ≡ OpRc.again) × ((enter_phase i ctx).cur_idx < r.last.cur_idx))
                ⊎ (r.rc ≡ OpRc.error))
          → ((c' : OpCtx)
              → InCalls base funcs (enter_phase i c')
              → PhaseCalls funcs
                  (length guests + (enter_phase i c').cur_idx)
                  base
                  (resume_phase proxy phases plan i guests c'))
          → PhaseCalls funcs
              (length (guest ∷ guests) + (enter_phase i ctx).cur_idx)
              base
              (resume_phase proxy phases plan i (guest ∷ guests) ctx)
      by_code r eq (inl (d, all)) k = record {
        rc = OpRc.declined;
        last = set_last_phase i OpRc.declined r.last;
        m = r.last.cur_idx;
        returns =
            resume_phase_declined guest guests ctx _
              (eq ∙ ap (λ c. some (c, set_last_phase i c r.last)) d);
        calls = set_last_phase_called i OpRc.declined r.last ∙ r.in_calls.calls;
        bound = r.in_calls.bound;
        code = inl (refl, all);
      }
      by_code r eq (inr (inr e)) k = record {
        rc = OpRc.error;
        last = set_last_phase i OpRc.error r.last;
        m = r.last.cur_idx;
        returns =
            resume_phase_error guest guests ctx _
              (eq ∙ ap (λ c. some (c, set_last_phase i c r.last)) e);
        calls = set_last_phase_called i OpRc.error r.last ∙ r.in_calls.calls;
        bound = r.in_calls.bound;
        code = inr (inl refl);
      }
      by_code r eq (inr (inl (a, more))) k =
          let next : OpCtx = set_last_phase i OpRc.again r.last in
          let same = enter_phase_again i r.last in
          let held : InCalls base funcs (enter_phase i next) =
            subst (InCalls base funcs) (sym same)
              (record { calls = r.in_calls.calls; bound = r.in_calls.bound }) in
          let f = k next held in
          let at : (enter_phase i next).cur_idx ≡ r.last.cur_idx = ap (λ c. c.cur_idx) same in
          record {
            rc = f.rc;
            last = f.last;
            m = f.m;
            returns =
                resume_phase_again guest guests ctx next
                  (eq ∙ ap (λ c. some (c, set_last_phase i c r.last)) a)
                ∙ f.returns;
            calls = f.calls;
            bound = f.bound;
            code = elim f.code [
              | inl d ↦ inl d
              | inr (inl e) ↦ inr (inl e)
              | inr (inr (g, le)) ↦ inr (inr (g, omega (arith, le, at, more)))
            ];
          }

-- A phase whose pipeline holds loaded calls, entered with cur_idx at 0 and resumed as long as it
-- yields, calls its functions in order and each at most once; it ends with NGX_DECLINED after
-- all of them or with NGX_ERROR, unless there are no more resumes than functions.
pub resume_phase-PhaseCalls :
    (proxy : WasmOp → OpRc) (phases : List WasmPhase) (plan : Plan) (i : ℕ) (phase : WasmPhase)
    (pipeline funcs : List ℕ)
    → phase_lookup phases i ≡ some phase
    → get_elem? plan.pipelines phase.index ≡ some pipeline
    → Calls plan.ops 0 pipeline funcs
    → (guests : List (ℕ → CallOutcome)) (ctx : OpCtx) → (enter_phase i ctx).cur_idx ≡ 0
    → PhaseCalls funcs (length guests) ctx.called (resume_phase proxy phases plan i guests ctx)
resume_phase-PhaseCalls proxy phases plan i phase pipeline funcs look got loaded guests ctx fresh =
    subst (λ n. PhaseCalls funcs n ctx.called (resume_phase proxy phases plan i guests ctx))
      (ap (λ k. length guests + k) fresh ∙ plus_zero (length guests))
      (resume_phase_from proxy phases plan i phase pipeline funcs look got loaded guests ctx.called
        ctx
        (record {
          calls =
              enter_phase_called i ctx
              ∙ sym (append-nil ctx.called)
              ∙ ap (λ k. ctx.called ++ take k funcs) (sym fresh);
          bound = omega (arith, fresh);
        }))
  where
    plus_zero : (n : ℕ) → n + 0 ≡ n
    plus_zero n = omega arith
