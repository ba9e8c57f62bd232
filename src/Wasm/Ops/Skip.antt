-- ===== src/Wasm/Ops/Skip.antt =====
-- ngx_wasm_ops_resume: an error in the first phase of a request leaves `cur_idx` set.
use ngx_wasm_module.Common.{
  ℕ, ◌+◌, ◌≡◌, refl, sym, ap, if◌then◌else◌, ◌∙◌, true, false, none, some, List, [], ◌∷◌, ◌++◌,
  arith, length, get_elem?,
}
use ngx_wasm_module.Wasm.Ops.{
  OpCode, OpRc, WasmOp, WasmPhase, Plan, OpCtx, CallOutcome, call_handler, run_pipeline,
  set_last_phase, enter_phase, is_new_phase, phase_lookup, ops_resume,
}
use ngx_wasm_module.Wasm.Ops.Call.{
  call_handler_turn, call_handler_past, run_pipeline_declined, run_pipeline_error,
}
use ngx_wasm_module.Wasm.Ops.Resume.{ops_resume_eq}

-- A loaded call of `f`, the first of its pipeline.
pub record IsFirstCall (ops : List WasmOp) (p f : ℕ) : Type 0 where
  pub op : WasmOp
  pub found : get_elem? ops p ≡ some op
  pub handler : op.handler ≡ some OpCode.call_code
  pub idx : op.idx ≡ 0
  pub funcref : op.funcref ≡ some f

enter_phase_first : (i : ℕ) (ctx : OpCtx) → ctx.last_phase ≡ none → enter_phase i ctx ≡ ctx
enter_phase_first i ctx last =
    ap (λ l. if is_new_phase i l then record ctx { cur_idx = 0 } else ctx) last

-- Where the first call of a request traps, the first call of the next phase that runs is skipped:
-- the phase of the error is not recorded, so `cur_idx` is not reset.
pub ops_resume_skips :
    (proxy : WasmOp → OpRc) (guest guest' : ℕ → CallOutcome) (phases : List WasmPhase) (plan : Plan)
    (i j : ℕ) (phase phase' : WasmPhase) (p q f g : ℕ) (ps : List ℕ) (ctx : OpCtx)
    → phase_lookup phases i ≡ some phase
    → get_elem? plan.pipelines phase.index ≡ some (p ∷ ps)
    → phase_lookup phases j ≡ some phase'
    → get_elem? plan.pipelines phase'.index ≡ some (q ∷ [])
    → IsFirstCall plan.ops p f
    → IsFirstCall plan.ops q g
    → ctx.last_phase ≡ none
    → ctx.cur_idx ≡ 0
    → (guest (length ctx.called)).created ≡ true
    → (guest (length ctx.called)).returns ≡ false
    → (ctx' : OpCtx) × (ops_resume proxy guest phases plan i ctx ≡ some (OpRc.error, ctx'))
      × (ops_resume proxy guest' phases plan j ctx'
          ≡ some (OpRc.declined, record ctx' { last_phase = some j }))
      × (ctx'.called ≡ ctx.called ++ f ∷ [])
unfolding set_last_phase run_pipeline
ops_resume_skips proxy guest guest' phases plan i j phase phase' p q f g ps ctx look got look' got'
      a b last cur created traps =
    let ctx' : OpCtx = record ctx { cur_idx = ctx.cur_idx + 1; called = ctx.called ++ f ∷ [] } in
    let failed : call_handler a.op (guest (length ctx.called)) ctx ≡ (OpRc.error, ctx') =
      call_handler_turn ctx a.op (guest (length ctx.called)) f a.funcref (a.idx ∙ sym cur)
      ∙ rw (created, traps) refl in
    let idx = b.idx in
    let skipped : call_handler b.op (guest' (length ctx'.called)) ctx' ≡ (OpRc.declined, ctx') =
      call_handler_past ctx' b.op (guest' (length ctx'.called)) g b.funcref (omega arith) in
    (
      ctx',
      ops_resume_eq proxy phases plan i phase (p ∷ ps) guest ctx ctx' OpRc.error look got (
          ap (run_pipeline proxy guest plan.ops (p ∷ ps) OpRc.declined)
            (enter_phase_first i ctx last)
          ∙ run_pipeline_error proxy guest plan.ops [] p ps OpRc.declined a.op ctx ctx' a.found
              a.handler failed),
      ops_resume_eq proxy phases plan j phase' (q ∷ []) guest' ctx' ctx' OpRc.declined look' got' (
          ap (run_pipeline proxy guest' plan.ops (q ∷ []) OpRc.declined)
            (enter_phase_first j ctx' last)
          ∙ run_pipeline_declined proxy guest' plan.ops [] q [] OpRc.declined b.op ctx' ctx' b.found
              b.handler skipped),
      refl,
    )
