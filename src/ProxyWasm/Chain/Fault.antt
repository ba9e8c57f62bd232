-- ===== src/ProxyWasm/Chain/Fault.antt =====
-- ngx_proxy_wasm_resume: a filter that pauses where it may not.
use ngx_wasm_module.Common.{
  ℕ, ◌+◌, ◌-◌, ◌<◌, ◌≡◌, refl, ap, ◌∙◌, Bool, true, false, none, some, arith, length, length-modify,
  get_elem?, ltb, leb,
}
use ngx_wasm_module.ProxyWasm.Chain.{
  Action, Phase, Step, Exec, Ctx, CallRc, Outcome, step_number, is_done_step, is_body, has_case,
  returns_action, action2rc, next2rc, pause2rc, after_call, finish_round, round, rounds,
  resume_chain, resume,
}
use ngx_wasm_module.ProxyWasm.Chain.Cases.{action2rc_live, advance_known}
use ngx_wasm_module.ProxyWasm.Chain.Order.{is_plain, get_elem?-modify}
use ngx_wasm_module.ProxyWasm.Chain.Sequence.{is_once, enter_once}
use ngx_wasm_module.ProxyWasm.Chain.Well.{action2rc_continue, run_step_well, round_eq}

pause_fault :
    (ctx : Ctx) (step : Step) (i : ℕ) (e : Exec)
    → is_plain step ≡ true
    → e.ecode ≡ none
    → ctx.phase ≡ Phase.other_phase
    → ctx.action ≡ Action.pause
    → ctx.exec_index ≡ length ctx.pwexecs
    → action2rc step i e ctx ≡ none
unfolding next2rc pause2rc
pause_fault ctx step i e plain n ph at full =
    let out : ltb ctx.exec_index (length ctx.pwexecs) ≡ false = ground arith in
    action2rc_live step i e ctx (ground arith) n
    ∙ ap (λ a. next2rc a i ctx) at
    ∙ ap (λ p. pause2rc p ctx) ph
    ∙ rw out refl

finish_round_fault :
    (step : Step) (i : ℕ) (t : Bool) (ctx : Ctx)
    → is_plain step ≡ true
    → ctx.phase ≡ Phase.other_phase
    → ctx.exec_index ≡ i
    → i + 1 ≡ length ctx.pwexecs
    → finish_round step i none (after_call i none t Action.pause ctx).1 ≡ none
unfolding finish_round
finish_round_fault step i t ctx plain ph at last =
    let f : Exec → Exec = λ _. record { ecode = none; has_instance = true; trapped = t } in
    let called : Ctx = (after_call i none t Action.pause ctx).1 in
    let size = length-modify f i ctx.pwexecs in
    let (x, got) = get_elem?-modify f i ctx.pwexecs (omega arith) in
    let nb : is_body step ≡ false = ground arith in
    rw
      (
        advance_known step called nb refl,
        got,
        pause_fault (record called { exec_index = called.exec_index + 1 }) step i (f x) plain refl
            ph refl (omega arith),
      )
      refl

-- Where the last filter of the chain returns PAUSE in a phase that has no pause, as that of the
-- response's trailers, the error is written behind the array of the filters: a fault.
pub resume_pause_fault :
    (trailers : Bool) (step : Step) (guest : ℕ → Outcome) (ctx : Ctx) (e : Exec)
    → is_once step ≡ true
    → returns_action step ≡ true
    → has_case trailers step ≡ true
    → ctx.last_completed_step < step_number step
    → ctx.phase ≡ Phase.other_phase
    → ctx.action ≡ Action.continue
    → ctx.exec_index + 1 ≡ length ctx.pwexecs
    → get_elem? ctx.pwexecs ctx.exec_index ≡ some e
    → e.ecode ≡ none
    → (guest ctx.exec_index).created ≡ none
    → (guest ctx.exec_index).written ≡ none
    → (guest ctx.exec_index).rc ≡ CallRc.call_ok
    → (guest ctx.exec_index).returned ≡ some Action.pause
    → resume trailers step guest ctx ≡ none
unfolding resume resume_chain rounds
resume_pause_fault trailers step guest ctx e once acts runs before ph at full got ok created written
      rc back =
    let plain : is_plain step ≡ true = ground arith in
    let nd : is_done_step step ≡ false = ground arith in
    let le : leb (step_number step) ctx.last_completed_step ≡ false = ground arith in
    let i : ℕ = ctx.exec_index in
    let one : length ctx.pwexecs - i ≡ 1 = omega arith in
    let eq : round trailers step guest i ctx ≡ none =
      round_eq trailers step plain acts runs guest i ctx e Action.pause nd got
        (action2rc_continue step i e ctx plain ok at)
        (run_step_well trailers step plain acts runs i e (guest i) ctx Action.pause created written
          rc back at)
      ∙ finish_round_fault step i (guest i).traps ctx plain ph refl full in
    rw (enter_once step ctx once, le, one, eq) refl
