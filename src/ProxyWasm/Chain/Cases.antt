-- ===== src/ProxyWasm/Chain/Cases.antt =====
-- ngx_proxy_wasm_resume: the cases of action2rc and of ngx_proxy_wasm_run_step.
use ngx_wasm_module.Common.{
  ℕ, zero, suc, ◌+◌, ◌≡◌, inl, inr, refl, sym, Bool, true, false, ◌||◌, not, Option, none, some,
  List, [], ◌∷◌, arith, modify, ◌==◌, ◌&&◌, if◌then◌else◌, Bool-cases,
}
use mathlib.Core.Path.{subst}
use ngx_wasm_module.ProxyWasm.Chain.{
  Action, Step, Phase, Result, Exec, Ctx, Outcome, Err, action_number, or_else, is_done, is_body,
  is_done_step, has_case, returns_action, ignores_rc, rc2ecode, is_call_ok, set_ecode, pause2rc,
  next2rc, action2rc, after_call, call_step, run_step, advance,
}

abbrev pub is_other : Phase → Bool
is_other Phase.other_phase = true
is_other _ = false

abbrev pub range : ℕ → ℕ → List ℕ
range i zero = []
range i (suc n) = i ∷ range (i + 1) n

abbrev pub is_known : Action → Bool
is_known Action.continue = true
is_known Action.done = true
is_known Action.pause = true
is_known _ = false

-- What `action2rc` answers for a filter, in a step that is not DONE and a phase where a filter may
-- pause.
pub data Checked (i : ℕ) (e : Exec) (ctx : Ctx) : Option (Result × Ctx) → Type 0 where
  refused :
      (err : Err) → e.ecode ≡ some err → Checked i e ctx (some (Result.internal_server_error, ctx))
  passed : e.ecode ≡ none → ctx.action ≡ Action.continue → Checked i e ctx (some (Result.ok, ctx))
  yielded :
      (b : Bool)
      → e.ecode ≡ none
      → ctx.action ≡ Action.pause
      → Checked i e ctx (some (Result.again, record ctx { resp_buffering = b }))
  returned :
      e.ecode ≡ none
      → ctx.action ≡ Action.done
      → Checked i e ctx (some (Result.finished, record ctx { action = Action.continue }))
  unknown_action :
      e.ecode ≡ none
      → is_known ctx.action ≡ false
      → Checked i e ctx (some (Result.error, set_ecode i Err.unknown ctx))

pause2rc-Checked :
    (i : ℕ) (e : Exec) (ctx : Ctx) (phase : Phase)
    → is_other phase ≡ false
    → e.ecode ≡ none
    → ctx.action ≡ Action.pause
    → Checked i e ctx (pause2rc phase ctx)
unfolding pause2rc
pause2rc-Checked i e ctx Phase.body_filter h n a = yielded true n a
pause2rc-Checked i e ctx Phase.other_phase h n a = absurd (ground arith)
pause2rc-Checked i e ctx Phase.rewrite h n a = yielded ctx.resp_buffering n a
pause2rc-Checked i e ctx Phase.access h n a = yielded ctx.resp_buffering n a
pause2rc-Checked i e ctx Phase.content h n a = yielded ctx.resp_buffering n a
pause2rc-Checked i e ctx Phase.header_filter h n a = yielded ctx.resp_buffering n a
pause2rc-Checked i e ctx Phase.background h n a = yielded ctx.resp_buffering n a

next2rc-Checked :
    (i : ℕ) (e : Exec) (ctx : Ctx) (a : Action)
    → is_other ctx.phase ≡ false
    → e.ecode ≡ none
    → ctx.action ≡ a
    → Checked i e ctx (next2rc a i ctx)
unfolding next2rc advance
next2rc-Checked i e ctx Action.continue h n eq = passed n eq
next2rc-Checked i e ctx Action.done h n eq = returned n eq
next2rc-Checked i e ctx Action.pause h n eq = pause2rc-Checked i e ctx ctx.phase h n eq
next2rc-Checked i e ctx Action.end_stream h n eq = unknown_action n (rw eq refl)
next2rc-Checked i e ctx Action.wait h n eq = unknown_action n (rw eq refl)
next2rc-Checked i e ctx Action.wait_full h n eq = unknown_action n (rw eq refl)
next2rc-Checked i e ctx Action.close h n eq = unknown_action n (rw eq refl)
next2rc-Checked i e ctx (Action.other k) h n eq = unknown_action n (rw eq refl)

pub action2rc_live :
    (step : Step) (i : ℕ) (e : Exec) (ctx : Ctx)
    → is_done_step step ≡ false
    → e.ecode ≡ none
    → action2rc step i e ctx ≡ next2rc ctx.action i ctx
unfolding action2rc
action2rc_live step i e ctx s n = ground arith

pub action2rc_failed :
    (step : Step) (i : ℕ) (e : Exec) (ctx : Ctx) (err : Err)
    → e.ecode ≡ some err
    → action2rc step i e ctx ≡ some (Result.internal_server_error, ctx)
unfolding action2rc
action2rc_failed step i e ctx err n = ground arith

pub action2rc-Checked :
    (step : Step) (i : ℕ) (e : Exec) (ctx : Ctx)
    → is_done_step step ≡ false
    → is_other ctx.phase ≡ false
    → Checked i e ctx (action2rc step i e ctx)
action2rc-Checked step i e ctx s h = by_ecode e.ecode refl
  where
    by_ecode : (c : Option Err) → e.ecode ≡ c → Checked i e ctx (action2rc step i e ctx)
    by_ecode none eq =
        subst (Checked i e ctx) (sym (action2rc_live step i e ctx s eq))
          (next2rc-Checked i e ctx ctx.action h eq refl)
    by_ecode (some err) eq =
        subst (Checked i e ctx) (sym (action2rc_failed step i e ctx err eq)) (refused err eq)

pub advance_known :
    (step : Step) (ctx : Ctx)
    → is_body step ≡ false
    → is_known ctx.action ≡ true
    → advance step ctx ≡ record ctx { exec_index = ctx.exec_index + 1 }
unfolding advance
advance_known step ctx b k = by_action ctx.action refl
  where
    by_action :
        (a : Action)
        → ctx.action ≡ a
        → advance step ctx ≡ record ctx { exec_index = ctx.exec_index + 1 }
    by_action Action.continue eq = ground arith
    by_action Action.done eq = ground arith
    by_action Action.pause eq = ground arith
    by_action _ eq = absurd (ground arith)

pub advance_unknown :
    (step : Step) (ctx : Ctx) → is_known ctx.action ≡ false → advance step ctx ≡ ctx
unfolding advance
advance_unknown step ctx k = by_action ctx.action refl
  where
    by_action : (a : Action) → ctx.action ≡ a → advance step ctx ≡ ctx
    by_action Action.continue eq = absurd (ground arith)
    by_action Action.done eq = absurd (ground arith)
    by_action Action.pause eq = absurd (ground arith)
    by_action _ eq = ground arith

-- What `run_step` leaves: the filter was called, or it was not and has an error.
pub data RunEnd (i : ℕ) (ctx : Ctx) : Option Err × Ctx → Type 0 where
  not_called :
      (err : Err) (f : Exec → Exec)
      → ((e : Exec) → (f e).ecode ≡ some err)
      → RunEnd i ctx (some err, record ctx { pwexecs = modify f i ctx.pwexecs })
  was_called :
      (ecode : Option Err) (trapped : Bool) (a : Action)
      → RunEnd i ctx (after_call i ecode trapped a ctx)

call_step-RunEnd :
    (step : Step) (i : ℕ) (e : Exec) (o : Outcome) (ctx : Ctx)
    → RunEnd i ctx (call_step step i e o ctx)
unfolding call_step
call_step-RunEnd step i e o ctx =
    let after = or_else o.written ctx.action in
    let action =
      if returns_action step && is_call_ok o.rc
      then or_else o.returned ctx.action
      else ctx.action in
    elim (Bool-cases (is_done after && not (action_number after == action_number action))) [
      | inl t ↦ rw t (was_called e.ecode o.traps after)
      | inr f ↦ rw f (was_called (if ignores_rc step then none else rc2ecode o.rc) o.traps action)
    ]

pub run_step-RunEnd :
    (trailers : Bool) (step : Step) (i : ℕ) (e : Exec) (o : Outcome) (ctx : Ctx)
    → RunEnd i ctx (run_step trailers step i e o ctx)
unfolding run_step
run_step-RunEnd trailers step i e o ctx = by_created o.created refl
  where
    called : RunEnd i ctx (
        if has_case trailers step then call_step step i e o ctx else (
          some Err.unknown,
          record ctx {
            pwexecs =
                modify
                  (λ _. record { ecode = some Err.unknown; has_instance = true; trapped = false })
                  i
                  ctx.pwexecs;
          },
        ))
    called = elim (Bool-cases (has_case trailers step)) [
      | inl t ↦ rw t (call_step-RunEnd step i e o ctx)
      | inr f ↦ rw f (
          not_called Err.unknown
            (λ _. record { ecode = some Err.unknown; has_instance = true; trapped = false })
            (λ e'. refl))
    ]

    by_created : (c : Option Err) → o.created ≡ c → RunEnd i ctx (run_step trailers step i e o ctx)
    by_created none eq = rw (eq, and_false (not e.has_instance || e.trapped)) called
      where
        and_false : (b : Bool) → (b && false) ≡ false
        and_false b = ground arith
    by_created (some err) eq = elim (Bool-cases (not e.has_instance || e.trapped)) [
      | inl t ↦ rw (eq, t) (not_called err (λ f. record f { ecode = some err }) (λ e'. refl))
      | inr f ↦ rw (eq, f) called
    ]
