-- ===== src/ProxyWasm/Chain/Round.antt =====
-- ngx_proxy_wasm_resume: what one round of the loop leaves.
use ngx_wasm_module.Common.{
  get_elem?-some, ℕ, ◌+◌, ◌<◌, ◌≡◌, inl, inr, refl, sym, ap, ◌∙◌, Bool, true, false, Option, none,
  some, [], ◌∷◌, ◌++◌, append-nil, arith, length, modify, length-modify, get_elem?, leb, ◌>>=◌,
  Bool-cases,
}
use ngx_wasm_module.ProxyWasm.Chain.{
  Action, Step, Result, Exec, Ctx, Outcome, Err, is_body, is_done_step, after_call, complete,
  end_round, call_round, finish_round, round,
}
use ngx_wasm_module.ProxyWasm.Chain.Cases.{
  is_other, is_known, Checked, refused, passed, yielded, returned, unknown_action,
  action2rc-Checked, advance_known, advance_unknown, RunEnd, not_called, was_called,
  run_step-RunEnd,
}
use ngx_wasm_module.ProxyWasm.Chain.Order.{
  waits, completes, fails, Moved, RoundEnd, goes_on, stops, is_plain, get_elem?-modify,
}

module _ (step : Step) (i : ℕ) (plain : is_plain step ≡ true) where
  stay :
      (ctx ctx' : Ctx)
      → ctx.exec_index ≡ i
      → i < length ctx.pwexecs
      → ctx'.exec_index ≡ i
      → ctx'.pwexecs ≡ ctx.pwexecs
      → ctx'.phase ≡ ctx.phase
      → ctx'.called ≡ ctx.called
      → ctx'.last_completed_step ≡ ctx.last_completed_step
      → Moved step i 0 ctx ctx'
  stay ctx ctx' at lt ei pe ph ca la = record {
    size = ap length pe;
    phase = ph;
    calls = ca ∙ sym (append-nil ctx.called);
    bound = omega arith;
    place = waits (omega arith) la;
  }

  -- What a round has when the filter was called without an error.
  record WasCalled (ctx called : Ctx) : Type 0 where
    at : called.exec_index ≡ i
    inside : i < length ctx.pwexecs
    size : length called.pwexecs ≡ length ctx.pwexecs
    phase : called.phase ≡ ctx.phase
    calls : called.called ≡ ctx.called ++ i ∷ []
    last : called.last_completed_step ≡ ctx.last_completed_step

  waits-Moved :
      (ctx called ctx' : Ctx)
      → WasCalled ctx called
      → ctx'.pwexecs ≡ called.pwexecs
      → ctx'.phase ≡ called.phase
      → ctx'.called ≡ called.called
      → ctx'.last_completed_step ≡ called.last_completed_step
      → ctx'.exec_index ≡ i + 1
      → Moved step i 1 ctx ctx'
  waits-Moved ctx called ctx' w pe ph ca la ei =
      let inside = w.inside in
      record {
        size = ap length pe ∙ w.size;
        phase = ph ∙ w.phase;
        calls = ca ∙ w.calls;
        bound = omega arith;
        place = waits ei (la ∙ w.last);
      }

  goes_on_past :
      (rc : Result) (ctx called ctx' : Ctx)
      → WasCalled ctx called
      → ctx'.pwexecs ≡ called.pwexecs
      → ctx'.phase ≡ called.phase
      → ctx'.called ≡ called.called
      → ctx'.last_completed_step ≡ called.last_completed_step
      → ctx'.exec_index ≡ i + 1
      → RoundEnd step i ctx (some (true, rc, complete step ctx'))
  unfolding complete
  goes_on_past rc ctx called ctx' w pe ph ca la ei =
      let moved = waits-Moved ctx called ctx' w pe ph ca la ei in
      let size = moved.size in
      let inside = w.inside in
      elim (Bool-cases (leb (length ctx'.pwexecs) ctx'.exec_index)) [
        | inl t ↦ rw t (
            goes_on rc _
              (record {
                size = moved.size;
                phase = moved.phase;
                calls = moved.calls;
                bound = moved.bound;
                place = completes refl refl (ground arith);
              })
              (inr (ground arith)))
        | inr f ↦ rw f (goes_on rc ctx' moved (inl ei))
      ]

  -- The filter was called, and the chain is past it.
  end_known :
      (ctx called : Ctx) (e : Exec)
      → WasCalled ctx called
      → e.ecode ≡ none
      → is_known called.action ≡ true
      → (r : Option (Result × Ctx))
      → Checked i e (record called { exec_index = called.exec_index + 1 }) r
      → RoundEnd step i ctx (do (rc, ctx2) ← r; some (end_round step rc ctx2))
  unfolding end_round
  end_known ctx called e w n k _ (refused err eq) = absurd (ground arith)
  end_known ctx called e w n k _ (passed _ a) =
      let at = w.at in goes_on_past Result.ok ctx called _ w refl refl refl refl (omega arith)
  end_known ctx called e w n k _ (yielded b _ a) =
      let at = w.at in goes_on_past Result.again ctx called _ w refl refl refl refl (omega arith)
  end_known ctx called e w n k _ (returned _ a) =
      let at = w.at in
      stops Result.finished _ 1 (waits-Moved ctx called _ w refl refl refl refl (omega arith))
  end_known ctx called e w n k _ (unknown_action _ a) = absurd (ground arith)

  -- The filter was called, and its action is none that the chain knows.
  end_unknown :
      (ctx called : Ctx) (e : Exec)
      → WasCalled ctx called
      → e.ecode ≡ none
      → is_known called.action ≡ false
      → (r : Option (Result × Ctx)) → Checked i e called r
      → RoundEnd step i ctx (do (rc, ctx2) ← r; some (end_round step rc ctx2))
  unfolding end_round
  end_unknown ctx called e w n k _ (refused err eq) = absurd (ground arith)
  end_unknown ctx called e w n k _ (passed _ a) = absurd (ground arith)
  end_unknown ctx called e w n k _ (yielded b _ a) = absurd (ground arith)
  end_unknown ctx called e w n k _ (returned _ a) = absurd (ground arith)
  end_unknown ctx called e w n k _ (unknown_action _ a) =
      let at = w.at in
      let inside = w.inside in
      let size = w.size in
      let f : Exec → Exec = λ x. record x { ecode = some Err.unknown } in
      let (x, got) = get_elem?-modify f i called.pwexecs (omega arith) in
      stops Result.error _ 1 (record {
        size = length-modify f i called.pwexecs ∙ w.size;
        phase = w.phase;
        calls = w.calls;
        bound = omega arith;
        place =
            fails (omega arith) (omega arith) (omega arith)
              (f x, Err.unknown, ap (get_elem? (modify f i called.pwexecs)) at ∙ got, refl) w.last;
      })

  after_call-RoundEnd :
      (ctx : Ctx) (ecode : Option Err) (t : Bool) (a : Action)
      → is_done_step step ≡ false
      → is_body step ≡ false
      → is_other ctx.phase ≡ false
      → ctx.exec_index ≡ i
      → i < length ctx.pwexecs
      → RoundEnd step i ctx (finish_round step i ecode (after_call i ecode t a ctx).1)
  unfolding finish_round
  after_call-RoundEnd ctx (some err) t a nd nb h at inside =
      let f : Exec → Exec = λ _. record { ecode = some err; has_instance = true; trapped = t } in
      let (x, got) = get_elem?-modify f i ctx.pwexecs inside in
      stops Result.internal_server_error _ 1 (record {
        size = length-modify f i ctx.pwexecs;
        phase = refl;
        calls = refl;
        bound = omega arith;
        place =
            fails (omega arith) (omega arith) (omega arith)
              (f x, err, ap (get_elem? (modify f i ctx.pwexecs)) at ∙ got, refl) refl;
      })
  after_call-RoundEnd ctx none t a nd nb h at inside =
      let f : Exec → Exec = λ _. record { ecode = none; has_instance = true; trapped = t } in
      let called : Ctx = (after_call i none t a ctx).1 in
      let (x, got) = get_elem?-modify f i ctx.pwexecs inside in
      let w : WasCalled ctx called = record {
        at = at;
        inside = inside;
        size = length-modify f i ctx.pwexecs;
        phase = refl;
        calls = refl;
        last = refl;
      } in
      elim (Bool-cases (is_known a)) [
        | inl k ↦
            rw (advance_known step called nb k, got)
              (end_known ctx called (f x) w refl k _ (
                action2rc-Checked step i (f x)
                  (record called { exec_index = called.exec_index + 1 }) nd h))
        | inr k ↦
            rw (advance_unknown step called k, got)
              (end_unknown ctx called (f x) w refl k _ (action2rc-Checked step i (f x) called nd h))
      ]

  run_step-RoundEnd :
      (ctx : Ctx) (r : Option Err × Ctx)
      → RunEnd i ctx r
      → is_done_step step ≡ false
      → is_body step ≡ false
      → is_other ctx.phase ≡ false
      → ctx.exec_index ≡ i
      → i < length ctx.pwexecs
      → RoundEnd step i ctx (finish_round step i r.0 r.1)
  unfolding finish_round
  run_step-RoundEnd ctx _ (not_called err f fails_with) nd nb h at inside =
      let (x, got) = get_elem?-modify f i ctx.pwexecs inside in
      stops Result.internal_server_error _ 0 (record {
        size = length-modify f i ctx.pwexecs;
        phase = refl;
        calls = sym (append-nil ctx.called);
        bound = omega arith;
        place =
            fails (omega arith) (omega arith) (omega arith)
              (f x, err, ap (get_elem? (modify f i ctx.pwexecs)) at ∙ got, fails_with x) refl;
      })
  run_step-RoundEnd ctx _ (was_called ecode t a) nd nb h at inside =
      after_call-RoundEnd ctx ecode t a nd nb h at inside

  check-RoundEnd :
      (trailers : Bool) (guest : ℕ → Outcome) (ctx : Ctx) (e : Exec)
      → is_done_step step ≡ false
      → is_body step ≡ false
      → is_other ctx.phase ≡ false
      → ctx.exec_index ≡ i
      → i < length ctx.pwexecs
      → (r : Option (Result × Ctx)) → Checked i e ctx r
      → RoundEnd step i ctx (do (rc, ctx') ← r; call_round trailers step guest i e rc ctx')
  unfolding call_round
  check-RoundEnd trailers guest ctx e nd nb h at inside _ (refused err eq) =
      stops _ _ 0 (stay ctx _ at inside at refl refl refl refl)
  check-RoundEnd trailers guest ctx e nd nb h at inside _ (passed _ a) =
      rw nd (
        run_step-RoundEnd ctx _ (run_step-RunEnd trailers step i e (guest i) ctx) nd nb h at inside)
  check-RoundEnd trailers guest ctx e nd nb h at inside _ (yielded b _ a) =
      stops _ _ 0 (stay ctx _ at inside at refl refl refl refl)
  check-RoundEnd trailers guest ctx e nd nb h at inside _ (returned _ a) =
      stops _ _ 0 (stay ctx _ at inside at refl refl refl refl)
  check-RoundEnd trailers guest ctx e nd nb h at inside _ (unknown_action _ a) =
      let f : Exec → Exec = λ x. record x { ecode = some Err.unknown } in
      let (x, got) = get_elem?-modify f i ctx.pwexecs inside in
      stops _ _ 0 (record {
        size = length-modify f i ctx.pwexecs;
        phase = refl;
        calls = sym (append-nil ctx.called);
        bound = omega arith;
        place =
            fails (omega arith) (omega arith) (omega arith)
              (f x, Err.unknown, ap (get_elem? (modify f i ctx.pwexecs)) at ∙ got, refl) refl;
      })

  pub round-RoundEnd :
      (trailers : Bool) (guest : ℕ → Outcome) (ctx : Ctx)
      → is_other ctx.phase ≡ false
      → ctx.exec_index ≡ i
      → i < length ctx.pwexecs
      → RoundEnd step i ctx (round trailers step guest i ctx)
  unfolding round
  round-RoundEnd trailers guest ctx h at inside =
      let (e, got) = get_elem?-some i ctx.pwexecs inside in
      let nd : is_done_step step ≡ false = ground arith in
      let nb : is_body step ≡ false = ground arith in
      rw got (
        check-RoundEnd trailers guest ctx e nd nb h at inside _
          (action2rc-Checked step i e ctx nd h))
