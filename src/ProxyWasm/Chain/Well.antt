-- ===== src/ProxyWasm/Chain/Well.antt =====
-- ngx_proxy_wasm_resume: a round of the loop where the filter returns CONTINUE or PAUSE.
use ngx_wasm_module.Common.{
  ℕ, zero, suc, ◌+◌, ◌<◌, ◌≡◌, ◌⊎◌, inl, inr, refl, sym, ap, ◌∙◌, Bool, true, false, not, ◌||◌,
  ◌&&◌, Option, none, some, List, [], ◌∷◌, arith, length, length-modify, modify, get_elem?, leb,
  Bool-cases,
}
use mathlib.Core.Path.{subst}
use ngx_wasm_module.ProxyWasm.Chain.{
  Action, Phase, Step, Result, Exec, Ctx, CallRc, Outcome, step_number, is_done_step, is_body,
  ignores_rc, has_case, returns_action, action2rc, pause2rc, next2rc, after_call, call_step,
  run_step, complete, end_round, finish_round, call_round, round,
}
use ngx_wasm_module.ProxyWasm.Chain.Cases.{is_other, is_known, action2rc_live, advance_known}
use ngx_wasm_module.ProxyWasm.Chain.Order.{is_plain, get_elem?-modify}

-- A guest that answers CONTINUE or PAUSE, without a trap and without a local response.
pub record IsWell (o : Outcome) : Type 0 where
  pub created : o.created ≡ none
  pub written : o.written ≡ none
  pub rc : o.rc ≡ CallRc.call_ok
  pub returned : (o.returned ≡ some Action.continue) ⊎ (o.returned ≡ some Action.pause)

abbrev pub AllLive : List Exec → Type 0
AllLive [] = Unit {0}
AllLive (e ∷ es) = (e.ecode ≡ none) × AllLive es

pub AllLive-get :
    (i : ℕ) (es : List Exec)
    → AllLive es
    → i < length es
    → (e : Exec) × (get_elem? es i ≡ some e) × (e.ecode ≡ none)
AllLive-get i [] a h = absurd (omega arith)
AllLive-get zero (e ∷ es) a h = (e, refl, a.0)
AllLive-get (suc i) (e ∷ es) a h = AllLive-get i es a.1 (omega arith)

AllLive-modify :
    (f : Exec → Exec) (i : ℕ) (es : List Exec)
    → ((e : Exec) → (f e).ecode ≡ none)
    → AllLive es
    → AllLive (modify f i es)
AllLive-modify f i [] h a = tt
AllLive-modify f zero (e ∷ es) h a = (h e, a.1)
AllLive-modify f (suc i) (e ∷ es) h a = (a.0, AllLive-modify f i es h a.1)

-- After a round: the next filter's turn, or the step is completed.
pub record Next (step : Step) (i : ℕ) (ctx ctx' : Ctx) : Type 0 where
  pub live : AllLive ctx'.pwexecs
  pub size : length ctx'.pwexecs ≡ length ctx.pwexecs
  pub phase : ctx'.phase ≡ ctx.phase
  pub action : (ctx'.action ≡ Action.continue) ⊎ (ctx'.action ≡ Action.pause)
  pub place :
      ((ctx'.exec_index ≡ i + 1) × (i + 1 < length ctx.pwexecs))
      ⊎ ((ctx'.last_completed_step ≡ step_number step) × (i + 1 ≡ length ctx.pwexecs))

pause_again :
    (p : Phase) (ctx : Ctx)
    → is_other p ≡ false
    → (b : Bool) × (pause2rc p ctx ≡ some (Result.again, record ctx { resp_buffering = b }))
unfolding pause2rc
pause_again Phase.body_filter ctx h = (true, refl)
pause_again Phase.other_phase ctx h = absurd (ground arith)
pause_again Phase.rewrite ctx h = (ctx.resp_buffering, refl)
pause_again Phase.access ctx h = (ctx.resp_buffering, refl)
pause_again Phase.content ctx h = (ctx.resp_buffering, refl)
pause_again Phase.header_filter ctx h = (ctx.resp_buffering, refl)
pause_again Phase.background ctx h = (ctx.resp_buffering, refl)

pub action2rc_continue :
    (step : Step) (i : ℕ) (e : Exec) (ctx : Ctx)
    → is_plain step ≡ true
    → e.ecode ≡ none
    → ctx.action ≡ Action.continue
    → action2rc step i e ctx ≡ some (Result.ok, ctx)
unfolding next2rc
action2rc_continue step i e ctx plain n at =
    action2rc_live step i e ctx (ground arith) n ∙ ap (λ a. next2rc a i ctx) at

pub action2rc_pause :
    (step : Step) (i : ℕ) (e : Exec) (ctx : Ctx)
    → is_plain step ≡ true
    → is_other ctx.phase ≡ false
    → e.ecode ≡ none
    → ctx.action ≡ Action.pause
    → (b : Bool) × (action2rc step i e ctx ≡ some (Result.again, record ctx { resp_buffering = b }))
unfolding next2rc
action2rc_pause step i e ctx plain h n at =
    let (b, eq) = pause_again ctx.phase ctx h in
    (b, action2rc_live step i e ctx (ground arith) n ∙ ap (λ a. next2rc a i ctx) at ∙ eq)

-- A round that goes on.
pub data Goes (step : Step) (i : ℕ) (ctx : Ctx) : Option (Bool × Result × Ctx) → Type 0 where
  goes : (rc : Result) (ctx' : Ctx) → Next step i ctx ctx' → Goes step i ctx (some (true, rc, ctx'))

complete-Goes :
    (step : Step) (i : ℕ) (rc : Result) (ctx ctx' : Ctx)
    → i < length ctx.pwexecs
    → AllLive ctx'.pwexecs
    → length ctx'.pwexecs ≡ length ctx.pwexecs
    → ctx'.phase ≡ ctx.phase
    → (ctx'.action ≡ Action.continue) ⊎ (ctx'.action ≡ Action.pause)
    → ctx'.exec_index ≡ i + 1
    → Goes step i ctx (some (true, rc, complete step ctx'))
unfolding complete
complete-Goes step i rc ctx ctx' inside live size phase action ei =
    elim (Bool-cases (leb (length ctx'.pwexecs) ctx'.exec_index)) [
      | inl t ↦ rw t (
          goes rc _ (record {
            live = live;
            size = size;
            phase = phase;
            action = action;
            place = inr (refl, ground arith);
          }))
      | inr f ↦ rw f (
          goes rc ctx' (record {
            live = live;
            size = size;
            phase = phase;
            action = action;
            place = inl (ei, ground arith);
          }))
    ]

module _ (trailers : Bool) (step : Step) (plain : is_plain step ≡ true)
    (acts : returns_action step ≡ true) (runs : has_case trailers step ≡ true) where
  pub run_step_well :
      (i : ℕ) (e : Exec) (o : Outcome) (ctx : Ctx) (a : Action)
      → o.created ≡ none
      → o.written ≡ none
      → o.rc ≡ CallRc.call_ok
      → o.returned ≡ some a
      → ctx.action ≡ Action.continue
      → run_step trailers step i e o ctx ≡ after_call i none o.traps a ctx
  unfolding run_step call_step
  run_step_well i e o ctx a c w rc r at =
      let ig : ignores_rc step ≡ false = ground arith in
      simp (c, and_false (not e.has_instance || e.trapped), runs, w, at, acts, rc, r, ig)
    where
      and_false : (b : Bool) → (b && false) ≡ false
      and_false b = ground arith

  pub round_eq :
      (guest : ℕ → Outcome) (i : ℕ) (ctx : Ctx) (e : Exec) (a : Action)
      → is_done_step step ≡ false
      → get_elem? ctx.pwexecs i ≡ some e
      → action2rc step i e ctx ≡ some (Result.ok, ctx)
      → run_step trailers step i e (guest i) ctx ≡ after_call i none (guest i).traps a ctx
      → round trailers step guest i ctx
        ≡ finish_round step i none (after_call i none (guest i).traps a ctx).1
  unfolding round call_round
  round_eq guest i ctx e a nd got ok ran = rw (got, ok, nd, ran) refl

  finish_round_well :
      (i : ℕ) (ctx : Ctx) (t : Bool) (a : Action)
      → is_other ctx.phase ≡ false
      → ctx.exec_index ≡ i
      → i < length ctx.pwexecs
      → AllLive ctx.pwexecs
      → (a ≡ Action.continue) ⊎ (a ≡ Action.pause)
      → Goes step i ctx (finish_round step i none (after_call i none t a ctx).1)
  unfolding finish_round end_round
  finish_round_well i ctx t a h at inside live which =
      let f : Exec → Exec = λ _. record { ecode = none; has_instance = true; trapped = t } in
      let called : Ctx = (after_call i none t a ctx).1 in
      let next : Ctx = record called { exec_index = called.exec_index + 1 } in
      let (x, got) = get_elem?-modify f i ctx.pwexecs inside in
      let nb : is_body step ≡ false = ground arith in
      let known : is_known a ≡ true = elim which [ inl eq ↦ rw eq refl | inr eq ↦ rw eq refl ] in
      let live' = AllLive-modify f i ctx.pwexecs (λ e. refl) live in
      let size = length-modify f i ctx.pwexecs in
      elim which [
        | inl eq ↦
            rw
              (
                advance_known step called nb known,
                got,
                action2rc_continue step i (f x) next plain refl eq,
              )
              (complete-Goes step i Result.ok ctx next inside live' size refl (inl eq)
                (omega arith))
        | inr eq ↦
            (let (b, again_eq) = action2rc_pause step i (f x) next plain h refl eq in
              rw (advance_known step called nb known, got, again_eq)
                (complete-Goes step i Result.again ctx (record next { resp_buffering = b }) inside
                  live' size refl (inr eq) (omega arith)))
      ]

  pub round_well :
      (guest : ℕ → Outcome) (i : ℕ) (ctx : Ctx)
      → IsWell (guest i)
      → is_other ctx.phase ≡ false
      → ctx.exec_index ≡ i
      → i < length ctx.pwexecs
      → AllLive ctx.pwexecs
      → ctx.action ≡ Action.continue
      → Goes step i ctx (round trailers step guest i ctx)
  unfolding round call_round
  round_well guest i ctx well h at inside live act =
      let (e, got, ok) = AllLive-get i ctx.pwexecs live inside in
      let nd : is_done_step step ≡ false = ground arith in
      let returned : (a : Action) × (((guest i).returned ≡ some a)
            × ((a ≡ Action.continue) ⊎ (a ≡ Action.pause))) =
        elim well.returned [
          | inl eq ↦ (Action.continue, (eq, inl refl))
          | inr eq ↦ (Action.pause, (eq, inr refl))
        ] in
      let (a, (back, which)) = returned in
      subst (Goes step i ctx)
        (sym (
          round_eq guest i ctx e a nd got (action2rc_continue step i e ctx plain ok act)
            (run_step_well i e (guest i) ctx a well.created well.written well.rc back act)))
        (finish_round_well i ctx (guest i).traps a h at inside live which)
