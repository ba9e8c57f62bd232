-- ===== src/ProxyWasm/Chain/Finish.antt =====
-- ngx_proxy_wasm_resume: a resume where the filters return CONTINUE or PAUSE.
use ngx_wasm_module.Common.{
  ℕ, zero, suc, ◌+◌, ◌-◌, ◌<◌, ◌≤◌, ◌≡◌, ◌⊎◌, inl, inr, refl, ap, ◌∙◌, Bool, true, false, Option,
  some, arith, length, leb, if◌then◌else◌, ◌>>=◌,
}
use ngx_wasm_module.ProxyWasm.Chain.{
  Action, Step, Result, Ctx, Outcome, step_number, is_done_step, has_case, returns_action,
  call_round, round, rounds, resume_chain, resume,
}
use ngx_wasm_module.ProxyWasm.Chain.Cases.{is_other}
use ngx_wasm_module.ProxyWasm.Chain.Order.{is_plain}
use ngx_wasm_module.ProxyWasm.Chain.Sequence.{is_once, enter_once}
use ngx_wasm_module.ProxyWasm.Chain.Well.{
  IsWell, AllLive, AllLive-get, Next, Goes, goes, action2rc_pause, round_well,
}

-- A run that leaves no filter failed, and the chain at the filter `i` or after it, or the step
-- completed.
pub record Ahead (step : Step) (i : ℕ) (r : Option (Result × Ctx)) : Type 0 where
  pub rc : Result
  pub last : Ctx
  pub returns : r ≡ some (rc, last)
  pub live : AllLive last.pwexecs
  pub place :
      ((i ≤ last.exec_index) × (last.exec_index < length last.pwexecs))
      ⊎ (last.last_completed_step ≡ step_number step)

module _ (trailers : Bool) (step : Step) (plain : is_plain step ≡ true)
    (acts : returns_action step ≡ true) (runs : has_case trailers step ≡ true) where
  rounds_paused :
      (guest : ℕ → Outcome) (k i : ℕ) (rc : Result) (ctx : Ctx)
      → is_other ctx.phase ≡ false
      → i + k ≡ length ctx.pwexecs
      → AllLive ctx.pwexecs
      → ctx.action ≡ Action.pause
      → (rc' : Result) × (b : Bool) × (rounds trailers step guest k i rc ctx
          ≡ some (rc', record ctx { resp_buffering = b }))
  unfolding rounds round call_round
  rounds_paused guest zero i rc ctx h len live act = (rc, ctx.resp_buffering, refl)
  rounds_paused guest (suc k) i rc ctx h len live act =
      let (e, got, ok) = AllLive-get i ctx.pwexecs live (omega arith) in
      let (b, eq) = action2rc_pause step i e ctx plain h ok act in
      (Result.again, b, rw (got, eq) refl)

  module _ (guest : ℕ → Outcome) (well : (i : ℕ) → IsWell (guest i)) where
    Next-well :
        (k i : ℕ) (rc : Result) (ctx ctx' : Ctx)
        → is_other ctx.phase ≡ false
        → i + suc k ≡ length ctx.pwexecs
        → Next step i ctx ctx'
        → (is_other ctx'.phase ≡ false
            → ctx'.exec_index ≡ i + 1
            → i + 1 + k ≡ length ctx'.pwexecs
            → i + 1 < length ctx'.pwexecs
            → Ahead step (i + 1) (rounds trailers step guest k (i + 1) rc ctx'))
        → Ahead step (i + 1) (rounds trailers step guest k (i + 1) rc ctx')
    unfolding rounds
    Next-well k i rc ctx ctx' h len next rest = elim next.place [
      | inl at ↦
          (let size = next.size in
            let phase = next.phase in
            rest (ap is_other phase ∙ h) at.0 (omega (arith, size, len))
              (omega (arith, size, at.1)))
      | inr done ↦ by_k k len done
    ]
      where
        by_k :
            (k : ℕ)
            → i + suc k ≡ length ctx.pwexecs
            → (ctx'.last_completed_step ≡ step_number step) × (i + 1 ≡ length ctx.pwexecs)
            → Ahead step (i + 1) (rounds trailers step guest k (i + 1) rc ctx')
        by_k zero len done = record {
          rc = rc;
          last = ctx';
          returns = refl;
          live = next.live;
          place = inr done.0;
        }
        by_k (suc k) len (l, all) = absurd (omega arith)

    round_next :
        (k i : ℕ) (rc : Result) (ctx : Ctx)
        → is_other ctx.phase ≡ false
        → ctx.exec_index ≡ i
        → i + suc k ≡ length ctx.pwexecs
        → AllLive ctx.pwexecs
        → ctx.action ≡ Action.continue
        → ((rc' : Result) (ctx' : Ctx)
            → is_other ctx'.phase ≡ false
            → ctx'.exec_index ≡ i + 1
            → i + 1 + k ≡ length ctx'.pwexecs
            → i + 1 < length ctx'.pwexecs
            → AllLive ctx'.pwexecs
            → (ctx'.action ≡ Action.continue) ⊎ (ctx'.action ≡ Action.pause)
            → Ahead step (i + 1) (rounds trailers step guest k (i + 1) rc' ctx'))
        → Ahead step (i + 1) (rounds trailers step guest (suc k) i rc ctx)
    unfolding rounds
    round_next k i rc ctx h at len live act rest =
        by_goes _ (
          round_well trailers step plain acts runs guest i ctx (well i) h at (omega arith) live act)
      where
        by_goes :
            (r : Option (Bool × Result × Ctx))
            → Goes step i ctx r
            → Ahead step (i + 1) (do
              (more, rc', ctx') ← r
              let rest = rounds trailers step guest k (i + 1) rc' ctx'
              if more then rest else some (rc', ctx'))
        by_goes _ (goes rc' ctx' next) =
            Next-well k i rc' ctx ctx' h len next
              (λ h' at' len' lt'. rest rc' ctx' h' at' len' lt' next.live next.action)

    rounds_well :
        (k i : ℕ) (rc : Result) (ctx : Ctx)
        → is_other ctx.phase ≡ false
        → ctx.exec_index ≡ i
        → i + k ≡ length ctx.pwexecs
        → i < length ctx.pwexecs
        → AllLive ctx.pwexecs
        → (ctx.action ≡ Action.continue) ⊎ (ctx.action ≡ Action.pause)
        → Ahead step i (rounds trailers step guest k i rc ctx)
    unfolding rounds
    rounds_well zero i rc ctx h at len lt live act = absurd (omega arith)
    rounds_well (suc k) i rc ctx h at len lt live (inr paused) =
        let (rc', b, eq) = rounds_paused guest (suc k) i rc ctx h len live paused in
        record {
          rc = rc';
          last = record ctx { resp_buffering = b };
          returns = eq;
          live = live;
          place = inl (omega arith, omega arith);
        }
    rounds_well (suc k) i rc ctx h at len lt live (inl act) =
        let r = round_next k i rc ctx h at len live act (λ rc' ctx' h' at' len' lt' live' act'.
          rounds_well k (i + 1) rc' ctx' h' at' len' lt' live' act') in
        record {
          rc = r.rc;
          last = r.last;
          returns = r.returns;
          live = r.live;
          place = elim r.place [ inl le ↦ inl (omega (arith, le.0), le.1) | inr done ↦ inr done ];
        }

    pub resume_eq :
        (k : ℕ) (ctx : Ctx) (rc : Result) (last : Ctx)
        → is_once step ≡ true
        → ctx.last_completed_step < step_number step
        → length ctx.pwexecs - ctx.exec_index ≡ k
        → rounds trailers step guest k ctx.exec_index Result.ok ctx ≡ some (rc, last)
        → resume trailers step guest ctx ≡ some (rc, last)
    unfolding resume resume_chain
    resume_eq k ctx rc last once before left eq =
        let nd : is_done_step step ≡ false = ground arith in
        let le : leb (step_number step) ctx.last_completed_step ≡ false = ground arith in
        rw (enter_once step ctx once, le, nd, left, eq) refl

    -- A resume of a chain in the midst of the step calls at least one filter.
    pub resume_well :
        (ctx : Ctx)
        → is_once step ≡ true
        → ctx.last_completed_step < step_number step
        → is_other ctx.phase ≡ false
        → ctx.exec_index < length ctx.pwexecs
        → AllLive ctx.pwexecs
        → ctx.action ≡ Action.continue
        → Ahead step (ctx.exec_index + 1) (resume trailers step guest ctx)
    resume_well ctx once before h inside live act =
        let k : ℕ = length ctx.pwexecs - ctx.exec_index - 1 in
        let r =
          round_next k ctx.exec_index Result.ok ctx h refl (omega arith) live act
            (λ rc' ctx' h' at' len' lt' live' act'.
              rounds_well k (ctx.exec_index + 1) rc' ctx' h' at' len' lt' live' act') in
        record {
          rc = r.rc;
          last = r.last;
          returns = resume_eq (suc k) ctx r.rc r.last once before (omega arith) r.returns;
          live = r.live;
          place = r.place;
        }
