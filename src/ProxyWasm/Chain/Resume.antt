-- ===== src/ProxyWasm/Chain/Resume.antt =====
-- ngx_proxy_wasm_resume: a whole resume calls filters in order, and never leaves their array.
use ngx_wasm_module.Common.{
  ℕ, zero, suc, ◌+◌, ◌-◌, ◌≤◌, ◌≡◌, inl, inr, refl, sym, ap, ◌∙◌, Bool, true, false, Option, none,
  some, [], ◌∷◌, ◌++◌, append_assoc, append-nil, arith, length, leb, ltb, if◌then◌else◌, ◌>>=◌,
  Bool-cases,
}
use mathlib.Core.Path.{subst}
use ngx_wasm_module.ProxyWasm.Chain.{
  Step, Result, Ctx, Outcome, step_number, is_done_step, rounds, enter, resume_chain, resume,
}
use ngx_wasm_module.ProxyWasm.Chain.Cases.{is_other}
use ngx_wasm_module.ProxyWasm.Chain.Order.{
  range, Place, waits, completes, fails, Moved, RoundEnd, goes_on, stops, is_plain,
}
use ngx_wasm_module.ProxyWasm.Chain.Round.{round-RoundEnd}

-- A run that returns, and called `m` filters in order.
pub record Resumed (step : Step) (i : ℕ) (ctx : Ctx) (r : Option (Result × Ctx)) : Type 0 where
  pub rc : Result
  pub last : Ctx
  pub m : ℕ
  pub returns : r ≡ some (rc, last)
  pub moved : Moved step i m ctx last

module _ (step : Step) where
  Moved-none :
      (i : ℕ) (ctx : Ctx) → ctx.exec_index ≡ i → i ≤ length ctx.pwexecs → Moved step i 0 ctx ctx
  Moved-none i ctx at h = record {
    size = refl;
    phase = refl;
    calls = sym (append-nil ctx.called);
    bound = omega arith;
    place = waits (omega arith) refl;
  }

  Moved-last :
      (i : ℕ) (ctx ctx' : Ctx)
      → Moved step i 1 ctx ctx'
      → ctx'.exec_index ≡ i + 1
      → ctx'.last_completed_step ≡ ctx.last_completed_step
  Moved-last i ctx ctx' moved at = of_place moved.place
    where
      of_place : Place step (i + 1) ctx ctx' → ctx'.last_completed_step ≡ ctx.last_completed_step
      of_place (waits _ same) = same
      of_place (completes e _ _) = absurd (omega arith)
      of_place (fails _ _ _ _ same) = same

  Moved-step :
      (i m : ℕ) (ctx ctx1 ctx2 : Ctx)
      → Moved step i 1 ctx ctx1
      → ctx1.exec_index ≡ i + 1
      → Moved step (i + 1) m ctx1 ctx2
      → Moved step i (suc m) ctx ctx2
  Moved-step i m ctx ctx1 ctx2 a at b =
      let size = a.size in
      let bound = b.bound in
      let same = Moved-last i ctx ctx1 a at in
      let sums : i + 1 + m ≡ i + suc m = omega arith in
      record {
        size = b.size ∙ a.size;
        phase = b.phase ∙ a.phase;
        calls =
            b.calls
            ∙ ap (λ xs. xs ++ range (i + 1) m) a.calls
            ∙ append_assoc ctx.called (i ∷ []) (range (i + 1) m);
        bound = omega arith;
        place = of_place same sums size b.place;
      }
    where
      of_place :
          ctx1.last_completed_step ≡ ctx.last_completed_step
          → i + 1 + m ≡ i + suc m
          → length ctx1.pwexecs ≡ length ctx.pwexecs
          → Place step (i + 1 + m) ctx1 ctx2
          → Place step (i + suc m) ctx ctx2
      of_place same sums size (waits e l) = waits (e ∙ sums) (l ∙ same)
      of_place same sums size (completes e l k) = completes e l (omega arith)
      of_place same sums size (fails le ge lt f l) =
          fails (omega arith) (omega arith) (omega arith) f (l ∙ same)

  module _ (trailers : Bool) (guest : ℕ → Outcome) (plain : is_plain step ≡ true) where
    rounds-Resumed :
        (k i : ℕ) (rc : Result) (ctx : Ctx)
        → is_other ctx.phase ≡ false
        → ctx.exec_index ≡ i
        → i + k ≡ length ctx.pwexecs
        → Resumed step i ctx (rounds trailers step guest k i rc ctx)
    unfolding rounds
    rounds-Resumed zero i rc ctx h at len = record {
      rc = rc;
      last = ctx;
      m = 0;
      returns = refl;
      moved = Moved-none i ctx at (omega arith);
    }
    rounds-Resumed (suc k) i rc ctx h at len =
        by_round (λ rc' ctx' h' at' len'. rounds-Resumed k (i + 1) rc' ctx' h' at' len') _
          (round-RoundEnd step i plain trailers guest ctx h at (omega arith))
      where
        next :
            (rc' : Result) (ctx' : Ctx)
            → Moved step i 1 ctx ctx'
            → ctx'.exec_index ≡ i + 1
            → Resumed step (i + 1) ctx' (rounds trailers step guest k (i + 1) rc' ctx')
            → Resumed step i ctx (rounds trailers step guest k (i + 1) rc' ctx')
        next rc' ctx' moved at' rest = record {
          rc = rest.rc;
          last = rest.last;
          m = suc rest.m;
          returns = rest.returns;
          moved = Moved-step i rest.m ctx ctx' rest.last moved at' rest.moved;
        }

        finished :
            (k : ℕ) (rc' : Result) (ctx' : Ctx)
            → Moved step i 1 ctx ctx'
            → i + suc k ≡ length ctx.pwexecs
            → i + 1 ≡ length ctx.pwexecs
            → Resumed step i ctx (rounds trailers step guest k (i + 1) rc' ctx')
        finished zero rc' ctx' moved len all = record {
          rc = rc';
          last = ctx';
          m = 1;
          returns = refl;
          moved = moved;
        }
        finished (suc k) rc' ctx' moved len all = absurd (omega arith)

        by_round :
            ((rc' : Result) (ctx' : Ctx)
              → is_other ctx'.phase ≡ false
              → ctx'.exec_index ≡ i + 1
              → i + 1 + k ≡ length ctx'.pwexecs
              → Resumed step (i + 1) ctx' (rounds trailers step guest k (i + 1) rc' ctx'))
            → (r : Option (Bool × Result × Ctx)) → RoundEnd step i ctx r
            → Resumed step i ctx (do
              (more, rc', ctx') ← r
              let rest = rounds trailers step guest k (i + 1) rc' ctx'
              if more then rest else some (rc', ctx'))
        by_round rest _ (goes_on rc' ctx' moved (inl at')) =
            let phase = moved.phase in
            let size = moved.size in
            next rc' ctx' moved at' (rest rc' ctx' (ap is_other phase ∙ h) at' (omega arith))
        by_round rest _ (goes_on rc' ctx' moved (inr all)) = finished k rc' ctx' moved len all
        by_round rest _ (stops rc' ctx' m moved) = record {
          rc = rc';
          last = ctx';
          m = m;
          returns = refl;
          moved = moved;
        }

-- The filter at which a resume starts: the first one where RESP_HEADERS was not completed.
unfoldable pub first : Step → Ctx → ℕ
first Step.resp_headers ctx = if ltb ctx.last_completed_step 4 then 0 else ctx.exec_index
first _ ctx = ctx.exec_index

-- What `enter` gives.
data Entered (step : Step) (ctx : Ctx) : Option Ctx → Type 0 where
  skips : first step ctx ≡ ctx.exec_index → Entered step ctx none
  starts :
      (i : ℕ)
      → i ≡ first step ctx
      → i ≤ ctx.exec_index
      → Entered step ctx (some (record ctx { exec_index = i }))

Entered-once :
    (step : Step) (ctx : Ctx)
    → enter step ctx ≡ (if leb (step_number step) ctx.last_completed_step then none else some ctx)
    → first step ctx ≡ ctx.exec_index
    → Entered step ctx (enter step ctx)
Entered-once step ctx eq at = elim (Bool-cases (leb (step_number step) ctx.last_completed_step)) [
  | inl t ↦ rw (eq, t) (skips at)
  | inr f ↦ rw (eq, f) (starts ctx.exec_index (sym at) (omega arith))
]

enter-Entered : (step : Step) (ctx : Ctx) → Entered step ctx (enter step ctx)
unfolding enter first
enter-Entered Step.resp_headers ctx = elim (Bool-cases (ltb ctx.last_completed_step 4)) [
  | inl t ↦ rw t (starts 0 (ground arith) (omega arith))
  | inr f ↦ rw f (starts ctx.exec_index (ground arith) (omega arith))
]
enter-Entered Step.tick ctx = starts ctx.exec_index refl (omega arith)
enter-Entered Step.done_step ctx = starts ctx.exec_index refl (omega arith)
enter-Entered Step.resp_body ctx = starts ctx.exec_index refl (omega arith)
enter-Entered Step.dispatch_response ctx = starts ctx.exec_index refl (omega arith)
enter-Entered Step.upstream_select ctx = starts ctx.exec_index refl (omega arith)
enter-Entered Step.next_upstream ctx = starts ctx.exec_index refl (omega arith)
enter-Entered Step.upstream_info ctx = starts ctx.exec_index refl (omega arith)
enter-Entered Step.req_headers ctx = Entered-once Step.req_headers ctx refl refl
enter-Entered Step.req_body ctx = Entered-once Step.req_body ctx refl refl
enter-Entered Step.req_trailers ctx = Entered-once Step.req_trailers ctx refl refl
enter-Entered Step.resp_trailers ctx = Entered-once Step.resp_trailers ctx refl refl
enter-Entered Step.log_step ctx = Entered-once Step.log_step ctx refl refl
enter-Entered Step.foreign_callback ctx = Entered-once Step.foreign_callback ctx refl refl

Moved-reset :
    (step : Step) (i j m : ℕ) (ctx ctx' : Ctx)
    → Moved step i m (record ctx { exec_index = j }) ctx'
    → Moved step i m ctx ctx'
Moved-reset step i j m ctx ctx' moved = record {
  size = moved.size;
  phase = moved.phase;
  calls = moved.calls;
  bound = moved.bound;
  place = of_place moved.place;
}
  where
    of_place : Place step (i + m) (record ctx { exec_index = j }) ctx' → Place step (i + m) ctx ctx'
    of_place (waits e l) = waits e l
    of_place (completes e l k) = completes e l k
    of_place (fails le ge lt f l) = fails le ge lt f l

-- A resume of a step but RESP_BODY and DONE, in a phase where a filter may pause, never leaves the
-- array of the filters, whatever the guests do. It calls filters one after the other, from the one
-- where the chain stands (the first, where RESP_HEADERS was not completed), and at most to the last
-- one. It leaves the chain after the last filter it called, or at the filter that has failed, or,
-- all filters called, with the step completed and at the first filter.
pub resume-Resumed :
    (trailers : Bool) (step : Step) (guest : ℕ → Outcome) (ctx : Ctx)
    → is_plain step ≡ true
    → is_other ctx.phase ≡ false
    → ctx.exec_index ≤ length ctx.pwexecs
    → Resumed step (first step ctx) ctx (resume trailers step guest ctx)
unfolding resume resume_chain
resume-Resumed trailers step guest ctx plain h inside =
    by_enter (enter step ctx) (enter-Entered step ctx)
  where
    nd : is_done_step step ≡ false
    nd = ground arith

    by_enter :
        (r : Option Ctx)
        → Entered step ctx r
        → Resumed step (first step ctx) ctx (do
          (rc, ctx') ← resume_chain trailers step guest ctx r
          some (rc, if is_done_step step then record ctx' { destroyed = true } else ctx'))
    by_enter _ (skips at) = record {
      rc = Result.ok;
      last = ctx;
      m = 0;
      returns = rw nd refl;
      moved = rw at (Moved-none step ctx.exec_index ctx refl inside);
    }
    by_enter _ (starts i at le) =
        let r =
          rounds-Resumed step trailers guest plain (length ctx.pwexecs - i) i Result.ok
            (record ctx { exec_index = i }) h refl (omega arith) in
        record {
          rc = r.rc;
          last = r.last;
          m = r.m;
          returns = rw (nd, r.returns) refl;
          moved =
              subst (λ k. Moved step k r.m ctx r.last) at
                (Moved-reset step i i r.m ctx r.last r.moved);
        }
