-- ===== src/ProxyWasm/Chain/Liveness.antt =====
-- ngx_proxy_wasm_resume: how many resumes a step takes.
use ngx_wasm_module.Common.{
  ℕ, ◌+◌, ◌<◌, ◌≤◌, ◌≡◌, ◌⊎◌, inl, inr, refl, sym, ap, ◌∙◌, Bool, true, false, Option, none, some,
  List, [], ◌∷◌, ◌++◌, append-nil, arith, length,
}
use mathlib.Core.Path.{subst}
use mathlib.Core.Option.{some-injective}
use ngx_wasm_module.ProxyWasm.Chain.{
  Action, Step, Result, Ctx, step_number, has_case, returns_action,
}
use ngx_wasm_module.ProxyWasm.Chain.Cases.{is_other}
use ngx_wasm_module.ProxyWasm.Chain.Order.{range, HasFailed, is_plain}
use ngx_wasm_module.ProxyWasm.Chain.Sequence.{
  is_once, Event, set_event, resumes, InOrder, Stands, at_next, at_end, at_failed, resume-InOrder,
  set_event-InOrder, resume_completed,
}
use ngx_wasm_module.ProxyWasm.Chain.Well.{IsWell, AllLive, AllLive-get}
use ngx_wasm_module.ProxyWasm.Chain.Finish.{Ahead, resume_well}

-- Resumes after which no guest fails, and before each of which the action is set to CONTINUE.
abbrev pub AllWell : List Event → Type 0
AllWell [] = Unit {0}
AllWell (ev ∷ evs) =
    (is_other ev.phase ≡ false)
    × (ev.action ≡ Action.continue)
    × ((i : ℕ) → IsWell (ev.guest i))
    × AllWell evs

-- The step is completed, and every filter was called once, in order.
pub record Finished (step : Step) (calls : List ℕ) (n : ℕ) (r : Option Ctx) : Type 0 where
  pub last : Ctx
  pub returns : r ≡ some last
  pub completed : last.last_completed_step ≡ step_number step
  pub called : last.called ≡ calls ++ range 0 n

live_failed :
    {A : Type 0} (ctx : Ctx)
    → AllLive ctx.pwexecs
    → HasFailed ctx
    → ctx.exec_index < length ctx.pwexecs
    → A
live_failed ctx live (e, err, got, bad) lt =
    let (e', got', ok) = AllLive-get ctx.exec_index ctx.pwexecs live lt in
    let same : e ≡ e' = some-injective _ _ (sym got ∙ got') in
    let ecode : some err ≡ none = sym bad ∙ ap (λ x. x.ecode) same ∙ ok in absurd (ground arith)

module _ (trailers : Bool) (step : Step) (once : is_once step ≡ true)
    (acts : returns_action step ≡ true) (runs : has_case trailers step ≡ true) where
  plain : is_plain step ≡ true
  plain = ground arith

  -- Where a chain stands whose filters are all live.
  abbrev Going : ℕ → ℕ → Ctx → Type 0
  Going n m ctx =
      ((m < n) × (ctx.exec_index ≡ m) × (ctx.last_completed_step < step_number step))
      ⊎ ((ctx.last_completed_step ≡ step_number step) × (m ≡ n))

  resume-Going :
      (n m : ℕ) (calls : List ℕ) (i : ℕ) (r : Option (Result × Ctx)) (rc : Result) (ctx' : Ctx)
      (a : Ahead step i r)
      → r ≡ some (rc, ctx')
      → InOrder step calls n m ctx'
      → AllLive ctx'.pwexecs × ((i ≤ m) ⊎ (m ≡ n)) × Going n m ctx'
  resume-Going n m calls i r rc ctx' a eq o =
      let same : a.last ≡ ctx' = ap (λ x. x.1) (some-injective _ _ (sym a.returns ∙ eq)) in
      let live : AllLive ctx'.pwexecs = subst (λ c. AllLive c.pwexecs) same a.live in
      let place =
        subst
          (λ c.
            ((i ≤ c.exec_index) × (c.exec_index < length c.pwexecs))
            ⊎ (c.last_completed_step ≡ step_number step))
          same a.place in
      let (ahead, going) = of_stands live place o.stands in (live, ahead, going)
    where
      of_stands :
          AllLive ctx'.pwexecs
          → ((i ≤ ctx'.exec_index) × (ctx'.exec_index < length ctx'.pwexecs))
            ⊎ (ctx'.last_completed_step ≡ step_number step)
          → Stands step m ctx'
          → ((i ≤ m) ⊎ (m ≡ n)) × Going n m ctx'
      of_stands live (inl (le, lt)) (at_next e l) =
          let size = o.size in (inl (omega arith), inl (omega arith, e, l))
      of_stands live (inr done) (at_next e l) = absurd (omega arith)
      of_stands live p (at_end l all) =
          let size = o.size in (inr (omega arith), inr (l, omega arith))
      of_stands live p (at_failed f lt l) = live_failed ctx' live f lt

  resumes-Going :
      (evs : List Event) (calls : List ℕ) (n m : ℕ) (ctx : Ctx)
      → AllWell evs
      → n ≤ m + length evs
      → InOrder step calls n m ctx
      → AllLive ctx.pwexecs
      → Going n m ctx
      → Finished step calls n (resumes trailers step evs ctx)
  unfolding resumes
  resumes-Going [] calls n m ctx w le o live (inl (lt, _, _)) = absurd (omega arith)
  resumes-Going [] calls n m ctx w le o live (inr (done, all)) = record {
    last = ctx;
    returns = refl;
    completed = done;
    called = o.called ∙ ap (λ k. calls ++ range 0 k) all;
  }
  resumes-Going (ev ∷ evs) calls n m ctx w le o live (inr (done, all)) =
      let f =
        resumes-Going evs calls n m (set_event ev ctx) w.3 (omega arith)
          (set_event-InOrder step calls n m ev ctx o) live (inr (done, all)) in
      record {
        last = f.last;
        returns =
            rw (resume_completed trailers step ev.guest (set_event ev ctx) once done) f.returns;
        completed = f.completed;
        called = f.called;
      }
  resumes-Going (ev ∷ evs) calls n m ctx w le o live (inl (lt, at, before)) =
      let size = o.size in
      let (rc, ctx', m', eq, o') =
        resume-InOrder trailers step calls n m ev.guest (set_event ev ctx) once w.0
          (set_event-InOrder step calls n m ev ctx o) in
      let ahead =
        resume_well trailers step plain acts runs ev.guest w.2 (set_event ev ctx) once before w.0
          (omega arith) live w.1 in
      let (live', further, going) =
        resume-Going n m' calls (ctx.exec_index + 1) _ rc ctx' ahead eq o' in
      let f = resumes-Going evs calls n m' ctx' w.3 (enough further at) o' live' going in
      record {
        last = f.last;
        returns = rw eq f.returns;
        completed = f.completed;
        called = f.called;
      }
    where
      enough :
          {m' : ℕ} → (ctx.exec_index + 1 ≤ m') ⊎ (m' ≡ n) → ctx.exec_index ≡ m → n ≤ m' + length evs
      enough (inl x) at = omega (arith, le)
      enough (inr x) at = omega arith

  -- For the steps REQ_HEADERS, REQ_BODY and, in a build with response trailers, RESP_TRAILERS,
  -- in a chain of at least one filter that stands at its first filter, where no filter has
  -- failed and the step is not completed: if the action is CONTINUE before every resume, a
  -- filter may pause in every phase, and the guests get their instances and answer CONTINUE or
  -- PAUSE without a trap and without a local response, then as many resumes as there are filters
  -- complete the step, and every filter was called exactly once, in order.
  pub resumes_finish :
      (evs : List Event) (ctx : Ctx)
      → AllWell evs
      → length ctx.pwexecs ≤ length evs
      → 0 < length ctx.pwexecs
      → AllLive ctx.pwexecs
      → ctx.exec_index ≡ 0
      → ctx.last_completed_step < step_number step
      → Finished step ctx.called (length ctx.pwexecs) (resumes trailers step evs ctx)
  resumes_finish evs ctx w le pos live start before =
      resumes-Going evs ctx.called (length ctx.pwexecs) 0 ctx w (omega arith)
        (record {
          size = refl;
          called = sym (append-nil ctx.called);
          bound = omega arith;
          stands = at_next start before;
        })
        live (inl (pos, start, before))
