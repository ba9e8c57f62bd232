-- ===== src/ProxyWasm/Chain/Sequence.antt =====
-- ngx_proxy_wasm_resume called again and again for one step, as the phases and the handlers of the
-- host do: between two resumes the action and the phase may change in any way.
use ngx_wasm_module.Common.{
  ℕ, zero, suc, ◌+◌, ◌-◌, ◌<◌, ◌≤◌, ◌≡◌, refl, sym, ap, ◌∙◌, Bool, true, false, Option, none, some,
  List, [], ◌∷◌, ◌++◌, append_assoc, append-nil, arith, length, leb, if◌then◌else◌, ◌>>=◌,
}
use mathlib.Core.Path.{subst}
use ngx_wasm_module.ProxyWasm.Chain.{
  Action, Phase, Step, Result, Ctx, Outcome, step_number, is_done_step, call_round, round, rounds,
  enter, resume_chain, resume,
}
use ngx_wasm_module.ProxyWasm.Chain.Cases.{is_other, action2rc_failed}
use ngx_wasm_module.ProxyWasm.Chain.Order.{
  range, HasFailed, Place, waits, completes, fails, Moved, is_plain,
}
use ngx_wasm_module.ProxyWasm.Chain.Resume.{first, resume-Resumed}

-- The steps that are not run again once they are completed, but RESP_HEADERS.
abbrev pub is_once : Step → Bool
is_once Step.req_headers = true
is_once Step.req_body = true
is_once Step.req_trailers = true
is_once Step.resp_trailers = true
is_once Step.log_step = true
is_once Step.foreign_callback = true
is_once _ = false

-- A resume: the action and the phase that the host has set, and what the guests do.
pub record Event : Type 0 where
  pub action : Action
  pub phase : Phase
  pub guest : ℕ → Outcome

abbrev pub set_event : Event → Ctx → Ctx
set_event ev ctx = record ctx { action = ev.action; phase = ev.phase }

unfoldable pub resumes : Bool → Step → List Event → Ctx → Option Ctx
resumes trailers step [] ctx = some ctx
resumes trailers step (ev ∷ evs) ctx = do
  (rc, ctx') ← resume trailers step ev.guest (set_event ev ctx)
  resumes trailers step evs ctx'

abbrev pub AllMayPause : List Event → Type 0
AllMayPause [] = Unit {0}
AllMayPause (ev ∷ evs) = (is_other ev.phase ≡ false) × AllMayPause evs

is_plain_once : (step : Step) → is_once step ≡ true → is_plain step ≡ true
is_plain_once step h = ground arith

first_once : (step : Step) (ctx : Ctx) → is_once step ≡ true → first step ctx ≡ ctx.exec_index
unfolding first
first_once step ctx h = ground arith

pub enter_once :
    (step : Step) (ctx : Ctx)
    → is_once step ≡ true
    → enter step ctx ≡ (if leb (step_number step) ctx.last_completed_step then none else some ctx)
unfolding enter
enter_once step ctx h = ground arith

range-append : (i m k : ℕ) → range i m ++ range (i + m) k ≡ range i (m + k)
range-append i zero k = ap (λ j. range j k) zero_right ∙ ap (range i) zero_left
  where
    zero_right : i + 0 ≡ i
    zero_right = omega arith

    zero_left : k ≡ 0 + k
    zero_left = omega arith
range-append i (suc m) k =
    ap (◌∷◌ i) (ap (λ j. range (i + 1) m ++ range j k) shift ∙ range-append (i + 1) m k)
    ∙ ap (range i) sums
  where
    shift : i + suc m ≡ i + 1 + m
    shift = omega arith

    sums : suc (m + k) ≡ suc m + k
    sums = omega arith

-- A step that is completed is not run again, and neither is one at a filter that has failed.
pub resume_completed :
    (trailers : Bool) (step : Step) (guest : ℕ → Outcome) (ctx : Ctx)
    → is_once step ≡ true
    → ctx.last_completed_step ≡ step_number step
    → resume trailers step guest ctx ≡ some (Result.ok, ctx)
unfolding resume resume_chain
resume_completed trailers step guest ctx once done =
    let nd : is_done_step step ≡ false = ground arith in
    let le : leb (step_number step) ctx.last_completed_step ≡ true = ground arith in
    rw (enter_once step ctx once, le, nd) refl

round_failed :
    (trailers : Bool) (step : Step) (guest : ℕ → Outcome) (ctx : Ctx)
    → HasFailed ctx
    → round trailers step guest ctx.exec_index ctx ≡ some (false, Result.internal_server_error, ctx)
unfolding round call_round
round_failed trailers step guest ctx (e, err, got, bad) =
    rw (got, action2rc_failed step ctx.exec_index e ctx err bad) refl

rounds_failed :
    (trailers : Bool) (step : Step) (guest : ℕ → Outcome) (k : ℕ) (rc : Result) (ctx : Ctx)
    → HasFailed ctx
    → 0 < k
    → rounds trailers step guest k ctx.exec_index rc ctx ≡ some (Result.internal_server_error, ctx)
unfolding rounds
rounds_failed trailers step guest zero rc ctx f lt = absurd (omega arith)
rounds_failed trailers step guest (suc k) rc ctx f lt =
    rw (round_failed trailers step guest ctx f) refl

-- For the steps that a chain runs once (REQ_HEADERS, REQ_BODY, REQ_TRAILERS, RESP_TRAILERS, LOG,
-- FOREIGN_CALLBACK): a resume of such a step, not completed yet, of a chain that stands at a
-- filter which has failed answers 500, calls no filter and changes nothing.
pub resume_failed :
    (trailers : Bool) (step : Step) (guest : ℕ → Outcome) (ctx : Ctx)
    → is_once step ≡ true
    → ctx.last_completed_step < step_number step
    → ctx.exec_index < length ctx.pwexecs
    → HasFailed ctx
    → resume trailers step guest ctx ≡ some (Result.internal_server_error, ctx)
unfolding resume resume_chain
resume_failed trailers step guest ctx once before lt f =
    let nd : is_done_step step ≡ false = ground arith in
    let le : leb (step_number step) ctx.last_completed_step ≡ false = ground arith in
    rw
      (
        enter_once step ctx once,
        le,
        nd,
        rounds_failed trailers step guest (length ctx.pwexecs - ctx.exec_index) Result.ok ctx f
            (omega arith),
      )
      refl

-- The chain in the midst of a step: the filters before `m` were called, since `calls` was.
pub data Stands (step : Step) (m : ℕ) (ctx : Ctx) : Type 0 where
  at_next : ctx.exec_index ≡ m → ctx.last_completed_step < step_number step → Stands step m ctx
  at_end : ctx.last_completed_step ≡ step_number step → m ≡ length ctx.pwexecs → Stands step m ctx
  at_failed :
      HasFailed ctx
      → ctx.exec_index < length ctx.pwexecs
      → ctx.last_completed_step < step_number step
      → Stands step m ctx

pub record InOrder (step : Step) (calls : List ℕ) (n m : ℕ) (ctx : Ctx) : Type 0 where
  pub size : length ctx.pwexecs ≡ n
  pub called : ctx.called ≡ calls ++ range 0 m
  pub bound : m ≤ n
  pub stands : Stands step m ctx

-- Any number of resumes of one step.
pub record Calls (step : Step) (ctx : Ctx) (r : Option Ctx) : Type 0 where
  pub last : Ctx
  pub m : ℕ
  pub returns : r ≡ some last
  pub called : last.called ≡ ctx.called ++ range 0 m
  pub bound : m ≤ length ctx.pwexecs

pub resume-InOrder :
    (trailers : Bool) (step : Step) (calls : List ℕ) (n m : ℕ) (guest : ℕ → Outcome) (ctx : Ctx)
    → is_once step ≡ true
    → is_other ctx.phase ≡ false
    → InOrder step calls n m ctx
    → (rc : Result) × (ctx' : Ctx) × (m' : ℕ) × (resume trailers step guest ctx ≡ some (rc, ctx'))
      × InOrder step calls n m' ctx'
resume-InOrder trailers step calls n m guest ctx once h o = by_place o.stands
  where
    by_moved :
        (k : ℕ) (ctx' : Ctx)
        → ctx.exec_index ≡ m
        → ctx.last_completed_step < step_number step
        → Moved step m k ctx ctx'
        → InOrder step calls n (m + k) ctx'
    by_moved k ctx' at before moved =
        let size = o.size in
        let bound = moved.bound in
        record {
          size = moved.size ∙ o.size;
          called =
              moved.calls
              ∙ ap (λ xs. xs ++ range m k) o.called
              ∙ append_assoc calls (range 0 m) (range m k)
              ∙ ap (◌++◌ calls) (ap (λ j. range 0 m ++ range j k) plus_zero ∙ range-append 0 m k);
          bound = omega arith;
          stands = of_place moved.size moved.place;
        }
      where
        plus_zero : m ≡ 0 + m
        plus_zero = omega arith

        of_place :
            length ctx'.pwexecs ≡ length ctx.pwexecs
            → Place step (m + k) ctx ctx'
            → Stands step (m + k) ctx'
        of_place same (waits e l) = at_next e (omega arith)
        of_place same (completes e l all) = at_end l (all ∙ sym same)
        of_place same (fails _ _ lt f l) = at_failed f (omega arith) (omega arith)

    by_place :
        Stands step m ctx
        → (rc : Result) × (ctx' : Ctx) × (m' : ℕ) × (resume trailers step guest ctx
            ≡ some (rc, ctx'))
          × InOrder step calls n m' ctx'
    by_place (at_end l all) =
        (Result.ok, ctx, m, resume_completed trailers step guest ctx once l, o)
    by_place (at_failed f lt before) = (
      Result.internal_server_error,
      ctx,
      m,
      resume_failed trailers step guest ctx once before lt f,
      o,
    )
    by_place (at_next at before) =
        let size = o.size in
        let bound = o.bound in
        let r = resume-Resumed trailers step guest ctx (is_plain_once step once) h (omega arith) in
        (
          r.rc,
          r.last,
          m + r.m,
          r.returns,
          by_moved r.m r.last at before
              (subst (λ i. Moved step i r.m ctx r.last) (first_once step ctx once ∙ at) r.moved),
        )

pub set_event-InOrder :
    (step : Step) (calls : List ℕ) (n m : ℕ) (ev : Event) (ctx : Ctx)
    → InOrder step calls n m ctx
    → InOrder step calls n m (set_event ev ctx)
set_event-InOrder step calls n m ev ctx o = record {
  size = o.size;
  called = o.called;
  bound = o.bound;
  stands = of_stands o.stands;
}
  where
    of_stands : Stands step m ctx → Stands step m (set_event ev ctx)
    of_stands (at_next e l) = at_next e l
    of_stands (at_end l all) = at_end l all
    of_stands (at_failed f lt l) = at_failed f lt l

resumes-InOrder :
    (trailers : Bool) (step : Step) (calls : List ℕ) (n m : ℕ) (evs : List Event) (ctx : Ctx)
    → is_once step ≡ true
    → AllMayPause evs
    → InOrder step calls n m ctx
    → (last : Ctx) × (m' : ℕ) × (resumes trailers step evs ctx ≡ some last)
      × InOrder step calls n m' last
unfolding resumes
resumes-InOrder trailers step calls n m [] ctx once p o = (ctx, m, refl, o)
resumes-InOrder trailers step calls n m (ev ∷ evs) ctx once p o =
    let (rc, ctx', m', eq, o') =
      resume-InOrder trailers step calls n m ev.guest (set_event ev ctx) once p.0
        (set_event-InOrder step calls n m ev ctx o) in
    let (last, m'', eq', o'') = resumes-InOrder trailers step calls n m' evs ctx' once p.1 o' in
    (last, m'', rw (eq, eq') refl, o'')

-- For the steps that a chain runs once (REQ_HEADERS, REQ_BODY, REQ_TRAILERS, RESP_TRAILERS, LOG,
-- FOREIGN_CALLBACK): if the step is not completed, the chain stands at its first filter, and a
-- filter may pause in every phase the step is resumed in, any number of resumes of the step runs
-- without a fault and calls each filter at most once, in order from the first, whatever the
-- guests answer and whatever actions are set between the resumes.
pub resumes-Calls :
    (trailers : Bool) (step : Step) (evs : List Event) (ctx : Ctx)
    → is_once step ≡ true
    → AllMayPause evs
    → ctx.exec_index ≡ 0
    → ctx.last_completed_step < step_number step
    → Calls step ctx (resumes trailers step evs ctx)
resumes-Calls trailers step evs ctx once p start before =
    let (last, m, eq, o) =
      resumes-InOrder trailers step ctx.called (length ctx.pwexecs) 0 evs ctx once p (record {
        size = refl;
        called = sym (append-nil ctx.called);
        bound = omega arith;
        stands = at_next start before;
      }) in
    record { last = last; m = m; returns = eq; called = o.called; bound = o.bound }
