-- ===== src/ProxyWasm/Chain.antt =====
-- ngx_proxy_wasm_resume of ngx_proxy_wasm.c: the chain of filters of a request, step by step.
-- The guests are not the program's: what a guest does when it is called in a step is an `Outcome`,
-- given for each filter. `none` is an access outside the array of the filters. `called` stands for
-- no field: it lists the filters called, in order, as the guests see it. The HTTP subsystem's
-- error code is the same for all errors.
pub mod Cases
pub mod Order
pub mod Round
pub mod Resume
pub mod Sequence
pub mod Well
pub mod Finish
pub mod Liveness
pub mod Fault
mod Tests
use ngx_wasm_module.Common.{
  ℕ, zero, suc, ◌+◌, ◌-◌, ◌≡◌, Bool, true, false, ◌||◌, not, Option, none, some, List, [], ◌∷◌,
  ◌++◌, length, modify, get_elem?, leb, ltb, ◌==◌, ◌&&◌, if◌then◌else◌, ◌>>=◌,
}

-- `ngx_proxy_wasm_action_e`, with the values that are none of its names.
pub data Action : Type 0 where
  continue pause end_stream done wait wait_full close : Action
  other : ℕ → Action

abbrev pub action_number : Action → ℕ
action_number continue = 0
action_number pause = 1
action_number end_stream = 2
action_number done = 3
action_number wait = 4
action_number wait_full = 5
action_number close = 6
action_number (other n) = n + 7

-- `ngx_proxy_wasm_step_e`
pub data Step : Type 0 where
  req_headers req_body req_trailers resp_headers resp_body resp_trailers log_step done_step : Step
  tick dispatch_response foreign_callback upstream_select next_upstream upstream_info : Step

abbrev pub step_number : Step → ℕ
step_number req_headers = 1
step_number req_body = 2
step_number req_trailers = 3
step_number resp_headers = 4
step_number resp_body = 5
step_number resp_trailers = 6
step_number log_step = 7
step_number done_step = 8
step_number tick = 9
step_number dispatch_response = 10
step_number foreign_callback = 11
step_number upstream_select = 12
step_number next_upstream = 13
step_number upstream_info = 14

-- The errors of `ngx_proxy_wasm_err_e`; ERR_NONE is `none`.
pub data Err : Type 0 where
  unknown_abi bad_abi bad_host_interface bad_module_interface start_failed vm_start_failed : Err
  configure_failed instance_trapped return_action unknown : Err

-- The phases that `action2rc` tells apart.
pub data Phase : Type 0 where
  rewrite access content header_filter body_filter background other_phase : Phase

-- What `ngx_proxy_wasm_resume` and `action2rc` return; the last is the HTTP status 500.
pub data Result : Type 0 where
  ok again finished error internal_server_error : Result

-- `ngx_proxy_wasm_exec_t`: whether it has an instance, and whether that has trapped.
pub record Exec : Type 0 where
  pub ecode : Option Err
  pub has_instance : Bool
  pub trapped : Bool

-- `ngx_proxy_wasm_ctx_t`, the request's `resp_buffering`, and whether it was destroyed.
pub record Ctx : Type 0 where
  pub pwexecs : List Exec
  pub phase : Phase
  pub action : Action
  pub last_completed_step : ℕ
  pub exec_index : ℕ
  pub resp_buffering : Bool
  pub destroyed : Bool
  pub called : List ℕ

-- A call's result: NGX_OK, NGX_ABORT for a trap, NGX_ERROR.
pub data CallRc : Type 0 where
  call_ok call_abort call_error : CallRc

-- What happens when a filter is called: how its context's creation ends where it has to be made
-- anew, the action that host calls wrote, the action that the guest returned, the call's result,
-- and whether the instance has trapped.
pub record Outcome : Type 0 where
  pub created : Option Err
  pub written : Option Action
  pub returned : Option Action
  pub rc : CallRc
  pub traps : Bool

-- A write to the filter `i`.
abbrev pub set_ecode : ℕ → Err → Ctx → Ctx
set_ecode i err ctx = record ctx {
  pwexecs = modify (λ e. record e { ecode = some err }) i ctx.pwexecs;
}

-- `pwexecs[exec_index].ecode = NGX_PROXY_WASM_ERR_RETURN_ACTION`
abbrev pub bad_pause : Ctx → Option (Result × Ctx)
bad_pause ctx =
    if ltb ctx.exec_index (length ctx.pwexecs)
    then some (error, set_ecode ctx.exec_index return_action ctx)
    else none

-- A filter pauses the chain, where its phase allows that.
pub pause2rc : Phase → Ctx → Option (Result × Ctx)
pause2rc body_filter ctx = some (again, record ctx { resp_buffering = true })
pause2rc other_phase ctx = bad_pause ctx
pause2rc _ ctx = some (again, ctx)

-- The `switch` on the action in `action2rc`, for the filter `i`, which has no error.
pub next2rc : Action → ℕ → Ctx → Option (Result × Ctx)
unfolding pause2rc
next2rc done i ctx = some (finished, record ctx { action = continue })
next2rc continue i ctx = some (ok, ctx)
next2rc pause i ctx = pause2rc ctx.phase ctx
next2rc _ i ctx = some (error, set_ecode i unknown ctx)

abbrev pub is_done_step : Step → Bool
is_done_step done_step = true
is_done_step _ = false

-- `action2rc`
pub action2rc : Step → ℕ → Exec → Ctx → Option (Result × Ctx)
unfolding next2rc
action2rc step i e ctx = elim e.ecode [
  | some err ↦ some (internal_server_error, ctx)
  | none ↦ if is_done_step step then some (ok, ctx) else next2rc ctx.action i ctx
]

-- The steps for which `ngx_proxy_wasm_run_step` has a case; `trailers` is
-- NGX_WASM_RESPONSE_TRAILERS. A tick is for root contexts only, where an assertion holds it.
abbrev pub has_case : Bool → Step → Bool
has_case trailers req_trailers = false
has_case trailers resp_trailers = trailers
has_case trailers _ = true

-- The steps whose function of the guest returns an action, and those whose result is ignored.
abbrev pub returns_action : Step → Bool
returns_action req_headers = true
returns_action req_body = true
returns_action resp_headers = true
returns_action resp_body = true
returns_action resp_trailers = true
returns_action _ = false

abbrev pub ignores_rc : Step → Bool
ignores_rc log_step = true
ignores_rc done_step = true
ignores_rc _ = false

abbrev pub rc2ecode : CallRc → Option Err
rc2ecode call_ok = none
rc2ecode call_abort = some instance_trapped
rc2ecode call_error = some unknown

abbrev pub is_call_ok : CallRc → Bool
is_call_ok call_ok = true
is_call_ok _ = false

abbrev pub or_else {ℓ} : {A : Type ℓ} → Option A → A → A
or_else none a = a
or_else (some b) a = b

abbrev pub is_failed : Option Err → Bool
is_failed none = false
is_failed (some err) = true

abbrev pub is_done : Action → Bool
is_done done = true
is_done _ = false

-- The filter `i` after a call, and the context's new action.
abbrev pub after_call : ℕ → Option Err → Bool → Action → Ctx → Option Err × Ctx
after_call i ecode trapped action ctx = (
  ecode,
  record ctx {
    pwexecs =
        modify (λ _. record { ecode = ecode; has_instance = true; trapped = trapped }) i
          ctx.pwexecs;
    action = action;
    called = ctx.called ++ i ∷ [];
  },
)

-- The `switch` of `ngx_proxy_wasm_run_step` and what follows it. An action DONE that a host call
-- wrote stays, and the call's result is not looked at; else the guest's action counts.
pub call_step : Step → ℕ → Exec → Outcome → Ctx → Option Err × Ctx
call_step step i e o ctx =
    let after = or_else o.written ctx.action in
    let action =
      if returns_action step && is_call_ok o.rc
      then or_else o.returned ctx.action
      else ctx.action in
    if is_done after && not (action_number after == action_number action)
    then after_call i e.ecode o.traps after ctx
    else after_call i (if ignores_rc step then none else rc2ecode o.rc) o.traps action ctx

-- `ngx_proxy_wasm_run_step` for the filter `i`, with what `ngx_proxy_wasm_resume` stores of its
-- result. A context that has no instance, or whose instance has trapped, is made anew first.
pub run_step : Bool → Step → ℕ → Exec → Outcome → Ctx → Option Err × Ctx
unfolding call_step
run_step trailers step i e o ctx =
    if (not e.has_instance || e.trapped) && is_failed o.created
    then (
      o.created,
      record ctx { pwexecs = modify (λ f. record f { ecode = o.created }) i ctx.pwexecs },
    )
    else if has_case trailers step
    then call_step step i e o ctx
    else (
      some unknown,
      record ctx {
        pwexecs =
            modify (λ _. record { ecode = some unknown; has_instance = true; trapped = false }) i
              ctx.pwexecs;
      },
    )

abbrev pub is_body : Step → Bool
is_body resp_body = true
is_body _ = false

-- Which filter is next: the following one, but after a pause of the body the same.
pub advance : Step → Ctx → Ctx
advance step ctx = elim ctx.action [
  | continue ↦ record ctx { exec_index = ctx.exec_index + 1 }
  | done ↦ record ctx { exec_index = ctx.exec_index + 1 }
  | pause ↦ if is_body step then ctx else record ctx { exec_index = ctx.exec_index + 1 }
  | _ ↦ ctx
]

-- The end of the step, once all filters have been through it.
pub complete : Step → Ctx → Ctx
complete step ctx =
    if leb (length ctx.pwexecs) ctx.exec_index
    then record ctx { last_completed_step = step_number step; exec_index = 0 }
    else ctx

-- The rest of a round, by what `action2rc` answered; the result says whether the loop goes on.
pub end_round : Step → Result → Ctx → Bool × Result × Ctx
unfolding complete
end_round step ok ctx = (true, ok, complete step ctx)
end_round step again ctx = (true, again, complete step ctx)
end_round step rc ctx = (false, rc, ctx)

-- The rest of a round after a call of the filter `i`.
pub finish_round : Step → ℕ → Option Err → Ctx → Option (Bool × Result × Ctx)
unfolding advance action2rc end_round
finish_round step i ecode ctx =
    if is_failed ecode then some (false, internal_server_error, ctx) else do
      let ctx1 = advance step ctx
      e ← get_elem? ctx1.pwexecs i
      (rc, ctx2) ← action2rc step i e ctx1
      some (end_round step rc ctx2)

-- A round from where `action2rc` has answered: a chain that is stopped is left.
pub call_round :
    Bool → Step → (ℕ → Outcome) → ℕ → Exec → Result → Ctx → Option (Bool × Result × Ctx)
unfolding run_step finish_round
call_round trailers step guest i e ok ctx =
    if is_done_step step && (not e.has_instance || e.trapped)
    then some (false, ok, ctx)
    else (let (ecode, ctx') = run_step trailers step i e (guest i) ctx in
        finish_round step i ecode ctx')
call_round trailers step guest i e rc ctx = some (false, rc, ctx)

-- One round of the loop of `ngx_proxy_wasm_resume`, for the filter `i`.
pub round : Bool → Step → (ℕ → Outcome) → ℕ → Ctx → Option (Bool × Result × Ctx)
unfolding action2rc call_round
round trailers step guest i ctx = do
  e ← get_elem? ctx.pwexecs i
  (rc, ctx') ← action2rc step i e ctx
  call_round trailers step guest i e rc ctx'

-- The loop, with the number of rounds left.
pub rounds : Bool → Step → (ℕ → Outcome) → ℕ → ℕ → Result → Ctx → Option (Result × Ctx)
rounds trailers step guest zero i rc ctx = some (rc, ctx)
rounds trailers step guest (suc n) i rc ctx = do
  (more, rc', ctx') ← round trailers step guest i ctx
  let rest = rounds trailers step guest n (i + 1) rc' ctx'
  if more then rest else some (rc', ctx')

-- Whether the step is still to run, and the chain set to its first filter for a response.
pub enter : Step → Ctx → Option Ctx
enter tick ctx = some ctx
enter done_step ctx = some ctx
enter resp_body ctx = some ctx
enter dispatch_response ctx = some ctx
enter upstream_select ctx = some ctx
enter next_upstream ctx = some ctx
enter upstream_info ctx = some ctx
enter resp_headers ctx =
    some (if ltb ctx.last_completed_step 4 then record ctx { exec_index = 0 } else ctx)
enter step ctx = if leb (step_number step) ctx.last_completed_step then none else some ctx

-- The chain from its current filter on, where the step is still to run.
pub resume_chain : Bool → Step → (ℕ → Outcome) → Ctx → Option Ctx → Option (Result × Ctx)
unfolding rounds
resume_chain trailers step guest ctx none = some (ok, ctx)
resume_chain trailers step guest ctx (some entered) =
    rounds trailers step guest (length entered.pwexecs - entered.exec_index) entered.exec_index ok
      entered

-- `ngx_proxy_wasm_resume`
pub resume : Bool → Step → (ℕ → Outcome) → Ctx → Option (Result × Ctx)
unfolding enter resume_chain
resume trailers step guest ctx = do
  (rc, ctx') ← resume_chain trailers step guest ctx (enter step ctx)
  some (rc, if is_done_step step then record ctx' { destroyed = true } else ctx')
