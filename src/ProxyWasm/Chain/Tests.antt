-- ===== src/ProxyWasm/Chain/Tests.antt =====
-- Runs of ngx_proxy_wasm_resume, and the theorems at a chain of two filters.
use ngx_wasm_module.Common.{ℕ, zero, ◌≡◌, refl, true, false, inr, none, some, List, [], ◌∷◌, arith}
use ngx_wasm_module.ProxyWasm.Chain.{
  Action, continue, pause, done, req_headers, req_body, resp_trailers, rewrite, access, other_phase,
  ok, again, finished, internal_server_error, Err, Exec, Ctx, Outcome, call_ok, call_abort, round,
  resume,
}
use ngx_wasm_module.ProxyWasm.Chain.Resume.{Resumed, first, resume-Resumed}
use ngx_wasm_module.ProxyWasm.Chain.Sequence.{Event, resumes, Calls, resumes-Calls, resume_failed}
use ngx_wasm_module.ProxyWasm.Chain.Liveness.{Finished, resumes_finish}
use ngx_wasm_module.ProxyWasm.Chain.Fault.{resume_pause_fault}

abbrev live : Exec
live = record { ecode = none; has_instance = true; trapped = false }

abbrev fresh : Ctx
fresh = record {
  pwexecs = live ∷ live ∷ [];
  phase = rewrite;
  action = continue;
  last_completed_step = 0;
  exec_index = 0;
  resp_buffering = false;
  destroyed = false;
  called = [];
}

abbrev returns : Action → Outcome
returns a = record {
  created = none;
  written = none;
  returned = some a;
  rc = call_ok;
  traps = false;
}

test_continue :
    resume false req_headers (λ i. returns continue) fresh
    ≡ some (ok, record fresh { last_completed_step = 1; called = 0 ∷ 1 ∷ [] })
unfolding resume round
test_continue = refl

test_pause :
    resume false req_headers (λ i. returns pause) fresh
    ≡ some (again, record fresh { action = pause; exec_index = 1; called = 0 ∷ [] })
unfolding resume round
test_pause = refl

abbrev traps_at_second : ℕ → Outcome
traps_at_second zero = returns continue
traps_at_second _ = record {
  created = none;
  written = none;
  returned = none;
  rc = call_abort;
  traps = true;
}

abbrev failed : Ctx
failed = record fresh {
  pwexecs =
      live ∷ record { ecode = some Err.instance_trapped; has_instance = true; trapped = true } ∷ [];
  exec_index = 1;
  called = 0 ∷ 1 ∷ [];
}

test_trap : resume false req_headers traps_at_second fresh ≡ some (internal_server_error, failed)
unfolding resume round
test_trap = refl

-- A local response: the chain stops behind its filter.
test_done :
    resume false req_headers (λ i. record (returns continue) { written = some done }) fresh
    ≡ some (finished, record fresh { exec_index = 1; called = 0 ∷ [] })
unfolding resume round
test_done = refl

-- The first filter pauses, and the second one traps.
abbrev twice : List Event
twice =
    record { action = continue; phase = rewrite; guest = λ i. returns pause }
    ∷ record { action = continue; phase = access; guest = traps_at_second }
    ∷ record { action = continue; phase = access; guest = λ i. returns continue }
    ∷ []

test_twice : resumes false req_headers twice fresh ≡ some (record failed { phase = access })
unfolding resumes resume round
test_twice = refl

abbrev pauses : List Event
pauses =
    record { action = continue; phase = rewrite; guest = λ i. returns pause }
    ∷ record { action = continue; phase = rewrite; guest = λ i. returns pause }
    ∷ []

test_pauses :
    resumes false req_headers pauses fresh
    ≡ some (record fresh { action = pause; last_completed_step = 1; called = 0 ∷ 1 ∷ [] })
unfolding resumes resume round
test_pauses = refl

resume-Resumed_example :
    Resumed req_headers
      (first req_headers fresh)
      fresh
      (resume false req_headers traps_at_second fresh)
resume-Resumed_example =
    resume-Resumed false req_headers traps_at_second fresh refl refl (omega arith)

resumes-Calls_example : Calls req_headers fresh (resumes false req_headers twice fresh)
resumes-Calls_example =
    resumes-Calls false req_headers twice fresh refl (refl, (refl, (refl, tt))) refl (omega arith)

resumes_finish_example : Finished req_headers [] 2 (resumes false req_headers pauses fresh)
resumes_finish_example =
    resumes_finish false req_headers refl refl refl pauses fresh
      (
        refl,
        refl,
        (λ i. record { created = refl; written = refl; rc = refl; returned = inr refl }),
        (
          refl,
          refl,
          (λ i. record { created = refl; written = refl; rc = refl; returned = inr refl }),
          tt,
        ),
      )
      (omega arith) (omega arith) (refl, (refl, tt)) refl (omega arith)

resume_failed_example :
    resume false req_body traps_at_second failed ≡ some (internal_server_error, failed)
resume_failed_example =
    resume_failed false req_body traps_at_second failed refl (omega arith) (omega arith) (
      record { ecode = some Err.instance_trapped; has_instance = true; trapped = true },
      Err.instance_trapped,
      refl,
      refl,
    )

abbrev in_trailers : Ctx
in_trailers = record fresh { phase = other_phase; last_completed_step = 5; exec_index = 1 }

resume_pause_fault_example : resume true resp_trailers (λ i. returns pause) in_trailers ≡ none
resume_pause_fault_example =
    resume_pause_fault true resp_trailers (λ i. returns pause) in_trailers live refl refl refl
      (omega arith) refl refl (omega arith) refl refl refl refl refl refl
