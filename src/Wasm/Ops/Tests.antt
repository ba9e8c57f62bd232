-- ===== src/Wasm/Ops/Tests.antt =====
-- Runs of a plan of calls, and the theorems at concrete plans.
use ngx_wasm_module.Common.{
  ℕ, ◌==◌, ◌≢◌, ◌≡◌, refl, true, false, Option, none, some, List, [], ◌∷◌, arith,
}
use ngx_wasm_module.Wasm.Ops.{
  call_code, proxy_wasm_code, OpRc, ok, error, declined, WasmOp, WasmPhase, Plan, OpCtx, Modules,
  yields, goes_on, CallOutcome, plan_new, add_op, plan_add, load_pipeline, plan_load, run_pipeline,
  phase_lookup, ops_resume,
}
use ngx_wasm_module.Wasm.Ops.Add.{Added, all_places, all_data_after, plan_add-Added}
use ngx_wasm_module.Wasm.Ops.Call.{no_call, one_call}
use ngx_wasm_module.Wasm.Ops.Resume.{resume_phase, PhaseCalls, resume_phase-PhaseCalls}
use ngx_wasm_module.Wasm.Ops.Skip.{ops_resume_skips}
use ngx_wasm_module.Wasm.Ops.Load.{no_op, one_op}
use ngx_wasm_module.Wasm.Ops.LoadAll.{AllCalls, no_pipeline, one_pipeline, plan_load-AllCalls}

-- A `wasm_call` of the function of a name, in the phases of a mask.
abbrev call_op : ℕ → ℕ → WasmOp
call_op mask name = record {
  on_phases = mask;
  code = call_code;
  handler = none;
  host = 0;
  wasm_module = 0;
  idx = 0;
  func_name = name ∷ [];
  funcref = none;
  filter = 0;
}

abbrev name_of : List ℕ → Option ℕ
name_of [] = none
name_of (n ∷ ns) = some n

abbrev mods : Modules
mods = record {
  link = λ m h. true;
  func_lookup = λ m name. name_of name;
  load_filter = λ f. true;
  filter_id = λ f pointer. f;
}

abbrev phases : List WasmPhase
phases = record { index = 0; on = 1 } ∷ record { index = 1; on = 2 } ∷ []

-- Two calls in the first phase, one in the second.
abbrev ops : List WasmOp
ops = call_op 1 70 ∷ call_op 2 71 ∷ call_op 1 72 ∷ []

-- The data of filters that no operation holds yet.
abbrev no_data : ℕ → Option ℕ
no_data f = none

abbrev added : Plan
added = record (plan_new 2 ops no_data) {
  pipelines = (0 ∷ 2 ∷ []) ∷ (1 ∷ []) ∷ [];
  populated = true;
}

test_add :
    plan_add (λ i n. true) phases (0 ∷ 1 ∷ 2 ∷ []) (plan_new 2 ops no_data) ≡ some (ok, added)
unfolding plan_add plan_new add_op
test_add = refl

abbrev loaded_call : ℕ → ℕ → ℕ → WasmOp
loaded_call mask name j = record (call_op mask name) {
  handler = some call_code;
  idx = j;
  funcref = some name;
}

abbrev ready : Plan
ready = record added {
  ops = loaded_call 1 70 0 ∷ loaded_call 2 71 0 ∷ loaded_call 1 72 1 ∷ [];
  loaded = true;
}

test_load : plan_load mods 0 added ≡ some (ok, ready)
unfolding plan_load plan_new load_pipeline
test_load = refl

abbrev start : OpCtx
start = record { last_phase = none; cur_idx = 0; called = [] }

abbrev call_yields : ℕ → CallOutcome
call_yields n = record { created = true; returns = true; state = yields }

abbrev call_traps : ℕ → CallOutcome
call_traps n = record { created = true; returns = false; state = goes_on }

abbrev no_proxy : WasmOp → OpRc
no_proxy op = ok

test_yields :
    resume_phase no_proxy phases ready 0 (call_yields ∷ call_yields ∷ call_yields ∷ []) start
    ≡ some (declined, record { last_phase = some 0; cur_idx = 2; called = 70 ∷ 72 ∷ [] })
unfolding resume_phase ops_resume run_pipeline plan_new
test_yields = refl

apart : (a b : ℕ) → (a == b) ≡ false → a ≢ b
apart a b h e = absurd (ground arith)

plan_load-AllCalls_example :
    (plan' : Plan) × (plan_load mods 0 added ≡ some (ok, plan'))
    × AllCalls plan'.ops plan'.pipelines ((70 ∷ 72 ∷ []) ∷ (71 ∷ []) ∷ [])
    × (plan'.pipelines ≡ added.pipelines)
    × (plan_load mods 0 plan' ≡ some (ok, plan'))
unfolding plan_new phase_lookup
plan_load-AllCalls_example =
    plan_load-AllCalls mods 0 added (0 ∷ 2 ∷ []) ((70 ∷ 72 ∷ []) ∷ (71 ∷ []) ∷ []) refl
      (one_pipeline _ _ _ _
        (one_op 0 70 _ _
          (record { op = call_op 1 70; found = refl; code = refl; linked = refl; function = refl })
          (apart 0 2 refl, tt)
          (one_op 2 72 _ _
            (record {
              op = call_op 1 72;
              found = refl;
              code = refl;
              linked = refl;
              function = refl;
            })
            tt no_op))
        (
          ((apart 0 1 refl, tt), ((apart 2 1 refl, tt), tt)),
          ((apart 1 0 refl, (apart 1 2 refl, tt)), tt),
          tt,
        )
        (one_pipeline _ _ _ _
          (one_op 1 71 _ _
            (record {
              op = call_op 2 71;
              found = refl;
              code = refl;
              linked = refl;
              function = refl;
            })
            tt no_op)
          tt no_pipeline))
      refl

resume_phase-PhaseCalls_example :
    PhaseCalls
      (70 ∷ 72 ∷ [])
      3
      []
      (resume_phase no_proxy phases ready 0 (call_yields ∷ call_yields ∷ call_yields ∷ []) start)
unfolding plan_new phase_lookup
resume_phase-PhaseCalls_example =
    resume_phase-PhaseCalls no_proxy phases ready 0 (record { index = 0; on = 1 }) (0 ∷ 2 ∷ [])
      (70 ∷ 72 ∷ []) refl refl
      (one_call 0 0 70 _ _ (loaded_call 1 70 0) refl refl refl refl
        (one_call 1 2 72 _ _ (loaded_call 1 72 1) refl refl refl refl (no_call 2)))
      (call_yields ∷ call_yields ∷ call_yields ∷ []) start refl

ops_resume_skips_example :
    (ctx' : OpCtx) × (ops_resume no_proxy call_traps phases ready 0 start ≡ some (error, ctx'))
    × (ops_resume no_proxy call_yields phases ready 1 ctx'
        ≡ some (declined, record ctx' { last_phase = some 1 }))
    × (ctx'.called ≡ 70 ∷ [])
unfolding plan_new phase_lookup
ops_resume_skips_example =
    ops_resume_skips no_proxy call_traps call_yields phases ready 0 1 (record { index = 0; on = 1 })
      (record { index = 1; on = 2 }) 0 1 70 71 (2 ∷ []) start refl refl refl refl
      (record { op = loaded_call 1 70 0; found = refl; handler = refl; idx = refl; funcref = refl })
      (record { op = loaded_call 2 71 0; found = refl; handler = refl; idx = refl; funcref = refl })
      refl refl refl refl

-- A call in the first phase, and two operations of the filter 5, the last of them on in no phase.
abbrev filter_op : ℕ → WasmOp
filter_op mask = record (call_op mask 0) { code = proxy_wasm_code; filter = 5 }

abbrev mixed : List WasmOp
mixed = call_op 1 70 ∷ filter_op 3 ∷ filter_op 4 ∷ []

plan_add-Added_example :
    Added
      (λ i. all_places i mixed phases (0 ∷ 1 ∷ 2 ∷ []))
      (all_data_after mixed (0 ∷ 1 ∷ 2 ∷ []) phases)
      (plan_new 2 mixed no_data)
      (plan_add (λ i n. true) phases (0 ∷ 1 ∷ 2 ∷ []) (plan_new 2 mixed no_data))
unfolding plan_new
plan_add-Added_example =
    plan_add-Added (λ i n. true) (λ i n. refl) phases (0 ∷ 1 ∷ 2 ∷ []) (plan_new 2 mixed no_data)
      (omega arith, (omega arith, tt))
      ((call_op 1 70, refl), ((filter_op 3, refl), ((filter_op 4, refl), tt)))

test_data_after : all_data_after mixed (0 ∷ 1 ∷ 2 ∷ []) phases 5 none ≡ some 1
test_data_after = refl

test_all_places : all_places 0 ops phases (0 ∷ 1 ∷ 2 ∷ []) ≡ 0 ∷ 2 ∷ []
test_all_places = refl
