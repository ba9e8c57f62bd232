-- ===== src/Wasm/Ops.antt =====
-- ngx_wasm_ops.c: the plan of a location, its pipeline of operations for each phase, and their run.
-- Modules, filters and functions are numbers; what the virtual machine answers of them is the record
-- `Modules`. An operation is a place in the store `ops`, since the pipelines share it. `none` is an
-- access outside the store or the pipelines, and the call of a handler that was not set. `called`
-- stands for no field: it lists the functions called, in order.
pub mod Add
pub mod Call
pub mod Resume
pub mod Skip
pub mod Load
pub mod LoadAll
mod Tests
use Prim.Native.Nat.{bit_and}
use ngx_wasm_module.Common.{
  ℕ, zero, suc, ◌+◌, ◌≡◌, Bool, true, false, ◌&&◌, ◌||◌, not, Option, none, some, List, [], ◌∷◌,
  ◌++◌, length, modify, get_elem?, replicate, ltb, leb, ◌==◌, if◌then◌else◌, ◌>>=◌,
}

-- `ngx_wasm_op_code_t`, with the values that are none of its names.
pub data OpCode : Type 0 where
  call_code proxy_wasm_code : OpCode
  other_code : ℕ → OpCode

-- NGX_OK, NGX_ERROR, NGX_AGAIN, NGX_DECLINED, NGX_DONE, and NGX_HTTP_*
pub data OpRc : Type 0 where
  ok error again declined done : OpRc
  http : ℕ → OpRc

-- `ngx_wasm_op_t`; the handler is named by the code that sets it.
pub record WasmOp : Type 0 where
  pub on_phases : ℕ
  pub code : OpCode
  pub handler : Option OpCode
  pub host : ℕ
  pub wasm_module : ℕ
  pub idx : ℕ
  pub func_name : List ℕ
  pub funcref : Option ℕ
  pub filter : ℕ

-- `ngx_wasm_phase_t`
pub record WasmPhase : Type 0 where
  pub index : ℕ
  pub on : ℕ

-- `ngx_wasm_ops_plan_t`, with the operations that were allocated, and the `data` of the filters: a
-- pointer to `conf.proxy_wasm.filter` in the operation of a place.
pub record Plan : Type 0 where
  pub pipelines : List (List ℕ)
  pub ops : List WasmOp
  pub filter_ids : List ℕ
  pub filter_data : ℕ → Option ℕ
  pub populated : Bool
  pub loaded : Bool

-- `ngx_wasm_op_ctx_t`
pub record OpCtx : Type 0 where
  pub last_phase : Option ℕ
  pub cur_idx : ℕ
  pub called : List ℕ

-- What other components answer: whether a module is linked to a host, its function of a name,
-- whether a filter is loaded, and the identifier that its load gives to a filter with such data.
pub record Modules : Type 0 where
  pub link : ℕ → ℕ → Bool
  pub func_lookup : ℕ → List ℕ → Option ℕ
  pub load_filter : ℕ → Bool
  pub filter_id : ℕ → Option ℕ → ℕ

-- `ngx_wasm_ops_plan_new`, where the filters have the data `pointers`
pub plan_new : ℕ → List WasmOp → (ℕ → Option ℕ) → Plan
plan_new nphases ops pointers = record {
  pipelines = replicate nphases [];
  ops = ops;
  filter_ids = [];
  filter_data = pointers;
  populated = false;
  loaded = false;
}

-- `op->conf.proxy_wasm.filter->data = &op->conf.proxy_wasm.filter` if the operation is a filter's
abbrev pub point_at : OpCode → ℕ → ℕ → (ℕ → Option ℕ) → ℕ → Option ℕ
point_at proxy_wasm_code filter p pointers f = if f == filter then some p else pointers f
point_at _ filter p pointers f = pointers f

abbrev pub set_filter_data : ℕ → WasmOp → Plan → Plan
set_filter_data p op plan = record plan {
  filter_data = point_at op.code op.filter p plan.filter_data;
}

-- One more operation in the pipeline `i`.
abbrev pub push_op : ℕ → ℕ → Plan → Plan
push_op i p plan = record plan {
  pipelines = modify (λ ps. ps ++ p ∷ []) i plan.pipelines;
  populated = true;
}

-- The inner loop of `ngx_wasm_ops_plan_add`, for one operation. `room` says whether the array of a
-- phase can take one more element.
pub add_op : (ℕ → ℕ → Bool) → List WasmPhase → ℕ → Plan → Option (OpRc × Plan)
add_op room [] p plan = some (ok, plan)
add_op room (phase ∷ phases) p plan = do
  op ← get_elem? plan.ops p
  pipeline ← get_elem? plan.pipelines phase.index
  let skipped_rest = add_op room phases p plan
  let plan' = set_filter_data p op plan
  let pushed_rest = add_op room phases p (push_op phase.index p plan')
  if bit_and op.on_phases phase.on == 0
      then skipped_rest
      else if room phase.index (length pipeline)
      then pushed_rest
      else some (error, plan')

-- `ngx_wasm_ops_plan_add`
pub plan_add : (ℕ → ℕ → Bool) → List WasmPhase → List ℕ → Plan → Option (OpRc × Plan)
unfolding add_op
plan_add room phases [] plan = some (ok, plan)
plan_add room phases (p ∷ ps) plan = do
  (rc, plan') ← add_op room phases p plan
  let rest = plan_add room phases ps plan'
  elim rc [ ok ↦ rest | failed ↦ some (failed, plan') ]

-- The body of the loops of `ngx_wasm_ops_plan_load`, for the operation at `j` of a pipeline.
pub load_op : Modules → ℕ → WasmOp → OpRc × WasmOp
load_op mods j op = if not (mods.link op.wasm_module op.host) then (error, op) else elim op.code [
  | proxy_wasm_code ↦ (
    if mods.load_filter op.filter then ok else error,
    record op { handler = some proxy_wasm_code },
  )
  | call_code ↦ (
    ok,
    record op {
      handler = some call_code;
      idx = j;
      funcref = mods.func_lookup op.wasm_module op.func_name;
    },
  )
  | other_code n ↦ (error, op)
]

pub load_pipeline : Modules → List ℕ → ℕ → List WasmOp → Option (OpRc × List WasmOp)
unfolding load_op
load_pipeline mods [] j ops = some (ok, ops)
load_pipeline mods (p ∷ ps) j ops = do
  op ← get_elem? ops p
  let (rc, op') = load_op mods j op
  let ops' = modify (λ _. op') p ops
  let rest = load_pipeline mods ps (j + 1) ops'
  elim rc [ ok ↦ rest | failed ↦ some (failed, ops') ]

pub load_pipelines : Modules → List (List ℕ) → List WasmOp → Option (OpRc × List WasmOp)
unfolding load_pipeline
load_pipelines mods [] ops = some (ok, ops)
load_pipelines mods (ps ∷ pss) ops = do
  (rc, ops') ← load_pipeline mods ps 0 ops
  let rest = load_pipelines mods pss ops'
  elim rc [ ok ↦ rest | failed ↦ some (failed, ops') ]

-- The loop that lists the identifiers of the filters; its array has room.
pub collect_ids : Modules → (ℕ → Option ℕ) → List WasmOp → List ℕ → Option (List ℕ)
collect_ids mods pointers ops [] = some []
collect_ids mods pointers ops (p ∷ ps) = do
  op ← get_elem? ops p
  ids ← collect_ids mods pointers ops ps
  some (elim op.code [
    | proxy_wasm_code ↦ mods.filter_id op.filter (pointers op.filter) ∷ ids
    | _ ↦ ids
  ])

-- `ngx_wasm_ops_plan_load`; `rewrite` is NGX_HTTP_REWRITE_PHASE.
pub plan_load : Modules → ℕ → Plan → Option (OpRc × Plan)
unfolding load_pipelines collect_ids
plan_load mods rewrite plan = if plan.loaded then some (ok, plan) else do
  (rc, ops') ← load_pipelines mods plan.pipelines plan.ops
  let ids = get_elem? plan.pipelines rewrite >>= collect_ids mods plan.filter_data ops'
  elim rc [
    | ok ↦ ids >>= λ filter_ids.
        some (ok, record plan { ops = ops'; filter_ids = filter_ids; loaded = true })
    | failed ↦ some (failed, record plan { ops = ops' })
  ]

-- `ngx_wasm_phase_lookup`, on the phases without the one that ends their list.
pub phase_lookup : List WasmPhase → ℕ → Option WasmPhase
phase_lookup [] i = none
phase_lookup (phase ∷ phases) i =
    let rest = phase_lookup phases i in if phase.index == i then some phase else rest

-- What a call does: whether an instance is created, whether the function returns without a trap or
-- an error, and the state that it leaves the environment in.
pub data CallState : Type 0 where
  yields fails goes_on : CallState

pub record CallOutcome : Type 0 where
  pub created : Bool
  pub returns : Bool
  pub state : CallState

abbrev pub state_rc : CallState → OpRc
state_rc yields = again
state_rc fails = error
state_rc goes_on = declined

-- `ngx_wasm_op_call_handler`
pub call_handler : WasmOp → CallOutcome → OpCtx → OpRc × OpCtx
call_handler op outcome ctx = elim op.funcref [
  | none ↦ (error, ctx)
  | some f ↦
      if ltb op.idx ctx.cur_idx
      then (declined, ctx)
      else if not outcome.created
      then (error, ctx)
      else (
        if outcome.returns then state_rc outcome.state else error,
        record ctx { cur_idx = ctx.cur_idx + 1; called = ctx.called ++ f ∷ [] },
      )
]

-- A handler; `proxy` is what `ngx_wasm_op_proxy_wasm_handler` returns for an operation. The outcome
-- of a call is given by the number of the calls before it.
pub run_handler : (WasmOp → OpRc) → (ℕ → CallOutcome) → WasmOp → OpCtx → Option (OpRc × OpCtx)
unfolding call_handler
run_handler proxy guest op ctx = elim op.handler [
  | some call_code ↦ some (call_handler op (guest (length ctx.called)) ctx)
  | some proxy_wasm_code ↦ some (proxy op, ctx)
  | _ ↦ none
]

-- The loop of `ngx_wasm_ops_resume`, with the code of the operation before.
pub run_pipeline :
    (WasmOp → OpRc)
    → (ℕ → CallOutcome)
    → List WasmOp
    → List ℕ
    → OpRc
    → OpCtx
    → Option (OpRc × OpCtx)
unfolding run_handler
run_pipeline proxy guest ops [] rc ctx = some (rc, ctx)
run_pipeline proxy guest ops (p ∷ ps) rc ctx = do
  op ← get_elem? ops p
  (rc', ctx') ← run_handler proxy guest op ctx
  let rest = run_pipeline proxy guest ops ps rc' ctx'
  elim rc' [ declined ↦ rest | stopped ↦ some (stopped, ctx') ]

-- The end of `ngx_wasm_ops_resume`: an error leaves the phase before as the last one.
pub set_last_phase : ℕ → OpRc → OpCtx → OpCtx
set_last_phase i error ctx = ctx
set_last_phase i (http n) ctx = ctx
set_last_phase i _ ctx = record ctx { last_phase = some i }

-- `ctx->last_phase && ctx->last_phase != phase`
abbrev pub is_new_phase : ℕ → Option ℕ → Bool
is_new_phase i none = false
is_new_phase i (some j) = not (i == j)

-- The reset of `cur_idx` when a phase begins.
abbrev pub enter_phase : ℕ → OpCtx → OpCtx
enter_phase i ctx = if is_new_phase i ctx.last_phase then record ctx { cur_idx = 0 } else ctx

-- `ngx_wasm_ops_resume`
pub ops_resume :
    (WasmOp → OpRc) → (ℕ → CallOutcome) → List WasmPhase → Plan → ℕ → OpCtx → Option (OpRc × OpCtx)
unfolding phase_lookup run_pipeline set_last_phase
ops_resume proxy guest phases plan i ctx = elim (phase_lookup phases i) [
  | none ↦ some (declined, ctx)
  | some phase ↦ do
    pipeline ← get_elem? plan.pipelines phase.index
    (rc, ctx') ← run_pipeline proxy guest plan.ops pipeline declined (enter_phase i ctx)
    some (rc, set_last_phase i rc ctx')
]
