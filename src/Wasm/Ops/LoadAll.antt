-- ===== src/Wasm/Ops/LoadAll.antt =====
-- ngx_wasm_ops_plan_load: a whole plan of calls.
use ngx_wasm_module.Common.{
  ℕ, zero, suc, ◌+◌, ◌≡◌, refl, true, false, Option, some, List, [], ◌∷◌, arith, get_elem?,
}
use mathlib.Core.Path.{subst}
use mathlib.Core.Option.{some-injective}
use ngx_wasm_module.Wasm.Ops.{
  OpCode, OpRc, WasmOp, Plan, Modules, load_pipelines, collect_ids, plan_load,
}
use ngx_wasm_module.Wasm.Ops.Call.{Calls, no_call, one_call}
use ngx_wasm_module.Wasm.Ops.Load.{
  AllAbsent, Loadable, Keeps, Loadable-keep, Calls-keep, load_pipeline-Loaded,
}

-- No operation of `ps` is in another pipeline, and the other way round.
abbrev pub Apart : List ℕ → List (List ℕ) → Type 0
Apart ps [] = Unit {0}
Apart ps (qs ∷ pss) = AllAbsent ps qs × AllAbsent qs ps × Apart ps pss

-- Pipelines of calls, in which no operation occurs twice.
pub data AllLoadable (mods : Modules) (ops : List WasmOp)
    : List (List ℕ) → List (List ℕ) → Type 0 where
  no_pipeline : AllLoadable mods ops [] []
  one_pipeline :
      (ps fs : List ℕ) (pss fss : List (List ℕ))
      → Loadable mods ops ps fs
      → Apart ps pss
      → AllLoadable mods ops pss fss
      → AllLoadable mods ops (ps ∷ pss) (fs ∷ fss)

pub data AllCalls (ops : List WasmOp) : List (List ℕ) → List (List ℕ) → Type 0 where
  no_calls : AllCalls ops [] []
  one_calls :
      (ps fs : List ℕ) (pss fss : List (List ℕ))
      → Calls ops 0 ps fs
      → AllCalls ops pss fss
      → AllCalls ops (ps ∷ pss) (fs ∷ fss)

AllLoadable-keep :
    (mods : Modules) (ops ops' : List WasmOp) (qs : List ℕ) (pss fss : List (List ℕ))
    → Keeps ops ops' qs
    → Apart qs pss
    → AllLoadable mods ops pss fss
    → AllLoadable mods ops' pss fss
AllLoadable-keep mods ops ops' qs _ _ k a no_pipeline = no_pipeline
AllLoadable-keep mods ops ops' qs _ _ k a (one_pipeline ps fs pss fss l apart rest) =
    one_pipeline ps fs pss fss (Loadable-keep mods ops ops' qs ps fs k a.1 l) apart
      (AllLoadable-keep mods ops ops' qs pss fss k a.2 rest)

-- What the load of the pipelines leaves; an operation of none of them stays.
record AllLoaded (ops : List WasmOp) (pss fss : List (List ℕ)) (r : Option (OpRc × List WasmOp))
    : Type 0 where
  ops' : List WasmOp
  returns : r ≡ some (OpRc.ok, ops')
  calls : AllCalls ops' pss fss
  keeps : (ps fs : List ℕ) → Apart ps pss → Calls ops 0 ps fs → Calls ops' 0 ps fs

load_pipelines-AllLoaded :
    (mods : Modules) (ops : List WasmOp) (pss fss : List (List ℕ))
    → AllLoadable mods ops pss fss
    → AllLoaded ops pss fss (load_pipelines mods pss ops)
unfolding load_pipelines
load_pipelines-AllLoaded mods ops [] [] no_pipeline = record {
  ops' = ops;
  returns = refl;
  calls = no_calls;
  keeps = λ ps fs a c. c;
}
load_pipelines-AllLoaded mods ops [] (fs ∷ fss) l = elim l [ ]
load_pipelines-AllLoaded mods ops (ps ∷ pss) [] l = elim l [ ]
load_pipelines-AllLoaded mods ops (ps ∷ pss) (fs ∷ fss) (one_pipeline _ _ _ _ l apart rest) =
    let here = load_pipeline-Loaded mods 0 ops ps fs l in
    let next =
      load_pipelines-AllLoaded mods here.ops' pss fss
        (AllLoadable-keep mods ops here.ops' ps pss fss here.keeps apart rest) in
    record {
      ops' = next.ops';
      returns = rw here.returns next.returns;
      calls = one_calls ps fs pss fss (next.keeps ps fs apart here.calls) next.calls;
      keeps =
          λ qs gs a c. next.keeps qs gs a.2 (Calls-keep ops here.ops' 0 ps qs gs here.keeps a.0 c);
    }

collect_ids-Calls :
    (mods : Modules) (pointers : ℕ → Option ℕ) (ops : List WasmOp) (j : ℕ) (ps fs : List ℕ)
    → Calls ops j ps fs
    → (ids : List ℕ) × (collect_ids mods pointers ops ps ≡ some ids)
unfolding collect_ids
collect_ids-Calls mods pointers ops _ _ _ (no_call j) = ([], refl)
collect_ids-Calls mods pointers ops _ _ _ (one_call j p f ps fs op got h i r rest) =
    let (ids, eq) = collect_ids-Calls mods pointers ops (j + 1) ps fs rest in
    (
      elim op.code [
        | OpCode.proxy_wasm_code ↦ mods.filter_id op.filter (pointers op.filter) ∷ ids
        | _ ↦ ids
      ],
      simp (got, eq),
    )

AllCalls-get :
    (ops : List WasmOp) (pss fss : List (List ℕ)) (i : ℕ) (ps : List ℕ)
    → AllCalls ops pss fss
    → get_elem? pss i ≡ some ps
    → (fs : List ℕ) × Calls ops 0 ps fs
AllCalls-get ops [] [] i ps no_calls got = absurd (ground arith)
AllCalls-get ops [] (fs ∷ fss) i ps l got = elim l [ ]
AllCalls-get ops (qs ∷ pss) [] i ps l got = elim l [ ]
AllCalls-get ops (qs ∷ pss) (fs ∷ fss) zero ps (one_calls _ _ _ _ c rest) got =
    (fs, subst (λ x. Calls ops 0 x fs) (some-injective _ _ got) c)
AllCalls-get ops (qs ∷ pss) (fs ∷ fss) (suc i) ps (one_calls _ _ _ _ c rest) got =
    AllCalls-get ops pss fss i ps rest got

plan_load_eq :
    (mods : Modules) (rewrite : ℕ) (plan : Plan) (rewrite_ops : List ℕ) (ops' : List WasmOp)
    (ids : List ℕ)
    → plan.loaded ≡ false
    → load_pipelines mods plan.pipelines plan.ops ≡ some (OpRc.ok, ops')
    → get_elem? plan.pipelines rewrite ≡ some rewrite_ops
    → collect_ids mods plan.filter_data ops' rewrite_ops ≡ some ids
    → plan_load mods rewrite plan
      ≡ some (OpRc.ok, record plan { ops = ops'; filter_ids = ids; loaded = true })
unfolding plan_load
plan_load_eq mods rewrite plan rewrite_ops ops' ids fresh loads got eq =
    simp (fresh, loads, got, eq)

-- A plan of calls whose modules are linked and have their functions is loaded: each pipeline holds
-- the calls of its functions, each with its place in the pipeline for an index; the pipelines stay.
-- To load the plan again changes nothing.
pub plan_load-AllCalls :
    (mods : Modules) (rewrite : ℕ) (plan : Plan) (rewrite_ops : List ℕ) (fss : List (List ℕ))
    → plan.loaded ≡ false
    → AllLoadable mods plan.ops plan.pipelines fss
    → get_elem? plan.pipelines rewrite ≡ some rewrite_ops
    → (plan' : Plan) × (plan_load mods rewrite plan ≡ some (OpRc.ok, plan'))
      × AllCalls plan'.ops plan'.pipelines fss
      × (plan'.pipelines ≡ plan.pipelines)
      × (plan_load mods rewrite plan' ≡ some (OpRc.ok, plan'))
unfolding plan_load
plan_load-AllCalls mods rewrite plan rewrite_ops fss fresh l got =
    let r = load_pipelines-AllLoaded mods plan.ops plan.pipelines fss l in
    let (fs, c) = AllCalls-get r.ops' plan.pipelines fss rewrite rewrite_ops r.calls got in
    let (ids, eq) = collect_ids-Calls mods plan.filter_data r.ops' 0 rewrite_ops fs c in
    (
      record plan { ops = r.ops'; filter_ids = ids; loaded = true },
      plan_load_eq mods rewrite plan rewrite_ops r.ops' ids fresh r.returns got eq,
      r.calls,
      refl,
      refl,
    )
