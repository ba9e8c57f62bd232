-- ===== src/Wasm/Ops/Load.antt =====
-- ngx_wasm_ops_plan_load: the pipelines of a loaded plan hold calls that can run.
use ngx_wasm_module.Common.{
  ℕ, ◌+◌, ◌≡◌, ◌≢◌, refl, sym, ap, ◌∙◌, true, Option, some, List, [], ◌∷◌, modify, get_elem?,
  get_elem?-modify_same, get_elem?-modify_other,
}
use ngx_wasm_module.Wasm.Ops.{OpCode, OpRc, WasmOp, Modules, load_op, load_pipeline}
use ngx_wasm_module.Wasm.Ops.Call.{Calls, no_call, one_call}

-- A call whose module is linked and has the function `f`.
pub record IsLoadable (mods : Modules) (ops : List WasmOp) (p f : ℕ) : Type 0 where
  pub op : WasmOp
  pub found : get_elem? ops p ≡ some op
  pub code : op.code ≡ OpCode.call_code
  pub linked : mods.link op.wasm_module op.host ≡ true
  pub function : mods.func_lookup op.wasm_module op.func_name ≡ some f

-- No operation occurs twice.
abbrev pub IsAbsent : ℕ → List ℕ → Type 0
IsAbsent p [] = Unit {0}
IsAbsent p (q ∷ ps) = (p ≢ q) × IsAbsent p ps

pub data Loadable (mods : Modules) (ops : List WasmOp) : List ℕ → List ℕ → Type 0 where
  no_op : Loadable mods ops [] []
  one_op :
      (p f : ℕ) (ps fs : List ℕ)
      → IsLoadable mods ops p f
      → IsAbsent p ps
      → Loadable mods ops ps fs
      → Loadable mods ops (p ∷ ps) (f ∷ fs)

-- An operation of another pipeline stays.
unfoldable pub Keeps : List WasmOp → List WasmOp → List ℕ → Type 0
Keeps ops ops' ps = (q : ℕ) → IsAbsent q ps → get_elem? ops' q ≡ get_elem? ops q

IsLoadable-keep :
    (mods : Modules) (ops ops' : List WasmOp) (p f : ℕ)
    → get_elem? ops' p ≡ get_elem? ops p
    → IsLoadable mods ops p f
    → IsLoadable mods ops' p f
IsLoadable-keep mods ops ops' p f same l = record {
  op = l.op;
  found = same ∙ l.found;
  code = l.code;
  linked = l.linked;
  function = l.function;
}

abbrev pub AllAbsent : List ℕ → List ℕ → Type 0
AllAbsent [] qs = Unit {0}
AllAbsent (p ∷ ps) qs = IsAbsent p qs × AllAbsent ps qs

pub Loadable-keep :
    (mods : Modules) (ops ops' : List WasmOp) (qs ps fs : List ℕ)
    → Keeps ops ops' qs
    → AllAbsent ps qs
    → Loadable mods ops ps fs
    → Loadable mods ops' ps fs
unfolding Keeps
Loadable-keep mods ops ops' qs _ _ k a no_op = no_op
Loadable-keep mods ops ops' qs _ _ k a (one_op p f ps fs l absent rest) =
    one_op p f ps fs (IsLoadable-keep mods ops ops' p f (k p a.0) l) absent
      (Loadable-keep mods ops ops' qs ps fs k a.1 rest)

pub Calls-keep :
    (ops ops' : List WasmOp) (j : ℕ) (qs ps fs : List ℕ)
    → Keeps ops ops' qs
    → AllAbsent ps qs
    → Calls ops j ps fs
    → Calls ops' j ps fs
unfolding Keeps
Calls-keep ops ops' _ qs _ _ k a (no_call j) = no_call j
Calls-keep ops ops' _ qs _ _ k a (one_call j p f ps fs op got h i r rest) =
    one_call j p f ps fs op (k p a.0 ∙ got) h i r (Calls-keep ops ops' (j + 1) qs ps fs k a.1 rest)

AllAbsent-one : (p : ℕ) (ps : List ℕ) → IsAbsent p ps → AllAbsent ps (p ∷ [])
AllAbsent-one p [] a = tt
AllAbsent-one p (q ∷ ps) a = (((λ e. a.0 (sym e)), tt), AllAbsent-one p ps a.1)

-- What the load of a pipeline leaves.
pub record Loaded (ops : List WasmOp) (j : ℕ) (ps fs : List ℕ) (r : Option (OpRc × List WasmOp))
    : Type 0 where
  pub ops' : List WasmOp
  pub returns : r ≡ some (OpRc.ok, ops')
  pub calls : Calls ops' j ps fs
  pub keeps : Keeps ops ops' ps

abbrev loaded_op : ℕ → ℕ → WasmOp → WasmOp
loaded_op j f op = record op { handler = some OpCode.call_code; idx = j; funcref = some f }

load_op_call :
    (mods : Modules) (j f : ℕ) (op : WasmOp)
    → op.code ≡ OpCode.call_code
    → mods.link op.wasm_module op.host ≡ true
    → mods.func_lookup op.wasm_module op.func_name ≡ some f
    → load_op mods j op ≡ (OpRc.ok, loaded_op j f op)
unfolding load_op
load_op_call mods j f op code linked function = simp (linked, code, function)

load_pipeline_ok :
    (mods : Modules) (j p : ℕ) (ops : List WasmOp) (ps : List ℕ) (op op' : WasmOp)
    → get_elem? ops p ≡ some op
    → load_op mods j op ≡ (OpRc.ok, op')
    → load_pipeline mods (p ∷ ps) j ops ≡ load_pipeline mods ps (j + 1) (modify (λ _. op') p ops)
unfolding load_pipeline
load_pipeline_ok mods j p ops ps op op' got eq = rw got (
    ap
      (λ (r : OpRc × WasmOp). elim r.0 as (λ _. Option (OpRc × List WasmOp)) [
        | OpRc.ok ↦ load_pipeline mods ps (j + 1) (modify (λ _. r.1) p ops)
        | failed ↦ some (failed, modify (λ _. r.1) p ops)
      ])
      eq)

pub load_pipeline-Loaded :
    (mods : Modules) (j : ℕ) (ops : List WasmOp) (ps fs : List ℕ)
    → Loadable mods ops ps fs
    → Loaded ops j ps fs (load_pipeline mods ps j ops)
unfolding load_pipeline Keeps
load_pipeline-Loaded mods j ops [] [] no_op = record {
  ops' = ops;
  returns = refl;
  calls = no_call j;
  keeps = λ q a. refl;
}
load_pipeline-Loaded mods j ops [] (f ∷ fs) l = elim l [ ]
load_pipeline-Loaded mods j ops (p ∷ ps) [] l = elim l [ ]
load_pipeline-Loaded mods j ops (p ∷ ps) (f ∷ fs) (one_op _ _ _ _ l absent rest) =
    let op' = loaded_op j f l.op in
    let ops1 = modify (λ _. op') p ops in
    let kept : Keeps ops ops1 (p ∷ []) =
      λ q a. get_elem?-modify_other (λ _. op') p q ops (λ e. a.0 (sym e)) in
    let next =
      load_pipeline-Loaded mods (j + 1) ops1 ps fs
        (Loadable-keep mods ops ops1 (p ∷ []) ps fs kept (AllAbsent-one p ps absent) rest) in
    record {
      ops' = next.ops';
      returns =
          load_pipeline_ok mods j p ops ps l.op op' l.found
            (load_op_call mods j f l.op l.code l.linked l.function)
          ∙ next.returns;
      calls =
          one_call j p f ps fs op'
            (next.keeps p absent ∙ get_elem?-modify_same (λ _. op') p l.op ops l.found) refl refl
            refl next.calls;
      keeps = λ q a. next.keeps q a.1 ∙ kept q (a.0, tt);
    }
