-- ===== src/Wasm/Ops/Add.antt =====
-- ngx_wasm_ops_plan_add: the pipeline of a phase gets the operations that are on in it, in order.
use Prim.Native.Nat.{bit_and}
use ngx_wasm_module.Common.{
  ℕ, ◌<◌, ◌≡◌, inl, inr, refl, sym, ap, ◌∙◌, Bool, true, false, ◌&&◌, ◌||◌, not, Option, none, some,
  List, [], ◌∷◌, ◌++◌, append_assoc, append-nil, arith, length, modify, length-modify, get_elem?,
  get_elem?-some, get_elem?-modify_same, get_elem?-modify_other, ◌==◌, if◌then◌else◌, Bool-cases,
}
use mathlib.Core.Path.{subst}
use ngx_wasm_module.Wasm.Ops.{
  OpCode, call_code, proxy_wasm_code, other_code, point_at, set_filter_data, OpRc, WasmOp,
  WasmPhase, Plan, push_op, add_op, plan_add,
}

-- The operation `p` for the phase `i`: once for each phase of that index in which it is on.
abbrev pub places : ℕ → WasmOp → ℕ → List WasmPhase → List ℕ
places i op p [] = []
places i op p (phase ∷ phases) =
    if phase.index == i && not (bit_and op.on_phases phase.on == 0)
    then p ∷ places i op p phases
    else places i op p phases

-- The operations of a list that are on in the phase `i`; one that is not in the store has no place.
abbrev pub op_places : ℕ → List WasmOp → List WasmPhase → ℕ → List ℕ
op_places i ops phases p = elim (get_elem? ops p) [ none ↦ [] | some op ↦ places i op p phases ]

abbrev pub all_places : ℕ → List WasmOp → List WasmPhase → List ℕ → List ℕ
all_places i ops phases [] = []
all_places i ops phases (p ∷ ps) = op_places i ops phases p ++ all_places i ops phases ps

-- The filter of a Proxy-Wasm operation.
abbrev pub is_filter_of : OpCode → ℕ → ℕ → Bool
is_filter_of proxy_wasm_code filter f = f == filter
is_filter_of _ filter f = false

abbrev pub any_on : WasmOp → List WasmPhase → Bool
any_on op [] = false
any_on op (phase ∷ phases) = not (bit_and op.on_phases phase.on == 0) || any_on op phases

-- The data of the filter `f` after the operation `p` was added: a pointer into the operation, if it
-- is for that filter and on in some phase.
abbrev pub data_after : WasmOp → ℕ → List WasmPhase → ℕ → Option ℕ → Option ℕ
data_after op p phases f old =
    if any_on op phases && is_filter_of op.code op.filter f then some p else old

abbrev pub op_data_after : List WasmOp → ℕ → List WasmPhase → ℕ → Option ℕ → Option ℕ
op_data_after ops p phases f old = elim (get_elem? ops p) [
  | none ↦ old
  | some op ↦ data_after op p phases f old
]

-- The last operation of the list for the filter counts.
abbrev pub all_data_after : List WasmOp → List ℕ → List WasmPhase → ℕ → Option ℕ → Option ℕ
all_data_after ops [] phases f old = old
all_data_after ops (p ∷ ps) phases f old =
    all_data_after ops ps phases f (op_data_after ops p phases f old)

-- Operations were added to a plan.
pub record Added (new : ℕ → List ℕ) (pointer : ℕ → Option ℕ → Option ℕ) (plan : Plan)
    (r : Option (OpRc × Plan)) : Type 0 where
  pub plan' : Plan
  pub returns : r ≡ some (OpRc.ok, plan')
  pub ops : plan'.ops ≡ plan.ops
  pub size : length plan'.pipelines ≡ length plan.pipelines
  pub filters : (f : ℕ) → plan'.filter_data f ≡ pointer f (plan.filter_data f)
  pub pipeline :
      (i : ℕ) (old : List ℕ)
      → get_elem? plan.pipelines i ≡ some old
      → get_elem? plan'.pipelines i ≡ some (old ++ new i)

abbrev pub AllInside : List WasmPhase → ℕ → Type 0
AllInside [] n = Unit {0}
AllInside (phase ∷ phases) n = (phase.index < n) × AllInside phases n

-- The operations are in the store.
abbrev pub AllFound : List WasmOp → List ℕ → Type 0
AllFound ops [] = Unit {0}
AllFound ops (p ∷ ps) = ((op : WasmOp) × (get_elem? ops p ≡ some op)) × AllFound ops ps

get_elem?-modify_append :
    (p i j : ℕ) (pss : List (List ℕ)) (old : List ℕ)
    → get_elem? pss j ≡ some old
    → get_elem? (modify (λ ps. ps ++ p ∷ []) i pss) j
      ≡ some (old ++ (if i == j then p ∷ [] else []))
get_elem?-modify_append p i j pss old h = elim (Bool-cases (i == j)) [
  | inl t ↦
      (let same : i ≡ j = ground arith in
        rw (t, same) (get_elem?-modify_same (λ ps. ps ++ p ∷ []) j old pss h))
  | inr f ↦
      rw (f, append-nil old)
        (get_elem?-modify_other (λ ps. ps ++ p ∷ []) i j pss (λ e. absurd (ground arith)) ∙ h)
]

AllInside-size :
    (phases : List WasmPhase) (n m : ℕ) → n ≡ m → AllInside phases n → AllInside phases m
AllInside-size phases n m eq = subst (AllInside phases) eq

places_off :
    (i : ℕ) (op : WasmOp) (p : ℕ) (phase : WasmPhase) (phases : List WasmPhase)
    → (bit_and op.on_phases phase.on == 0) ≡ true
    → places i op p (phase ∷ phases) ≡ places i op p phases
places_off i op p phase phases off = rw (off, and_false (phase.index == i)) refl
  where
    and_false : (b : Bool) → (b && false) ≡ false
    and_false b = ground arith

places_on :
    (i : ℕ) (op : WasmOp) (p : ℕ) (phase : WasmPhase) (phases : List WasmPhase)
    → (bit_and op.on_phases phase.on == 0) ≡ false
    → places i op p (phase ∷ phases)
      ≡ (if phase.index == i then p ∷ [] else []) ++ places i op p phases
places_on i op p phase phases on = elim (Bool-cases (phase.index == i)) [
  | inl t ↦ rw (on, t) refl
  | inr f ↦ rw (on, f) refl
]

data_after_off :
    (op : WasmOp) (p : ℕ) (phase : WasmPhase) (phases : List WasmPhase) (f : ℕ) (old : Option ℕ)
    → (bit_and op.on_phases phase.on == 0) ≡ true
    → data_after op p (phase ∷ phases) f old ≡ data_after op p phases f old
data_after_off op p phase phases f old off = rw off refl

point_at_lem :
    (code : OpCode) (filter p f : ℕ) (pointers : ℕ → Option ℕ) (later : Bool)
    → (if later && is_filter_of code filter f then some p else point_at code filter p pointers f)
      ≡ (if is_filter_of code filter f then some p else pointers f)
point_at_lem call_code filter p f pointers later = ground arith
point_at_lem proxy_wasm_code filter p f pointers later = ground arith
point_at_lem (other_code n) filter p f pointers later = ground arith

data_after_on :
    (op : WasmOp) (p : ℕ) (phase : WasmPhase) (phases : List WasmPhase) (f : ℕ)
    (pointers : ℕ → Option ℕ)
    → (bit_and op.on_phases phase.on == 0) ≡ false
    → data_after op p phases f (point_at op.code op.filter p pointers f)
      ≡ data_after op p (phase ∷ phases) f (pointers f)
data_after_on op p phase phases f pointers on =
    rw on (point_at_lem op.code op.filter p f pointers (any_on op phases))

module _ (room : ℕ → ℕ → Bool) (granted : (i n : ℕ) → room i n ≡ true) where
  add_op_off :
      (phase : WasmPhase) (phases : List WasmPhase) (p : ℕ) (op : WasmOp) (plan : Plan)
      (ps : List ℕ)
      → get_elem? plan.ops p ≡ some op
      → get_elem? plan.pipelines phase.index ≡ some ps
      → (bit_and op.on_phases phase.on == 0) ≡ true
      → add_op room (phase ∷ phases) p plan ≡ add_op room phases p plan
  unfolding add_op
  add_op_off phase phases p op plan ps got here off = rw (got, here, off) refl

  add_op_on :
      (phase : WasmPhase) (phases : List WasmPhase) (p : ℕ) (op : WasmOp) (plan : Plan)
      (ps : List ℕ)
      → get_elem? plan.ops p ≡ some op
      → get_elem? plan.pipelines phase.index ≡ some ps
      → (bit_and op.on_phases phase.on == 0) ≡ false
      → add_op room (phase ∷ phases) p plan
        ≡ add_op room phases p (push_op phase.index p (set_filter_data p op plan))
  unfolding add_op
  add_op_on phase phases p op plan ps got here on =
      rw (got, here, on, granted phase.index (length ps)) refl

  add_op-Added :
      (phases : List WasmPhase) (p : ℕ) (op : WasmOp) (plan : Plan)
      → get_elem? plan.ops p ≡ some op
      → AllInside phases (length plan.pipelines)
      → Added (λ i. places i op p phases) (data_after op p phases) plan (add_op room phases p plan)
  unfolding add_op
  add_op-Added [] p op plan got inside = record {
    plan' = plan;
    returns = refl;
    ops = refl;
    size = refl;
    filters = λ f. refl;
    pipeline = λ i old h. h ∙ ap some (sym (append-nil old));
  }
  add_op-Added (phase ∷ phases) p op plan got inside =
      let (ps, here) = get_elem?-some phase.index plan.pipelines inside.0 in
      let plan1 = push_op phase.index p (set_filter_data p op plan) in
      let size1 = length-modify (λ qs. qs ++ p ∷ []) phase.index plan.pipelines in
      let skipped = add_op-Added phases p op plan got inside.1 in
      let pushed =
        add_op-Added phases p op plan1 got (AllInside-size phases _ _ (sym size1) inside.1) in
      elim (Bool-cases (bit_and op.on_phases phase.on == 0)) [
        | inl off ↦ record {
          plan' = skipped.plan';
          returns = add_op_off phase phases p op plan ps got here off ∙ skipped.returns;
          ops = skipped.ops;
          size = skipped.size;
          filters = λ f.
              skipped.filters f ∙ sym (data_after_off op p phase phases f (plan.filter_data f) off);
          pipeline = λ i old h.
              skipped.pipeline i old h
              ∙ ap (λ xs. some (old ++ xs)) (sym (places_off i op p phase phases off));
        }
        | inr on ↦ record {
          plan' = pushed.plan';
          returns = add_op_on phase phases p op plan ps got here on ∙ pushed.returns;
          ops = pushed.ops;
          size = pushed.size ∙ size1;
          filters = λ f. pushed.filters f ∙ data_after_on op p phase phases f plan.filter_data on;
          pipeline = λ i old h.
              pushed.pipeline i (old ++ (if phase.index == i then p ∷ [] else []))
                (get_elem?-modify_append p phase.index i plan.pipelines old h)
              ∙ ap some (
                  append_assoc old (if phase.index == i then p ∷ [] else []) (places i op p phases)
                  ∙ ap (◌++◌ old) (sym (places_on i op p phase phases on)));
        }
      ]

  plan_add_ok :
      (phases : List WasmPhase) (p : ℕ) (ps : List ℕ) (plan plan' : Plan)
      → add_op room phases p plan ≡ some (OpRc.ok, plan')
      → plan_add room phases (p ∷ ps) plan ≡ plan_add room phases ps plan'
  unfolding plan_add
  plan_add_ok phases p ps plan plan' eq = rw eq refl

  -- In a plan with a pipeline for every phase, and where the arrays have room, adding a list of
  -- operations of the store puts behind each phase's pipeline the operations of the list that
  -- are on in the phase, in order, sets each filter's data to point into the last Proxy-Wasm
  -- operation of the list for that filter that is on in some phase, and changes neither the
  -- operations themselves nor the data of other filters.
  pub plan_add-Added :
      (phases : List WasmPhase) (ps : List ℕ) (plan : Plan)
      → AllInside phases (length plan.pipelines)
      → AllFound plan.ops ps
      → Added
          (λ i. all_places i plan.ops phases ps)
          (all_data_after plan.ops ps phases)
          plan
          (plan_add room phases ps plan)
  unfolding plan_add
  plan_add-Added phases [] plan inside found = record {
    plan' = plan;
    returns = refl;
    ops = refl;
    size = refl;
    filters = λ f. refl;
    pipeline = λ i old h. h ∙ ap some (sym (append-nil old));
  }
  plan_add-Added phases (p ∷ ps) plan inside ((op, got), found) =
      let first = add_op-Added phases p op plan got inside in
      let rest =
        plan_add-Added phases ps first.plan' (AllInside-size phases _ _ (sym first.size) inside)
          (subst (λ os. AllFound os ps) (sym first.ops) found) in
      record {
        plan' = rest.plan';
        returns = plan_add_ok phases p ps plan first.plan' first.returns ∙ rest.returns;
        ops = rest.ops ∙ first.ops;
        size = rest.size ∙ first.size;
        filters = λ f.
            rest.filters f
            ∙ ap (λ os. all_data_after os ps phases f (first.plan'.filter_data f)) first.ops
            ∙ ap (all_data_after plan.ops ps phases f) (
                first.filters f
                ∙ ap
                    (λ o. elim o [
                      | none ↦ plan.filter_data f
                      | some x ↦ data_after x p phases f (plan.filter_data f)
                    ])
                    (sym got));
        pipeline = λ i old h.
            rest.pipeline i (old ++ places i op p phases) (first.pipeline i old h)
            ∙ ap some (
                append_assoc old (places i op p phases) (all_places i first.plan'.ops phases ps)
                ∙ ap (◌++◌ old) (
                    ap (λ os. places i op p phases ++ all_places i os phases ps) first.ops
                    ∙ ap
                        (λ o.
                          elim o [ none ↦ [] | some x ↦ places i x p phases ]
                          ++ all_places i plan.ops phases ps)
                        (sym got)));
      }
