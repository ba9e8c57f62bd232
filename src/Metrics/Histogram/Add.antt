-- ===== src/Metrics/Histogram/Add.antt =====
-- ngx_wa_metrics_histogram_add_locked: the histograms that a new metric starts with.
use ngx_wasm_module.Common.{
  ℕ, zero, suc, ◌+◌, ◌-◌, ◌≤◌, ◌==◌, modify, ◌≡◌, ◌∙◌, ap, sym, refl, Bool, true, false, arith,
  if◌then◌else◌, List, [], ◌∷◌, ◌++◌, append-nil, inl, inr, length, replicate, none, some, Option,
  Rc,
}
use ngx_wasm_module.Metrics.Histogram.{
  Histogram, Slot, null, freed, held, free_slot, free_slots, bound_bins, too_many_bins,
  new_histogram, add_slots, histogram_add_locked,
}
use ngx_wasm_module.Metrics.Histogram.Insert.{HasTop}
use ngx_wasm_module.Metrics.Histogram.Merge.{IsOpen}

HasTop-bound_bins : (bounds : List ℕ) → HasTop (bound_bins bounds)
HasTop-bound_bins [] = inl refl
HasTop-bound_bins (u ∷ bounds) = inr (HasTop-bound_bins bounds)

length-bound_bins : (bounds : List ℕ) → length (bound_bins bounds) ≡ length bounds + 1
length-bound_bins [] = omega arith
length-bound_bins (u ∷ bounds) = omega (arith, length-bound_bins bounds)

new_histogram-IsOpen :
    (bounds : Option (List ℕ)) → too_many_bins bounds ≡ false → IsOpen (new_histogram bounds).bins
unfolding new_histogram
new_histogram-IsOpen none h = record { has_top = inl refl; size = omega arith }
new_histogram-IsOpen (some bounds) h = record {
  has_top = HasTop-bound_bins bounds;
  size = ground (arith, length-bound_bins bounds);
}

-- The allocations up to the first that fails.
abbrev pub granted : List Bool → ℕ
granted [] = 0
granted (r ∷ rooms) = if r then granted rooms + 1 else 0

abbrev pub all_room : List Bool → Bool
all_room rooms = granted rooms == length rooms

-- `n` slots with the histogram, or `g` slots freed and `l` that stay NULL.
abbrev pub filled_or_freed : Histogram → Bool → ℕ → ℕ → ℕ → Rc × List Slot
filled_or_freed h filled n g l =
    if filled
    then (Rc.ok, replicate n (held h))
    else (Rc.error, replicate g freed ++ replicate l null)

filled_or_freed_same :
    (h : Histogram) (filled filled' : Bool) (n n' g g' l l' : ℕ)
    → filled ≡ filled'
    → n ≡ n'
    → g ≡ g'
    → l ≡ l'
    → filled_or_freed h filled n g l ≡ filled_or_freed h filled' n' g' l'
filled_or_freed_same h filled filled' n n' g g' l l' ef en eg el = rw (ef, en, eg, el) refl

-- The outcome of the loop behind `i` slots that are filled.
abbrev slots_after : Histogram → ℕ → List Bool → Rc × List Slot
slots_after h i rooms =
    filled_or_freed h (all_room rooms) (i + length rooms) (i + granted rooms)
      (length rooms - granted rooms)

replicate-append_next :
    {A : Type 0} (n : ℕ) (x : A) (ys : List A) → replicate n x ++ x ∷ ys ≡ x ∷ (replicate n x ++ ys)
replicate-append_next zero x ys = refl
replicate-append_next (suc n) x ys = ap (◌∷◌ x) (replicate-append_next n x ys)

modify_next :
    {A : Type 0} (f : A → A) (n : ℕ) (x y : A) (ys : List A)
    → modify f n (replicate n x ++ y ∷ ys) ≡ replicate n x ++ f y ∷ ys
modify_next f zero x y ys = refl
modify_next f (suc n) x y ys = ap (◌∷◌ x) (modify_next f n x y ys)

free_slots_lem :
    (h : Histogram) (i : ℕ) (ys : List Slot)
    → free_slots i (replicate i (held h) ++ ys) ≡ replicate i freed ++ ys
unfolding free_slots
free_slots_lem h zero ys = refl
free_slots_lem h (suc i) ys =
    ap (λ l. free_slots i (modify free_slot i l)) (sym (replicate-append_next i (held h) ys))
    ∙ ap (free_slots i) (modify_next free_slot i (held h) (held h) ys)
    ∙ free_slots_lem h i (freed ∷ ys)
    ∙ replicate-append_next i freed ys

granted_le : (rooms : List Bool) → granted rooms ≤ length rooms
granted_le [] = omega arith
granted_le (r ∷ rooms) = ground (arith, granted_le rooms)

slots_after_next :
    (h : Histogram) (i : ℕ) (rooms : List Bool)
    → slots_after h (i + 1) rooms ≡ slots_after h i (true ∷ rooms)
slots_after_next h i rooms =
    filled_or_freed_same h _ _ _ _ _ _ _ _ (ground arith) (omega arith) (omega arith) (omega arith)

add_slots_lem :
    (bounds : Option (List ℕ)) (rooms : List Bool) (i : ℕ)
    → add_slots bounds rooms i
        (replicate i (held (new_histogram bounds)) ++ replicate (length rooms) null)
      ≡ slots_after (new_histogram bounds) i rooms
unfolding add_slots
add_slots_lem bounds [] i =
    ap (λ l. (Rc.ok, l))
      (append-nil (replicate i (held (new_histogram bounds)))
        ∙ ap (λ n. replicate n (held (new_histogram bounds))) (omega arith))
add_slots_lem bounds (false ∷ rooms) i =
    let h = held (new_histogram bounds) in
    let nulls : List Slot = replicate (length rooms) null in
    ap (λ l. (Rc.error, free_slots i l)) (modify_next (λ _. null) i h null nulls)
    ∙ ap (λ l. (Rc.error, l)) (free_slots_lem (new_histogram bounds) i (null ∷ nulls))
    ∙ filled_or_freed_same (new_histogram bounds) false (0 == suc (length rooms))
        (i + suc (length rooms)) _ i (i + 0) (suc (length rooms)) (suc (length rooms) - 0)
        (ground arith) refl (omega arith) (omega arith)
add_slots_lem bounds (true ∷ rooms) i =
    let h = held (new_histogram bounds) in
    let nulls : List Slot = replicate (length rooms) null in
    ap (add_slots bounds rooms (i + 1)) (
      modify_next (λ _. h) i h null nulls
      ∙ replicate-append_next i h nulls
      ∙ ap (λ n. replicate n h ++ nulls) {x = suc i} (omega arith))
    ∙ add_slots_lem bounds rooms (i + 1)
    ∙ slots_after_next (new_histogram bounds) i rooms

-- With 18 bounds or more a new metric is refused and every slot stays NULL. With fewer, each
-- worker's slot gets the same new histogram, of at most 18 bins with one without bound, if every
-- allocation succeeds; at the first that fails the code is NGX_ERROR, each slot filled before
-- was freed exactly once, and the other slots are NULL.
pub histogram_add_locked_lem :
    (bounds : Option (List ℕ)) (rooms : List Bool)
    → (histogram_add_locked bounds rooms ≡ (
        if too_many_bins bounds
        then (Rc.abort, replicate (length rooms) null)
        else if all_room rooms
        then (Rc.ok, replicate (length rooms) (held (new_histogram bounds)))
        else (
          Rc.error,
          replicate (granted rooms) freed ++ replicate (length rooms - granted rooms) null,
        )))
      × (too_many_bins bounds ≡ false → IsOpen (new_histogram bounds).bins)
unfolding histogram_add_locked
histogram_add_locked_lem bounds rooms = (
  ap (λ r. if too_many_bins bounds then (Rc.abort, replicate (length rooms) null) else r)
      (add_slots_lem bounds rooms 0
        ∙ filled_or_freed_same (new_histogram bounds) _ _ _ _ _ _ _ _ refl (omega arith)
            (omega arith) refl),
  new_histogram-IsOpen bounds,
)
