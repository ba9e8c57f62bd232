-- ===== src/Metrics/Store/Realloc.antt =====
-- ngx_wa_metrics.c: the metrics of an old configuration, defined again in a new store.
use ngx_wasm_module.Common.{
  ℕ, ◌<◌, ◌≤◌, ◌≡◌, ◌∙◌, ap, sym, refl, ◌%◌, u64_mod, arith, length, replicate, length-replicate,
  le→ltb, Bool, true, Option, none, some, List, ◌∷◌, ◌==◌, ◌>>=◌, Rc,
}
use ngx_wasm_module.Metrics.Histogram.{Histogram, Memcpy, histogram_get}
use ngx_wasm_module.Metrics.Store.{
  Metric, MetricType, Metrics, counters, gauges, histograms, counter, gauge, histogram, store, get,
  counter_value, get_counter, get_gauge, define, increment, record_value,
}
use ngx_wasm_module.Metrics.Store.Values.{
  slots_sum, get-increment, get_counter_lem, slots_sum-replicate,
}

-- The old store's tree as it is walked; `sentinel` ends a branch.
pub data OldTree : Type 0 where
  sentinel : OldTree
  node : OldTree → List ℕ → Metric → OldTree → OldTree

abbrev pub type_of : Metric → MetricType
type_of (counters slots) = counter
type_of (gauges slots) = gauge
type_of (histograms hs) = histogram

-- `realloc_histogram`: the old slots merged into the new metric's first.
pub realloc_histogram : Memcpy → ℕ → Metrics → List Histogram → ℕ → Option (Rc × Metrics)
realloc_histogram memcpy old_workers ms old mid = elim (ms.table mid) [
  | none ↦ some (Rc.declined, ms)
  | some (histograms (h ∷ hs)) ↦ histogram_get memcpy old_workers old h >>= λ h'.
      some (Rc.ok, store ms mid (histograms (h' ∷ hs)))
  | some m ↦ none
]

-- The `switch` of `realloc_metrics`
pub realloc_value : Memcpy → ℕ → ℕ → ℕ → Metrics → Metric → ℕ → Option (Rc × Metrics)
realloc_value memcpy old_workers now slot ms (counters slots) mid =
    get_counter old_workers slots >>= λ v. increment ms slot mid v
realloc_value memcpy old_workers now slot ms (gauges slots) mid =
    get_gauge old_workers slots >>= λ v. record_value memcpy true now ms slot mid v
realloc_value memcpy old_workers now slot ms (histograms hs) mid =
    realloc_histogram memcpy old_workers ms hs mid

-- Any code but NGX_OK ends the walk with NGX_ERROR.
abbrev pub on_ok : (Metrics → Option (Rc × Metrics)) → Rc × Metrics → Option (Rc × Metrics)
on_ok next (Rc.ok, ms) = next ms
on_ok next (_, ms) = some (Rc.error, ms)

abbrev pub on_defined :
    (ℕ → Metrics → Option (Rc × Metrics)) → Rc × Option ℕ × Metrics → Option (Rc × Metrics)
on_defined next (Rc.ok, some mid, ms) = next mid ms
on_defined next (_, _, ms) = some (Rc.error, ms)

-- One node of `realloc_metrics`; `rooms` and `room` say what the slab grants.
pub realloc_node :
    Memcpy
    → (List ℕ → ℕ)
    → List Bool
    → Bool
    → ℕ
    → ℕ
    → ℕ
    → Metrics
    → List ℕ
    → Metric
    → Option (Rc × Metrics)
realloc_node memcpy crc32 rooms room old_workers now slot ms name m =
    on_defined
      (λ mid ms'.
        realloc_value memcpy old_workers now slot ms' m mid >>= on_ok (λ ms''. some (Rc.ok, ms'')))
      (define crc32 ms name (type_of m) none rooms room)

-- `realloc_metrics`: the node, then its left branch, then its right; an error ends it.
pub realloc_metrics :
    Memcpy
    → (List ℕ → ℕ)
    → (List ℕ → List Bool)
    → (List ℕ → Bool)
    → ℕ
    → ℕ
    → ℕ
    → Metrics
    → OldTree
    → Option (Rc × Metrics)
realloc_metrics memcpy crc32 rooms room old_workers now slot ms sentinel = some (Rc.ok, ms)
realloc_metrics memcpy crc32 rooms room old_workers now slot ms (node l name m r) =
    realloc_node memcpy crc32 (rooms name) (room name) old_workers now slot ms name m
    >>= on_ok (λ ms1.
      realloc_metrics memcpy crc32 rooms room old_workers now slot ms1 l
      >>= on_ok (λ ms2.
        realloc_metrics memcpy crc32 rooms room old_workers now slot ms2 r
        >>= on_ok (λ ms3. some (Rc.ok, ms3))))

-- A counter of an old store with one slot for each of its workers, defined anew in a store that
-- does not have it, whose names may be as long as the counter's and where the process has a
-- slot, reads there as it reads in the old store: the sum of its slots modulo 2^64, whatever the
-- two numbers of workers.
pub realloc_node_counter :
    (memcpy : Memcpy) (crc32 : List ℕ → ℕ) (rooms : List Bool) (now slot : ℕ) (old ms : Metrics)
    (name slots : List ℕ) (out : Histogram)
    → old.table (crc32 name) ≡ some (counters slots)
    → length slots ≡ old.workers
    → ms.table (crc32 name) ≡ none
    → length name ≤ ms.max_metric_name_length
    → slot < ms.workers
    → (ms' : Metrics) × (realloc_node memcpy crc32 rooms true old.workers now slot ms name
          (counters slots)
        ≡ some (Rc.ok, ms'))
      × (get memcpy ms' (crc32 name) out ≡ get memcpy old (crc32 name) out)
      × (get memcpy ms' (crc32 name) out
          ≡ some (Rc.ok, some (counter_value (slots_sum slots % u64_mod))))
unfolding realloc_node realloc_value define get
realloc_node_counter memcpy crc32 rooms now slot old ms name slots out held size absent short lt =
    let mid = crc32 name in
    let here : (mid == mid) ≡ true = ground arith in
    let zeros = replicate ms.workers 0 in
    let fresh = store ms mid (counters zeros) in
    let many : length zeros ≡ ms.workers = length-replicate {A = ℕ} ms.workers 0 in
    let sum = slots_sum slots % u64_mod in
    let total = get_counter_lem old.workers slots size in
    let (ms', done, _, value, _) =
      get-increment memcpy fresh slot mid sum zeros out (rw here refl) many (omega (arith, many)) in
    let after : get memcpy ms' mid out ≡ some (Rc.ok, some (counter_value sum)) =
      value
      ∙ ap (λ v. some (Rc.ok, some (counter_value v)))
          (omega (arith, slots_sum-replicate ms.workers)) in
    (
      ms',
      rw
          (
            realloc_node,
            define,
            le→ltb ms.max_metric_name_length (length name) short,
            absent,
            total,
            done,
          )
          refl,
      after ∙ sym (rw (get, held, total) refl),
      after,
    )
