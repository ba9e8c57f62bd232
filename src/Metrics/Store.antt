-- ===== src/Metrics/Store.antt =====
-- src/common/metrics/ngx_wa_metrics.c: defining, updating, reading and reallocating metrics.
-- A metric is a value of the zone's key-value store, found by the hash of its name; `table` is
-- what that store holds, and Boolean arguments say whether its pool has room. A slot behind the
-- last is a fault, `none`. Numbers are 64-bit words; a negative `n` is its two's complement.
pub mod Define
pub mod Values
pub mod Realloc
mod Tests
use ngx_wasm_module.Common.{
  ℕ, zero, suc, ◌+◌, ◌-◌, ◌%◌, Bool, true, false, Option, none, some, List, [], ◌∷◌, length, modify,
  get_or, replicate, ltb, ◌==◌, if◌then◌else◌, ◌>>=◌, Rc, u64_mod,
}
use ngx_wasm_module.Metrics.Histogram.{
  Histogram, Memcpy, Slot, null, held, freed, bad_free, histogram_record, histogram_get,
  histogram_add_locked,
}

-- `ngx_wa_metric_type_e`, with all that is none of its three.
pub data MetricType : Type 0 where
  counter gauge histogram unknown : MetricType

-- `ngx_wa_metrics_gauge_t`
pub record Gauge : Type 0 where
  pub value : ℕ
  pub last_update : ℕ

-- `ngx_wa_metric_t`: the type, and the slots of the workers.
pub data Metric : Type 0 where
  counters : List ℕ → Metric
  gauges : List Gauge → Metric
  histograms : List Histogram → Metric

-- `ngx_wa_metrics_t` and what its store holds under each identifier.
pub record Metrics : Type 0 where
  pub workers : ℕ
  pub max_metric_name_length : ℕ
  pub table : ℕ → Option Metric

abbrev pub store : Metrics → ℕ → Metric → Metrics
store ms mid m = record ms { table = λ k. if k == mid then some m else ms.table k }

-- `get_counter`, from the value `val` on
pub counter_from : ℕ → List ℕ → ℕ → Option ℕ
counter_from zero cs val = some val
counter_from (suc slots) [] val = none
counter_from (suc slots) (c ∷ cs) val = counter_from slots cs ((val + c) % u64_mod)

-- `get_counter` of the first `slots` slots
pub get_counter : ℕ → List ℕ → Option ℕ
unfolding counter_from
get_counter slots cs = counter_from slots cs 0

-- `get_gauge`, with the value and the time of the most recent slot so far
pub gauge_from : ℕ → List Gauge → Gauge → Option ℕ
gauge_from zero gs last = some last.value
gauge_from (suc slots) [] last = none
gauge_from (suc slots) (g ∷ gs) last =
    gauge_from slots gs (if ltb last.last_update g.last_update then g else last)

-- `get_gauge` of the first `slots` slots; the first is read in any case.
pub get_gauge : ℕ → List Gauge → Option ℕ
unfolding gauge_from
get_gauge slots [] = none
get_gauge slots (g ∷ gs) = gauge_from (slots - 1) gs g

-- The zeroed metric of a type; the histograms are those that the slab granted.
abbrev pub new_metric : ℕ → MetricType → List Histogram → Metric
new_metric workers counter hs = counters (replicate workers 0)
new_metric workers gauge hs = gauges (replicate workers (record { value = 0; last_update = 0 }))
new_metric workers histogram hs = histograms hs
new_metric workers unknown hs = counters []

abbrev pub is_known : MetricType → Bool
is_known unknown = false
is_known _ = true

-- The histograms that the slots point to.
abbrev pub held_in : List Slot → List Histogram
held_in [] = []
held_in (held h ∷ slots) = h ∷ held_in slots
held_in (_ ∷ slots) = held_in slots

-- The slots of a histogram; other types have none to allocate.
abbrev pub add_histograms : MetricType → Option (List ℕ) → List Bool → Rc × List Histogram
add_histograms histogram bounds rooms =
    let (rc, slots) = histogram_add_locked bounds rooms in (rc, held_in slots)
add_histograms _ bounds rooms = (Rc.ok, [])

-- `ngx_wa_metrics_define`: the code, the identifier, the metrics. `rooms` tells for each worker
-- whether the slab grants its histogram, `room` whether it grants the pair.
pub define :
    (List ℕ → ℕ)
    → Metrics
    → List ℕ
    → MetricType
    → Option (List ℕ)
    → List Bool
    → Bool
    → Rc × Option ℕ × Metrics
define crc32 ms name t bounds rooms room =
    let mid = crc32 name in
    let (rc, hs) = add_histograms t bounds rooms in
    if is_known t
    then if ltb ms.max_metric_name_length (length name)
      then (Rc.busy, none, ms)
      else (elim (ms.table mid) [
        | some m ↦ (Rc.ok, some mid, ms)
        | none ↦ elim rc [
          | Rc.ok ↦
              if room
              then (Rc.ok, some mid, store ms mid (new_metric ms.workers t hs))
              else (Rc.error, none, ms)
          | failed ↦ (failed, none, ms)
        ]
      ])
    else (Rc.abort, none, ms)

-- `(ngx_process == NGX_PROCESS_WORKER) ? ngx_worker : 0`
abbrev pub slot_of : Bool → ℕ → ℕ
slot_of is_worker worker = if is_worker then worker else 0

-- `ngx_wa_metrics_increment` in the slot of the process
pub increment : Metrics → ℕ → ℕ → ℕ → Option (Rc × Metrics)
increment ms slot mid n = elim (ms.table mid) [
  | none ↦ some (Rc.declined, ms)
  | some (counters slots) ↦
      if ltb slot (length slots)
      then some (Rc.ok, store ms mid (counters (modify (λ c. (c + n) % u64_mod) slot slots)))
      else none
  | some m ↦ some (Rc.abort, ms)
]

-- The slot `i` of a list of histograms after a value was recorded there.
abbrev pub record_slot : Memcpy → Bool → ℕ → ℕ → List Histogram → Option (List Histogram)
record_slot memcpy room n i [] = none
record_slot memcpy room n zero (h ∷ hs) = histogram_record memcpy room n h >>= λ h'. some (h' ∷ hs)
record_slot memcpy room n (suc i) (h ∷ hs) =
    record_slot memcpy room n i hs >>= λ hs'. some (h ∷ hs')

-- `ngx_wa_metrics_record`; `now` is `ngx_current_msec`.
pub record_value : Memcpy → Bool → ℕ → Metrics → ℕ → ℕ → ℕ → Option (Rc × Metrics)
record_value memcpy room now ms slot mid n = elim (ms.table mid) [
  | none ↦ some (Rc.declined, ms)
  | some (counters slots) ↦ some (Rc.abort, ms)
  | some (gauges slots) ↦
      if ltb slot (length slots)
      then some (
        Rc.ok,
        store ms mid (gauges (modify (λ g. record { value = n; last_update = now }) slot slots)),
      )
      else none
  | some (histograms hs) ↦
      record_slot memcpy room n slot hs >>= λ hs'. some (Rc.ok, store ms mid (histograms hs'))
]

-- What `ngx_wa_metrics_get` writes to its `out`.
pub data Reading : Type 0 where
  counter_value gauge_value : ℕ → Reading
  histogram_value : Histogram → Reading

-- `ngx_wa_metrics_get`; `out` is the caller's buffer for a histogram.
pub get : Memcpy → Metrics → ℕ → Histogram → Option (Rc × Option Reading)
get memcpy ms mid out = elim (ms.table mid) [
  | none ↦ some (Rc.declined, none)
  | some (counters slots) ↦
      get_counter ms.workers slots >>= λ v. some (Rc.ok, some (counter_value v))
  | some (gauges slots) ↦ get_gauge ms.workers slots >>= λ v. some (Rc.ok, some (gauge_value v))
  | some (histograms hs) ↦
      histogram_get memcpy ms.workers hs out >>= λ h. some (Rc.ok, some (histogram_value h))
]
