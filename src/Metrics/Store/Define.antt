-- ===== src/Metrics/Store/Define.antt =====
-- ngx_wa_metrics_define: what it makes, and what it does with a name already there.
use ngx_wasm_module.Common.{
  ℕ, ◌≤◌, ◌≡◌, ◌∙◌, ap, sym, refl, Bool, true, Option, none, some, List, arith, length, ◌==◌,
  le→ltb, Rc, inl, inr, Option-cases,
}
use ngx_wasm_module.Metrics.Store.{
  Metric, MetricType, Metrics, define, is_known, add_histograms, new_metric, store,
}

-- The metric that a name of admissible length stands for after it was defined: the one that was
-- there, or else a new one.
abbrev pub defined : Metrics → MetricType → Option (List ℕ) → List Bool → Option Metric → Metric
defined ms t bounds rooms (some m) = m
defined ms t bounds rooms none = new_metric ms.workers t (add_histograms t bounds rooms).1

define_old :
    (crc32 : List ℕ → ℕ) (ms : Metrics) (name : List ℕ) (t : MetricType) (bounds : Option (List ℕ))
    (rooms : List Bool) (room : Bool) (m : Metric)
    → is_known t ≡ true
    → length name ≤ ms.max_metric_name_length
    → ms.table (crc32 name) ≡ some m
    → define crc32 ms name t bounds rooms room ≡ (Rc.ok, some (crc32 name), ms)
unfolding define
define_old crc32 ms name t bounds rooms room m known short e =
    rw (define, known, le→ltb ms.max_metric_name_length (length name) short, e) refl

define_new :
    (crc32 : List ℕ → ℕ) (ms : Metrics) (name : List ℕ) (t : MetricType) (bounds : Option (List ℕ))
    (rooms : List Bool)
    → is_known t ≡ true
    → length name ≤ ms.max_metric_name_length
    → ms.table (crc32 name) ≡ none
    → (add_histograms t bounds rooms).0 ≡ Rc.ok
    → define crc32 ms name t bounds rooms true ≡ (
      Rc.ok,
      some (crc32 name),
      store ms (crc32 name) (new_metric ms.workers t (add_histograms t bounds rooms).1),
    )
unfolding define
define_new crc32 ms name t bounds rooms known short e granted =
    rw (define, known, le→ltb ms.max_metric_name_length (length name) short, e, granted) refl

-- Where the slab has room, a metric of a known type and an admissible name is defined under the
-- hash of the name, and to define the name again, with any known type, returns the same
-- identifier and changes nothing: the first type stays.
pub define_again :
    (crc32 : List ℕ → ℕ) (ms : Metrics) (name : List ℕ) (t t' : MetricType)
    (bounds bounds' : Option (List ℕ)) (rooms rooms' : List Bool) (room' : Bool)
    → is_known t ≡ true
    → is_known t' ≡ true
    → length name ≤ ms.max_metric_name_length
    → (add_histograms t bounds rooms).0 ≡ Rc.ok
    → (ms' : Metrics) × (define crc32 ms name t bounds rooms true ≡ (Rc.ok, some (crc32 name), ms'))
      × (ms'.table (crc32 name) ≡ some (defined ms t bounds rooms (ms.table (crc32 name))))
      × (define crc32 ms' name t' bounds' rooms' room' ≡ (Rc.ok, some (crc32 name), ms'))
define_again crc32 ms name t t' bounds bounds' rooms rooms' room' known known' short granted =
    let mid = crc32 name in
    let here : (mid == mid) ≡ true = ground arith in
    elim (Option-cases (ms.table mid)) [
      | inl e ↦
          let m = new_metric ms.workers t (add_histograms t bounds rooms).1 in
          let kept : (store ms mid m).table mid ≡ some m = rw here refl in
          (
            store ms mid m,
            define_new crc32 ms name t bounds rooms known short e granted,
            kept ∙ ap (λ o. some (defined ms t bounds rooms o)) (sym e),
            define_old crc32 (store ms mid m) name t' bounds' rooms' room' m known' short kept,
          )
      | inr (m, e) ↦ (
        ms,
        define_old crc32 ms name t bounds rooms true m known short e,
        rw e refl,
        define_old crc32 ms name t' bounds' rooms' room' m known' short e,
      )
    ]
