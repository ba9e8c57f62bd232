-- ===== src/Metrics/Store/Tests.antt =====
-- Metrics of two workers, and the theorems there.
use ngx_wasm_module.Common.{
  ℕ, ◌≡◌, refl, true, false, none, some, List, [], ◌∷◌, arith, ◌==◌, if◌then◌else◌, Rc,
}
use ngx_wasm_module.Metrics.Histogram.{Histogram, Memcpy, log2}
use ngx_wasm_module.Metrics.Store.{
  Metrics, counter, gauge, counters, gauges, counter_value, gauge_value, define, increment,
  record_value, get,
}
use ngx_wasm_module.Metrics.Store.Values.{get-increment, get-record_value}
use ngx_wasm_module.Metrics.Store.Define.{define_again}
use ngx_wasm_module.Metrics.Store.Realloc.{realloc_node, realloc_node_counter}

-- A counter under 1, a gauge under 2.
abbrev two_metrics : Metrics
two_metrics = record {
  workers = 2;
  max_metric_name_length = 8;
  table = λ k.
      if k == 1
      then some (counters (5 ∷ 7 ∷ []))
      else if k == 2
      then some (
          gauges
            (record { value = 3; last_update = 10 } ∷ record { value = 4; last_update = 11 } ∷ []))
      else none;
}

abbrev buffer : Histogram
buffer = record { h_type = log2; sum = 0; bins = [] }

-- No histogram is copied here.
abbrev no_copy : Memcpy
no_copy dst src n bins = bins

abbrev first_byte : List ℕ → ℕ
first_byte [] = 0
first_byte (b ∷ bytes) = b

get-increment_example :
    (ms' : Metrics) × (increment two_metrics 1 1 30 ≡ some (Rc.ok, ms'))
    × (get no_copy two_metrics 1 buffer ≡ some (Rc.ok, some (counter_value 12)))
    × (get no_copy ms' 1 buffer ≡ some (Rc.ok, some (counter_value 42)))
    × ((k : ℕ) → (k == 1) ≡ false → get no_copy ms' k buffer ≡ get no_copy two_metrics k buffer)
get-increment_example =
    get-increment no_copy two_metrics 1 1 30 (5 ∷ 7 ∷ []) buffer refl refl (omega arith)

get-record_value_example :
    (ms' : Metrics) × (record_value no_copy true 12 two_metrics 0 2 9 ≡ some (Rc.ok, ms'))
    × (get no_copy ms' 2 buffer ≡ some (Rc.ok, some (gauge_value 9)))
    × ((k : ℕ) → (k == 2) ≡ false → get no_copy ms' k buffer ≡ get no_copy two_metrics k buffer)
get-record_value_example =
    get-record_value no_copy true two_metrics 12 0 2 9
      (record { value = 3; last_update = 10 } ∷ record { value = 4; last_update = 11 } ∷ []) buffer
      refl refl (omega arith, (omega arith, tt)) (omega arith)

define_again_example :
    (ms' : Metrics) × (define first_byte two_metrics (3 ∷ []) counter none [] true
      ≡ (Rc.ok, some 3, ms'))
    × (ms'.table 3 ≡ some (counters (0 ∷ 0 ∷ [])))
    × (define first_byte ms' (3 ∷ []) gauge none [] false ≡ (Rc.ok, some 3, ms'))
define_again_example =
    define_again first_byte two_metrics (3 ∷ []) counter gauge none none [] [] false refl refl
      (omega arith) refl

-- Metrics of three workers, with a counter under 3.
abbrev old_metrics : Metrics
old_metrics = record {
  workers = 3;
  max_metric_name_length = 8;
  table = λ k. if k == 3 then some (counters (8 ∷ 9 ∷ 10 ∷ [])) else none;
}

realloc_node_counter_example :
    (ms' : Metrics) × (realloc_node no_copy first_byte [] true 3 20 0 two_metrics
        (3 ∷ [])
        (counters (8 ∷ 9 ∷ 10 ∷ []))
      ≡ some (Rc.ok, ms'))
    × (get no_copy ms' 3 buffer ≡ get no_copy old_metrics 3 buffer)
    × (get no_copy ms' 3 buffer ≡ some (Rc.ok, some (counter_value 27)))
realloc_node_counter_example =
    realloc_node_counter no_copy first_byte [] 20 0 old_metrics two_metrics (3 ∷ [])
      (8 ∷ 9 ∷ 10 ∷ []) buffer refl refl refl (omega arith) (omega arith)
