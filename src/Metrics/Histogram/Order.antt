-- ===== src/Metrics/Histogram/Order.antt =====
-- ngx_wa_histogram.c: where `histogram_log2_bin` puts a bin that lies below all the others.
use ngx_wasm_module.Common.{ℕ, ◌<◌, ◌≢◌, List, [], ◌∷◌}
use ngx_wasm_module.Metrics.Histogram.{Bin, max_u32}

-- Every bin of the list has a greater bound, and none is the last one.
abbrev pub AllAbove : ℕ → List Bin → Type 0
AllAbove ub [] = Unit {0}
AllAbove ub (b ∷ bins) = (ub < b.upper_bound) × (b.upper_bound ≢ max_u32) × AllAbove ub bins
