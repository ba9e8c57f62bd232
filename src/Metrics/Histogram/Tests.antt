-- ===== src/Metrics/Histogram/Tests.antt =====
-- Runs of the histograms on a few values, and the theorems at concrete histograms.
use ngx_wasm_module.Common.{
  ℕ, ◌<◌, ◌≤◌, ◌≡◌, refl, true, false, arith, List, [], ◌∷◌, ◌++◌, Option, none, some, Rc, ◌>>=◌,
  ◌^◌, ◌*◌, ◌+◌, zero, suc, modify, get_or, inl, inr, take, drop,
}
use ngx_wasm_module.Metrics.Histogram.{
  Bin, Memcpy, freed, null, Histogram, log2, custom, max_u32, zero_bin, bin_log2_upper_bound,
  log2_scan, place_bin, insert_bin, histogram_log2_bin, histogram_record, new_histogram,
  histogram_get, add_count, histogram_add_locked, too_many_bins,
}
use ngx_wasm_module.Metrics.Histogram.Bounds.{
  bin_log2_upper_bound_least, le-bin_log2_upper_bound, bin_log2_upper_bound_idem,
  bin_log2_upper_bound_not_idem,
}
use ngx_wasm_module.Metrics.Histogram.Record.{histogram_record_custom, AllBelow}
use ngx_wasm_module.Metrics.Histogram.Merge.{histogram_get_overrun, IsOpen}
use ngx_wasm_module.Metrics.Histogram.Add.{histogram_add_locked_lem}

abbrev bin : ℕ → ℕ → Bin
bin u c = record { upper_bound = u; count = c }

-- Two values below 5 and one without bound.
abbrev used : Histogram
used = record { h_type = log2; sum = 5000000000; bins = bin 4 2 ∷ bin max_u32 1 ∷ zero_bin ∷ [] }

abbrev ranges : Histogram
ranges = record { h_type = custom; sum = 0; bins = bin 10 0 ∷ bin 20 3 ∷ bin max_u32 0 ∷ [] }

-- A `memcpy` that copies overlapping bins as `memmove` does.
abbrev memmove : Memcpy
memmove dst src n bins = take dst bins ++ (take n (drop src bins) ++ drop (dst + n) bins)

record_all : List ℕ → Histogram → Option Histogram
record_all [] h = some h
record_all (n ∷ ns) h = histogram_record memmove true n h >>= λ h'. record_all ns h'

-- The value 1, after 3, lands behind the bin of 4.
misplaced :
    (record_all (3 ∷ 1 ∷ []) (new_histogram none) >>= λ h. some h.bins)
    ≡ some (bin 4 1 ∷ bin 1 1 ∷ bin max_u32 0 ∷ zero_bin ∷ zero_bin ∷ [])
unfolding record_all new_histogram histogram_record histogram_log2_bin log2_scan place_bin
    insert_bin bin_log2_upper_bound
misplaced = refl

bin_log2_upper_bound_least_example :
    (k : ℕ) × (bin_log2_upper_bound 1000 ≡ 2 ^ k) × (1000 ≤ 2 ^ k) × (2 ^ k < 2 * 1000)
bin_log2_upper_bound_least_example = bin_log2_upper_bound_least 1000 (omega arith) (omega arith)

bound_of_3000000000 : 3000000000 ≤ bin_log2_upper_bound 3000000000
bound_of_3000000000 = le-bin_log2_upper_bound 3000000000 (omega arith)

bound_of_bound_1000 : bin_log2_upper_bound (bin_log2_upper_bound 1000) ≡ bin_log2_upper_bound 1000
bound_of_bound_1000 = bin_log2_upper_bound_idem 1000 (omega arith)

bound_of_last_bound :
    (bin_log2_upper_bound 2000000000 ≡ 2 ^ 31)
    × (bin_log2_upper_bound (bin_log2_upper_bound 2000000000) ≡ max_u32)
bound_of_last_bound = bin_log2_upper_bound_not_idem 2000000000 (omega arith) (omega arith)

histogram_record_custom_example :
    (low : List Bin) × (b : Bin) × (high : List Bin) × (ranges.bins ≡ low ++ b ∷ high)
    × AllBelow 15 low
    × (15 ≤ b.upper_bound)
    × (histogram_record memmove true 15 ranges
        ≡ some (record { h_type = custom; sum = 15; bins = low ++ add_count 1 b ∷ high }))
histogram_record_custom_example =
    histogram_record_custom memmove true 15 ranges refl (omega arith) (inr (inr (inl refl)))

-- Five bounds, merged into the five bins of a new logarithmic histogram.
histogram_get_overrun_example :
    histogram_get memmove 1
      (new_histogram (some (1 ∷ 2 ∷ 3 ∷ 4 ∷ 5 ∷ [])) ∷ [])
      (new_histogram none)
    ≡ none
unfolding new_histogram
histogram_get_overrun_example =
    histogram_get_overrun memmove 0 (new_histogram (some (1 ∷ 2 ∷ 3 ∷ 4 ∷ 5 ∷ []))) []
      (new_histogram none) (bin 1 0 ∷ bin 2 0 ∷ bin 3 0 ∷ bin 4 0 ∷ bin 5 0 ∷ []) [] (bin max_u32 0)
      refl refl (omega arith, (omega arith, (omega arith, (omega arith, (omega arith, tt))))) refl

-- A `memcpy` that copies bin by bin from the front, as C allows it to.
forward_copy : Memcpy
forward_copy dst src zero bins = bins
forward_copy dst src (suc n) bins =
    let copied = modify (λ _. get_or bins src zero_bin) dst bins in
    forward_copy (dst + 1) (src + 1) n copied

-- Where two bins move, that copy loses the bin without bound and its count.
forward_copy_loses :
    histogram_log2_bin forward_copy true true 1 (bin 4 2 ∷ bin 8 3 ∷ bin max_u32 1 ∷ zero_bin ∷ [])
    ≡ (bin 4 2 ∷ bin 1 0 ∷ bin 8 3 ∷ bin 8 3 ∷ [], 1)
unfolding forward_copy histogram_log2_bin log2_scan place_bin insert_bin bin_log2_upper_bound
forward_copy_loses = refl

-- The second of three workers gets no histogram: the first one's is freed.
histogram_add_locked_example :
    (histogram_add_locked (some (5 ∷ 10 ∷ [])) (true ∷ false ∷ true ∷ [])
      ≡ (Rc.error, freed ∷ null ∷ null ∷ []))
    × (too_many_bins (some (5 ∷ 10 ∷ [])) ≡ false
        → IsOpen (new_histogram (some (5 ∷ 10 ∷ []))).bins)
histogram_add_locked_example =
    histogram_add_locked_lem (some (5 ∷ 10 ∷ [])) (true ∷ false ∷ true ∷ [])
