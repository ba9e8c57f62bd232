-- ===== src/Metrics/Histogram/Merge.antt =====
-- ngx_wa_metrics_histogram_get: the histograms of the workers come together without a loss.
use ngx_wasm_module.Common.{
  ℕ, suc, ◌+◌, ◌≤◌, ◌≡◌, arith, List, [], ◌∷◌, length, ◌++◌, length-modify, le→ltb, lt→ltb, refl,
  none, modify,
}
use ngx_wasm_module.Metrics.Histogram.{
  Bin, Memcpy, Histogram, log2, custom, add_count, bins_max, merge_bin, merge_bins, histogram_get,
}
use ngx_wasm_module.Metrics.Histogram.Insert.{HasTop, NoMax}
use ngx_wasm_module.Metrics.Histogram.Tally.{total}

abbrev pub AllLog2 : List Histogram → Type 0
AllLog2 [] = Unit {0}
AllLog2 (h ∷ slots) = (h.h_type ≡ log2) × AllLog2 slots

-- What the workers' histograms have counted, and their sums.
abbrev pub slots_total : List Histogram → ℕ
slots_total [] = 0
slots_total (h ∷ slots) = total h.bins + slots_total slots

abbrev pub slots_sum : List Histogram → ℕ
slots_sum [] = 0
slots_sum (h ∷ slots) = h.sum + slots_sum slots

-- A histogram that `histogram_log2_bin` can search.
pub record IsOpen (bins : List Bin) : Type 0 where
  pub has_top : HasTop bins
  pub size : length bins ≤ bins_max

merge_bins_overrun :
    (memcpy : Memcpy) (low high : List Bin) (b : Bin) (j : ℕ) (out : List Bin)
    → NoMax low
    → j + length low ≡ length out
    → merge_bins memcpy custom (low ++ b ∷ high) j out ≡ none
unfolding merge_bins merge_bin
merge_bins_overrun memcpy [] high b j out nm e = rw (le→ltb j (length out) (omega arith)) refl
merge_bins_overrun memcpy (c ∷ low) high b j out nm e =
    let change = λ (o : Bin). add_count c.count (record o { upper_bound = c.upper_bound }) in
    let after = modify change j out in
    let rest =
      merge_bins_overrun memcpy low high b (j + 1) after nm.1
        (omega (arith, length-modify change j out)) in
    rw (lt→ltb j (length out) (omega arith)) (rw rest (ground (arith, nm.0)))

-- A worker's custom histogram with more bins than the result has room for, its first bins
-- bounded, is merged past the result's end, whatever the number of slots that follow it.
pub histogram_get_overrun :
    (memcpy : Memcpy) (n : ℕ) (h : Histogram) (slots : List Histogram) (out : Histogram)
    (low high : List Bin) (b : Bin)
    → h.h_type ≡ custom
    → h.bins ≡ low ++ b ∷ high
    → NoMax low
    → length low ≡ length out.bins
    → histogram_get memcpy (suc n) (h ∷ slots) out ≡ none
unfolding histogram_get
histogram_get_overrun memcpy n h slots out low high b t e nm l =
    rw (histogram_get, t, e, merge_bins_overrun memcpy low high b 0 out.bins nm (omega (arith, l)))
      refl
