-- ===== src/Metrics/Histogram/Record.antt =====
-- ngx_wa_metrics_histogram_record: each recorded value is counted once.
use mathlib.Core.Path.{subst}
use ngx_wasm_module.Common.{
  ℕ, ◌+◌, ◌%◌, ◌<◌, ◌≤◌, ◌≡◌, ◌∙◌, ap, sym, refl, Bool, true, false, arith, leb, if◌then◌else◌,
  u32_mod, u64_mod, leb→le, Bool-cases, List, [], ◌∷◌, ◌++◌, length, modify, length-append,
  modify-append, ◌==◌, inl, inr, Option, some, none,
}
use ngx_wasm_module.Metrics.Histogram.{
  Bin, Memcpy, Histogram, custom, max_u32, bins_max, histogram_log2_bin, bin_log2_upper_bound,
  add_count, histogram_record, histogram_custom_bin, histogram_custom_from,
}
use ngx_wasm_module.Metrics.Histogram.Insert.{
  IsMemmove, NoMax, HasTop, Layout-of_top, HasTop-append, HasTop-same,
}
use ngx_wasm_module.Metrics.Histogram.Tally.{tally, total, tally-append, Placed, HasSlot}
use ngx_wasm_module.Metrics.Histogram.Place.{log2_bin-Placed}

-- Adding to a bin in use adds to the sums that pick it.
pub tally-add :
    (p : ℕ → Bool) (low : List Bin) (bin : Bin) (high : List Bin) (c : ℕ)
    → NoMax low
    → bin.count + c < u32_mod
    → tally p (low ++ add_count c bin ∷ high)
      ≡ tally p (low ++ bin ∷ high) + (if p bin.upper_bound then c else 0)
unfolding tally
tally-add p low bin high c nm small =
    let e : (bin.count + c) % u32_mod ≡ bin.count + c = omega arith in
    rw (tally-append p low (add_count c bin ∷ high) nm, tally-append p low (bin ∷ high) nm, e)
      (ground arith)

-- No bin in use counts more than all of them.
pub count-le-total :
    (low : List Bin) (bin : Bin) (high : List Bin)
    → NoMax low
    → bin.count ≤ total (low ++ bin ∷ high)
unfolding tally
count-le-total low bin high nm = omega (arith, tally-append (λ u. true) low (bin ∷ high) nm)

-- The bins that follow the first one without bound.
abbrev pub free_bins : List Bin → List Bin
free_bins [] = []
free_bins (b ∷ bins) = if b.upper_bound == max_u32 then bins else free_bins bins

free_bins-append :
    (ranges : List Bin) (top : Bin) (free : List Bin)
    → NoMax ranges
    → top.upper_bound ≡ max_u32
    → free_bins (ranges ++ top ∷ free) ≡ free
free_bins-append [] top free nm e = ground arith
free_bins-append (b ∷ ranges) top free nm e =
    let ne : (b.upper_bound == max_u32) ≡ false = ground (arith, nm.0) in
    rw ne (free_bins-append ranges top free nm.1 e)

-- A count of `c` more in one bin in use: that of the bound `at`, which is `ub` itself where a bin
-- is free or can be had.
pub record Added (bins : List Bin) (c ub : ℕ) (has_slot : Type 0) (bins' : List Bin) : Type 0 where
  pub bound : ℕ
  pub counted : (p : ℕ → Bool) → tally p bins' ≡ tally p bins + (if p bound then c else 0)
  pub exact : has_slot → bound ≡ ub
  pub has_top : HasTop bins'
  pub size : length bins' ≤ bins_max

Placed-add :
    (bins : List Bin) (c ub : ℕ) (has_slot : Type 0) (r : List Bin × ℕ)
    → Placed bins ub has_slot r
    → total bins + c < u32_mod
    → Added bins c ub has_slot (modify (add_count c) r.1 r.0)
Placed-add bins c ub has_slot r pl small =
    rw (pl.split, pl.index, modify-append (add_count c) pl.low pl.bin pl.high)
      (record {
        bound = pl.bin.upper_bound;
        counted = λ p.
            tally-add p pl.low pl.bin pl.high c pl.low_bounded less
            ∙ ap (λ k. k + (if p pl.bin.upper_bound then c else 0)) (pl.same_tally p);
        exact = pl.exact;
        has_top = HasTop-same pl.low pl.bin (add_count c pl.bin) pl.high refl (
            rw pl.layout.all
              (HasTop-append pl.layout.ranges pl.layout.top pl.layout.free pl.layout.unbounded));
        size = omega (
          arith,
          pl.size,
          length-append pl.low (add_count c pl.bin ∷ pl.high),
          length-append pl.low (pl.bin ∷ pl.high),
        );
      })
  where
    less : pl.bin.count + c < u32_mod
    less =
        omega
          (arith, count-le-total pl.low pl.bin pl.high pl.low_bounded, pl.same_tally (λ u. true))

-- The bin of `ub`, in a histogram with a bin without bound among its at most 18.
pub log2_bin-Added :
    (memcpy : Memcpy)
    → IsMemmove memcpy
    → (out room : Bool) (n c : ℕ) (bins : List Bin) → HasTop bins
    → length bins ≤ bins_max
    → total bins + c < u32_mod
    → let (bins', i) = histogram_log2_bin memcpy out room n bins in
      Added bins c
        (bin_log2_upper_bound n)
        (HasSlot out room bins (free_bins bins))
        (modify (add_count c) i bins')
log2_bin-Added memcpy mv out room n c bins top size small =
    let l = Layout-of_top bins top in
    let free : free_bins bins ≡ l.free =
      ap free_bins l.all ∙ free_bins-append l.ranges l.top l.free l.bounded l.unbounded in
    rw free (
      Placed-add bins c (bin_log2_upper_bound n) (HasSlot out room bins l.free)
        (histogram_log2_bin memcpy out room n bins)
        (subst
          (λ bs.
            Placed bs (bin_log2_upper_bound n) (HasSlot out room bs l.free)
              (histogram_log2_bin memcpy out room n bs))
          (sym l.all)
          (log2_bin-Placed memcpy mv out room n l.ranges l.top l.free l.bounded l.unbounded
            (subst (λ bs. length bs ≤ bins_max) l.all size)))
        small)

-- Every bin of the list is for smaller values.
abbrev pub AllBelow : ℕ → List Bin → Type 0
AllBelow n [] = Unit {0}
AllBelow n (b ∷ bins) = (b.upper_bound < n) × AllBelow n bins

histogram_custom_from_lem :
    (n : ℕ) (bins : List Bin) (i : ℕ) (last : Option ℕ)
    → n ≤ max_u32
    → HasTop bins
    → (low : List Bin) × (bin : Bin) × (high : List Bin) × (bins ≡ low ++ bin ∷ high)
      × (histogram_custom_from n bins i last ≡ some (i + length low))
      × AllBelow n low
      × (n ≤ bin.upper_bound)
unfolding histogram_custom_from
histogram_custom_from_lem n [] i last le top = absurd top
histogram_custom_from_lem n (b ∷ bins) i last le top = elim (Bool-cases (leb n b.upper_bound)) [
  | inl e ↦ ([], b, bins, refl, rw e (ap some (omega arith)), tt, leb→le _ _ e)
  | inr e ↦
      let rest : HasTop bins = elim top [ inl t ↦ absurd (ground arith) | inr t ↦ t ] in
      let (low, bin, high, eq, found_at, below, fits) =
        histogram_custom_from_lem n bins (i + 1) (some i) le rest in
      (
        b ∷ low,
        bin,
        high,
        ap (◌∷◌ b) eq,
        rw e (found_at ∙ ap some (omega arith)),
        (ground arith, below),
        fits,
      )
]

record_custom_eq :
    (memcpy : Memcpy) (room : Bool) (n i : ℕ) (h : Histogram)
    → h.h_type ≡ custom
    → histogram_custom_bin n h.bins ≡ some i
    → histogram_record memcpy room n h
      ≡ some (record {
        h_type = custom;
        sum = (h.sum + n) % u64_mod;
        bins = modify (add_count 1) i h.bins;
      })
unfolding histogram_record
record_custom_eq memcpy room n i h t e = ground arith

-- A custom histogram with a bin without bound counts a 32-bit value in the first bin whose bound is
-- not below it, adds it to the sum, and changes nothing else.
pub histogram_record_custom :
    (memcpy : Memcpy) (room : Bool) (n : ℕ) (h : Histogram)
    → h.h_type ≡ custom
    → n ≤ max_u32
    → HasTop h.bins
    → (low : List Bin) × (bin : Bin) × (high : List Bin) × (h.bins ≡ low ++ bin ∷ high)
      × AllBelow n low
      × (n ≤ bin.upper_bound)
      × (histogram_record memcpy room n h
          ≡ some (record {
            h_type = custom;
            sum = (h.sum + n) % u64_mod;
            bins = low ++ add_count 1 bin ∷ high;
          }))
unfolding histogram_custom_bin
histogram_record_custom memcpy room n h t le top =
    let (low, bin, high, eq, found_at, below, fits) =
      histogram_custom_from_lem n h.bins 0 none le top in
    (
      low,
      bin,
      high,
      eq,
      below,
      fits,
      record_custom_eq memcpy room n (length low) h t (found_at ∙ ap some (omega arith))
          ∙ ap (λ bs. some (record { h_type = custom; sum = (h.sum + n) % u64_mod; bins = bs }))
              (ap (modify (add_count 1) (length low)) eq
                ∙ modify-append (add_count 1) low bin high),
    )
