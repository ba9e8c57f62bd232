-- ===== src/Metrics/Histogram/Place.antt =====
-- ngx_wa_histogram.c: the bin that `histogram_log2_bin` returns.
use mathlib.Core.Path.{subst}
use Prim.Native.Nat.{min}
use native.Mathlib.Decide.{ℕ_discrete}
use ngx_wasm_module.Common.{
  ℕ, suc, ◌+◌, ◌-◌, ◌<◌, ◌≤◌, ◌≢◌, ◌≡◌, ◌∙◌, ap, sym, refl, Bool, true, false, arith, List, [], ◌∷◌,
  ◌++◌, append_assoc, length, replicate, length-append, length-replicate, inl, inr, ◌⊎◌,
}
use ngx_wasm_module.Metrics.Histogram.{
  Bin, Memcpy, zero_bin, ended, log2_scan, insert_bin, max_u32, bins_max, bins_increment,
  histogram_grow, histogram_log2_bin, place_bin, bin_log2_upper_bound,
}
use ngx_wasm_module.Metrics.Histogram.Insert.{
  NoMax, Found, IsMemmove, log2_scan_lem, insert_bin_lem, new_bin,
}
use ngx_wasm_module.Metrics.Histogram.Tally.{
  tally, SplitAt, split_at, Placed, Placed-new, Placed-near, HasSlot,
}

module _ (memcpy : Memcpy) (out room : Bool) (n : ℕ) (ranges : List Bin) (top : Bin) where
  Placed-Found :
      (free : List Bin)
      → NoMax ranges
      → top.upper_bound ≡ max_u32
      → length (ranges ++ top ∷ free) ≤ bins_max
      → Found
          (bin_log2_upper_bound n)
          (ranges ++ top ∷ free)
          0
          (log2_scan (bin_log2_upper_bound n) (ranges ++ top ∷ free) 0 0)
      → Placed
          (ranges ++ top ∷ free)
          (bin_log2_upper_bound n)
          (HasSlot out room (ranges ++ top ∷ free) free)
          (histogram_log2_bin memcpy out room n (ranges ++ top ∷ free))
  unfolding histogram_log2_bin
  Placed-Found free nm e fits f =
      rw (f.scanned, histogram_log2_bin)
        (record {
          low = f.before;
          bin = f.bin;
          high = f.after;
          split = f.split;
          index = omega arith;
          low_bounded = f.bounded;
          same_tally = λ p. ap (tally p) (sym f.split);
          layout = record {
            ranges = ranges;
            top = top;
            free = free;
            all = sym f.split;
            bounded = nm;
            unbounded = e;
          };
          size = rw (← f.split) fits;
          exact = λ _. f.is_bin;
        })

-- A free bin is there.
pub place_bin_free :
    (memcpy : Memcpy) (out room : Bool) (ub i j : ℕ) (bins : List Bin)
    → i < length bins
    → place_bin memcpy out room ub i j bins ≡ (insert_bin memcpy ub i j bins, j)
unfolding place_bin
place_bin_free memcpy out room ub i j bins h = ground arith

-- The bins are all in use, and the histogram grows.
place_bin_grow :
    (memcpy : Memcpy) (ub i j : ℕ) (bins : List Bin)
    → i ≡ length bins
    → length bins < bins_max
    → place_bin memcpy true true ub i j bins ≡ (
      insert_bin memcpy ub i j
          (bins ++ replicate (min bins_increment (bins_max - length bins)) zero_bin),
      j,
    )
unfolding place_bin histogram_grow
place_bin_grow memcpy ub i j bins e h = ground arith

-- They are all in use, and it does not grow.
place_bin_full :
    (memcpy : Memcpy) (out room : Bool) (ub i j : ℕ) (bins : List Bin)
    → i ≡ length bins
    → (out ≡ false) ⊎ ((room ≡ false) ⊎ (length bins ≡ bins_max))
    → place_bin memcpy out room ub i j bins ≡ (bins, j)
unfolding place_bin histogram_grow
place_bin_full memcpy out room ub i j bins e h = ground arith

insert_split :
    (memcpy : Memcpy)
    → IsMemmove memcpy
    → (ub : ℕ) (low high : List Bin) (top z : Bin) (free : List Bin)
    → insert_bin memcpy ub (length (low ++ high) + 1) (length low) ((low ++ high) ++ top ∷ z ∷ free)
      ≡ low ++ new_bin ub ∷ (high ++ top ∷ free)
insert_split memcpy mv ub low high top z free =
    ap (insert_bin memcpy ub (length (low ++ high) + 1) (length low))
      (append_assoc low high (top ∷ z ∷ free))
    ∙ insert_bin_lem memcpy mv ub low high top z free

inserted_length :
    (ub : ℕ) (low high : List Bin) (top : Bin) (free : List Bin)
    → length (low ++ new_bin ub ∷ (high ++ top ∷ free))
      ≡ length low + (length high + (length free + 2))
inserted_length ub low high top free =
    omega (
      arith,
      length-append low (new_bin ub ∷ (high ++ top ∷ free)),
      length-append high (top ∷ free),
    )

used_length :
    (low high : List Bin) (top : Bin) (free : List Bin)
    → length ((low ++ high) ++ top ∷ free) ≡ length low + (length high + (length free + 1))
used_length low high top free =
    omega (arith, length-append (low ++ high) (top ∷ free), length-append low high)

module _ (memcpy : Memcpy) (mv : IsMemmove memcpy) (out room : Bool) (ub : ℕ) (low high : List Bin)
    (top : Bin) (nl : NoMax low) (nh : NoMax high) (e : top.upper_bound ≡ max_u32)
    (ne : ub ≢ max_u32) where
  Placed-free :
      (z : Bin) (free : List Bin) (has_slot : Type 0)
      → length ((low ++ high) ++ top ∷ z ∷ free) ≤ bins_max
      → Placed ((low ++ high) ++ top ∷ z ∷ free) ub has_slot (
          place_bin memcpy out room ub
            (length (low ++ high) + 1)
            (length low)
            ((low ++ high) ++ top ∷ z ∷ free))
  Placed-free z free has_slot fits =
      rw
        (
          place_bin_free memcpy out room ub (length (low ++ high) + 1) (length low)
              ((low ++ high) ++ top ∷ z ∷ free)
              (omega (arith, used_length low high top (z ∷ free), length-append low high)),
          insert_split memcpy mv ub low high top z free,
        )
        (Placed-new ub low high top free nl nh e ((low ++ high) ++ top ∷ z ∷ free) has_slot
          (z ∷ free) ne refl
          (omega
            (arith, inserted_length ub low high top free, used_length low high top (z ∷ free))))

  Placed-full :
      (has_slot : Type 0)
      → ¬ has_slot
      → (out ≡ false) ⊎ ((room ≡ false) ⊎ (length ((low ++ high) ++ top ∷ []) ≡ bins_max))
      → length ((low ++ high) ++ top ∷ []) ≤ bins_max
      → Placed ((low ++ high) ++ top ∷ []) ub has_slot (
          place_bin memcpy out room ub
            (length (low ++ high) + 1)
            (length low)
            ((low ++ high) ++ top ∷ []))
  Placed-full has_slot no_slot full fits =
      rw
        (place_bin_full memcpy out room ub (length (low ++ high) + 1) (length low)
          ((low ++ high) ++ top ∷ [])
          (omega (arith, used_length low high top [], length-append low high)) full)
        (Placed-near ub low high top [] ((low ++ high) ++ top ∷ []) has_slot nl nh e no_slot refl
          fits)

module _ (memcpy : Memcpy) (mv : IsMemmove memcpy) (ub : ℕ) (low high : List Bin) (top : Bin)
    (nl : NoMax low) (nh : NoMax high) (e : top.upper_bound ≡ max_u32) (ne : ub ≢ max_u32) where
  Placed-grown :
      (k : ℕ) (has_slot : Type 0)
      → length ((low ++ high) ++ top ∷ []) < bins_max
      → min bins_increment (bins_max - length ((low ++ high) ++ top ∷ [])) ≡ suc k
      → Placed ((low ++ high) ++ top ∷ []) ub has_slot (
          place_bin memcpy true true ub
            (length (low ++ high) + 1)
            (length low)
            ((low ++ high) ++ top ∷ []))
  Placed-grown k has_slot room inc =
      rw
        (
          place_bin_grow memcpy ub (length (low ++ high) + 1) (length low)
              ((low ++ high) ++ top ∷ [])
              (omega (arith, used_length low high top [], length-append low high)) room,
          inc,
          append_assoc (low ++ high) (top ∷ []) (zero_bin ∷ replicate k zero_bin),
          insert_split memcpy mv ub low high top zero_bin (replicate k zero_bin),
        )
        (Placed-new ub low high top (replicate k zero_bin) nl nh e ((low ++ high) ++ top ∷ [])
          has_slot [] ne refl
          (omega (
            arith,
            inserted_length ub low high top (replicate k zero_bin),
            used_length low high top [],
            length-replicate k zero_bin,
          )))

-- The three ways in which the code goes on where the loop found no bin.
Placed-ended :
    (memcpy : Memcpy)
    → IsMemmove memcpy
    → (out room : Bool) (ub : ℕ) (low high : List Bin) (top : Bin) (free : List Bin) → NoMax low
    → NoMax high
    → top.upper_bound ≡ max_u32
    → ub ≢ max_u32
    → length ((low ++ high) ++ top ∷ free) ≤ bins_max
    → Placed
        ((low ++ high) ++ top ∷ free)
        ub
        (HasSlot out room ((low ++ high) ++ top ∷ free) free)
        (place_bin memcpy out room ub
          (length (low ++ high) + 1)
          (length low)
          ((low ++ high) ++ top ∷ free))
Placed-ended memcpy mv out room ub low high top (z ∷ free) nl nh e ne fits =
    Placed-free memcpy mv out room ub low high top nl nh e ne z free _ fits
Placed-ended memcpy mv false room ub low high top [] nl nh e ne fits =
    Placed-full memcpy mv false room ub low high top nl nh e ne _ (λ s. ground arith) (inl refl)
      fits
Placed-ended memcpy mv true false ub low high top [] nl nh e ne fits =
    Placed-full memcpy mv true false ub low high top nl nh e ne _ (λ s. ground arith)
      (inr (inl refl)) fits
Placed-ended memcpy mv true true ub low high top [] nl nh e ne fits =
    elim (ℕ_discrete (length ((low ++ high) ++ top ∷ [])) bins_max) [
      | yes full ↦
          Placed-full memcpy mv true true ub low high top nl nh e ne _ (λ s. ground arith)
            (inr (inr full)) fits
      | no more ↦
          let inc : ℕ = min bins_increment (bins_max - length ((low ++ high) ++ top ∷ [])) in
          Placed-grown memcpy mv ub low high top nl nh e ne (inc - 1) _ (omega arith) (omega arith)
    ]

Placed-at :
    (memcpy : Memcpy)
    → IsMemmove memcpy
    → (out room : Bool) (ub k : ℕ) (ranges : List Bin) (top : Bin) (free : List Bin)
    → SplitAt k ranges
    → top.upper_bound ≡ max_u32
    → ub ≢ max_u32
    → length (ranges ++ top ∷ free) ≤ bins_max
    → Placed
        (ranges ++ top ∷ free)
        ub
        (HasSlot out room (ranges ++ top ∷ free) free)
        (place_bin memcpy out room ub (length ranges + 1) k (ranges ++ top ∷ free))
Placed-at memcpy mv out room ub k ranges top free sp e ne fits =
    subst
      (λ rs.
        Placed (rs ++ top ∷ free) ub (HasSlot out room (rs ++ top ∷ free) free)
          (place_bin memcpy out room ub (length rs + 1) k (rs ++ top ∷ free)))
      (sym sp.whole)
      (subst
        (λ j.
          Placed ((sp.low ++ sp.high) ++ top ∷ free) ub
            (HasSlot out room ((sp.low ++ sp.high) ++ top ∷ free) free)
            (place_bin memcpy out room ub (length (sp.low ++ sp.high) + 1) j
              ((sp.low ++ sp.high) ++ top ∷ free)))
        sp.at
        (Placed-ended memcpy mv out room ub sp.low sp.high top free sp.low_bounded sp.high_bounded e
          ne (subst (λ rs. length (rs ++ top ∷ free) ≤ bins_max) sp.whole fits)))

-- Whatever the place that the loop settles on, `histogram_log2_bin` returns a bin in use, loses no
-- count, and, where a bin is free or can be had, the bin is that of `n`.
pub log2_bin-Placed :
    (memcpy : Memcpy)
    → IsMemmove memcpy
    → (out room : Bool) (n : ℕ) (ranges : List Bin) (top : Bin) (free : List Bin) → NoMax ranges
    → top.upper_bound ≡ max_u32
    → length (ranges ++ top ∷ free) ≤ bins_max
    → Placed
        (ranges ++ top ∷ free)
        (bin_log2_upper_bound n)
        (HasSlot out room (ranges ++ top ∷ free) free)
        (histogram_log2_bin memcpy out room n (ranges ++ top ∷ free))
unfolding histogram_log2_bin
log2_bin-Placed memcpy mv out room n ranges top free nm e fits =
    elim (log2_scan_lem (bin_log2_upper_bound n) ranges top free 0 0 nm e (omega arith)) [
      | inl f ↦ Placed-Found memcpy out room n ranges top free nm e fits f
      | inr s ↦
          let sp = split_at s.place ranges nm (omega (arith, s.in_range)) in
          rw
            (
              s.scanned ∙ ap (λ k. ended k s.place) {y = length ranges + 1} (omega arith),
              histogram_log2_bin,
            )
            (Placed-at memcpy mv out room (bin_log2_upper_bound n) s.place ranges top free sp e
              s.not_top fits)
    ]
