-- ===== src/Metrics/Histogram/Insert.antt =====
-- ngx_wa_histogram.c: where `histogram_log2_bin` looks, and what it inserts.
use native.Mathlib.Decide.{ℕ_discrete}
use ngx_wasm_module.Common.{
  ℕ, ◌+◌, ◌-◌, ◌≤◌, ◌≢◌, ◌≡◌, ◌∙◌, ap, sym, refl, false, arith, ltb, if◌then◌else◌, Bool-cases,
  List, [], ◌∷◌, ◌++◌, append_assoc, length, take, drop, modify, take-append_self, drop-append_self,
  length-append, take-append_suc, drop-append_suc, modify-append, ◌==◌, inl, inr, ◌⊎◌, ◌&&◌,
}
use ngx_wasm_module.Metrics.Histogram.{
  Bin, Memcpy, Scan, found, ended, log2_scan, insert_bin, max_u32,
}

-- No bin of the list is the last one.
abbrev pub NoMax : List Bin → Type 0
NoMax [] = Unit {0}
NoMax (b ∷ bins) = (b.upper_bound ≢ max_u32) × NoMax bins

-- The bins in use are those up to the one without bound; what follows is free.
pub record Layout (bins : List Bin) : Type 0 where
  pub ranges : List Bin
  pub top : Bin
  pub free : List Bin
  pub all : bins ≡ ranges ++ top ∷ free
  pub bounded : NoMax ranges
  pub unbounded : top.upper_bound ≡ max_u32

-- Some bin has no bound.
abbrev pub HasTop : List Bin → Type 0
HasTop [] = ⊥
HasTop (b ∷ bins) = (b.upper_bound ≡ max_u32) ⊎ HasTop bins

pub Layout-of_top : (bins : List Bin) → HasTop bins → Layout bins
Layout-of_top [] h = absurd h
Layout-of_top (b ∷ bins) h = elim (ℕ_discrete b.upper_bound max_u32) [
  | yes e ↦ record { ranges = []; top = b; free = bins; all = refl; bounded = tt; unbounded = e }
  | no ne ↦
      let rest : HasTop bins = elim h [ inl e ↦ absurd (ne e) | inr t ↦ t ] in
      let l = Layout-of_top bins rest in
      record {
        ranges = b ∷ l.ranges;
        top = l.top;
        free = l.free;
        all = ap (◌∷◌ b) l.all;
        bounded = (ne, l.bounded);
        unbounded = l.unbounded;
      }
]

pub HasTop-append :
    (low : List Bin) (top : Bin) (free : List Bin)
    → top.upper_bound ≡ max_u32
    → HasTop (low ++ top ∷ free)
HasTop-append [] top free e = inl e
HasTop-append (b ∷ low) top free e = inr (HasTop-append low top free e)

pub HasTop-same :
    (low : List Bin) (b c : Bin) (high : List Bin)
    → c.upper_bound ≡ b.upper_bound
    → HasTop (low ++ b ∷ high)
    → HasTop (low ++ c ∷ high)
HasTop-same [] b c high e h = elim h [ inl t ↦ inl (e ∙ t) | inr t ↦ inr t ]
HasTop-same (x ∷ low) b c high e h = elim h [
  | inl t ↦ inl t
  | inr t ↦ inr (HasTop-same low b c high e t)
]

-- The bin that the loop finds, behind bins that are not the last one.
pub record Found (ub : ℕ) (bins : List Bin) (i : ℕ) (s : Scan) : Type 0 where
  pub before : List Bin
  pub bin : Bin
  pub after : List Bin
  pub split : bins ≡ before ++ bin ∷ after
  pub bounded : NoMax before
  pub is_bin : bin.upper_bound ≡ ub
  pub scanned : s ≡ found (i + length before)

pub record Ended (ub : ℕ) (ranges : List Bin) (i : ℕ) (s : Scan) : Type 0 where
  pub place : ℕ
  pub scanned : s ≡ ended (i + length ranges + 1) place
  pub in_range : place ≤ i + length ranges
  pub not_top : ub ≢ max_u32

-- The loop stops at a bin for `ub`, or at the last bin in use.
pub log2_scan_lem :
    (ub : ℕ) (ranges : List Bin) (top : Bin) (free : List Bin) (i j : ℕ)
    → NoMax ranges
    → top.upper_bound ≡ max_u32
    → j ≤ i
    → Found ub (ranges ++ top ∷ free) i (log2_scan ub (ranges ++ top ∷ free) i j)
      ⊎ Ended ub ranges i (log2_scan ub (ranges ++ top ∷ free) i j)
unfolding log2_scan
log2_scan_lem ub [] top free i j n t h = elim (Bool-cases (top.upper_bound == ub)) [
  | inl e ↦ inl (record {
    before = [];
    bin = top;
    after = free;
    split = refl;
    bounded = tt;
    is_bin = ground arith;
    scanned = rw e (ap found (omega arith));
  })
  | inr e ↦ inr (record {
    place = if j == 0 && ltb ub top.upper_bound then i else j;
    scanned = ground arith;
    in_range = ground arith;
    not_top = λ z. ground arith;
  })
]
log2_scan_lem ub (b ∷ ranges) top free i j n t h = elim (Bool-cases (b.upper_bound == ub)) [
  | inl e ↦ inl (record {
    before = [];
    bin = b;
    after = ranges ++ top ∷ free;
    split = refl;
    bounded = tt;
    is_bin = ground arith;
    scanned = rw e (ap found (omega arith));
  })
  | inr e ↦
      let j' : ℕ = if j == 0 && ltb ub b.upper_bound then i else j in
      let bound : j' ≤ i + 1 = ground arith in
      let not_max : (b.upper_bound == max_u32) ≡ false = ground (arith, n.0) in
      elim (log2_scan_lem ub ranges top free (i + 1) j' n.1 t bound) [
        | inl f ↦ inl (record {
          before = b ∷ f.before;
          bin = f.bin;
          after = f.after;
          split = ap (◌∷◌ b) f.split;
          bounded = (n.0, f.bounded);
          is_bin = f.is_bin;
          scanned = rw (e, not_max) (f.scanned ∙ ap found (omega arith));
        })
        | inr f ↦ inr (record {
          place = f.place;
          scanned = rw (e, not_max) (f.scanned ∙ ap (λ k. ended k f.place) (omega arith));
          in_range = omega (arith, f.in_range);
          not_top = f.not_top;
        })
      ]
]

abbrev pub new_bin : ℕ → Bin
new_bin ub = record { upper_bound = ub; count = 0 }

-- The copy of overlapping regions is that of `memmove`: the bins copied are those from before.
abbrev pub IsMemmove : Memcpy → Type 0
IsMemmove memcpy =
    (dst src n : ℕ) (bins : List Bin)
    → dst + n ≤ length bins
    → src + n ≤ length bins
    → memcpy dst src n bins ≡ take dst bins ++ (take n (drop src bins) ++ drop (dst + n) bins)

insert_part :
    (memcpy : Memcpy)
    → IsMemmove memcpy
    → (ub : ℕ) (low : List Bin) (y : Bin) (ys : List Bin) (z : Bin) (free : List Bin)
    → insert_bin memcpy ub
        (length low + length (y ∷ ys))
        (length low)
        (low ++ (y ∷ ys ++ (z ∷ free)))
      ≡ low ++ new_bin ub ∷ (y ∷ ys ++ free)
unfolding insert_bin
insert_part memcpy mv ub low y ys z free =
    rw
      (
        mv (length low + 1) (length low) (length low + length (y ∷ ys) - length low)
            (low ++ (y ∷ ys ++ (z ∷ free))) (omega (arith, size)) (omega (arith, size)),
        take-append_suc low y (ys ++ z ∷ free),
        drop-append_self low (y ∷ ys ++ (z ∷ free)),
        count,
        take-append_self ys (z ∷ free),
        rest,
      )
      (ap (modify (λ b. new_bin ub) (length low)) (append_assoc low (y ∷ []) (y ∷ ys ++ free))
        ∙ modify-append (λ b. new_bin ub) low y (y ∷ ys ++ free))
  where
    count : length low + length (y ∷ ys) - length low ≡ length (y ∷ ys)
    count = omega arith

    size : length (low ++ (y ∷ ys ++ (z ∷ free))) ≡ length low + (length ys + (length free + 2))
    size =
        omega (arith, length-append low (y ∷ ys ++ (z ∷ free)), length-append (y ∷ ys) (z ∷ free))

    rest : drop (length low + 1 + length (y ∷ ys)) (low ++ (y ∷ ys ++ (z ∷ free))) ≡ free
    rest =
        ap (λ n. drop n (low ++ (y ∷ ys ++ (z ∷ free)))) (omega arith)
        ∙ ap (λ n. drop (n + 1) (low ++ (y ∷ ys ++ (z ∷ free)))) (sym (length-append low (y ∷ ys)))
        ∙ ap (drop (length (low ++ y ∷ ys) + 1)) (sym (append_assoc low (y ∷ ys) (z ∷ free)))
        ∙ drop-append_suc (low ++ y ∷ ys) z free

-- The bins from the place of the new one up to the last in use move one place up, over the first
-- free bin.
pub insert_bin_lem :
    (memcpy : Memcpy)
    → IsMemmove memcpy
    → (ub : ℕ) (low high : List Bin) (top z : Bin) (free : List Bin)
    → insert_bin memcpy ub (length (low ++ high) + 1) (length low) (low ++ (high ++ top ∷ z ∷ free))
      ≡ low ++ new_bin ub ∷ (high ++ top ∷ free)
insert_bin_lem memcpy mv ub low [] top z free =
    ap (λ n. insert_bin memcpy ub n (length low) (low ++ top ∷ z ∷ free))
      (omega (arith, length-append low []))
    ∙ insert_part memcpy mv ub low top [] z free
insert_bin_lem memcpy mv ub low (y ∷ high) top z free =
    ap (λ n. insert_bin memcpy ub n (length low) (low ++ (y ∷ high ++ top ∷ z ∷ free)))
      (omega (arith, length-append low (y ∷ high), length-append high (top ∷ [])))
    ∙ ap
        (λ l.
          insert_bin memcpy ub (length low + length (y ∷ (high ++ top ∷ []))) (length low)
            (low ++ y ∷ l))
        (sym (append_assoc high (top ∷ []) (z ∷ free)))
    ∙ insert_part memcpy mv ub low y (high ++ top ∷ []) z free
    ∙ ap (λ l. low ++ new_bin ub ∷ y ∷ l) (append_assoc high (top ∷ []) free)
