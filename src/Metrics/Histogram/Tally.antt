-- ===== src/Metrics/Histogram/Tally.antt =====
-- ngx_wa_histogram.c: how many values the bins in use have counted, by their bounds.
use ngx_wasm_module.Common.{
  ℕ, zero, suc, ◌+◌, ◌<◌, ◌≤◌, ◌≢◌, ◌≡◌, ◌∙◌, ap, sym, refl, Bool, true, false, arith,
  if◌then◌else◌, List, [], ◌∷◌, ◌++◌, append-nil, append_assoc, length, ◌==◌, ◌⊎◌,
}
use ngx_wasm_module.Metrics.Histogram.{Bin, max_u32, bins_max}
use ngx_wasm_module.Metrics.Histogram.Insert.{NoMax, Layout, new_bin}

-- The count of a bin whose bound the test picks.
abbrev pub picked : (ℕ → Bool) → Bin → ℕ
picked p b = if p b.upper_bound then b.count else 0

abbrev pub all_counts : (ℕ → Bool) → List Bin → ℕ
all_counts p [] = 0
all_counts p (b ∷ bins) = picked p b + all_counts p bins

-- The sum over the bins in use.
unfoldable pub tally : (ℕ → Bool) → List Bin → ℕ
tally p [] = 0
tally p (b ∷ bins) = picked p b + (if b.upper_bound == max_u32 then 0 else tally p bins)

-- What all the bins in use have counted.
abbrev pub total : List Bin → ℕ
total = tally (λ u. true)

pub tally-append :
    (p : ℕ → Bool) (low bins : List Bin)
    → NoMax low
    → tally p (low ++ bins) ≡ all_counts p low + tally p bins
unfolding tally
tally-append p [] bins n = omega arith
tally-append p (b ∷ low) bins n =
    let e : (b.upper_bound == max_u32) ≡ false = ground (arith, n.0) in
    rw e (omega (arith, tally-append p low bins n.1))

pub tally-top :
    (p : ℕ → Bool) (top : Bin) (free : List Bin)
    → top.upper_bound ≡ max_u32
    → tally p (top ∷ free) ≡ picked p top
unfolding tally
tally-top p top free e = ground arith

pub NoMax-append : (low high : List Bin) → NoMax low → NoMax high → NoMax (low ++ high)
NoMax-append [] high n m = m
NoMax-append (b ∷ low) high n m = (n.0, NoMax-append low high n.1 m)

pub all_counts-append :
    (p : ℕ → Bool) (low high : List Bin)
    → all_counts p (low ++ high) ≡ all_counts p low + all_counts p high
all_counts-append p [] high = omega arith
all_counts-append p (b ∷ low) high = omega (arith, all_counts-append p low high)

-- The ranges split at a place.
pub record SplitAt (k : ℕ) (ranges : List Bin) : Type 0 where
  pub low : List Bin
  pub high : List Bin
  pub whole : ranges ≡ low ++ high
  pub at : length low ≡ k
  pub low_bounded : NoMax low
  pub high_bounded : NoMax high

pub split_at : (k : ℕ) (ranges : List Bin) → NoMax ranges → k ≤ length ranges → SplitAt k ranges
split_at zero ranges n h = record {
  low = [];
  high = ranges;
  whole = refl;
  at = refl;
  low_bounded = tt;
  high_bounded = n;
}
split_at (suc k) [] n h = absurd (omega arith)
split_at (suc k) (b ∷ ranges) n h =
    let s = split_at k ranges n.1 (omega arith) in
    record {
      low = b ∷ s.low;
      high = s.high;
      whole = ap (◌∷◌ b) s.whole;
      at = ap suc s.at;
      low_bounded = (n.0, s.low_bounded);
      high_bounded = s.high_bounded;
    }

-- The bin that `histogram_log2_bin` returns: in use, and with the same sums over the bins as before.
pub record Placed (bins : List Bin) (ub : ℕ) (has_slot : Type 0) (r : List Bin × ℕ) : Type 0 where
  pub low : List Bin
  pub bin : Bin
  pub high : List Bin
  pub split : r.0 ≡ low ++ bin ∷ high
  pub index : r.1 ≡ length low
  pub low_bounded : NoMax low
  pub same_tally : (p : ℕ → Bool) → tally p (low ++ bin ∷ high) ≡ tally p bins
  pub layout : Layout (low ++ bin ∷ high)
  pub size : length (low ++ bin ∷ high) ≤ bins_max
  pub exact : has_slot → bin.upper_bound ≡ ub

module _ (ub : ℕ) (low high : List Bin) (top : Bin) (free : List Bin) (nl : NoMax low)
    (nh : NoMax high) (e : top.upper_bound ≡ max_u32) where
  tally-new :
      (p : ℕ → Bool)
      → ub ≢ max_u32
      → tally p (new_bin ub ∷ (high ++ top ∷ free)) ≡ tally p (high ++ top ∷ free)
  unfolding tally
  tally-new p ne = ground arith

  same_as_before :
      (p : ℕ → Bool) (bins old : List Bin)
      → ub ≢ max_u32
      → bins ≡ (low ++ high) ++ top ∷ old
      → tally p (low ++ new_bin ub ∷ (high ++ top ∷ free)) ≡ tally p bins
  same_as_before p bins old ne eq = omega (
    arith,
    tally-append p low (new_bin ub ∷ (high ++ top ∷ free)) nl,
    tally-new p ne,
    tally-append p high (top ∷ free) nh,
    tally-top p top free e,
    ap (tally p) eq,
    tally-append p (low ++ high) (top ∷ old) (NoMax-append low high nl nh),
    all_counts-append p low high,
    tally-top p top old e,
  )

  -- A new bin among the ranges.
  pub Placed-new :
      (bins : List Bin) (has_slot : Type 0) (old : List Bin)
      → ub ≢ max_u32
      → bins ≡ (low ++ high) ++ top ∷ old
      → length (low ++ new_bin ub ∷ (high ++ top ∷ free)) ≤ bins_max
      → Placed bins ub has_slot (low ++ new_bin ub ∷ (high ++ top ∷ free), length low)
  Placed-new bins has_slot old ne eq fits = record {
    low = low;
    bin = new_bin ub;
    high = high ++ top ∷ free;
    split = refl;
    index = refl;
    low_bounded = nl;
    same_tally = λ p. same_as_before p bins old ne eq;
    layout = record {
      ranges = low ++ new_bin ub ∷ high;
      top = top;
      free = free;
      all = sym (append_assoc low (new_bin ub ∷ high) (top ∷ free));
      bounded = NoMax-append low (new_bin ub ∷ high) nl (ne, nh);
      unbounded = e;
    };
    size = fits;
    exact = λ _. refl;
  }

-- No room for a new bin: the bin at the place.
pub Placed-near :
    (ub : ℕ) (low high : List Bin) (top : Bin) (free bins : List Bin) (has_slot : Type 0)
    → NoMax low
    → NoMax high
    → top.upper_bound ≡ max_u32
    → ¬ has_slot
    → bins ≡ (low ++ high) ++ top ∷ free
    → length bins ≤ bins_max
    → Placed bins ub has_slot (bins, length low)
Placed-near ub low [] top free bins has_slot nl nh e no_slot eq fits =
    let whole : bins ≡ low ++ top ∷ free = eq ∙ ap (λ l. l ++ top ∷ free) (append-nil low) in
    record {
      low = low;
      bin = top;
      high = free;
      split = whole;
      index = refl;
      low_bounded = nl;
      same_tally = λ p. ap (tally p) (sym whole);
      layout = record {
        ranges = low;
        top = top;
        free = free;
        all = refl;
        bounded = nl;
        unbounded = e;
      };
      size = rw (← whole) fits;
      exact = λ s. absurd (no_slot s);
    }
Placed-near ub low (b ∷ high) top free bins has_slot nl nh e no_slot eq fits =
    let whole : bins ≡ low ++ b ∷ (high ++ top ∷ free) =
      eq ∙ append_assoc low (b ∷ high) (top ∷ free) in
    record {
      low = low;
      bin = b;
      high = high ++ top ∷ free;
      split = whole;
      index = refl;
      low_bounded = nl;
      same_tally = λ p. ap (tally p) (sym whole);
      layout = record {
        ranges = low ++ b ∷ high;
        top = top;
        free = free;
        all = sym (append_assoc low (b ∷ high) (top ∷ free));
        bounded = NoMax-append low (b ∷ high) nl nh;
        unbounded = e;
      };
      size = rw (← whole) fits;
      exact = λ s. absurd (no_slot s);
    }

-- A place is there for a new bin: a free bin, or room to grow.
abbrev pub HasSlot : Bool → Bool → List Bin → List Bin → Type 0
HasSlot out room bins free =
    (0 < length free) ⊎ ((out ≡ true) × (room ≡ true) × (length bins < bins_max))
