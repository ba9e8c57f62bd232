-- ===== src/Metrics/Histogram/Bounds.antt =====
-- ngx_wa_histogram.c: the upper bound that a value falls under.
use mathlib.Core.WellFounded.{Acc}
use mathlib.Core.Logic.{dif_pos, dif_neg}
use native.Mathlib.Decide.{ℕ_discrete, dec_lt}
use ngx_wasm_module.Common.{
  ℕ, zero, suc, ◌-◌, ◌*◌, ◌/◌, ◌%◌, ◌^◌, ◌<◌, ◌≤◌, ◌≢◌, ◌≡◌, ◌∙◌, ap, arith, u32_mod, lt→leb,
  le→leb, lt→ltb, le→ltb,
}
use native.Mathlib.Nat.{pow-suc, ℕ_set}
use ngx_wasm_module.Common.Order.{lt_wf}
use ngx_wasm_module.Metrics.Histogram.{log2_loop, bin_log2_upper_bound, max_u32}

-- `r` is `ub` doubled as often as `n` can be halved.
abbrev Doubled : ℕ → ℕ → ℕ → Type 0
Doubled n ub r = (k : ℕ) × (r ≡ ub * 2 ^ k) × (2 ^ k ≤ n) × (n < 2 * 2 ^ k)

no_wrap : (n ub : ℕ) → n / 2 ≢ 0 → ub * n < 2 ^ 32 → ub * 2 % u32_mod ≡ ub * 2
no_wrap n ub h small = omega (arith, bound)
  where
    bound : ub * 2 ≤ ub * n
    bound = grind arith

halved : (n ub : ℕ) → ub * n < 2 ^ 32 → ub * 2 * (n / 2) < 2 ^ 32
halved n ub small = omega (arith, bound)
  where
    twice : 2 * (n / 2) ≤ n
    twice = omega arith

    bound : ub * (2 * (n / 2)) ≤ ub * n
    bound = grind arith

step : (n ub r : ℕ) → Doubled (n / 2) (ub * 2) r → Doubled n ub r
step n ub r (k, e, lo, hi) =
    (suc k, rw pow-suc (omega (arith, e)), rw pow-suc (omega arith), rw pow-suc (omega arith))

log2_loop_lem :
    (n ub : ℕ) (w : Acc ◌<◌ n) → 0 < n → ub * n < 2 ^ 32 → Doubled n ub (log2_loop n ub w)
unfolding log2_loop
log2_loop_lem n ub (Acc.intro _ smaller) pos small = elim (ℕ_discrete (n / 2) 0) [
  | yes p ↦
      rw (dif_pos (ℕ_discrete (n / 2) 0) (ℕ_set _ _) p) (0, omega arith, omega arith, omega arith)
  | no p ↦ rw (dif_neg (ℕ_discrete (n / 2) 0) p) (
      rw (no_wrap n ub p small) (
        step n ub _
          (log2_loop_lem (n / 2) (ub * 2) (smaller (n / 2) _) (omega arith) (halved n ub small))))
]

-- From 2 to 2^31 - 1 the bound of `n` is the least power of two that is not below `n`: it is one,
-- it is at least `n`, and its half is less.
pub bin_log2_upper_bound_least :
    (n : ℕ)
    → 1 < n
    → n < 2 ^ 31
    → (k : ℕ) × (bin_log2_upper_bound n ≡ 2 ^ k) × (n ≤ 2 ^ k) × (2 ^ k < 2 * n)
unfolding bin_log2_upper_bound
bin_log2_upper_bound_least n low high =
    let (k, e, lo, hi) =
      log2_loop_lem (n - 1) 2 (lt_wf.apply (n - 1)) (omega arith) (omega arith) in
    rw (lt→leb n 1 low, le→ltb (max_u32 / 2) n (omega arith))
      (suc k, e ∙ rw pow-suc (omega arith), rw pow-suc (omega arith), rw pow-suc (omega arith))

pub bin_log2_upper_bound_small : (n : ℕ) → n ≤ 1 → bin_log2_upper_bound n ≡ 1
unfolding bin_log2_upper_bound
bin_log2_upper_bound_small n h = rw (le→leb n 1 h)

pub bin_log2_upper_bound_large : (n : ℕ) → 2 ^ 31 ≤ n → bin_log2_upper_bound n ≡ max_u32
unfolding bin_log2_upper_bound
bin_log2_upper_bound_large n h = rw (lt→leb n 1 (omega arith), lt→ltb (max_u32 / 2) n (omega arith))

-- No 32-bit value lies above its bound.
pub le-bin_log2_upper_bound : (n : ℕ) → n ≤ max_u32 → n ≤ bin_log2_upper_bound n
le-bin_log2_upper_bound n h = elim (dec_lt 1 n) [
  | no p ↦ omega (arith, bin_log2_upper_bound_small n (omega arith))
  | yes p ↦ elim (dec_lt n (2 ^ 31)) [
    | yes q ↦ let (k, e, lo, hi) = bin_log2_upper_bound_least n p q in omega arith
    | no q ↦ omega (arith, bin_log2_upper_bound_large n (omega arith))
  ]
]

pow_mono : (a b : ℕ) → 2 ^ a < 2 ^ b → a < b
pow_mono a zero h = absurd (omega (arith, pow_pos a))
  where
    pow_pos : (n : ℕ) → 0 < 2 ^ n
    pow_pos zero = omega arith
    pow_pos (suc n) = rw pow-suc (omega (arith, pow_pos n))
pow_mono zero (suc b) h = omega arith
pow_mono (suc a) (suc b) h = omega (arith, pow_mono a b (omega (arith, pow-suc 2 a, pow-suc 2 b)))

-- Two powers of two that both lie between `n` and twice `n` are one.
pow_unique : (n j k : ℕ) → n ≤ 2 ^ j → 2 ^ j < 2 * n → n ≤ 2 ^ k → 2 ^ k < 2 * n → 2 ^ j ≡ 2 ^ k
pow_unique n j k a b c d = elim (dec_lt j k) [
  | yes p ↦ absurd (omega (arith, pow_le (suc j) k (omega arith), pow-suc 2 j))
  | no p ↦ elim (dec_lt k j) [
    | yes q ↦ absurd (omega (arith, pow_le (suc k) j (omega arith), pow-suc 2 k))
    | no q ↦ ap (λ i. 2 ^ i) (omega arith)
  ]
]
  where
    pow_le : (a b : ℕ) → a ≤ b → 2 ^ a ≤ 2 ^ b
    pow_le a b h = elim (dec_lt (2 ^ b) (2 ^ a)) [
      | yes p ↦ absurd (omega (arith, pow_mono b a p))
      | no p ↦ omega arith
    ]

-- A bound that a value below 2^30 + 1 falls under is its own bound, so that a merge of such bins
-- finds the bins again.
pub bin_log2_upper_bound_idem :
    (n : ℕ) → n ≤ 2 ^ 30 → bin_log2_upper_bound (bin_log2_upper_bound n) ≡ bin_log2_upper_bound n
bin_log2_upper_bound_idem n h = elim (dec_lt 1 n) [
  | no p ↦
      rw (bin_log2_upper_bound_small n (omega arith)) (bin_log2_upper_bound_small 1 (omega arith))
  | yes p ↦
      let (k, e, lo, hi) = bin_log2_upper_bound_least n p (omega arith) in
      let (j, e', lo', hi') = bin_log2_upper_bound_least (2 ^ k) (omega arith) (omega arith) in
      rw e (e' ∙ pow_unique (2 ^ k) j k lo' hi' (omega arith) (omega arith))
]

-- The bound of a value above 2^30 and below 2^31 is 2^31, whose own bound is the last one: a merge
-- counts the bin as the last one.
pub bin_log2_upper_bound_not_idem :
    (n : ℕ)
    → 2 ^ 30 < n
    → n < 2 ^ 31
    → (bin_log2_upper_bound n ≡ 2 ^ 31) × (bin_log2_upper_bound (bin_log2_upper_bound n) ≡ max_u32)
bin_log2_upper_bound_not_idem n h l =
    let (k, e, lo, hi) = bin_log2_upper_bound_least n (omega arith) l in
    let top : bin_log2_upper_bound n ≡ 2 ^ 31 =
      e ∙ pow_unique n k 31 lo hi (omega arith) (omega arith) in
    (top, rw top (bin_log2_upper_bound_large (2 ^ 31) (omega arith)))
