-- ===== src/Wasm/Buffers/Recycle.antt =====
-- The loop of ngx_wasm_chain_append in ngx_wasm_util.c: an empty buffer becomes a free one.
use mathlib.Core.Path.{subst}
use ngx_wasm_module.Common.{
  ℕ, ◌≡◌, refl, sym, ap, ◌∙◌, inl, inr, Bool, true, false, ◌||◌, Option, none, some, List, [], ◌∷◌,
  arith, ◌==◌, Bool-cases, Option-cases,
}
use ngx_wasm_module.Wasm.Buffers.{Links, set_next, set_buf, put_free, recycle}
use ngx_wasm_module.Wasm.Buffers.Segments.{
  not_same, eq_of_test, has, Distinct, Chain, at_end, at_link, frame,
}

-- Whether a pointer leads to the link.
abbrev pub is_at : Option ℕ → ℕ → Bool
is_at none a = false
is_at (some p) a = a == p

-- The free links are a chain, no link of which is one of `es`, or `ll`.
pub record FreeApart (ll : Option ℕ) (es frees : List ℕ) (s : Links) : Type 0 where
  pub chain : Chain s.next s.free frees
  pub distinct : Distinct frees
  pub not_es : (a : ℕ) → has a es ≡ true → has a frees ≡ false
  pub not_ll : (a : ℕ) → has a frees ≡ true → is_at ll a ≡ false

pub set_next_other :
    (p a : ℕ) (q : Option ℕ) (s : Links) → (a == p) ≡ false → (set_next p q s).next a ≡ s.next a
set_next_other p a q s ne = rw ne refl

pub recycle_buf : (p a : ℕ) (s : Links) → (a == p) ≡ false → (recycle p s).buf a ≡ s.buf a
recycle_buf p a s ne = elim (Option-cases s.free) [
  | inl e ↦ rw (e, ne) refl
  | inr (f, e) ↦ rw (e, ne) refl
]

pub recycle_next : (p a : ℕ) (s : Links) → (a == p) ≡ false → (recycle p s).next a ≡ s.next a
recycle_next p a s ne = elim (Option-cases s.free) [
  | inl e ↦ rw (e, ne) refl
  | inr (f, e) ↦ rw (e, ne) refl
]

pub recycle_top : (p : ℕ) (s : Links) → (recycle p s).top ≡ s.top
recycle_top p s = elim (Option-cases s.free) [ inl e ↦ rw e refl | inr (f, e) ↦ rw e refl ]

recycle-some : (p f : ℕ) (s : Links) → s.free ≡ some f → (recycle p s).free ≡ some p
recycle-some p f s e = rw e refl

recycle-none : (p : ℕ) (s : Links) → s.free ≡ none → (recycle p s).free ≡ none
recycle-none p s e =
    ap
      (λ o.
        Links.free
          (put_free o p (set_next p s.free (set_buf p (record (s.buf p) { bytes = [] }) s))))
      e
    ∙ e

recycle_at : (p f : ℕ) (s : Links) → s.free ≡ some f → (recycle p s).next p ≡ s.free
recycle_at p f s e =
    let same : (p == p) ≡ true = ground arith in
    ap
      (λ o.
        Links.next
          (put_free o p (set_next p s.free (set_buf p (record (s.buf p) { bytes = [] }) s))) p)
      e
    ∙ rw same refl

-- A recycled link is the first of the free ones, where there are some.
pub data Recycled (ll : Option ℕ) (p : ℕ) (ps frees : List ℕ) (s : Links) : Type 0 where
  recycled :
      {frees' : List ℕ}
      → FreeApart ll ps frees' (recycle p s)
      → ((a : ℕ) → has a frees' ≡ true → (has a frees || (a == p)) ≡ true)
      → Recycled ll p ps frees s

pub recycle-Recycled :
    (ll : Option ℕ) (p : ℕ) (ps frees : List ℕ) (s : Links)
    → FreeApart ll (p ∷ ps) frees s
    → has p ps ≡ false
    → is_at ll p ≡ false
    → Recycled ll p ps frees s
recycle-Recycled ll p ps frees s free out not_ll = elim (Option-cases s.free) [
  | inl e ↦
      recycled
        (record {
          chain = subst (λ o. Chain (recycle p s).next o []) (sym (recycle-none p s e)) at_end;
          distinct = tt;
          not_es = λ a i. refl;
          not_ll = λ a i. absurd (ground (arith, i));
        })
        (λ a i. absurd (ground (arith, i)))
  | inr (f, e) ↦
      (let rest : Chain (recycle p s).next s.free frees =
          frame free.chain
            λ a i. recycle_next p a s (not_same p a frees (free.not_es p (ground arith)) i) in
        let all : Chain (recycle p s).next (some p) (p ∷ frees) =
          at_link (rw (recycle_at p f s e) rest) in
        recycled
          (record {
            chain =
                subst (λ o. Chain (recycle p s).next o (p ∷ frees)) (sym (recycle-some p f s e))
                  all;
            distinct = (free.not_es p (ground arith), free.distinct);
            not_es = λ a i. ground (arith, out, free.not_es a);
            not_ll = λ a i. elim (Bool-cases (a == p)) [
              | inl same ↦ ap (is_at ll) (eq_of_test a p same) ∙ not_ll
              | inr other ↦ free.not_ll a (ground (arith, i))
            ];
          })
          (λ a i. ground (arith, i)))
]
