-- ===== src/Wasm/Buffers/Cut.antt =====
-- The cut of a chain of buffers after its first bytes.
use mathlib.Core.List.{append-eq-nil_iff}
use native.Mathlib.Numerals.{unary_clauses}
use ngx_wasm_module.Common.{
  ℕ, zero, suc, ◌-◌, ◌≡◌, refl, sym, ap, ◌∙◌, true, List, [], ◌∷◌, ◌++◌, arith, length, take,
}
use ngx_wasm_module.Wasm.Buffers.{Buf}
use ngx_wasm_module.Wasm.Buffers.Segments.{
  has, chain_bytes, Split, no_link, one_empty, one_full, Split-chain_bytes,
}

-- The first `k` bytes of the buffers of `f` are those of `g`.
pub data Cut (f g : ℕ → Buf) : ℕ → List ℕ → Type 0 where
  cut_end : (k : ℕ) → Cut f g k []
  cut_one :
      {k p : ℕ} {ps : List ℕ}
      → (g p).bytes ≡ take k (f p).bytes
      → Cut f g (k - length (g p).bytes) ps
      → Cut f g k (p ∷ ps)

take-append :
    (k : ℕ) (xs ys : List ℕ) → take k (xs ++ ys) ≡ take k xs ++ take (k - length (take k xs)) ys
take-append zero xs ys = refl
take-append (suc k) [] ys = simp unary_clauses refl
take-append (suc k) (x ∷ xs) ys = simp unary_clauses (ap (◌∷◌ x) (take-append k xs ys))

pub take_nil : (k : ℕ) → take {A = ℕ} k [] ≡ []
take_nil zero = refl
take_nil (suc k) = refl

pub Cut-chain_bytes :
    {f g : ℕ → Buf} {k : ℕ} {ps : List ℕ}
    → Cut f g k ps
    → chain_bytes g ps ≡ take k (chain_bytes f ps)
unfolding chain_bytes
Cut-chain_bytes (cut_end k) = sym (take_nil k)
Cut-chain_bytes {f} {g} (cut_one {k} {p} {ps} e c) =
    ap (◌++◌ (g p).bytes) (Cut-chain_bytes c)
    ∙ ap (λ xs. xs ++ take (k - length xs) (chain_bytes f ps)) e
    ∙ sym (take-append k (f p).bytes (chain_bytes f ps))

pub Cut-ext :
    {f f' g : ℕ → Buf} {k : ℕ} {ps : List ℕ}
    → Cut f g k ps
    → ((a : ℕ) → has a ps ≡ true → f a ≡ f' a)
    → Cut f' g k ps
Cut-ext (cut_end k) same = cut_end k
Cut-ext (cut_one {k} {p} e c) same =
    cut_one (e ∙ ap (λ b. take k b.bytes) (same p (ground arith)))
      (Cut-ext c λ a i. same a (ground arith))

-- Some way to split the links into full and empty ones.
pub data SomeSplit (g : ℕ → Buf) (ps : List ℕ) : Type 0 where
  some_split : {fs es : List ℕ} → Split g fs es ps → SomeSplit g ps

no_bytes-Split : (g : ℕ → Buf) (ps : List ℕ) → chain_bytes g ps ≡ [] → Split g [] ps ps
unfolding chain_bytes
no_bytes-Split g [] e = no_link
no_bytes-Split g (p ∷ ps) e =
    let (none_here, none_after) = append-eq-nil_iff.0 e in
    one_empty none_here (no_bytes-Split g ps none_after)

no_more : {f g : ℕ → Buf} {k : ℕ} {ps : List ℕ} → k ≡ 0 → Cut f g k ps → chain_bytes g ps ≡ []
no_more {f} {ps} none_left c = Cut-chain_bytes c ∙ ap (λ n. take n (chain_bytes f ps)) none_left

pub full_Split :
    {g : ℕ → Buf} {p x : ℕ} {xs ps : List ℕ}
    → (g p).bytes ≡ x ∷ xs
    → SomeSplit g ps
    → SomeSplit g (p ∷ ps)
full_Split e (some_split s) = some_split (one_full e s)

empty_Split :
    {g : ℕ → Buf} {p : ℕ} {ps : List ℕ}
    → (g p).bytes ≡ []
    → chain_bytes g ps ≡ []
    → SomeSplit g (p ∷ ps)
empty_Split {g} {ps} e none_after = some_split (one_empty e (no_bytes-Split g ps none_after))

-- The full buffers of a cut chain come first, when they did before.
pub Cut-Split :
    {f g : ℕ → Buf} {fs es ps : List ℕ} (k : ℕ) → Split f fs es ps → Cut f g k ps → SomeSplit g ps
unfolding chain_bytes
Cut-Split k no_link (cut_end _) = some_split no_link
Cut-Split {f} k (one_empty {ps} n s) (cut_one e c) =
    empty_Split (e ∙ ap (take k) n ∙ take_nil k)
      (Cut-chain_bytes c ∙ ap (take _) (Split-chain_bytes s) ∙ take_nil _)
Cut-Split zero (one_full n s) (cut_one e c) = empty_Split e (no_more (omega arith) c)
Cut-Split (suc k) (one_full n s) (cut_one e c) =
    full_Split (e ∙ ap (take (suc k)) n) (Cut-Split _ s c)
