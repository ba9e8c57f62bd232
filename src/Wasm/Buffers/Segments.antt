-- ===== src/Wasm/Buffers/Segments.antt =====
-- Chains of ngx_wasm_util.c as lists of their links, and the bytes of a list of links.
use ngx_wasm_module.Common.{
  ℕ, ◌≡◌, refl, sym, ap, ◌∙◌, Bool, true, false, ◌||◌, Option, none, some, List, [], ◌∷◌, ◌++◌,
  append_assoc, arith, ◌==◌,
}
use ngx_wasm_module.Wasm.Buffers.{Buf, is_end}

abbrev pub has : ℕ → List ℕ → Bool
has a [] = false
has a (p ∷ ps) = (a == p) || has a ps

-- No link stands twice in the list.
abbrev pub Distinct : List ℕ → Type 0
Distinct [] = Unit
Distinct (p ∷ ps) = (has p ps ≡ false) × Distinct ps

-- From `p` the `next` pointers lead through the links to NULL.
pub data Chain (next : ℕ → Option ℕ) : Option ℕ → List ℕ → Type 0 where
  at_end : Chain next none []
  at_link : {p : ℕ} {ps : List ℕ} → Chain next (next p) ps → Chain next (some p) (p ∷ ps)

-- The bytes of the buffers, in order.
unfoldable pub chain_bytes : (ℕ → Buf) → List ℕ → List ℕ
chain_bytes buf [] = []
chain_bytes buf (p ∷ ps) = (buf p).bytes ++ chain_bytes buf ps

-- Whether a buffer ends the response or the chain, and whether one asks for a flush.
unfoldable pub any_end : (ℕ → Buf) → List ℕ → Bool
any_end buf [] = false
any_end buf (p ∷ ps) = is_end (buf p) || any_end buf ps

unfoldable pub any_flush : (ℕ → Buf) → List ℕ → Bool
any_flush buf [] = false
any_flush buf (p ∷ ps) = (buf p).flush || any_flush buf ps

-- The second list's buffers are empty; the first one's are not, and come before them.
pub data Split (buf : ℕ → Buf) : List ℕ → List ℕ → List ℕ → Type 0 where
  no_link : Split buf [] [] []
  one_empty :
      {p : ℕ} {ps : List ℕ}
      → (buf p).bytes ≡ []
      → Split buf [] ps ps
      → Split buf [] (p ∷ ps) (p ∷ ps)
  one_full :
      {p x : ℕ} {xs fs es ps : List ℕ}
      → (buf p).bytes ≡ x ∷ xs
      → Split buf fs es ps
      → Split buf (p ∷ fs) es (p ∷ ps)

pub eq_of_test : (a p : ℕ) → (a == p) ≡ true → a ≡ p
eq_of_test a p e = ground arith

pub not_same : (p a : ℕ) (ps : List ℕ) → has p ps ≡ false → has a ps ≡ true → (a == p) ≡ false
not_same p a ps out i = ground (arith, out, i)

pub frame :
    {f g : ℕ → Option ℕ} {cl : Option ℕ} {ps : List ℕ}
    → Chain f cl ps
    → ((a : ℕ) → has a ps ≡ true → g a ≡ f a)
    → Chain g cl ps
frame at_end same = at_end
frame {g} (at_link {p} c) same =
    at_link (rw (same p (ground arith)) (frame c λ a i. same a (ground arith)))

pub chain_bytes-ext :
    (f g : ℕ → Buf) (ps : List ℕ)
    → ((a : ℕ) → has a ps ≡ true → (g a).bytes ≡ (f a).bytes)
    → chain_bytes g ps ≡ chain_bytes f ps
unfolding chain_bytes
chain_bytes-ext f g [] same = refl
chain_bytes-ext f g (p ∷ ps) same =
    rw (same p (ground arith), chain_bytes-ext f g ps λ a i. same a (ground arith)) refl

pub any_end-ext :
    (f g : ℕ → Buf) (ps : List ℕ)
    → ((a : ℕ) → has a ps ≡ true → g a ≡ f a)
    → any_end g ps ≡ any_end f ps
unfolding any_end
any_end-ext f g [] same = refl
any_end-ext f g (p ∷ ps) same =
    rw (same p (ground arith), any_end-ext f g ps λ a i. same a (ground arith)) refl

pub any_flush-ext :
    (f g : ℕ → Buf) (ps : List ℕ)
    → ((a : ℕ) → has a ps ≡ true → g a ≡ f a)
    → any_flush g ps ≡ any_flush f ps
unfolding any_flush
any_flush-ext f g [] same = refl
any_flush-ext f g (p ∷ ps) same =
    rw (same p (ground arith), any_flush-ext f g ps λ a i. same a (ground arith)) refl

pub chain_bytes-append :
    (f : ℕ → Buf) (ps qs : List ℕ) → chain_bytes f (ps ++ qs) ≡ chain_bytes f ps ++ chain_bytes f qs
unfolding chain_bytes
chain_bytes-append f [] qs = refl
chain_bytes-append f (p ∷ ps) qs =
    ap (◌++◌ (f p).bytes) (chain_bytes-append f ps qs)
    ∙ sym (append_assoc (f p).bytes (chain_bytes f ps) (chain_bytes f qs))

pub has-append : (a : ℕ) (ps qs : List ℕ) → has a (ps ++ qs) ≡ (has a ps || has a qs)
has-append a [] qs = refl
has-append a (p ∷ ps) qs = rw (has-append a ps qs) (ground arith)

pub Split-ext :
    {f g : ℕ → Buf} {fs es ps : List ℕ}
    → Split f fs es ps
    → ((a : ℕ) → has a ps ≡ true → g a ≡ f a)
    → Split g fs es ps
Split-ext no_link same = no_link
Split-ext (one_empty {p} e s) same =
    one_empty (ap Buf.bytes (same p (ground arith)) ∙ e)
      (Split-ext s λ a i. same a (ground (arith, i)))
Split-ext (one_full {p} e s) same =
    one_full (ap Buf.bytes (same p (ground arith)) ∙ e)
      (Split-ext s λ a i. same a (ground (arith, i)))

module _ {buf : ℕ → Buf} where
  pub Split-append : {fs es ps : List ℕ} → Split buf fs es ps → fs ++ es ≡ ps
  Split-append no_link = refl
  Split-append (one_empty e s) = refl
  Split-append (one_full {p} e s) = ap (◌∷◌ p) (Split-append s)

  -- All bytes are those of the buffers that are not empty.
  pub Split-chain_bytes :
      {fs es ps : List ℕ} → Split buf fs es ps → chain_bytes buf ps ≡ chain_bytes buf fs
  unfolding chain_bytes
  Split-chain_bytes no_link = refl
  Split-chain_bytes (one_empty e s) = rw (e) (Split-chain_bytes s)
  Split-chain_bytes (one_full {p} e s) = ap (◌++◌ (buf p).bytes) (Split-chain_bytes s)
