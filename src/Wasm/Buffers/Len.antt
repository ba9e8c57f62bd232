-- ===== src/Wasm/Buffers/Len.antt =====
-- ngx_wasm_chain_len of ngx_wasm_util.c: it counts the bytes up to the first buffer that ends them.
use mathlib.Core.Bool.{or-false}
use ngx_wasm_module.Common.{
  ℕ, zero, suc, ◌+◌, ◌≤◌, ◌≡◌, refl, sym, ap, ◌∙◌, Bool, true, false, ◌||◌, Option, none, some, inl,
  inr, List, [], ◌∷◌, ◌++◌, arith, length, length-append, append-nil, Bool-cases,
}
use ngx_wasm_module.Wasm.Buffers.{Buf, Links, is_end, chain_len}
use ngx_wasm_module.Wasm.Buffers.Segments.{has, Chain, at_end, at_link, chain_bytes, any_end}

-- Only the last buffer may end the bytes.
abbrev pub LastEnds : (ℕ → Buf) → List ℕ → Type 0
LastEnds buf [] = Unit
LastEnds buf (p ∷ []) = Unit
LastEnds buf (p ∷ q ∷ ps) = (is_end (buf p) ≡ false) × LastEnds buf (q ∷ ps)

pub LastEnds-last :
    (buf : ℕ → Buf) (kept : List ℕ) (p : ℕ)
    → any_end buf kept ≡ false
    → LastEnds buf (kept ++ p ∷ [])
unfolding any_end
LastEnds-last buf [] p no_end = tt
LastEnds-last buf (q ∷ []) p no_end = (ground (arith, no_end), tt)
LastEnds-last buf (q ∷ r ∷ kept) p no_end =
    (ground (arith, no_end), LastEnds-last buf (r ∷ kept) p (ground (arith, no_end)))

pub LastEnds-first :
    (f g : ℕ → Buf) (p : ℕ) (ps : List ℕ)
    → is_end (g p) ≡ false
    → ((a : ℕ) → has a ps ≡ true → g a ≡ f a)
    → LastEnds f ps
    → LastEnds g (p ∷ ps)
LastEnds-first f g p [] no_end same l = tt
LastEnds-first f g p (q ∷ []) no_end same l = (no_end, tt)
LastEnds-first f g p (q ∷ r ∷ ps) no_end same l = (
  no_end,
  LastEnds-first f g q (r ∷ ps) (ap is_end (same q (ground arith)) ∙ l.0)
      (λ a i. same a (ground (arith, i))) l.1,
)

pub end_none : {next : ℕ → Option ℕ} {cl : Option ℕ} → Chain next cl [] → cl ≡ none
end_none at_end = refl

module _ (s : Links) where
  chain_len-none : (n : ℕ) → chain_len n s none ≡ some (0, false)
  unfolding chain_len
  chain_len-none zero = refl
  chain_len-none (suc n) = refl

  chain_len_more :
      (n p m : ℕ) (eof : Bool)
      → is_end (s.buf p) ≡ false
      → chain_len n s (s.next p) ≡ some (m, eof)
      → chain_len (suc n) s (some p) ≡ some (length (s.buf p).bytes + m, eof)
  unfolding chain_len
  chain_len_more n p m eof no_end rest = rw (no_end, rest) refl

  chain_len_last :
      (n p : ℕ)
      → s.next p ≡ none
      → chain_len (suc n) s (some p) ≡ some (length (s.buf p).bytes, is_end (s.buf p))
  unfolding chain_len
  chain_len_last n p last = elim (Bool-cases (is_end (s.buf p))) [
    | inl t ↦ rw t refl
    | inr f ↦
        chain_len_more n p 0 false f (ap (chain_len n s) last ∙ chain_len-none n)
        ∙ rw f (ap (λ m. some (m, false)) (omega arith))
  ]

  -- A chain of which only the last buffer may end the bytes.
  pub chain_len-chain_bytes :
      (n : ℕ) (ps : List ℕ) {cl : Option ℕ}
      → Chain s.next cl ps
      → LastEnds s.buf ps
      → length ps ≤ n
      → chain_len n s cl ≡ some (length (chain_bytes s.buf ps), any_end s.buf ps)
  unfolding chain_bytes any_end
  chain_len-chain_bytes n [] at_end l fuel = chain_len-none n
  chain_len-chain_bytes zero (p ∷ ps) c l fuel = absurd (omega arith)
  chain_len-chain_bytes (suc n) (p ∷ []) (at_link c) l fuel =
      chain_len_last n p (end_none c)
      ∙ ap (λ xs. some (length xs, is_end (s.buf p))) (sym (append-nil (s.buf p).bytes))
      ∙ ap (λ b. some (length ((s.buf p).bytes ++ []), b)) (sym (or-false (is_end (s.buf p))))
  chain_len-chain_bytes (suc n) (p ∷ q ∷ ps) (at_link c) l fuel =
      chain_len_more n p _ _ l.0 (chain_len-chain_bytes n (q ∷ ps) c l.1 (omega arith))
      ∙ ap (λ m. some (m, any_end s.buf (q ∷ ps)))
          (sym (length-append (s.buf p).bytes (chain_bytes s.buf (q ∷ ps))))
      ∙ ap (λ b. some (length (chain_bytes s.buf (p ∷ q ∷ ps)), b || any_end s.buf (q ∷ ps)))
          (sym l.0)
