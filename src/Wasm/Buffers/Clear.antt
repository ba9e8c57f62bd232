-- ===== src/Wasm/Buffers/Clear.antt =====
-- ngx_wasm_chain_clear of ngx_wasm_util.c: it keeps the bytes before the offset.
use mathlib.Core.Bool.{and-false, or-false, or_assoc}
use mathlib.Core.Path.{subst}
use native.Mathlib.Numerals.{unary_clauses}
use ngx_wasm_module.Common.{
  ℕ, zero, suc, ◌+◌, ◌-◌, ◌≤◌, ◌≡◌, refl, sym, ap, ◌∙◌, inl, inr, Bool, true, false, ◌||◌, Option,
  some, List, [], ◌∷◌, arith, length, length-append, take, ltb, ◌==◌, Bool-cases,
}
use ngx_wasm_module.Wasm.Buffers.{
  Buf, Links, Cleared, is_end, set_buf, cleared, clear_bytes, clear_loop, chain_clear,
}
use ngx_wasm_module.Wasm.Buffers.Segments.{
  not_same, has, Distinct, Chain, at_end, at_link, chain_bytes, any_end, any_flush, any_end-ext,
  any_flush-ext,
}
use ngx_wasm_module.Wasm.Buffers.Cut.{Cut, cut_end, cut_one, Cut-chain_bytes, Cut-ext}

-- What the loop leaves: the cut, no flag, and all else as it was.
pub record ClearEnd (k pos : ℕ) (eof flushes : Bool) (s : Links) (ps : List ℕ) (r : Option Cleared)
    : Type 0 where
  pub end : Cleared
  pub returns : r ≡ some end
  pub cut : Cut s.buf end.links.buf k ps
  pub pos_cut : end.pos ≡ pos + length (chain_bytes end.links.buf ps)
  pub eof_any : end.eof ≡ (eof || any_end s.buf ps)
  pub flush_any : end.flushes ≡ (flushes || any_flush s.buf ps)
  pub no_end : any_end end.links.buf ps ≡ false
  pub no_flush : any_flush end.links.buf ps ≡ false
  pub same_buf : (a : ℕ) → has a ps ≡ false → end.links.buf a ≡ s.buf a
  pub same_next : end.links.next ≡ s.next
  pub same_free : end.links.free ≡ s.free
  pub same_top : end.links.top ≡ s.top

pub take_all : (k : ℕ) (xs : List ℕ) → length xs ≤ k → take k xs ≡ xs
take_all zero [] le = refl
take_all zero (x ∷ xs) le = absurd (omega arith)
take_all (suc k) [] le = refl
take_all (suc k) (x ∷ xs) le = ap (◌∷◌ x) (take_all k xs (omega arith))

length-take : (k : ℕ) (xs : List ℕ) → k ≤ length xs → length (take k xs) ≡ k
length-take zero xs le = refl
length-take (suc k) [] le = absurd (omega arith)
length-take (suc k) (x ∷ xs) le = ap suc (length-take k xs (omega arith))

-- `clear_bytes` keeps the first bytes, as many as the offset is ahead.
clear_bytes-take :
    (offset pos : ℕ) (xs : List ℕ)
    → pos ≤ offset
    → clear_bytes offset pos xs ≡ (pos + length (take (offset - pos) xs), take (offset - pos) xs)
unfolding clear_bytes
clear_bytes-take offset pos xs le = elim (Bool-cases (ltb offset (pos + length xs))) [
  | inl t ↦ elim (Bool-cases (offset == 0)) [
    | inl z ↦
        (let here : (pos == offset) ≡ true = ground arith in
          let none_left : offset - pos ≡ 0 = ground arith in
          rw (z, here, none_left) (ap (λ n. (n, [])) (omega arith)))
    | inr nz ↦
        (let left : length xs - ((pos + length xs) - offset) ≡ offset - pos = ground arith in
          rw (t, nz, left, length-take (offset - pos) xs (ground arith)) refl)
  ]
  | inr f ↦ elim (Bool-cases (pos == offset)) [
    | inl e ↦
        (let none_left : offset - pos ≡ 0 = ground arith in
          rw (f, e, none_left, and-false) (ap (λ n. (n, [])) (omega arith)))
    | inr ne ↦ rw (f, ne, and-false, take_all (offset - pos) xs (ground arith)) refl
  ]
]

length-take_le : (k : ℕ) (xs : List ℕ) → length (take k xs) ≤ k
length-take_le zero xs = omega arith
length-take_le (suc k) [] = omega arith
length-take_le (suc k) (x ∷ xs) = omega (arith, length-take_le k xs)

set_buf_same : (p : ℕ) (b : Buf) (s : Links) → (set_buf p b s).buf p ≡ b
set_buf_same p b s = let same : (p == p) ≡ true = ground arith in rw same refl

set_buf_other : (p a : ℕ) (b : Buf) (s : Links) → (a == p) ≡ false → (set_buf p b s).buf a ≡ s.buf a
set_buf_other p a b s ne = rw ne refl

module _ (offset : ℕ) where
  clear_loop_step :
      (n pos p : ℕ) (eof flushes : Bool) (s : Links)
      → pos ≤ offset
      → clear_loop (suc n) offset pos eof flushes s (some p)
        ≡ clear_loop n offset
            (pos + length (take (offset - pos) (s.buf p).bytes))
            (eof || is_end (s.buf p))
            (flushes || (s.buf p).flush)
            (set_buf p (cleared (take (offset - pos) (s.buf p).bytes) (s.buf p)) s)
            (s.next p)
  unfolding clear_loop
  clear_loop_step n pos p eof flushes s le =
      ap
        (λ (r : ℕ × List ℕ).
          clear_loop n offset r.0 (eof || is_end (s.buf p)) (flushes || (s.buf p).flush)
            (set_buf p (cleared r.1 (s.buf p)) s) (s.next p))
        (clear_bytes-take offset pos (s.buf p).bytes le)

  nothing_left :
      (pos : ℕ) (eof flushes : Bool) (s : Links)
      → ClearEnd
          (offset - pos)
          pos
          eof
          flushes
          s
          []
          (some (record { pos = pos; eof = eof; flushes = flushes; links = s }))
  unfolding chain_bytes any_end any_flush
  nothing_left pos eof flushes s = record {
    end = record { pos = pos; eof = eof; flushes = flushes; links = s };
    returns = refl;
    cut = cut_end (offset - pos);
    pos_cut = omega arith;
    eof_any = sym (or-false eof);
    flush_any = sym (or-false flushes);
    no_end = refl;
    no_flush = refl;
    same_buf = λ a o. refl;
    same_next = refl;
    same_free = refl;
    same_top = refl;
  }

  clear_one :
      (n pos p : ℕ) (eof flushes : Bool) (s : Links) (ps : List ℕ)
      → pos ≤ offset
      → has p ps ≡ false
      → ClearEnd
          (offset - (pos + length (take (offset - pos) (s.buf p).bytes)))
          (pos + length (take (offset - pos) (s.buf p).bytes))
          (eof || is_end (s.buf p))
          (flushes || (s.buf p).flush)
          (set_buf p (cleared (take (offset - pos) (s.buf p).bytes) (s.buf p)) s)
          ps
          (clear_loop n offset
            (pos + length (take (offset - pos) (s.buf p).bytes))
            (eof || is_end (s.buf p))
            (flushes || (s.buf p).flush)
            (set_buf p (cleared (take (offset - pos) (s.buf p).bytes) (s.buf p)) s)
            (s.next p))
      → ClearEnd
          (offset - pos)
          pos
          eof
          flushes
          s
          (p ∷ ps)
          (clear_loop (suc n) offset pos eof flushes s (some p))
  unfolding chain_bytes any_end any_flush
  clear_one n pos p eof flushes s ps le out r =
      let xs = take (offset - pos) (s.buf p).bytes in
      let now = r.end.links.buf in
      let at_p = r.same_buf p out ∙ set_buf_same p (cleared xs (s.buf p)) s in
      let size = ap (λ b. length (Buf.bytes b)) at_p in
      let before : (a : ℕ)
          → has a ps ≡ true
          → (set_buf p (cleared xs (s.buf p)) s).buf a ≡ s.buf a =
        λ a i. set_buf_other p a (cleared xs (s.buf p)) s (not_same p a ps out i) in
      record {
        end = r.end;
        returns = clear_loop_step n pos p eof flushes s le ∙ r.returns;
        cut =
            cut_one (ap Buf.bytes at_p)
              (subst (λ k. Cut s.buf now k ps) (omega (arith, size)) (Cut-ext r.cut before));
        pos_cut = omega (arith, r.pos_cut, length-append (now p).bytes (chain_bytes now ps), size);
        eof_any =
            r.eof_any
            ∙ ap (◌||◌ (eof || is_end (s.buf p))) (any_end-ext s.buf _ ps before)
            ∙ or_assoc eof (is_end (s.buf p)) (any_end s.buf ps);
        flush_any =
            r.flush_any
            ∙ ap (◌||◌ (flushes || (s.buf p).flush)) (any_flush-ext s.buf _ ps before)
            ∙ or_assoc flushes (s.buf p).flush (any_flush s.buf ps);
        no_end = ap (λ b. is_end b || any_end now ps) at_p ∙ r.no_end;
        no_flush = ap (λ b. Buf.flush b || any_flush now ps) at_p ∙ r.no_flush;
        same_buf = λ a o.
            r.same_buf a (ground arith) ∙ set_buf_other p a (cleared xs (s.buf p)) s (ground arith);
        same_next = r.same_next;
        same_free = r.same_free;
        same_top = r.same_top;
      }

  pub clear_loop-ClearEnd :
      (n pos : ℕ) (eof flushes : Bool) (s : Links) {cl : Option ℕ} {ps : List ℕ}
      → Chain s.next cl ps
      → Distinct ps
      → length ps ≤ n
      → pos ≤ offset
      → ClearEnd (offset - pos) pos eof flushes s ps (clear_loop n offset pos eof flushes s cl)
  unfolding clear_loop
  clear_loop-ClearEnd zero pos eof flushes s at_end d fuel le = nothing_left pos eof flushes s
  clear_loop-ClearEnd zero pos eof flushes s (at_link c) d fuel le = absurd (omega arith)
  clear_loop-ClearEnd (suc n) pos eof flushes s at_end d fuel le = nothing_left pos eof flushes s
  clear_loop-ClearEnd (suc n) pos eof flushes s (at_link {p} {ps} c) d fuel le =
      let xs = take (offset - pos) (s.buf p).bytes in
      clear_one n pos p eof flushes s ps le d.0 (
        clear_loop-ClearEnd n (pos + length xs) (eof || is_end (s.buf p))
          (flushes || (s.buf p).flush) (set_buf p (cleared xs (s.buf p)) s) c d.1 (omega arith)
          (omega (arith, length-take_le (offset - pos) (s.buf p).bytes)))

-- What `ngx_wasm_chain_clear` leaves of a chain.
pub record Keeps (offset : ℕ) (s : Links) (ps : List ℕ) (r : Option (ℕ × Cleared)) : Type 0 where
  pub fill : ℕ
  pub end : Cleared
  pub returns : r ≡ some (fill, end)
  pub cut : Cut s.buf end.links.buf offset ps
  pub bytes : chain_bytes end.links.buf ps ≡ take offset (chain_bytes s.buf ps)
  pub filled : fill + length (chain_bytes end.links.buf ps) ≡ offset
  pub eof_any : end.eof ≡ any_end s.buf ps
  pub flush_any : end.flushes ≡ any_flush s.buf ps
  pub no_end : any_end end.links.buf ps ≡ false
  pub no_flush : any_flush end.links.buf ps ≡ false
  pub same_buf : (a : ℕ) → has a ps ≡ false → end.links.buf a ≡ s.buf a
  pub same_next : end.links.next ≡ s.next
  pub same_free : end.links.free ≡ s.free
  pub same_top : end.links.top ≡ s.top

-- Clearing a chain of different links at an offset keeps the bytes before the offset, returns
-- how many the chain has too few, reports whether a buffer ended or flushed it, resets these
-- flags in all its buffers, and changes no other link or buffer.
pub chain_clear-Keeps :
    (n offset : ℕ) (s : Links) (head : Option ℕ) (ps : List ℕ)
    → Chain s.next head ps
    → Distinct ps
    → length ps ≤ n
    → Keeps offset s ps (chain_clear n offset s head)
unfolding chain_clear
chain_clear-Keeps n offset s head ps c d fuel =
    let r = clear_loop-ClearEnd offset n 0 false false s c d fuel (omega arith) in
    let cut : Cut s.buf r.end.links.buf offset ps = simp unary_clauses at r.cut in
    let bytes = Cut-chain_bytes cut in
    let short = length-take_le offset (chain_bytes s.buf ps) in
    record {
      fill = offset - r.end.pos;
      end = r.end;
      returns = rw (r.returns) refl;
      cut = cut;
      bytes = bytes;
      filled = omega (arith, ap length bytes, r.pos_cut, short);
      eof_any = r.eof_any;
      flush_any = r.flush_any;
      no_end = r.no_end;
      no_flush = r.no_flush;
      same_buf = r.same_buf;
      same_next = r.same_next;
      same_free = r.same_free;
      same_top = r.same_top;
    }
