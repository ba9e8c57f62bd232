-- ===== src/Wasm/Buffers/Prepend.antt =====
-- ngx_wasm_chain_prepend of ngx_wasm_util.c: a buffer in front of a chain.
use mathlib.Core.Path.{subst}
use ngx_wasm_module.Common.{
  ℕ, ◌≤◌, ◌≡◌, refl, sym, ap, ◌∙◌, inl, inr, true, false, Option, some, List, ◌∷◌, ◌++◌, arith,
  length, ◌==◌, Bool-cases,
}
use ngx_wasm_module.Wasm.Buffers.{
  Buf, Links, ChainRc, chain_ok, is_end, set_next, write_bytes, prepend_link, chain_prepend,
}
use ngx_wasm_module.Wasm.Buffers.Segments.{
  has, at_link, frame, not_same, eq_of_test, chain_bytes, any_end, any_flush, chain_bytes-ext,
  any_end-ext, any_flush-ext, one_full, Split-ext,
}
use ngx_wasm_module.Wasm.Buffers.Cut.{SomeSplit, some_split}
use ngx_wasm_module.Wasm.Buffers.Link.{NewLink, get_free_buf-NewLink}
use ngx_wasm_module.Wasm.Buffers.Well.{WellChain}

-- The chain behind a new first buffer, which holds the bytes written.
pub record Prepended (str : List ℕ) (s : Links) (ps : List ℕ) (r : ChainRc × Option ℕ × Links)
    : Type 0 where
  pub first : ℕ
  pub links : Links
  pub free_now : List ℕ
  pub returns : r ≡ (chain_ok, some first, links)
  pub well : WellChain (some first) (first ∷ ps) free_now links
  pub bytes : chain_bytes links.buf (first ∷ ps) ≡ str ++ chain_bytes s.buf ps
  pub fits : length (links.buf first).bytes ≤ (links.buf first).room
  pub no_end : is_end (links.buf first) ≡ false
  pub end_kept : any_end links.buf (first ∷ ps) ≡ any_end s.buf ps
  pub flush_kept : any_flush links.buf (first ∷ ps) ≡ any_flush s.buf ps
  pub same_buf : (a : ℕ) → has a ps ≡ true → links.buf a ≡ s.buf a

pub unused_link :
    {head : Option ℕ} {ps frees : List ℕ} {s : Links} {len : ℕ} {r : Option ℕ × Links}
    → WellChain head ps frees s
    → (l : NewLink len frees s r) → has l.link ps ≡ false
unused_link {ps} w l = elim (Bool-cases (has l.link ps)) [
  | inr o ↦ o
  | inl i ↦ elim l.unused [
    | inl new ↦ absurd (omega (arith, w.below l.link i))
    | inr free ↦ absurd (ground (arith, w.apart l.link i, free))
  ]
]

Split-full :
    {b b' : ℕ → Buf} {p x : ℕ} {xs ps : List ℕ}
    → (b' p).bytes ≡ x ∷ xs
    → ((a : ℕ) → has a ps ≡ true → b' a ≡ b a)
    → SomeSplit b ps
    → SomeSplit b' (p ∷ ps)
Split-full e same (some_split s) = some_split (one_full e (Split-ext s same))

module _ (tag x : ℕ) (xs : List ℕ) (s : Links) (head : Option ℕ) (ps frees : List ℕ) where
  prepend_parts :
      {r : Option ℕ × Links}
      → WellChain head ps frees s
      → (l : NewLink (length (x ∷ xs)) frees s r)
      → Prepended (x ∷ xs) s ps (prepend_link (x ∷ xs) head (some l.link, l.links))
  unfolding chain_bytes any_end any_flush
  prepend_parts w l =
      let p = l.link in
      let links = set_next p head (write_bytes p (x ∷ xs) l.links) in
      let same : (p == p) ≡ true = ground arith in
      let out = unused_link w l in
      let bytes_p : (links.buf p).bytes ≡ x ∷ xs = rw same (ap (λ ys. ys ++ x ∷ xs) l.no_bytes) in
      let end_p : is_end (links.buf p) ≡ false = rw same l.no_end in
      let flush_p : (links.buf p).flush ≡ false = rw same l.no_flush in
      let same_buf : (a : ℕ) → has a ps ≡ true → links.buf a ≡ s.buf a =
        λ a i. let ne = not_same p a ps out i in rw ne (l.same_buf a ne) in
      let same_next : (a : ℕ) → has a ps ≡ true → links.next a ≡ s.next a =
        λ a i. let ne = not_same p a ps out i in rw ne (l.same_next a ne) in
      let room_p : length (x ∷ xs) ≤ (links.buf p).room = rw same l.has_room in
      record {
        first = p;
        links = links;
        free_now = l.free_now;
        returns = refl;
        well = record {
          chain = at_link (rw same (frame w.chain same_next));
          distinct = (out, w.distinct);
          split = Split-full bytes_p same_buf w.split;
          below = λ a i. elim (Bool-cases (a == p)) [
            | inl e ↦ (let here = eq_of_test a p e in omega (arith, here, l.below))
            | inr ne ↦
                (let old : has a ps ≡ true = ground (arith, i) in
                  omega (arith, w.below a old, l.top_grows))
          ];
          free = record {
            chain = frame l.frees_now.chain λ a i. rw (not_same p a l.free_now l.not_free i) refl;
            distinct = l.frees_now.distinct;
            below = l.frees_now.below;
          };
          apart = λ a i. elim (Bool-cases (has a l.free_now)) [
            | inr o ↦ o
            | inl j ↦
                (let ne = not_same p a l.free_now l.not_free j in
                  absurd (ground (arith, l.free_from a j, w.apart a, i, ne)))
          ];
        };
        bytes =
            ap (λ ys. ys ++ chain_bytes links.buf ps) bytes_p
            ∙ ap (◌++◌ (x ∷ xs))
                (chain_bytes-ext s.buf links.buf ps λ a i. ap Buf.bytes (same_buf a i));
        fits = subst (λ ys. length ys ≤ (links.buf p).room) (sym bytes_p) room_p;
        no_end = end_p;
        end_kept = rw end_p (any_end-ext s.buf links.buf ps same_buf);
        flush_kept = rw flush_p (any_flush-ext s.buf links.buf ps same_buf);
        same_buf = same_buf;
      }

  -- While the pool gives memory, a prepend of some bytes to a well-formed chain returns NGX_OK
  -- and leaves a well-formed chain, disjoint from the free links: its bytes are those put in
  -- front, in a buffer with room for them, and then those before, and it ends and flushes as
  -- before.
  pub chain_prepend-Prepended :
      WellChain head ps frees s → Prepended (x ∷ xs) s ps (chain_prepend true (x ∷ xs) tag head s)
  unfolding chain_prepend
  chain_prepend-Prepended w =
      let l = get_free_buf-NewLink (length (x ∷ xs)) tag s frees w.free in
      subst (λ q. Prepended (x ∷ xs) s ps (prepend_link (x ∷ xs) head q)) (sym l.returns)
        (prepend_parts w l)
