-- ===== src/Wasm/Buffers/Link.antt =====
-- ngx_wasm_chain_get_free_buf of ngx_wasm_util.c, for a chain's new link.
use ngx_wasm_module.Common.{
  ℕ, ◌+◌, ◌≤◌, ◌<◌, ◌≡◌, refl, sym, ap, ◌∙◌, ◌⊎◌, inl, inr, true, false, ◌&&◌, not, Option, none,
  some, List, [], ◌∷◌, arith, leb, ◌==◌, Bool-cases, Option-cases,
}
use mathlib.Core.Path.{subst}
use mathlib.Core.Option.{some-injective, none-ne-some}
use ngx_wasm_module.Wasm.Buffers.Segments.{has, Distinct, Chain, at_end, at_link, frame, not_same}
use ngx_wasm_module.Wasm.Buffers.{
  Buf, Links, is_end, set_next, set_buf, empty_buf, temp_buf, reuse_link, new_link, get_link,
  get_free_buf,
}

-- The free links are a chain of different links, all of which were used before.
pub record Frees (frees : List ℕ) (s : Links) : Type 0 where
  pub chain : Chain s.next s.free frees
  pub distinct : Distinct frees
  pub below : (a : ℕ) → has a frees ≡ true → a < s.top

-- An empty link without flags, with room for `len` bytes, which was free or is new.
pub record NewLink (len : ℕ) (frees : List ℕ) (s : Links) (r : Option ℕ × Links) : Type 0 where
  pub link : ℕ
  pub links : Links
  pub returns : r ≡ (some link, links)
  pub no_bytes : (links.buf link).bytes ≡ []
  pub no_end : is_end (links.buf link) ≡ false
  pub no_flush : (links.buf link).flush ≡ false
  pub has_room : len ≤ (links.buf link).room
  pub last : links.next link ≡ none
  pub same_buf : (a : ℕ) → (a == link) ≡ false → links.buf a ≡ s.buf a
  pub same_next : (a : ℕ) → (a == link) ≡ false → links.next a ≡ s.next a
  pub unused : (link ≡ s.top) ⊎ (has link frees ≡ true)
  pub free_now : List ℕ
  pub frees_now : Frees free_now links
  pub not_free : has link free_now ≡ false
  pub free_from : (a : ℕ) → has a free_now ≡ true → has a frees ≡ true
  pub below : link < links.top
  pub top_grows : s.top ≤ links.top

module _ (len : ℕ) (frees free_now : List ℕ) (s s' : Links) where
  -- The link `p` of `s'`, which differs from `s` there at most, gets a fresh buffer.
  fresh-NewLink :
      (p : ℕ) (b : Buf)
      → b.bytes ≡ []
      → is_end b ≡ false
      → b.flush ≡ false
      → len ≤ b.room
      → s'.buf ≡ s.buf
      → s'.next ≡ (set_next p none s).next
      → (p ≡ s.top) ⊎ (has p frees ≡ true)
      → Frees free_now s'
      → has p free_now ≡ false
      → ((a : ℕ) → has a free_now ≡ true → has a frees ≡ true)
      → p < s'.top
      → s.top ≤ s'.top
      → NewLink len frees s (some p, set_buf p b s')
  fresh-NewLink p b no_bytes no_end no_flush room bufs nexts unused free not_free from below grows =
      let same : (p == p) ≡ true = ground arith in
      let at_p : (set_buf p b s').buf p ≡ b = rw same refl in
      record {
        link = p;
        links = set_buf p b s';
        returns = refl;
        no_bytes = ap Buf.bytes at_p ∙ no_bytes;
        no_end = ap is_end at_p ∙ no_end;
        no_flush = ap Buf.flush at_p ∙ no_flush;
        has_room = subst (λ c. len ≤ Buf.room c) (sym at_p) room;
        last = ap (λ f. f p) nexts ∙ rw same refl;
        same_buf = λ a ne. rw ne (ap (λ f. f a) bufs);
        same_next = λ a ne. ap (λ f. f a) nexts ∙ rw ne refl;
        unused = unused;
        free_now = free_now;
        frees_now = record { chain = free.chain; distinct = free.distinct; below = free.below };
        not_free = not_free;
        free_from = from;
        below = below;
        top_grows = grows;
      }

-- A list of free links that starts at a link.
data Popped (cl : ℕ) (frees : List ℕ) (next : ℕ → Option ℕ) : Type 0 where
  popped : (rest : List ℕ) → frees ≡ cl ∷ rest → Chain next (next cl) rest → Popped cl frees next

pop :
    {next : ℕ → Option ℕ} {o : Option ℕ} {frees : List ℕ} (cl : ℕ)
    → Chain next o frees
    → o ≡ some cl
    → Popped cl frees next
pop cl at_end e = absurd (none-ne-some cl e)
pop {next} cl (at_link {p} {ps} c) e =
    let same : p ≡ cl = some-injective _ _ e in
    popped ps (ap (λ a. a ∷ ps) same) (subst (λ a. Chain next (next a) ps) same c)

new_link-NewLink :
    (len tag : ℕ) (s : Links) (frees : List ℕ)
    → s.free ≡ none
    → NewLink len frees s (new_link true len tag s)
new_link-NewLink len tag s frees at =
    let s' = set_next s.top none (record s { top = s.top + 1 }) in
    let free : Frees [] s' = record {
      chain = subst (λ o. Chain s'.next o []) (sym at) at_end;
      distinct = tt;
      below = λ a i. absurd (ground (arith, i));
    } in
    let new : (b : Buf)
        → b.bytes ≡ []
        → is_end b ≡ false
        → b.flush ≡ false
        → len ≤ b.room
        → NewLink len frees s (some s.top, set_buf s.top b s') =
      λ b none_yet no_end no_flush room.
        fresh-NewLink len frees [] s s' s.top b none_yet no_end no_flush room refl refl (inl refl)
          free refl (λ a i. absurd (ground (arith, i))) (omega arith) (omega arith) in
    elim (Bool-cases (len == 0)) [
      | inl z ↦ rw z (new (empty_buf tag) refl refl refl (ground arith))
      | inr nz ↦ rw nz (new (temp_buf len tag) refl refl refl (omega arith))
    ]

reuse_link-NewLink :
    (len tag cl : ℕ) (s : Links) (frees : List ℕ)
    → Frees frees s
    → Popped cl frees s.next
    → NewLink len frees s
        (reuse_link true len tag cl (set_next cl none (record s { free = s.next cl })))
reuse_link-NewLink len tag cl s frees free (popped rest eq c) =
    let s' = set_next cl none (record s { free = s.next cl }) in
    let b = s.buf cl in
    let (out, d) = subst Distinct eq free.distinct in
    let in_frees : has cl frees ≡ true = ap (has cl) eq ∙ ground arith in
    let from : (a : ℕ) → has a rest ≡ true → has a frees ≡ true =
      λ a i. ap (has a) eq ∙ ground (arith, i) in
    let free' : Frees rest s' = record {
      chain = frame c λ a i. rw (not_same cl a rest out i) refl;
      distinct = d;
      below = λ a i. free.below a (from a i);
    } in
    let new : (c : Buf)
        → c.bytes ≡ []
        → is_end c ≡ false
        → c.flush ≡ false
        → len ≤ c.room
        → NewLink len frees s (some cl, set_buf cl c s') =
      λ c none_yet no_end no_flush room.
        fresh-NewLink len frees rest s s' cl c none_yet no_end no_flush room refl refl
          (inr in_frees) free' out from (free.below cl in_frees) (omega arith) in
    elim (Bool-cases (b.has_memory && leb len b.room)) [
      | inl t ↦ rw t (
          new (record (temp_buf b.room tag) { temporary = not (len == 0) }) refl refl refl
            (ground arith))
      | inr f ↦ elim (Bool-cases (len == 0)) [
        | inl z ↦ rw (f, z) (new (empty_buf 0) refl refl refl (ground arith))
        | inr nz ↦ rw (f, nz) (new (temp_buf len tag) refl refl refl (omega arith))
      ]
    ]

-- While the pool gives memory, reusing free links gives a new or a free link, outside the free
-- links that remain, with an empty buffer without flags that has room for the bytes asked for;
-- no other link or buffer changes.
pub get_free_buf-NewLink :
    (len tag : ℕ) (s : Links) (frees : List ℕ)
    → Frees frees s
    → NewLink len frees s (get_free_buf true len tag true s)
unfolding get_free_buf
get_free_buf-NewLink len tag s frees free = elim (Option-cases s.free) [
  | inl e ↦
      subst (λ o. NewLink len frees s (get_link true len tag true o s)) (sym e)
        (new_link-NewLink len tag s frees e)
  | inr (cl, e) ↦
      subst (λ o. NewLink len frees s (get_link true len tag true o s)) (sym e)
        (reuse_link-NewLink len tag cl s frees free (pop cl free.chain e))
]
