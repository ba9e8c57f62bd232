-- ===== src/Wasm/Buffers/Append.antt =====
-- ngx_wasm_chain_append of ngx_wasm_util.c: what stands behind the offset is replaced.
use mathlib.Core.Path.{subst}
use ngx_wasm_module.Common.{
  ℕ, ◌≤◌, ◌<◌, ◌≡◌, refl, sym, ap, ◌∙◌, ◌⊎◌, inl, inr, true, false, ◌||◌, Option, none, some, List,
  [], ◌∷◌, ◌++◌, arith, length, length-append, Bool-cases,
}
use ngx_wasm_module.Wasm.Buffers.{
  Buf, Links, Cleared, ChainRc, chain_ok, append_link, put_tail, write_tail, chain_clear,
  chain_append,
}
use ngx_wasm_module.Wasm.Buffers.Segments.{
  not_same, eq_of_test, has, Distinct, Chain, Split, has-append, Split-append,
}
use ngx_wasm_module.Wasm.Buffers.Cut.{SomeSplit, some_split, Cut-Split}
use ngx_wasm_module.Wasm.Buffers.Clear.{Keeps, chain_clear-Keeps}
use ngx_wasm_module.Wasm.Buffers.Recycle.{is_at, FreeApart}
use ngx_wasm_module.Wasm.Buffers.Tail.{last_or, TailEnd, get_tail-TailEnd}
use ngx_wasm_module.Wasm.Buffers.Link.{NewLink, get_free_buf-NewLink}
use ngx_wasm_module.Wasm.Buffers.Well.{WellChain}
use ngx_wasm_module.Wasm.Buffers.Relink.{
  Distinct-prefix, Distinct-apart, Distinct-last, put_tail-buf, put_tail-top, put_tail-Chain,
  put_tail-Frees,
}
use ngx_wasm_module.Wasm.Buffers.Content.{
  Content, Split-last, written_end, written_flush, written_bytes, written_room, written_other,
  chain_append-Content,
}

-- A write at an offset that succeeds.
pub record Appended (at : ℕ) (str : List ℕ) (s : Links) (ps : List ℕ)
    (r : Option (ChainRc × Option ℕ × Links)) : Type 0 where
  pub head : Option ℕ
  pub links : Links
  pub kept : List ℕ
  pub written : ℕ
  pub returns : r ≡ some (chain_ok, head, links)
  pub shorter : length kept ≤ length ps
  pub free_now : List ℕ
  pub well : WellChain head (kept ++ written ∷ []) free_now links
  pub content : Content at str s ps links.buf kept written

-- The link that is written is none of those kept.
unused_lem :
    (fs es frees free_now : List ℕ) (p top : ℕ)
    → Distinct (fs ++ es)
    → ((a : ℕ) → has a (fs ++ es) ≡ true → a < top)
    → ((a : ℕ) → has a (fs ++ es) ≡ true → has a frees ≡ false)
    → (p ≡ top) ⊎ (has p free_now ≡ true)
    → (has p free_now ≡ true → (has p frees || has p es) ≡ true)
    → has p fs ≡ false
unused_lem fs es frees free_now p top d below apart unused from = elim (Bool-cases (has p fs)) [
  | inr o ↦ o
  | inl i ↦
      (let all : has p (fs ++ es) ≡ true = ground (arith, has-append p fs es, i) in
        elim unused [
          | inl new ↦ absurd (omega (arith, below p all))
          | inr free ↦ elim (Bool-cases (has p es)) [
            | inl e ↦ absurd (ground (arith, i, Distinct-apart p fs es d e))
            | inr o ↦ absurd (ground (arith, apart p all, from free, o))
          ]
        ])
]

module _ (at tag : ℕ) (str : List ℕ) (s : Links) (head : Option ℕ) (ps frees : List ℕ) where
  -- The chain that `chain_append` leaves, from what its steps leave.
  append_parts :
      {r0 : Option (ℕ × Cleared)} {r1 : Option (Option ℕ × Links)} {r2 : Option ℕ × Links}
      {r : Option (ChainRc × Option ℕ × Links)} {fs es : List ℕ}
      → WellChain head ps frees s
      → (k : Keeps at s ps r0) → Split k.end.links.buf fs es ps
      → (t : TailEnd (last_or none fs) es frees k.end.links r1)
      → (l : NewLink (length str) t.free_now t.links r2)
      → (r ≡ (
          let (head', links) =
            put_tail
              (last_or none fs)
              l.link
              head
              (write_tail l.link str k.end.eof k.end.flushes l.links) in
          some (chain_ok, head', links)))
      → Appended at str s ps r
  append_parts {fs} {es} w k sp t l eq =
      let p = l.link in
      let ll = last_or none fs in
      let links = write_tail p str k.end.eof k.end.flushes l.links in
      let parts = Split-append sp in
      let ds = subst Distinct (sym parts) w.distinct in
      let all : (a : ℕ) → has a fs ≡ true → has a ps ≡ true =
        λ a i. sym (ap (has a) parts) ∙ ground (arith, has-append a fs es, i) in
      let old : (a : ℕ) → has a es ≡ true → has a ps ≡ true =
        λ a i. sym (ap (has a) parts) ∙ ground (arith, has-append a fs es, i) in
      let out : has p fs ≡ false =
        unused_lem fs es frees t.free_now p s.top ds (λ a i. w.below a (sym (ap (has a) parts) ∙ i))
          (λ a i. w.apart a (sym (ap (has a) parts) ∙ i))
          (elim l.unused [ inl e ↦ inl (e ∙ t.same_top ∙ k.same_top) | inr e ↦ inr e ])
          (t.free_from p) in
      let kept : (a : ℕ) → has a fs ≡ true → has a es ≡ false = λ a i.
        elim (Bool-cases (has a es)) [
          | inl j ↦ absurd (ground (arith, i, Distinct-apart a fs es ds j))
          | inr o ↦ o
        ] in
      let same_buf : (a : ℕ) → has a fs ≡ true → links.buf a ≡ k.end.links.buf a = λ a i.
        written_other p a str k.end.eof k.end.flushes l.links (not_same p a fs out i)
        ∙ l.same_buf a (not_same p a fs out i)
        ∙ t.same_buf a (kept a i) in
      let same_next : (a : ℕ) → has a fs ≡ true → is_at ll a ≡ false → links.next a ≡ s.next a =
        λ a i other.
          l.same_next a (not_same p a fs out i)
          ∙ t.same_next a (kept a i) other
          ∙ ap (λ f. f a) k.same_next in
      let apart : (a : ℕ) → has a fs ≡ true → has a l.free_now ≡ false = λ a i.
        elim (Bool-cases (has a l.free_now)) [
          | inl j ↦
              absurd
                (ground (arith, t.free_from a (l.free_from a j), kept a i, w.apart a (all a i)))
          | inr o ↦ o
        ] in
      let bytes = written_bytes p str k.end.eof k.end.flushes l.links l.no_bytes in
      let buf_p = put_tail-buf ll p head links in
      record {
        head = (put_tail ll p head links).0;
        links = (put_tail ll p head links).1;
        kept = fs;
        written = p;
        returns = eq;
        shorter = subst (λ qs. length fs ≤ length qs) parts (omega (arith, length-append fs es));
        free_now = l.free_now;
        well = record {
          chain =
              put_tail-Chain s.next fs es p head links
                (subst (Chain s.next head) (sym parts) w.chain) (Distinct-prefix fs es ds) out
                l.last same_next;
          distinct = Distinct-last p fs (Distinct-prefix fs es ds) out;
          split =
              subst (λ b. SomeSplit b (fs ++ p ∷ [])) (sym buf_p)
                (Split-last p sp λ a i. ap Buf.bytes (same_buf a i));
          below = λ a i. elim (Bool-cases (has a fs)) [
            | inl j ↦ omega (
              arith,
              w.below a (all a j),
              l.top_grows,
              t.same_top,
              k.same_top,
              put_tail-top ll p head links,
            )
            | inr o ↦
                (let here : a ≡ p =
                    eq_of_test a p (ground (arith, has-append a fs (p ∷ []), i, o)) in
                  omega (arith, here, l.below, put_tail-top ll p head links))
          ];
          free =
              put_tail-Frees fs l.free_now p head links
                (record {
                  chain = l.frees_now.chain;
                  distinct = l.frees_now.distinct;
                  below = l.frees_now.below;
                })
                apart;
          apart = λ a i. elim (Bool-cases (has a fs)) [
            | inl j ↦ apart a j
            | inr o ↦
                (let here : a ≡ p =
                    eq_of_test a p (ground (arith, has-append a fs (p ∷ []), i, o)) in
                  ap (λ b. has b l.free_now) here ∙ l.not_free)
          ];
        };
        content =
            subst (λ b. Content at str s ps b fs p) (sym buf_p)
              (chain_append-Content str links.buf p k sp same_buf bytes
                (written_room p str k.end.eof k.end.flushes l.links l.has_room)
                (written_end p str k.end.eof k.end.flushes l.links l.no_end)
                (written_flush p str k.end.eof k.end.flushes l.links l.no_flush));
      }

  -- While the pool gives memory, a write at an offset to a well-formed chain returns NGX_OK and
  -- leaves a well-formed chain, disjoint from the free links: its bytes are those before the
  -- offset and then the ones written, which fit in their buffer, and it ends and flushes if the
  -- chain did before.
  pub chain_append-Appended :
      (n : ℕ)
      → WellChain head ps frees s
      → length ps ≤ n
      → Appended at str s ps (chain_append n true str at tag head s)
  unfolding chain_append
  chain_append-Appended n w fuel = by_old w.split
    where
      k : Keeps at s ps (chain_clear n at s head)
      k = chain_clear-Keeps n at s head ps w.chain w.distinct fuel

      free : FreeApart none ps frees k.end.links
      free = record {
        chain =
            subst (λ f. Chain f k.end.links.free frees) (sym k.same_next)
              (subst (λ o. Chain s.next o frees) (sym k.same_free) w.free.chain);
        distinct = w.free.distinct;
        not_es = w.apart;
        not_ll = λ a i. refl;
      }

      by_split :
          SomeSplit k.end.links.buf ps
          → Appended at str s ps (chain_append n true str at tag head s)
      by_split (some_split {fs} {es} after) =
          let t =
            get_tail-TailEnd tag k.end.links n none
              (subst (λ f. Chain f head ps) (sym k.same_next) w.chain) after w.distinct
              (λ a i. refl) free fuel in
          let parts = Split-append after in
          let used : (a : ℕ) → has a t.free_now ≡ true → a < t.links.top = λ a i.
            elim (Bool-cases (has a frees)) [
              | inl j ↦ omega (arith, w.free.below a j, t.same_top, k.same_top)
              | inr o ↦
                  (let old : has a ps ≡ true =
                      sym (ap (has a) parts)
                      ∙ ground (arith, has-append a fs es, t.free_from a i, o) in
                    omega (arith, w.below a old, t.same_top, k.same_top))
            ] in
          let l =
            get_free_buf-NewLink (length str) tag t.links t.free_now
              (record { chain = t.free_chain; distinct = t.free_distinct; below = used }) in
          append_parts w k after t l (
            rw (k.returns, t.returns)
              (ap (λ q. some (append_link str k.end.eof k.end.flushes (last_or none fs) head q))
                l.returns))

      by_old : SomeSplit s.buf ps → Appended at str s ps (chain_append n true str at tag head s)
      by_old (some_split before) = by_split (Cut-Split at before k.cut)
