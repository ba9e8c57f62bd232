-- ===== src/Wasm/Buffers/Tail.antt =====
-- The loop of ngx_wasm_chain_append in ngx_wasm_util.c that gets the tail: it ends at the last full
-- buffer, and takes no more than the empty ones behind it.
use mathlib.Core.Path.{subst}
use ngx_wasm_module.Common.{
  ℕ, zero, suc, ◌≤◌, ◌≡◌, refl, sym, ap, ◌∙◌, inl, inr, true, false, ◌||◌, Option, none, some, List,
  [], ◌∷◌, arith, length, ◌==◌, Bool-cases,
}
use ngx_wasm_module.Wasm.Buffers.{Buf, Links, set_next, unlink_empty, recycle, get_tail}
use ngx_wasm_module.Wasm.Buffers.Segments.{
  not_same, has, Distinct, Chain, at_end, at_link, frame, Split, no_link, one_empty, one_full,
}
use ngx_wasm_module.Wasm.Buffers.Recycle.{
  is_at, FreeApart, set_next_other, recycle_buf, recycle_next, recycle_top, Recycled, recycled,
  recycle-Recycled,
}

-- The last of the links, or `ll` where there is none.
abbrev pub last_or : Option ℕ → List ℕ → Option ℕ
last_or ll [] = ll
last_or ll (p ∷ ps) = last_or (some p) ps

-- What the loop leaves when it goes through the empty buffers `es`, behind `ll`,
-- of a chain, with the free links `frees`.
pub record TailEnd (ll : Option ℕ) (es frees : List ℕ) (s : Links) (r : Option (Option ℕ × Links))
    : Type 0 where
  pub links : Links
  pub returns : r ≡ some (ll, links)
  pub same_buf : (a : ℕ) → has a es ≡ false → links.buf a ≡ s.buf a
  pub same_next : (a : ℕ) → has a es ≡ false → is_at ll a ≡ false → links.next a ≡ s.next a
  pub same_top : links.top ≡ s.top
  pub free_now : List ℕ
  pub free_chain : Chain links.next links.free free_now
  pub free_distinct : Distinct free_now
  pub free_from : (a : ℕ) → has a free_now ≡ true → (has a frees || has a es) ≡ true

module _ (tag : ℕ) where
  get_tail_full :
      (n p x : ℕ) (xs : List ℕ) (ll : Option ℕ) (s : Links)
      → (s.buf p).bytes ≡ x ∷ xs
      → get_tail (suc n) tag (some p) ll s ≡ get_tail n tag (s.next p) (some p) s
  unfolding get_tail
  get_tail_full n p x xs ll s e = rw e refl

  get_tail_dropped :
      (n p : ℕ) (ll : Option ℕ) (s : Links)
      → (s.buf p).bytes ≡ []
      → ((s.buf p).tag == tag) ≡ false
      → get_tail (suc n) tag (some p) ll s
        ≡ get_tail n tag (unlink_empty ll (s.next p) s).0 ll (unlink_empty ll (s.next p) s).1
  unfolding get_tail
  get_tail_dropped n p ll s e other = rw (e, other) refl

  get_tail_recycled :
      (n p : ℕ) (ll : Option ℕ) (s : Links)
      → (s.buf p).bytes ≡ []
      → ((s.buf p).tag == tag) ≡ true
      → get_tail (suc n) tag (some p) ll s ≡ get_tail n tag (s.next p) ll (recycle p s)
  unfolding get_tail
  get_tail_recycled n p ll s e same = rw (e, same) refl

-- All of the buffers are empty.
abbrev pub AllEmpty : (ℕ → Buf) → List ℕ → Type 0
AllEmpty buf [] = Unit
AllEmpty buf (p ∷ ps) = ((buf p).bytes ≡ []) × AllEmpty buf ps

pub Split-AllEmpty : {buf : ℕ → Buf} {fs es ps : List ℕ} → Split buf fs es ps → AllEmpty buf es
Split-AllEmpty no_link = tt
Split-AllEmpty (one_empty e s) = (e, Split-AllEmpty s)
Split-AllEmpty (one_full e s) = Split-AllEmpty s

AllEmpty-ext :
    {f g : ℕ → Buf} (ps : List ℕ)
    → ((a : ℕ) → has a ps ≡ true → g a ≡ f a)
    → AllEmpty f ps
    → AllEmpty g ps
AllEmpty-ext [] same e = tt
AllEmpty-ext (p ∷ ps) same e =
    (ap Buf.bytes (same p (ground arith)) ∙ e.0, AllEmpty-ext ps (λ a i. same a (ground arith)) e.1)

-- One link more in front, which the loop took from `s` to `s'`.
TailEnd-step :
    {ll : Option ℕ} {ps frees frees' : List ℕ} {s s' : Links} {r r' : Option (Option ℕ × Links)}
    (p : ℕ)
    → r' ≡ r
    → ((a : ℕ) → (a == p) ≡ false → s'.buf a ≡ s.buf a)
    → ((a : ℕ) → (a == p) ≡ false → is_at ll a ≡ false → s'.next a ≡ s.next a)
    → s'.top ≡ s.top
    → ((a : ℕ) → has a frees' ≡ true → (has a frees || (a == p)) ≡ true)
    → TailEnd ll ps frees' s' r
    → TailEnd ll (p ∷ ps) frees s r'
TailEnd-step {ps} p eq same_buf same_next same_top from t = record {
  links = t.links;
  returns = eq ∙ t.returns;
  same_buf = λ a o. t.same_buf a (ground arith) ∙ same_buf a (ground arith);
  same_next = λ a o l. t.same_next a (ground arith) l ∙ same_next a (ground arith) l;
  same_top = t.same_top ∙ same_top;
  free_now = t.free_now;
  free_chain = t.free_chain;
  free_distinct = t.free_distinct;
  free_from = λ a i. ground (arith, from a, t.free_from a i);
}

stays :
    (ll : Option ℕ) (es frees : List ℕ) (s : Links)
    → FreeApart ll es frees s
    → TailEnd ll es frees s (some (ll, s))
stays ll es frees s free = record {
  links = s;
  returns = refl;
  same_buf = λ a o. refl;
  same_next = λ a o l. refl;
  same_top = refl;
  free_now = frees;
  free_chain = free.chain;
  free_distinct = free.distinct;
  free_from = λ a i. ground (arith, i);
}

module _ (tag : ℕ) where
  get_tail-none : (n : ℕ) (ll : Option ℕ) (s : Links) → get_tail n tag none ll s ≡ some (ll, s)
  unfolding get_tail
  get_tail-none zero ll s = refl
  get_tail-none (suc n) ll s = refl

  -- A link of another tag is taken out of the chain; without a link before it the loop ends.
  drop_link :
      (n p : ℕ) (ll : Option ℕ) (s : Links) (ps frees : List ℕ)
      → FreeApart ll (p ∷ ps) frees s
      → ((l : ℕ)
          → ll ≡ some l
          → TailEnd ll ps frees
              (set_next l (s.next p) s)
              (get_tail n tag (s.next p) ll (set_next l (s.next p) s)))
      → TailEnd ll
          (p ∷ ps)
          frees
          s
          (get_tail n tag (unlink_empty ll (s.next p) s).0 ll (unlink_empty ll (s.next p) s).1)
  drop_link n p none s ps frees free k =
      subst (TailEnd none (p ∷ ps) frees s) (sym (get_tail-none n none s))
        (stays none (p ∷ ps) frees s free)
  drop_link n p (some l) s ps frees free k =
      TailEnd-step p refl (λ a ne. refl) (λ a ne out. set_next_other l a (s.next p) s out) refl
        (λ a i. ground (arith, i)) (k l refl)

  dropped-FreeApart :
      (l p : ℕ) (ll : Option ℕ) (ps frees : List ℕ) (s : Links)
      → ll ≡ some l
      → FreeApart ll (p ∷ ps) frees s
      → FreeApart ll ps frees (set_next l (s.next p) s)
  dropped-FreeApart l p ll ps frees s at free = record {
    chain =
        frame free.chain
          λ a i. set_next_other l a (s.next p) s (ap (λ q. is_at q a) (sym at) ∙ free.not_ll a i);
    distinct = free.distinct;
    not_es = λ a i. free.not_es a (ground (arith, i));
    not_ll = free.not_ll;
  }

  recycle_link :
      (n p : ℕ) (ll : Option ℕ) (s : Links) (ps frees : List ℕ)
      → ((frees' : List ℕ)
          → FreeApart ll ps frees' (recycle p s)
          → TailEnd ll ps frees' (recycle p s) (get_tail n tag (s.next p) ll (recycle p s)))
      → Recycled ll p ps frees s
      → TailEnd ll (p ∷ ps) frees s (get_tail n tag (s.next p) ll (recycle p s))
  recycle_link n p ll s ps frees k (recycled free from) =
      TailEnd-step p refl (λ a ne. recycle_buf p a s ne) (λ a ne l. recycle_next p a s ne)
        (recycle_top p s) from (k _ free)

  pub get_tail_empty :
      (n : ℕ) (ll : Option ℕ) (s : Links) {cl : Option ℕ} {es frees : List ℕ}
      → Chain s.next cl es
      → Distinct es
      → AllEmpty s.buf es
      → ((a : ℕ) → has a es ≡ true → is_at ll a ≡ false)
      → FreeApart ll es frees s
      → length es ≤ n
      → TailEnd ll es frees s (get_tail n tag cl ll s)
  unfolding get_tail
  get_tail_empty zero ll s at_end d e apart free fuel = stays ll [] _ s free
  get_tail_empty zero ll s (at_link c) d e apart free fuel = absurd (omega arith)
  get_tail_empty (suc n) ll s at_end d e apart free fuel = stays ll [] _ s free
  get_tail_empty (suc n) ll s {frees} (at_link {p} {ps} c) d e apart free fuel =
      elim (Bool-cases ((s.buf p).tag == tag))
        as (λ _. TailEnd ll (p ∷ ps) frees s (get_tail (suc n) tag (some p) ll s)) [
          | inl same ↦
              subst (TailEnd ll (p ∷ ps) frees s) (sym (get_tail_recycled tag n p ll s e.0 same)) (
                recycle_link n p ll s ps frees
                  (λ frees' free'.
                    get_tail_empty n ll (recycle p s)
                      (frame c λ a i. recycle_next p a s (not_same p a ps d.0 i)) d.1
                      (AllEmpty-ext ps (λ a i. recycle_buf p a s (not_same p a ps d.0 i)) e.1)
                      (λ a i. apart a (ground arith)) free' (omega arith))
                  (recycle-Recycled ll p ps frees s free d.0 (apart p (ground arith))))
          | inr other ↦
              subst (TailEnd ll (p ∷ ps) frees s) (sym (get_tail_dropped tag n p ll s e.0 other)) (
                drop_link n p ll s ps frees free λ l at.
                  let out : (a : ℕ) → has a ps ≡ true → (a == l) ≡ false =
                    λ a i. ap (λ q. is_at q a) (sym at) ∙ apart a (ground arith) in
                  get_tail_empty n ll (set_next l (s.next p) s)
                    (frame c λ a i. set_next_other l a (s.next p) s (out a i)) d.1 e.1
                    (λ a i. apart a (ground arith)) (dropped-FreeApart l p ll ps frees s at free)
                    (omega arith))
        ]

  -- The loop from a chain's head on: the full buffers stay as they are.
  pub get_tail-TailEnd :
      (s : Links) (n : ℕ) (ll : Option ℕ) {cl : Option ℕ} {fs es ps frees : List ℕ}
      → Chain s.next cl ps
      → Split s.buf fs es ps
      → Distinct ps
      → ((a : ℕ) → has a ps ≡ true → is_at ll a ≡ false)
      → FreeApart ll ps frees s
      → length ps ≤ n
      → TailEnd (last_or ll fs) es frees s (get_tail n tag cl ll s)
  unfolding get_tail
  get_tail-TailEnd s n ll c no_link d apart free fuel =
      get_tail_empty n ll s c tt tt (λ a i. apart a i) free fuel
  get_tail-TailEnd s n ll c (one_empty e r) d apart free fuel =
      get_tail_empty n ll s c d (e, Split-AllEmpty r) apart free fuel
  get_tail-TailEnd s zero ll c (one_full e r) d apart free fuel = absurd (omega arith)
  get_tail-TailEnd s (suc n) ll {frees} (at_link {p} {ps} c) (one_full {x} {xs} {fs} e r) d apart
        free fuel =
      let t =
        get_tail-TailEnd s n (some p) c r d.1 (λ a i. not_same p a _ d.0 i)
          (record {
            chain = free.chain;
            distinct = free.distinct;
            not_es = λ a i. free.not_es a (ground (arith, i));
            not_ll = λ a i. not_same p a frees (free.not_es p (ground arith)) i;
          })
          (omega arith) in
      subst (TailEnd (last_or (some p) fs) _ frees s) (sym (get_tail_full tag n p x xs ll s e)) t
