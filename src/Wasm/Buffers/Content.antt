-- ===== src/Wasm/Buffers/Content.antt =====
-- The buffers after ngx_wasm_chain_append of ngx_wasm_util.c.
use ngx_wasm_module.Common.{
  ℕ, ◌≤◌, ◌≡◌, refl, sym, ap, ◌∙◌, Bool, true, false, ◌||◌, Option, List, [], ◌∷◌, ◌++◌, append-nil,
  arith, length, take, ◌==◌,
}
use mathlib.Core.Bool.{or-false}
use ngx_wasm_module.Wasm.Buffers.{Buf, Links, Cleared, is_end, write_tail}
use ngx_wasm_module.Wasm.Buffers.Segments.{
  has, chain_bytes, any_end, any_flush, Split, no_link, one_empty, one_full, chain_bytes-ext,
  chain_bytes-append, any_end-ext, any_flush-ext, Split-append, Split-chain_bytes,
}
use ngx_wasm_module.Wasm.Buffers.Cut.{SomeSplit, some_split, full_Split}
use ngx_wasm_module.Wasm.Buffers.Clear.{Keeps}

-- The buffers of a chain after a write at an offset: the full ones that are kept and the one written,
-- with the flags of the chain before.
pub record Content (at : ℕ) (str : List ℕ) (s : Links) (ps : List ℕ) (buf : ℕ → Buf) (kept : List ℕ)
    (written : ℕ) : Type 0 where
  pub bytes : chain_bytes buf (kept ++ written ∷ []) ≡ take at (chain_bytes s.buf ps) ++ str
  pub fits : length (buf written).bytes ≤ (buf written).room
  pub end_kept : any_end buf (kept ++ written ∷ []) ≡ any_end s.buf ps
  pub flush_kept : any_flush buf (kept ++ written ∷ []) ≡ any_flush s.buf ps
  pub end_last : any_end buf kept ≡ false

any_end-append :
    (b : ℕ → Buf) (ps qs : List ℕ) → any_end b (ps ++ qs) ≡ (any_end b ps || any_end b qs)
unfolding any_end
any_end-append b [] qs = refl
any_end-append b (p ∷ ps) qs = ground (arith, any_end-append b ps qs)

any_flush-append :
    (b : ℕ → Buf) (ps qs : List ℕ) → any_flush b (ps ++ qs) ≡ (any_flush b ps || any_flush b qs)
unfolding any_flush
any_flush-append b [] qs = refl
any_flush-append b (p ∷ ps) qs = ground (arith, any_flush-append b ps qs)

one_Split : {b : ℕ → Buf} (p : ℕ) (xs : List ℕ) → (b p).bytes ≡ xs → SomeSplit b (p ∷ [])
one_Split p [] e = some_split (one_empty e no_link)
one_Split p (x ∷ xs) e = some_split (one_full e no_link)

pub Split-last :
    {f b : ℕ → Buf} {fs es ps : List ℕ} (p : ℕ)
    → Split f fs es ps
    → ((a : ℕ) → has a fs ≡ true → (b a).bytes ≡ (f a).bytes)
    → SomeSplit b (fs ++ p ∷ [])
Split-last p no_link same = one_Split p _ refl
Split-last p (one_empty e s) same = one_Split p _ refl
Split-last p (one_full {p = q} e s) same =
    full_Split (same q (ground arith) ∙ e) (Split-last p s λ a i. same a (ground arith))

pub written_end :
    (p : ℕ) (str : List ℕ) (eof flushes : Bool) (s : Links)
    → is_end (s.buf p) ≡ false
    → is_end ((write_tail p str eof flushes s).buf p) ≡ eof
written_end p str eof flushes s none_yet =
    let same : (p == p) ≡ true = ground arith in rw same (ground (arith, none_yet))

pub written_flush :
    (p : ℕ) (str : List ℕ) (eof flushes : Bool) (s : Links)
    → (s.buf p).flush ≡ false
    → ((write_tail p str eof flushes s).buf p).flush ≡ flushes
written_flush p str eof flushes s none_yet =
    let same : (p == p) ≡ true = ground arith in rw same (ground (arith, none_yet))

pub written_bytes :
    (p : ℕ) (str : List ℕ) (eof flushes : Bool) (s : Links)
    → (s.buf p).bytes ≡ []
    → ((write_tail p str eof flushes s).buf p).bytes ≡ str
written_bytes p str eof flushes s none_yet =
    let same : (p == p) ≡ true = ground arith in rw same (ap (λ xs. xs ++ str) none_yet)

pub written_room :
    (p : ℕ) (str : List ℕ) (eof flushes : Bool) (s : Links)
    → length str ≤ (s.buf p).room
    → length str ≤ ((write_tail p str eof flushes s).buf p).room
written_room p str eof flushes s le = let same : (p == p) ≡ true = ground arith in rw same le

pub written_other :
    (p a : ℕ) (str : List ℕ) (eof flushes : Bool) (s : Links)
    → (a == p) ≡ false
    → (write_tail p str eof flushes s).buf a ≡ s.buf a
written_other p a str eof flushes s ne = rw ne refl

-- The content, for a buffer `p` that is written behind what `chain_clear` kept.
pub chain_append-Content :
    {at : ℕ} {s : Links} {ps fs es : List ℕ} {r0 : Option (ℕ × Cleared)} (str : List ℕ)
    (b : ℕ → Buf) (p : ℕ)
    → (k : Keeps at s ps r0) → Split k.end.links.buf fs es ps
    → ((a : ℕ) → has a fs ≡ true → b a ≡ k.end.links.buf a)
    → (b p).bytes ≡ str
    → length str ≤ (b p).room
    → is_end (b p) ≡ k.end.eof
    → (b p).flush ≡ k.end.flushes
    → Content at str s ps b fs p
unfolding chain_bytes any_end any_flush
chain_append-Content {fs} {es} str b p k sp same bytes room end flush =
    let before = k.end.links.buf in
    let parts = Split-append sp in
    let no_end : any_end before fs ≡ false =
      ground (arith, any_end-append before fs es, ap (any_end before) parts, k.no_end) in
    let no_flush : any_flush before fs ≡ false =
      ground (arith, any_flush-append before fs es, ap (any_flush before) parts, k.no_flush) in
    record {
      bytes =
          chain_bytes-append b fs (p ∷ [])
          ∙ ap (λ xs. xs ++ ((b p).bytes ++ []))
              (chain_bytes-ext before b fs (λ a i. ap Buf.bytes (same a i))
                ∙ sym (Split-chain_bytes sp)
                ∙ k.bytes)
          ∙ ap (◌++◌ (take _ _)) (append-nil _ ∙ bytes);
      fits = rw bytes room;
      end_kept =
          any_end-append b fs (p ∷ [])
          ∙ rw (any_end-ext before b fs same, no_end, end, or-false) k.eof_any;
      flush_kept =
          any_flush-append b fs (p ∷ [])
          ∙ rw (any_flush-ext before b fs same, no_flush, flush, or-false) k.flush_any;
      end_last = any_end-ext before b fs same ∙ no_end;
    }
