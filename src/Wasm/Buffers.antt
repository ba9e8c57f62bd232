-- ===== src/Wasm/Buffers.antt =====
-- ngx_wasm_util.c: chains of buffers. A chain link is an address, which stands for the link and its
-- buffer; NULL is `none`. Buffers are in memory, and `bytes` are those from `pos` to `last`. A link
-- given back to the pool is not used again, and a new link has a new address. Loops over a chain
-- have fuel: `none` is a chain that is longer.
pub mod Segments
pub mod Cut
pub mod Len
pub mod Clear
pub mod Recycle
pub mod Tail
pub mod Link
pub mod Well
pub mod Prepend
pub mod Relink
pub mod Content
pub mod Append
mod Tests
use ngx_wasm_module.Common.{
  ℕ, zero, suc, ◌+◌, ◌-◌, ◌≡◌, Bool, true, false, ◌&&◌, ◌||◌, not, Option, none, some, List, [],
  ◌∷◌, ◌++◌, length, take, ltb, leb, ◌==◌, if◌then◌else◌, ◌>>=◌,
}

-- `ngx_buf_t`: `has_memory` is a `start` that is not NULL, `room` is `end - start`.
pub record Buf : Type 0 where
  pub bytes : List ℕ
  pub has_memory : Bool
  pub room : ℕ
  pub tag : ℕ
  pub temporary : Bool
  pub flush : Bool
  pub last_buf : Bool
  pub last_in_chain : Bool

-- The links, the list of free ones, and the first address that was never used.
pub record Links : Type 0 where
  pub next : ℕ → Option ℕ
  pub buf : ℕ → Buf
  pub free : Option ℕ
  pub top : ℕ

-- The codes of the operations that write to a chain.
pub data ChainRc : Type 0 where
  chain_ok chain_error : ChainRc

-- `p->next = q` and `p->buf = b`
abbrev pub set_next : ℕ → Option ℕ → Links → Links
set_next p q s = record s { next = λ a. if a == p then q else s.next a }

abbrev pub set_buf : ℕ → Buf → Links → Links
set_buf p b s = record s { buf = λ a. if a == p then b else s.buf a }

abbrev pub is_end : Buf → Bool
is_end b = b.last_buf || b.last_in_chain

-- `ngx_wasm_chain_len`, with whether it sets `eof`.
unfoldable pub chain_len : ℕ → Links → Option ℕ → Option (ℕ × Bool)
chain_len n s none = some (0, false)
chain_len zero s (some cl) = none
chain_len (suc n) s (some cl) =
    let rest = chain_len n s (s.next cl) in
    let size = length (s.buf cl).bytes in
    if is_end (s.buf cl) then some (size, true) else rest >>= λ (len, eof). some (size + len, eof)

-- The bytes that `ngx_wasm_chain_clear` leaves of a buffer, with the new `pos`.
pub clear_bytes : ℕ → ℕ → List ℕ → ℕ × List ℕ
clear_bytes offset pos xs =
    let left = length xs - ((pos + length xs) - offset) in
    if not (offset == 0) && ltb offset (pos + length xs)
    then (pos + left, take left xs)
    else if pos == offset
    then (pos, [])
    else (pos + length xs, xs)

abbrev pub cleared : List ℕ → Buf → Buf
cleared xs b = record b { bytes = xs; flush = false; last_buf = false; last_in_chain = false }

-- What the loop of `ngx_wasm_chain_clear` leaves.
pub record Cleared : Type 0 where
  pub pos : ℕ
  pub eof : Bool
  pub flushes : Bool
  pub links : Links

unfoldable pub clear_loop : ℕ → ℕ → ℕ → Bool → Bool → Links → Option ℕ → Option Cleared
unfolding clear_bytes
clear_loop n offset pos eof flushes s none =
    some (record { pos = pos; eof = eof; flushes = flushes; links = s })
clear_loop zero offset pos eof flushes s (some cl) = none
clear_loop (suc n) offset pos eof flushes s (some cl) =
    let b = s.buf cl in
    let (pos', xs) = clear_bytes offset pos b.bytes in
    clear_loop n offset pos' (eof || is_end b) (flushes || b.flush) (set_buf cl (cleared xs b) s)
      (s.next cl)

-- `ngx_wasm_chain_clear`, with both flags asked for: the fill, and what the loop leaves.
unfoldable pub chain_clear : ℕ → ℕ → Links → Option ℕ → Option (ℕ × Cleared)
unfolding clear_loop
chain_clear n offset s cl = do r ← clear_loop n offset 0 false false s cl; some (offset - r.pos, r)

-- A buffer without memory, and one with memory of its own.
abbrev pub empty_buf : ℕ → Buf
empty_buf tag = record {
  bytes = [];
  has_memory = false;
  room = 0;
  tag = tag;
  temporary = false;
  flush = false;
  last_buf = false;
  last_in_chain = false;
}

abbrev pub temp_buf : ℕ → ℕ → Buf
temp_buf room tag = record (empty_buf tag) { has_memory = true; room = room; temporary = true }

-- The reuse of the free link `cl`, already taken from its list. NULL is the null tag 0.
abbrev pub reuse_link : Bool → ℕ → ℕ → ℕ → Links → Option ℕ × Links
reuse_link alloc len tag cl s =
    let b = s.buf cl in
    if b.has_memory && leb len b.room
    then (some cl, set_buf cl (record (temp_buf b.room tag) { temporary = not (len == 0) }) s)
    else if len == 0
    then (some cl, set_buf cl (empty_buf 0) s)
    else if alloc
    then (some cl, set_buf cl (temp_buf len tag) s)
    else (none, set_buf cl (empty_buf 0) s)

-- A link of the pool, with a new buffer.
abbrev pub new_link : Bool → ℕ → ℕ → Links → Option ℕ × Links
new_link alloc len tag s =
    let b = if len == 0 then empty_buf tag else temp_buf len tag in
    if alloc
    then (some s.top, set_buf s.top b (set_next s.top none (record s { top = s.top + 1 })))
    else (none, s)

-- `ngx_wasm_chain_get_free_buf`, by the first of the free links; `alloc` says whether the pool gives
-- memory.
abbrev pub get_link : Bool → ℕ → ℕ → Bool → Option ℕ → Links → Option ℕ × Links
get_link alloc len tag reuse none s = new_link alloc len tag s
get_link alloc len tag reuse (some cl) s =
    if reuse
    then reuse_link alloc len tag cl (set_next cl none (record s { free = s.next cl }))
    else new_link alloc len tag s

unfoldable pub get_free_buf : Bool → ℕ → ℕ → Bool → Links → Option ℕ × Links
get_free_buf alloc len tag reuse s = get_link alloc len tag reuse s.free s

-- `buf->last = ngx_cpymem(buf->last, str->data, str->len)`
abbrev pub write_bytes : ℕ → List ℕ → Links → Links
write_bytes p xs s = set_buf p (record (s.buf p) { bytes = (s.buf p).bytes ++ xs }) s

abbrev pub prepend_link : List ℕ → Option ℕ → Option ℕ × Links → ChainRc × Option ℕ × Links
prepend_link str head (none, s) = (chain_error, head, s)
prepend_link str head (some p, s) = (chain_ok, some p, set_next p head (write_bytes p str s))

-- `ngx_wasm_chain_prepend`; the chain is passed as a pointer and returned.
unfoldable pub chain_prepend : Bool → List ℕ → ℕ → Option ℕ → Links → ChainRc × Option ℕ × Links
unfolding get_free_buf
chain_prepend alloc str tag head s =
    prepend_link str head (get_free_buf alloc (length str) tag true s)

-- `if (ll) ll->next = next`, and the link that the loop goes on with.
abbrev pub unlink_empty : Option ℕ → Option ℕ → Links → Option ℕ × Links
unlink_empty none next s = (none, s)
unlink_empty (some ll) next s = (next, set_next ll next s)

-- An empty buffer of the tag is put before the free links, where there are some.
abbrev pub put_free : Option ℕ → ℕ → Links → Links
put_free none cl s = s
put_free (some f) cl s = record s { free = some cl }

abbrev pub recycle : ℕ → Links → Links
recycle cl s =
    put_free s.free cl (set_next cl s.free (set_buf cl (record (s.buf cl) { bytes = [] }) s))

abbrev pub is_empty : List ℕ → Bool
is_empty [] = true
is_empty _ = false

-- The loop of `ngx_wasm_chain_append` that gets the tail.
unfoldable pub get_tail : ℕ → ℕ → Option ℕ → Option ℕ → Links → Option (Option ℕ × Links)
get_tail n tag none ll s = some (ll, s)
get_tail zero tag (some cl) ll s = none
get_tail (suc n) tag (some cl) ll s =
    let kept = get_tail n tag (s.next cl) (some cl) s in
    let (cl', s') = unlink_empty ll (s.next cl) s in
    let dropped = get_tail n tag cl' ll s' in
    let recycled = get_tail n tag (s.next cl) ll (recycle cl s) in
    if not (is_empty (s.buf cl).bytes)
    then kept
    else if not ((s.buf cl).tag == tag)
    then dropped
    else recycled

-- The end of `ngx_wasm_chain_append`: the bytes and the flags are written, and the link is put
-- behind the tail.
abbrev pub write_tail : ℕ → List ℕ → Bool → Bool → Links → Links
write_tail p str eof flushes s =
    let b = s.buf p in
    set_buf p
      (record b {
        bytes = b.bytes ++ str;
        flush = b.flush || flushes;
        last_buf = b.last_buf || eof;
        last_in_chain = b.last_in_chain || eof;
      })
      s

abbrev pub put_tail : Option ℕ → ℕ → Option ℕ → Links → Option ℕ × Links
put_tail none p head s = (some p, s)
put_tail (some ll) p head s = (head, set_next ll (some p) s)

abbrev pub append_link :
    List ℕ → Bool → Bool → Option ℕ → Option ℕ → Option ℕ × Links → ChainRc × Option ℕ × Links
append_link str eof flushes ll head (none, s) = (chain_error, head, s)
append_link str eof flushes ll head (some p, s) =
    let (head', s') = put_tail ll p head (write_tail p str eof flushes s) in (chain_ok, head', s')

-- `ngx_wasm_chain_append`, without the extension of the chain by spaces, which no call asks for.
unfoldable pub chain_append :
    ℕ → Bool → List ℕ → ℕ → ℕ → Option ℕ → Links → Option (ChainRc × Option ℕ × Links)
unfolding chain_clear get_tail get_free_buf
chain_append n alloc str at tag head s = do
  (fill, r) ← chain_clear n at s head
  (ll, s1) ← get_tail n tag head none r.links
  let new = get_free_buf alloc (length str) tag true s1
  some (append_link str r.eof r.flushes ll head new)
