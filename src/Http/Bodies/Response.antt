-- ===== src/Http/Bodies/Response.antt =====
-- A response's chunk as a list of bytes: ngx_http_wasm_set_resp_body of ngx_http_wasm_util.c.
use ngx_wasm_module.Common.{
  ℕ, ◌+◌, ◌<◌, ◌≤◌, ◌≡◌, refl, ap, ◌∙◌, Bool, true, false, ◌||◌, Option, none, some, List, [], ◌∷◌,
  ◌++◌, Rc, arith, length, length-append, take, ◌==◌, if◌then◌else◌, ◌>>=◌,
}
use ngx_wasm_module.Wasm.Buffers.{chain_append, get_free_buf}
use ngx_wasm_module.Wasm.Buffers.Segments.{chain_bytes, any_end}
use ngx_wasm_module.Wasm.Buffers.Well.{WellChain}
use ngx_wasm_module.Wasm.Buffers.Len.{LastEnds, LastEnds-last, chain_len-chain_bytes}
use ngx_wasm_module.Wasm.Buffers.Append.{chain_append-Appended}
use ngx_wasm_module.Http.Bodies.{
  Bodies, set_chunk, resp_written, new_chunk, get_chunk, write_chunk, set_resp_body,
}

-- The response's chunk is a well-formed chain of at most `size` buffers, which holds the bytes.
pub record RespBody (size : ℕ) (bytes : List ℕ) (s : Bodies) : Type 0 where
  pub links : List ℕ
  pub frees : List ℕ
  pub well : WellChain s.resp_chunk links frees s.links
  pub content : chain_bytes s.links.buf links ≡ bytes
  pub ends : LastEnds s.links.buf links
  pub bound : length links ≤ size

-- A write that leaves some bytes; the end of the response is seen if it was, or if it is there.
pub record RespWrote (size : ℕ) (bytes : List ℕ) (eof : Bool) (r : Option (Rc × Bodies))
    : Type 0 where
  pub after : Bodies
  pub returns : r ≡ some (Rc.ok, after)
  pub body : RespBody (size + 1) bytes after
  pub len : after.resp_chunk_len ≡ length bytes
  pub eof_seen : after.resp_chunk_eof ≡ eof

has_chunk :
    (alloc : Bool) (len tag p : ℕ) (s : Bodies)
    → s.resp_chunk ≡ some p
    → get_chunk alloc len tag s ≡ (Rc.ok, s)
has_chunk alloc len tag p s at =
    ap
      (λ o. elim o as (λ _. Rc × Bodies) [
        | some q ↦ (Rc.ok, s)
        | none ↦
            if s.entered_log_phase
            then (Rc.abort, s)
            else new_chunk (get_free_buf alloc len tag true s.links) s
      ])
      at

module _ (n size tag p : ℕ) (alloc : ℕ → Bool) (old : List ℕ) (s : Bodies)
    (gives : (i : ℕ) → alloc i ≡ true) (at_p : s.resp_chunk ≡ some p) (body : RespBody size old s)
    (fuel : size < n) where
  -- While the pool gives memory, a write at an offset to a response's chunk that is a well-
  -- formed chain, where it leaves some bytes, returns NGX_OK: the chunk stays a well-formed
  -- chain, with the bytes before the offset and then the first max bytes written, its length
  -- is theirs, and the end of the response is seen if it was before or if a buffer of the
  -- chunk ended it.
  pub set_resp_body-RespWrote :
      (bytes : List ℕ) (at max : ℕ)
      → 0 < length (take at old ++ take max bytes)
      → RespWrote size
          (take at old ++ take max bytes)
          (s.resp_chunk_eof || any_end s.links.buf body.links)
          (set_resp_body n alloc tag bytes at max s)
  unfolding set_resp_body
  set_resp_body-RespWrote bytes at max some_bytes =
      let a =
        chain_append-Appended at tag (take max bytes) s.links s.resp_chunk body.links body.frees n
          body.well (omega (arith, body.bound)) in
      let now = a.kept ++ a.written ∷ [] in
      let ends = LastEnds-last a.links.buf a.kept a.written a.content.end_last in
      let content : chain_bytes a.links.buf now ≡ take at old ++ take max bytes =
        a.content.bytes ∙ ap (λ xs. take at xs ++ take max bytes) body.content in
      let short : length now ≤ size + 1 =
        omega (arith, a.shorter, body.bound, length-append a.kept (a.written ∷ [])) in
      let size_now = length (chain_bytes a.links.buf now) in
      let len = chain_len-chain_bytes a.links n now a.well.chain ends (omega (arith, short)) in
      let more : (size_now == 0) ≡ false = ground (arith, some_bytes, ap length content) in
      let eof = any_end a.links.buf now in
      let set = set_chunk size_now eof a.head a.links s in
      record {
        after = set;
        returns =
            ap (write_chunk n (alloc 1) tag (take max bytes) at)
              (has_chunk (alloc 0) (length bytes) tag p s at_p)
            ∙ ap
                (λ g. chain_append n g (take max bytes) at tag s.resp_chunk s.links >>= λ r.
                  resp_written n r s)
                (gives 1)
            ∙ ap (λ o. o >>= λ r. resp_written n r s) a.returns
            ∙ rw (len, more) refl;
        body = record {
          links = now;
          frees = a.free_now;
          well = a.well;
          content = content;
          ends = ends;
          bound = short;
        };
        len = ap length content;
        eof_seen = ap (◌||◌ s.resp_chunk_eof) a.content.end_kept;
      }
