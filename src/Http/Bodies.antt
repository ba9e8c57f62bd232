-- ===== src/Http/Bodies.antt =====
-- The bodies that a request's filters write: ngx_http_wasm_{set,prepend}_{req,resp}_body of
-- ngx_http_wasm_util.c, over the chains of Wasm/Buffers.antt. The first argument of an operation is
-- the fuel of its loops over a chain; `alloc` says of an operation's allocations, by their number,
-- whether the pool gives memory; `tag` is the module's tag of buffers.
pub mod Request
pub mod Response
use ngx_wasm_module.Common.{
  ℕ, ◌+◌, ◌≡◌, Bool, true, false, ◌&&◌, ◌||◌, not, Option, none, some, List, [], ◌∷◌, Rc, length,
  take, ◌==◌, if◌then◌else◌, ◌>>=◌,
}
use ngx_wasm_module.Wasm.Buffers.{
  ChainRc, chain_ok, chain_error, Links, Buf, set_buf, chain_len, get_free_buf, chain_prepend,
  chain_append,
}

-- What the operations use of `ngx_http_wasm_req_ctx_t` and of its request: `req_body` is
-- `r->request_body`, where it is set its `bufs`.
pub record Bodies : Type 0 where
  pub links : Links
  pub req_body : Option (Option ℕ)
  pub req_content_length : ℕ
  pub resp_chunk : Option ℕ
  pub resp_chunk_len : ℕ
  pub resp_chunk_eof : Bool
  pub entered_header_filter : Bool
  pub entered_body_filter : Bool
  pub entered_log_phase : Bool

-- `get_request_body`: the body's chain.
abbrev pub get_request_body : Bool → Option (Option ℕ) → Option (Option ℕ)
get_request_body alloc none = if alloc then some none else none
get_request_body alloc (some bufs) = some bufs

-- What follows a write to the request's chain.
abbrev pub req_written : ℕ → ChainRc × Option ℕ × Links → Bodies → Option (Rc × Bodies)
req_written n (chain_error, bufs, links) s =
    some (Rc.error, record s { links = links; req_body = some bufs })
req_written n (chain_ok, bufs, links) s = do
  (len, eof) ← chain_len n links bufs
  some (Rc.ok, record s { links = links; req_body = some bufs; req_content_length = len })

-- `ngx_http_wasm_set_req_body`, by whether the header filter was entered and what
-- `get_request_body` returns.
abbrev pub set_req_bufs :
    ℕ → Bool → ℕ → List ℕ → ℕ → Bodies → Bool → Option (Option ℕ) → Option (Rc × Bodies)
set_req_bufs n alloc tag body at s true rb = some (Rc.abort, s)
set_req_bufs n alloc tag body at s false none = some (Rc.error, s)
set_req_bufs n alloc tag body at s false (some bufs) =
    chain_append n alloc body at tag bufs s.links >>= λ r. req_written n r s

unfoldable pub set_req_body : ℕ → (ℕ → Bool) → ℕ → List ℕ → ℕ → ℕ → Bodies → Option (Rc × Bodies)
set_req_body n alloc tag body at max s =
    set_req_bufs n (alloc 1) tag (take max body) at s s.entered_header_filter
      (get_request_body (alloc 0) s.req_body)

-- `ngx_http_wasm_prepend_req_body`, likewise.
abbrev pub prepend_req_bufs :
    ℕ → Bool → ℕ → List ℕ → Bodies → Bool → Option (Option ℕ) → Option (Rc × Bodies)
prepend_req_bufs n alloc tag body s true rb = some (Rc.abort, s)
prepend_req_bufs n alloc tag body s false none = some (Rc.error, s)
prepend_req_bufs n alloc tag body s false (some bufs) =
    req_written n (chain_prepend alloc body tag bufs s.links) s

unfoldable pub prepend_req_body : ℕ → (ℕ → Bool) → ℕ → List ℕ → Bodies → Option (Rc × Bodies)
prepend_req_body n alloc tag body s =
    prepend_req_bufs n (alloc 1) tag body s s.entered_header_filter
      (get_request_body (alloc 0) s.req_body)

-- The chunk's length, and whether its end is seen.
abbrev pub set_chunk : ℕ → Bool → Option ℕ → Links → Bodies → Bodies
set_chunk len eof chunk links s = record s {
  links = links;
  resp_chunk = chunk;
  resp_chunk_len = len;
  resp_chunk_eof = s.resp_chunk_eof || eof;
}

abbrev pub end_buf : Option ℕ → Links → Links
end_buf none s = s
end_buf (some p) s = set_buf p (record (s.buf p) { last_buf = true; last_in_chain = true }) s

-- A chunk without bytes is discarded by the body filter; before that it ends the response.
abbrev pub empty_chunk : Bodies → Bodies
empty_chunk s =
    if s.entered_body_filter
    then record s { resp_chunk = none }
    else record s { links = end_buf s.resp_chunk s.links }

-- What follows a write to the response's chunk.
abbrev pub resp_written : ℕ → ChainRc × Option ℕ × Links → Bodies → Option (Rc × Bodies)
resp_written n (chain_error, chunk, links) s =
    some (Rc.error, record s { links = links; resp_chunk = chunk })
resp_written n (chain_ok, chunk, links) s = do
  (len, eof) ← chain_len n links chunk
  let set = set_chunk len eof chunk links s
  some (Rc.ok, if len == 0 then empty_chunk set else set)

-- The chunk, with a new buffer where there is none.
abbrev pub new_chunk : Option ℕ × Links → Bodies → Rc × Bodies
new_chunk (none, links) s = (Rc.error, record s { links = links })
new_chunk (some p, links) s = (Rc.ok, record s { links = links; resp_chunk = some p })

abbrev pub get_chunk : Bool → ℕ → ℕ → Bodies → Rc × Bodies
get_chunk alloc len tag s = elim s.resp_chunk [
  | some p ↦ (Rc.ok, s)
  | none ↦
      if s.entered_log_phase
      then (Rc.abort, s)
      else new_chunk (get_free_buf alloc len tag true s.links) s
]

abbrev pub write_chunk : ℕ → Bool → ℕ → List ℕ → ℕ → Rc × Bodies → Option (Rc × Bodies)
write_chunk n alloc tag body at (Rc.ok, s) = do
  r ← chain_append n alloc body at tag s.resp_chunk s.links
  resp_written n r s
write_chunk n alloc tag body at (rc, s) = some (rc, s)

-- `ngx_http_wasm_set_resp_body`
unfoldable pub set_resp_body : ℕ → (ℕ → Bool) → ℕ → List ℕ → ℕ → ℕ → Bodies → Option (Rc × Bodies)
set_resp_body n alloc tag body at max s =
    write_chunk n (alloc 1) tag (take max body) at (get_chunk (alloc 0) (length body) tag s)

-- What follows a prepend to the response's chunk, which has bytes then.
abbrev pub resp_prepended : ℕ → ChainRc × Option ℕ × Links → Bodies → Option (Rc × Bodies)
resp_prepended n (chain_error, chunk, links) s =
    some (Rc.error, record s { links = links; resp_chunk = chunk })
resp_prepended n (chain_ok, chunk, links) s = do
  (len, eof) ← chain_len n links chunk
  some (Rc.ok, set_chunk len eof chunk links s)

-- `ngx_http_wasm_prepend_resp_body`
unfoldable pub prepend_resp_body : ℕ → (ℕ → Bool) → ℕ → List ℕ → Bodies → Option (Rc × Bodies)
prepend_resp_body n alloc tag body s = elim s.resp_chunk [
  | none ↦ some (Rc.abort, s)
  | some p ↦ resp_prepended n (chain_prepend (alloc 0) body tag (some p) s.links) s
]
