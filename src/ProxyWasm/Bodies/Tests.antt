-- ===== src/ProxyWasm/Bodies/Tests.antt =====
-- Concrete writes and reads of a guest.
use ngx_wasm_module.Common.{
  ℕ, ◌≡◌, refl, Bool, true, false, Option, none, some, [], ◌∷◌, arith, leb, ◌==◌, if◌then◌else◌,
  ◌>>=◌,
}
use ngx_wasm_module.Wasm.Buffers.{
  Links, temp_buf, chain_len, chain_prepend, chain_append, get_free_buf,
}
use ngx_wasm_module.Wasm.Buffers.Segments.{at_end, at_link, no_link, one_full, chain_bytes}
use ngx_wasm_module.Wasm.Buffers.Cut.{some_split}
use ngx_wasm_module.ProxyWasm.Chain.{req_body, resp_body}
use ngx_wasm_module.Http.Bodies.{Bodies, prepend_req_body, set_resp_body}
use ngx_wasm_module.Http.Bodies.Request.{ReqBody}
use ngx_wasm_module.Http.Bodies.Response.{RespBody, RespWrote, set_resp_body-RespWrote}
use ngx_wasm_module.Wasm.Buffers.Segments.{any_end}
use mathlib.Core.Bool.{◌||◌}
use ngx_wasm_module.ProxyWasm.Bodies.{
  HostResult, result_ok, trap, request_body, response_body, Sources, host_set_buffer,
  host_get_buffer, copied, copy_chain, buffer_source,
}
use ngx_wasm_module.ProxyWasm.Bodies.Write.{
  HostWrote, host_set_buffer-HostWrote, host_set_buffer_trap,
}
use ngx_wasm_module.ProxyWasm.Bodies.Read.{host_get_buffer-ReqBody}
use ngx_wasm_module.ProxyWasm.Bodies.RoundTrip.{host_get_buffer-host_set_buffer}

-- A request's body in two buffers, the second of which ends it, and a free link.
abbrev body_links : Links
body_links = record {
  next = λ a. if a == 0 then some 1 else none;
  buf = λ a.
      if a == 0
      then record (temp_buf 8 7) { bytes = 1 ∷ 2 ∷ 3 ∷ [] }
      else if a == 1
      then record (temp_buf 8 7) { bytes = 4 ∷ 5 ∷ []; last_buf = true; last_in_chain = true }
      else temp_buf 4 7;
  free = some 2;
  top = 3;
}

abbrev with_body : Bodies
with_body = record {
  links = body_links;
  req_body = some (some 0);
  req_content_length = 5;
  resp_chunk = none;
  resp_chunk_len = 0;
  resp_chunk_eof = false;
  entered_header_filter = false;
  entered_body_filter = false;
  entered_log_phase = false;
}

with_body-ReqBody : ReqBody 2 (1 ∷ 2 ∷ 3 ∷ 4 ∷ 5 ∷ []) with_body
unfolding chain_bytes
with_body-ReqBody = record {
  links = 0 ∷ 1 ∷ [];
  frees = 2 ∷ [];
  well = record {
    chain = at_link (at_link at_end);
    distinct = (refl, (refl, tt));
    split = some_split (one_full refl (one_full refl no_link));
    below = λ a i. ground (arith, i);
    free = record {
      chain = at_link at_end;
      distinct = (refl, tt);
      below = λ a i. ground (arith, i);
    };
    apart = λ a i. ground (arith, i);
  };
  content = refl;
  ends = (refl, tt);
  bound = omega arith;
}

abbrev in_memory_sources : Sources
in_memory_sources = record {
  body_in_file = false;
  plugin_config = [];
  vm_config = [];
  upstream_config = none;
  has_call = false;
  call_body_len = 0;
  call_body = none;
  foreign_args = none;
}

-- The guest's memory holds 16 bytes behind the address.
abbrev holds : ℕ → Bool
holds k = leb k 16

host_set_buffer-HostWrote_example :
    HostWrote 2
      (1 ∷ 2 ∷ 9 ∷ 8 ∷ [])
      with_body
      (host_set_buffer 3 (λ _. true) 7 req_body request_body 2 2 (9 ∷ 8 ∷ 7 ∷ []) with_body)
host_set_buffer-HostWrote_example =
    host_set_buffer-HostWrote 3 2 7 (λ _. true) (1 ∷ 2 ∷ 3 ∷ 4 ∷ 5 ∷ []) with_body req_body
      (λ i. refl) refl refl with_body-ReqBody (omega arith) 2 2 (9 ∷ 8 ∷ 7 ∷ [])

write_trapped :
    host_set_buffer 3 (λ _. true) 7 resp_body request_body 2 2 (9 ∷ []) with_body
    ≡ some (trap, with_body)
write_trapped = host_set_buffer_trap 3 7 (λ _. true) resp_body 2 2 (9 ∷ []) with_body refl

host_get_buffer-ReqBody_example :
    host_get_buffer 3 holds holds req_body request_body 1 8 in_memory_sources with_body
    ≡ some (copied 5 (true, 1 ∷ 2 ∷ 3 ∷ 4 ∷ 5 ∷ []))
host_get_buffer-ReqBody_example =
    host_get_buffer-ReqBody 3 2 holds holds req_body 1 8 in_memory_sources (1 ∷ 2 ∷ 3 ∷ 4 ∷ 5 ∷ [])
      with_body refl refl with_body-ReqBody (omega arith) (omega arith) (omega arith) (omega arith)
      refl (λ k le. ground (arith, le))

host_get_buffer-host_set_buffer_example :
    (s' : Bodies) × (host_set_buffer 3
        (λ _. true)
        7
        req_body
        request_body
        2
        2
        (9 ∷ 8 ∷ 7 ∷ [])
        with_body
      ≡ some (result_ok, s'))
    × (host_get_buffer 3 holds holds req_body request_body 0 8 in_memory_sources s'
        ≡ some (copied 4 (true, 1 ∷ 2 ∷ 9 ∷ 8 ∷ [])))
host_get_buffer-host_set_buffer_example =
    host_get_buffer-host_set_buffer 3 2 7 (λ _. true) holds holds (1 ∷ 2 ∷ 3 ∷ 4 ∷ 5 ∷ []) with_body
      req_body in_memory_sources (λ i. refl) refl refl refl with_body-ReqBody (omega arith) 2 2 0 8
      (9 ∷ 8 ∷ 7 ∷ []) (omega arith) (omega arith) (omega arith) refl (λ k le. ground (arith, le))

-- A read of at most four bytes stores that length, but writes the buffer behind it as well.
abbrev three_bufs : Bodies
three_bufs = record with_body {
  links = record body_links {
    next = λ a. if a == 0 then some 1 else if a == 1 then some 2 else none;
    buf = λ a. record (temp_buf 8 7) { bytes = a ∷ 10 ∷ 11 ∷ [] };
  };
}

read_past_length :
    host_get_buffer 3 holds holds req_body request_body 0 4 in_memory_sources three_bufs
    ≡ some (record {
      result = result_ok;
      stored_len = some 4;
      written = 0 ∷ 10 ∷ 11 ∷ 1 ∷ 2 ∷ 10 ∷ 11 ∷ [];
    })
unfolding host_get_buffer buffer_source copy_chain chain_len
read_past_length = refl

abbrev request_len : Option (HostResult × Bodies) → Option ℕ
request_len r = r >>= λ (result, s). some s.req_content_length

abbrev chunk_len : Option (HostResult × Bodies) → Option ℕ
chunk_len r = r >>= λ (result, s). some s.resp_chunk_len

write_run :
    request_len (host_set_buffer 3 (λ _. true) 7 req_body request_body 0 0 (9 ∷ []) with_body)
    ≡ some 6
unfolding host_set_buffer prepend_req_body chain_prepend chain_len
write_run = refl

-- In the response's step a guest sets the chunk that is not there yet.
response_run :
    chunk_len (host_set_buffer 3 (λ _. true) 7 resp_body response_body 0 3 (9 ∷ 8 ∷ []) with_body)
    ≡ some 2
unfolding host_set_buffer set_resp_body chain_append chain_len get_free_buf
response_run = refl

-- The same chain as a response's chunk.
abbrev with_chunk : Bodies
with_chunk = record with_body { req_body = none; resp_chunk = some 0; entered_body_filter = true }

with_chunk-RespBody : RespBody 2 (1 ∷ 2 ∷ 3 ∷ 4 ∷ 5 ∷ []) with_chunk
with_chunk-RespBody = record {
  links = with_body-ReqBody.links;
  frees = with_body-ReqBody.frees;
  well = with_body-ReqBody.well;
  content = with_body-ReqBody.content;
  ends = with_body-ReqBody.ends;
  bound = with_body-ReqBody.bound;
}

set_resp_body-RespWrote_example :
    RespWrote 2
      (1 ∷ 2 ∷ 3 ∷ 4 ∷ 9 ∷ [])
      (false || any_end body_links.buf with_chunk-RespBody.links)
      (set_resp_body 3 (λ _. true) 7 (9 ∷ 8 ∷ []) 4 1 with_chunk)
set_resp_body-RespWrote_example =
    set_resp_body-RespWrote 3 2 7 0 (λ _. true) (1 ∷ 2 ∷ 3 ∷ 4 ∷ 5 ∷ []) with_chunk (λ i. refl) refl
      with_chunk-RespBody (omega arith) (9 ∷ 8 ∷ []) 4 1 (omega arith)
