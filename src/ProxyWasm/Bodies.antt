-- ===== src/ProxyWasm/Bodies.antt =====
-- ngx_proxy_wasm_hfuncs_set_buffer and ngx_proxy_wasm_hfuncs_get_buffer of ngx_proxy_wasm_host.c: a
-- guest writes and reads the bodies of Http/Bodies.antt. The guest's own memory is not modelled: a
-- guest's data is the list that its pointer stands for, and what the host writes to it is the list of
-- the bytes written from the address that the guest allocated.
pub mod Write
pub mod Read
pub mod RoundTrip
mod Tests
use ngx_wasm_module.Common.{
  ℕ, zero, suc, ◌+◌, ◌-◌, ◌%◌, ◌^◌, ◌≡◌, Bool, true, false, ◌&&◌, ◌||◌, not, Option, none, some,
  List, [], ◌∷◌, ◌++◌, Rc, u64_mod, length, take, ltb, ◌==◌, if◌then◌else◌, ◌>>=◌,
}
use ngx_wasm_module.Wasm.Buffers.{Links, is_end, chain_len}
use ngx_wasm_module.ProxyWasm.Chain.{
  Step, req_headers, req_body, resp_body, log_step, dispatch_response,
}
use ngx_wasm_module.Http.Bodies.{
  Bodies, set_req_body, prepend_req_body, set_resp_body, prepend_resp_body,
}

-- The types of `ngx_proxy_wasm_buffer_type_e` that are handled.
pub data BufferType : Type 0 where
  request_body response_body call_response_body vm_configuration plugin_configuration : BufferType
  foreign_function_arguments upstream_configuration : BufferType
  other_buffer : ℕ → BufferType

-- The results of a host call, and a trap.
pub data HostResult : Type 0 where
  result_ok internal_failure bad_argument not_found invalid_mem_access trap : HostResult

-- An `int32_t` read as a `size_t`: the sign is extended.
abbrev pub size_of_i32 : ℕ → ℕ
size_of_i32 n = if ltb n (2 ^ 31) then n else n + (u64_mod - 2 ^ 32)

abbrev pub result_of : Rc → HostResult
result_of Rc.ok = result_ok
result_of _ = internal_failure

abbrev pub host_result : Option (Rc × Bodies) → Option (HostResult × Bodies)
host_result r = r >>= λ (rc, s). some (result_of rc, s)

-- The steps in which the request's body may be set, and the response's.
abbrev pub sets_request : Step → Bool
sets_request req_headers = true
sets_request req_body = true
sets_request _ = false

abbrev pub sets_response : Step → Bool
sets_response resp_body = true
sets_response _ = false

-- `offset == 0 && max == 0 && buf_len > 0`
abbrev pub is_prepend : ℕ → ℕ → List ℕ → Bool
is_prepend offset max bytes = offset == 0 && max == 0 && not (length bytes == 0)

-- A write behind an offset with a `max` of 0 is one of all the bytes.
abbrev pub max_of : ℕ → ℕ → List ℕ → ℕ
max_of offset max bytes =
    if not (offset == 0) && max == 0 && not (length bytes == 0) then length bytes else max

-- `ngx_proxy_wasm_hfuncs_set_buffer`
pub host_set_buffer :
    ℕ → (ℕ → Bool) → ℕ → Step → BufferType → ℕ → ℕ → List ℕ → Bodies → Option (HostResult × Bodies)
host_set_buffer n alloc tag step type i32_offset i32_max bytes s =
    let offset = size_of_i32 i32_offset in
    let max = max_of offset (size_of_i32 i32_max) bytes in
    elim type [
      | request_body ↦
          if not (sets_request step)
          then some (trap, s)
          else if is_prepend offset max bytes
          then host_result (prepend_req_body n alloc tag bytes s)
          else host_result (set_req_body n alloc tag bytes offset max s)
      | response_body ↦
          if not (sets_response step)
          then some (trap, s)
          else if is_prepend offset max bytes
          then host_result (prepend_resp_body n alloc tag bytes s)
          else host_result (set_resp_body n alloc tag bytes offset max s)
      | _ ↦ some (bad_argument, s)
    ]

-- What else a read looks at: whether the request's body is in a file, the configurations, the
-- upstream's configuration, which may fail, the response of a dispatched call, its length, and the
-- arguments of a foreign call.
pub record Sources : Type 0 where
  pub body_in_file : Bool
  pub plugin_config : List ℕ
  pub vm_config : List ℕ
  pub upstream_config : Option (List ℕ)
  pub has_call : Bool
  pub call_body_len : ℕ
  pub call_body : Option ℕ
  pub foreign_args : Option (Option ℕ)

-- A chain to read, or what the read answers.
pub data Source : Type 0 where
  from_chain : Option ℕ → Source
  answers : HostResult → Source

-- The steps in which a body may be read.
abbrev pub gets_request : Step → Bool
gets_request req_headers = true
gets_request req_body = true
gets_request log_step = true
gets_request _ = false

abbrev pub gets_call : Step → Bool
gets_call dispatch_response = true
gets_call log_step = true
gets_call _ = false

abbrev pub chain_or : HostResult → Option ℕ → Source
chain_or r none = answers r
chain_or r (some p) = from_chain (some p)

abbrev pub bufs_or_not_found : Option (Option ℕ) → Source
bufs_or_not_found none = answers not_found
bufs_or_not_found (some bufs) = chain_or not_found bufs

-- A body in a file is not read.
abbrev pub from_memory : Bool → Source → Source
from_memory in_file (answers r) = answers r
from_memory in_file (from_chain cl) = if in_file then answers not_found else from_chain cl

-- `ngx_proxy_wasm_get_buffer_helper`, with what the caller answers where it gives no chain.
pub buffer_source : Step → BufferType → Sources → Bodies → Source
buffer_source step type o s = elim type [
  | request_body ↦
      if not (gets_request step)
      then answers trap
      else from_memory o.body_in_file (bufs_or_not_found s.req_body)
  | response_body ↦
      if not (sets_response step) then answers trap else chain_or not_found s.resp_chunk
  | call_response_body ↦
      if not (gets_call step)
      then answers trap
      else if not o.has_call
      then answers bad_argument
      else if o.call_body_len == 0
      then answers not_found
      else chain_or bad_argument o.call_body
  | foreign_function_arguments ↦ elim o.foreign_args [
    | none ↦ answers bad_argument
    | some args ↦ chain_or bad_argument args
  ]
  | _ ↦ answers bad_argument
]

-- What a read leaves: its result, the length stored for the guest, and the bytes written.
pub record Got : Type 0 where
  pub result : HostResult
  pub stored_len : Option ℕ
  pub written : List ℕ

abbrev pub got_nothing : HostResult → Got
got_nothing r = record { result = r; stored_len = none; written = [] }

-- The bytes of a buffer that are copied, and the new `len`: past `max_len` it starts from 0 again.
abbrev pub copied_chunk : ℕ → ℕ → List ℕ → List ℕ × ℕ
copied_chunk max_len len xs =
    let len' = len + length xs in
    if ltb max_len len' then (take (length xs - (len' - max_len)) xs, 0) else (xs, len')

-- The loop of `ngx_proxy_wasm_hfuncs_get_buffer` over the buffers of a chain; `in_memory` says
-- whether the guest's memory holds that many bytes from the address on. The result is whether all
-- were written, and the bytes.
pub copy_chain : ℕ → (ℕ → Bool) → ℕ → ℕ → List ℕ → Links → Option ℕ → Option (Bool × List ℕ)
copy_chain n in_memory max_len len out s none = some (true, out)
copy_chain zero in_memory max_len len out s (some cl) = none
copy_chain (suc n) in_memory max_len len out s (some cl) =
    let (chunk, len') = copied_chunk max_len len (s.buf cl).bytes in
    let rest = copy_chain n in_memory max_len len' (out ++ chunk) s (s.next cl) in
    if not (length chunk == 0) && not (in_memory (length out + length chunk))
    then some (false, out)
    else if is_end (s.buf cl)
    then some (true, out ++ chunk)
    else rest

abbrev pub copied : ℕ → Bool × List ℕ → Got
copied len (all, out) = record {
  result = if all then result_ok else invalid_mem_access;
  stored_len = some len;
  written = out;
}

-- The copy of `len` bytes that stand at one address.
abbrev pub copy_flat : (ℕ → Bool) → ℕ → List ℕ → Got
copy_flat in_memory len xs =
    if in_memory len then copied len (true, take len xs) else copied len (false, [])

-- A single buffer is copied at once, and several one after the other.
abbrev pub copy_links : ℕ → (ℕ → Bool) → ℕ → ℕ → Links → ℕ → Option ℕ → Option Got
copy_links n in_memory max_len len s cl none = some (copy_flat in_memory len (s.buf cl).bytes)
copy_links n in_memory max_len len s cl (some next) = do
  r ← copy_chain n in_memory max_len 0 [] s (some cl)
  some (copied len r)

abbrev pub copy_bufs : ℕ → (ℕ → Bool) → ℕ → ℕ → Links → Option ℕ → Option Got
copy_bufs n in_memory max_len len s none = some (got_nothing result_ok)
copy_bufs n in_memory max_len len s (some cl) = copy_links n in_memory max_len len s cl (s.next cl)

-- The checks before the copy, for `len` bytes that may be read.
abbrev pub check_read : (ℕ → Bool) → ℕ → ℕ → Option Got → Option Got
check_read guest_alloc offset len copy =
    if ltb ((offset + len) % u64_mod) offset
    then some (got_nothing internal_failure)
    else if len == 0
    then some (got_nothing result_ok)
    else if not (guest_alloc len)
    then some (got_nothing internal_failure)
    else copy

abbrev pub min_len : ℕ → ℕ → ℕ
min_len len max_len = if ltb max_len len then max_len else len

abbrev pub read_flat : (ℕ → Bool) → (ℕ → Bool) → ℕ → ℕ → List ℕ → Option Got
read_flat guest_alloc in_memory offset max_len xs =
    let len = min_len (length xs) max_len in
    check_read guest_alloc offset len (some (copy_flat in_memory len xs))

abbrev pub read_source : ℕ → (ℕ → Bool) → (ℕ → Bool) → ℕ → ℕ → Links → Source → Option Got
read_source n guest_alloc in_memory offset max_len links (answers r) = some (got_nothing r)
read_source n guest_alloc in_memory offset max_len links (from_chain cl) = do
  (size, eof) ← chain_len n links cl
  let len = min_len size max_len
  check_read guest_alloc offset len (copy_bufs n in_memory max_len len links cl)

-- `ngx_proxy_wasm_hfuncs_get_buffer`; `guest_alloc` says whether the guest allocates that many bytes.
pub host_get_buffer :
    ℕ → (ℕ → Bool) → (ℕ → Bool) → Step → BufferType → ℕ → ℕ → Sources → Bodies → Option Got
host_get_buffer n guest_alloc in_memory step type i32_offset i32_max o s =
    let offset = size_of_i32 i32_offset in
    let max_len = size_of_i32 i32_max in
    let flat = read_flat guest_alloc in_memory offset max_len in
    let chains =
      read_source n guest_alloc in_memory offset max_len s.links (buffer_source step type o s) in
    elim type [
      | plugin_configuration ↦ flat o.plugin_config
      | vm_configuration ↦ flat o.vm_config
      | upstream_configuration ↦ elim o.upstream_config [
        | none ↦ some (got_nothing internal_failure)
        | some xs ↦ flat xs
      ]
      | _ ↦ chains
    ]
