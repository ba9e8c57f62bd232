-- ===== src/ProxyWasm/Bodies/RoundTrip.antt =====
-- A guest that reads the request's body after it wrote to it.
use ngx_wasm_module.Common.{
  ℕ, ◌+◌, ◌<◌, ◌≤◌, ◌≡◌, refl, Bool, true, false, some, List, u64_mod, arith, length,
}
use ngx_wasm_module.ProxyWasm.Chain.{
  Step, req_headers, req_body, req_trailers, resp_headers, resp_body, resp_trailers, log_step,
  done_step, tick, dispatch_response, foreign_callback, upstream_select, next_upstream,
  upstream_info,
}
use ngx_wasm_module.Http.Bodies.{Bodies}
use ngx_wasm_module.Http.Bodies.Request.{ReqBody}
use ngx_wasm_module.ProxyWasm.Bodies.{
  result_ok, request_body, size_of_i32, sets_request, gets_request, host_set_buffer, Sources,
  copied, host_get_buffer,
}
use ngx_wasm_module.ProxyWasm.Bodies.Write.{new_body, host_set_buffer-HostWrote}
use ngx_wasm_module.ProxyWasm.Bodies.Read.{host_get_buffer-ReqBody}

-- The body that a write of `bytes` leaves.
abbrev pub body_after : ℕ → ℕ → List ℕ → List ℕ → List ℕ
body_after i32_offset i32_max bytes old =
    new_body (size_of_i32 i32_offset) (size_of_i32 i32_max) bytes old

may_read : (step : Step) → sets_request step ≡ true → gets_request step ≡ true
may_read req_headers may = refl
may_read req_body may = refl
may_read log_step may = refl
may_read req_trailers may = absurd (ground (arith, may))
may_read resp_headers may = absurd (ground (arith, may))
may_read resp_body may = absurd (ground (arith, may))
may_read resp_trailers may = absurd (ground (arith, may))
may_read done_step may = absurd (ground (arith, may))
may_read tick may = absurd (ground (arith, may))
may_read dispatch_response may = absurd (ground (arith, may))
may_read foreign_callback may = absurd (ground (arith, may))
may_read upstream_select may = absurd (ground (arith, may))
may_read next_upstream may = absurd (ground (arith, may))
may_read upstream_info may = absurd (ground (arith, may))

module _ (n size tag : ℕ) (alloc guest_alloc in_memory : ℕ → Bool) (old : List ℕ) (s : Bodies)
    (step : Step) (o : Sources) (gives : (i : ℕ) → alloc i ≡ true)
    (before : s.entered_header_filter ≡ false) (may : sets_request step ≡ true)
    (mem : o.body_in_file ≡ false) (body : ReqBody size old s) (fuel : size < n) where
  -- In a step that may set the request's body, before the header filter and while the pool gives
  -- memory, a guest's write to a body that is a well-formed chain in memory succeeds. A read
  -- then returns the whole body that the write leaves, if that has bytes, the guest asks for at
  -- least its length and has room for it, and the offset of the read does not wrap around.
  pub host_get_buffer-host_set_buffer :
      (i32_offset i32_max read_offset read_max : ℕ) (bytes : List ℕ)
      → 0 < length (body_after i32_offset i32_max bytes old)
      → length (body_after i32_offset i32_max bytes old) ≤ size_of_i32 read_max
      → size_of_i32 read_offset + length (body_after i32_offset i32_max bytes old) < u64_mod
      → guest_alloc (length (body_after i32_offset i32_max bytes old)) ≡ true
      → ((k : ℕ) → k ≤ size_of_i32 read_max → in_memory k ≡ true)
      → (s' : Bodies) × (host_set_buffer n alloc tag step request_body i32_offset i32_max bytes s
          ≡ some (result_ok, s'))
        × (host_get_buffer n guest_alloc in_memory step request_body read_offset read_max o s'
            ≡ some (
                copied
                  (length (body_after i32_offset i32_max bytes old))
                  (true, body_after i32_offset i32_max bytes old)))
  host_get_buffer-host_set_buffer i32_offset i32_max read_offset read_max bytes some_bytes enough
        no_wrap room fits =
      let w =
        host_set_buffer-HostWrote n size tag alloc old s step gives before may body fuel i32_offset
          i32_max bytes in
      (
        w.after,
        w.returns,
        host_get_buffer-ReqBody n (size + 1) guest_alloc in_memory step read_offset read_max o
            (body_after i32_offset i32_max bytes old) w.after (may_read step may) mem w.body
            (omega (arith, fuel)) some_bytes enough no_wrap room fits,
      )
