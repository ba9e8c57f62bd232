-- ===== src/ProxyWasm/Bodies/Write.antt =====
-- ngx_proxy_wasm_hfuncs_set_buffer of ngx_proxy_wasm_host.c: a guest's writes to the request's body.
use mathlib.Core.Path.{subst}
use ngx_wasm_module.Common.{
  ℕ, ◌+◌, ◌<◌, ◌≡◌, refl, inl, inr, Bool, true, false, Option, some, List, [], ◌∷◌, ◌++◌, Rc, arith,
  length, take, if◌then◌else◌, Bool-cases, ◌==◌, ap, ◌∙◌,
}
use ngx_wasm_module.Wasm.Buffers.Segments.{eq_of_test}
use ngx_wasm_module.Wasm.Buffers.Cut.{take_nil}
use ngx_wasm_module.Wasm.Buffers.Clear.{take_all}
use ngx_wasm_module.ProxyWasm.Chain.{Step}
use ngx_wasm_module.Http.Bodies.{Bodies, set_req_body, prepend_req_body}
use ngx_wasm_module.Http.Bodies.Request.{ReqBody, Wrote, set_req_body-Wrote, prepend_req_body-Wrote}
use ngx_wasm_module.ProxyWasm.Bodies.{
  HostResult, result_ok, request_body, trap, size_of_i32, host_result, sets_request, is_prepend,
  max_of, host_set_buffer,
}

-- What a write makes of a body: some bytes are put in front of it, and none replace it.
abbrev pub put_front : List ℕ → List ℕ → List ℕ
put_front [] old = []
put_front (x ∷ xs) old = x ∷ xs ++ old

abbrev pub new_body : ℕ → ℕ → List ℕ → List ℕ → List ℕ
new_body offset max bytes old =
    if offset == 0
    then (if max == 0 then put_front bytes old else take max bytes)
    else take offset old ++ (if max == 0 then bytes else take max bytes)

-- The same by the choices of `host_set_buffer`.
chosen : ℕ → ℕ → List ℕ → List ℕ → List ℕ
chosen offset max bytes old =
    if is_prepend offset max bytes then bytes ++ old else take offset old ++ take max bytes

chosen-new_body :
    (offset max : ℕ) (bytes old : List ℕ)
    → chosen offset (max_of offset max bytes) bytes old ≡ new_body offset max bytes old
unfolding chosen
chosen-new_body offset max [] old = elim (Bool-cases (offset == 0)) [
  | inl z ↦ elim (Bool-cases (max == 0)) [
    | inl z' ↦
        rw (z, z') (ap (λ k. take k old ++ take max []) (eq_of_test offset 0 z) ∙ take_nil max)
    | inr n' ↦ rw (z, n') (ap (λ k. take k old ++ take max []) (eq_of_test offset 0 z))
  ]
  | inr n ↦ elim (Bool-cases (max == 0)) [
    | inl z' ↦ rw (n, z') (ap (◌++◌ (take offset old)) (take_nil max))
    | inr n' ↦ rw (n, n') refl
  ]
]
chosen-new_body offset max (x ∷ xs) old =
    let some_bytes : (length (x ∷ xs) == 0) ≡ false = ground arith in
    elim (Bool-cases (offset == 0)) [
      | inl z ↦ elim (Bool-cases (max == 0)) [
        | inl z' ↦ rw (z, z', some_bytes) refl
        | inr n' ↦ rw (z, n') (ap (λ k. take k old ++ take max (x ∷ xs)) (eq_of_test offset 0 z))
      ]
      | inr n ↦ elim (Bool-cases (max == 0)) [
        | inl z' ↦
            rw (n, z', some_bytes)
              (ap (λ ys. take offset old ++ x ∷ ys) (take_all (length xs) xs (omega arith)))
        | inr n' ↦ rw (n, n') refl
      ]
    ]

-- A write that succeeds, as the guest sees it.
pub record HostWrote (size : ℕ) (bytes : List ℕ) (s : Bodies) (r : Option (HostResult × Bodies))
    : Type 0 where
  pub after : Bodies
  pub returns : r ≡ some (result_ok, after)
  pub body : ReqBody (size + 1) bytes after
  pub len : after.req_content_length ≡ length bytes
  pub same_entered : after.entered_header_filter ≡ s.entered_header_filter

host_wrote :
    {size : ℕ} {bytes : List ℕ} {s : Bodies} {r : Option (Rc × Bodies)}
    → Wrote size bytes s r
    → HostWrote size bytes s (host_result r)
host_wrote w = record {
  after = w.after;
  returns = rw w.returns refl;
  body = w.body;
  len = w.len;
  same_entered = w.same_entered;
}

module _ (n size tag : ℕ) (alloc : ℕ → Bool) (old : List ℕ) (s : Bodies) (step : Step)
    (gives : (i : ℕ) → alloc i ≡ true) (before : s.entered_header_filter ≡ false)
    (may : sets_request step ≡ true) (body : ReqBody size old s) (fuel : size < n) where
  -- A prepend needs some bytes.
  prepends :
      (offset max : ℕ) (bytes : List ℕ)
      → is_prepend offset max bytes ≡ true
      → HostWrote size (bytes ++ old) s (host_result (prepend_req_body n alloc tag bytes s))
  prepends offset max [] is = absurd (ground (arith, is))
  prepends offset max (x ∷ xs) is =
      host_wrote (prepend_req_body-Wrote n size tag alloc old s gives before body fuel x xs)

  host_set_request :
      (offset max : ℕ) (bytes : List ℕ)
      → HostWrote size (chosen offset max bytes old) s (
          if is_prepend offset max bytes
          then host_result (prepend_req_body n alloc tag bytes s)
          else host_result (set_req_body n alloc tag bytes offset max s))
  unfolding chosen
  host_set_request offset max bytes = elim (Bool-cases (is_prepend offset max bytes)) [
    | inl is ↦ rw is (prepends offset max bytes is)
    | inr not_is ↦ rw not_is (
        host_wrote
          (set_req_body-Wrote n size tag alloc old s gives before body fuel bytes offset max))
  ]

  -- In a step that may set the request's body, before the header filter and while the pool gives
  -- memory, a guest's write to a body that is a well-formed chain returns OK. With an offset and
  -- a max of 0 some bytes are put in front; otherwise the body becomes its bytes before the
  -- offset and then the first max bytes written, all of them if max is 0 behind an offset. The
  -- chain stays well formed and the content length is the body's.
  pub host_set_buffer-HostWrote :
      (i32_offset i32_max : ℕ) (bytes : List ℕ)
      → HostWrote size
          (new_body (size_of_i32 i32_offset) (size_of_i32 i32_max) bytes old)
          s
          (host_set_buffer n alloc tag step request_body i32_offset i32_max bytes s)
  unfolding host_set_buffer
  host_set_buffer-HostWrote i32_offset i32_max bytes =
      let offset = size_of_i32 i32_offset in
      let max = max_of offset (size_of_i32 i32_max) bytes in
      rw may (
        subst
          (λ b. HostWrote size b s (
            if is_prepend offset max bytes
            then host_result (prepend_req_body n alloc tag bytes s)
            else host_result (set_req_body n alloc tag bytes offset max s)))
          (chosen-new_body offset (size_of_i32 i32_max) bytes old)
          (host_set_request offset max bytes))

-- In any other step it traps, and nothing is written.
pub host_set_buffer_trap :
    (n tag : ℕ) (alloc : ℕ → Bool) (step : Step) (i32_offset i32_max : ℕ) (bytes : List ℕ)
    (s : Bodies)
    → sets_request step ≡ false
    → host_set_buffer n alloc tag step request_body i32_offset i32_max bytes s ≡ some (trap, s)
unfolding host_set_buffer
host_set_buffer_trap n tag alloc step i32_offset i32_max bytes s never = rw never refl
