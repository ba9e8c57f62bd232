-- ===== src/Shm/Queue/Push.antt =====
-- ngx_wa_shm_queue_push_locked on the bytes of the ring.
use ngx_wasm_module.Common.{
  ℕ, ◌+◌, ◌%◌, ◌^◌, ◌≤◌, ◌<◌, ◌≡◌, inl, inr, refl, ap, ◌∙◌, Bool, true, ◌&&◌, some, List, ◌++◌,
  append_assoc, arith, length, ltb, leb, Bool-cases, leb→le, lt→ltb, le→ltb, Rc, add64, u32_mod,
}
use ngx_wasm_module.Shm.Queue.{Queue, queue_occupancy, inc_ptr, u32_bytes, push, circular_write}
use ngx_wasm_module.Shm.Queue.Ring.{
  IsValid, Written, wrap, window, occupancy_le, assert-true, inc_ptr_lem, circular_write-Written,
}
use ngx_wasm_module.Shm.Queue.Bytes.{
  Holds, contents, Holds-contents, occupancy_of_holds, write_holds,
}
use ngx_wasm_module.Shm.Queue.Frames.{frame}

module _ (debug : Bool) (q : Queue) (msg : List ℕ) (v : IsValid q)
    (small : length msg < 2 ^ 32) where
  pub push_full :
      length q.buffer < queue_occupancy q + (4 + length msg) → push debug q msg ≡ some (Rc.abort, q)
  unfolding push
  push_full full = rw (
      lt→ltb (length q.buffer) (add64 (queue_occupancy q) (add64 4 (length msg)))
        (omega (arith, occupancy_le q v, v.small)))

  module _ (room : queue_occupancy q + (4 + length msg) ≤ length q.buffer) where
    header :
        (buf : List ℕ) × (circular_write debug q q.push_ptr (u32_bytes (length msg))
          ≡ some (record q { buffer = buf }))
        × Written q q.push_ptr (u32_bytes (length msg)) buf
    header =
        circular_write-Written q q.push_ptr (u32_bytes (length msg)) v.push_in (omega arith) debug v
          (omega arith)

    after_header : Queue
    after_header = record {
      buffer = header.0;
      push_ptr = wrap (length q.buffer) (q.push_ptr + 4);
      pop_ptr = q.pop_ptr;
      rising_occupancy = q.rising_occupancy;
    }

    after_header-Holds :
        Holds after_header (queue_occupancy q + 4) (contents q ++ u32_bytes (length msg))
    unfolding after_header
    after_header-Holds =
        write_holds q (queue_occupancy q) (contents q) (u32_bytes (length msg)) header.0
          (Holds-contents q v) (omega arith) header.2 q.rising_occupancy

    after_header_length : length after_header.buffer ≡ length q.buffer
    unfolding after_header
    after_header_length = header.2.same_length

    -- Before `rising_occupancy` is set, a ring that the header fills up counts as full or as empty.
    after_header_room : queue_occupancy after_header + length msg ≤ length after_header.buffer
    after_header_room = elim (Bool-cases (leb (length q.buffer) (queue_occupancy q + 4))) [
      | inl e ↦ omega (
        arith,
        occupancy_le after_header after_header-Holds.valid,
        leb→le _ _ e,
        after_header_length,
      )
      | inr e ↦
          let less : queue_occupancy q + 4 < length q.buffer = ground arith in
          let held : queue_occupancy after_header ≡ queue_occupancy q + 4 =
            occupancy_of_holds after_header (queue_occupancy q + 4)
              (contents q ++ u32_bytes (length msg)) after_header-Holds (λ z. absurd (omega arith))
              (λ z. absurd (omega (arith, after_header_length))) in
          omega (arith, after_header_length)
    ]

    body :
        (buf : List ℕ) × (circular_write debug after_header after_header.push_ptr msg
          ≡ some (record after_header { buffer = buf }))
        × Written after_header after_header.push_ptr msg buf
    body =
        circular_write-Written after_header after_header.push_ptr msg
          after_header-Holds.valid.push_in (omega (arith, after_header_room)) debug
          after_header-Holds.valid after_header_room

    after_push : Queue
    after_push = record {
      buffer = body.0;
      push_ptr = wrap (length after_header.buffer) (after_header.push_ptr + length msg);
      pop_ptr = after_header.pop_ptr;
      rising_occupancy = true;
    }

    after_push-Holds :
        Holds after_push
          (queue_occupancy q + 4 + length msg)
          ((contents q ++ u32_bytes (length msg)) ++ msg)
    unfolding after_push
    after_push-Holds =
        write_holds after_header (queue_occupancy q + 4) (contents q ++ u32_bytes (length msg)) msg
          body.0 after_header-Holds (omega (arith, after_header_length)) body.2 true

    step_header :
        inc_ptr debug (record q { buffer = header.0 }) q.push_ptr 4
        ≡ some (wrap (length q.buffer) (q.push_ptr + 4))
    step_header =
        inc_ptr_lem debug (record q { buffer = header.0 }) q.push_ptr 4
          (omega (arith, header.2.same_length, v.small))
          (omega (arith, header.2.same_length, v.push_in)) (omega (arith, header.2.same_length))
        ∙ ap (λ c. some (wrap c (q.push_ptr + 4))) header.2.same_length

    step_body :
        inc_ptr debug (record after_header { buffer = body.0 }) after_header.push_ptr (length msg)
        ≡ some (wrap (length after_header.buffer) (after_header.push_ptr + length msg))
    step_body =
        inc_ptr_lem debug (record after_header { buffer = body.0 }) after_header.push_ptr
          (length msg) (omega (arith, body.2.same_length, after_header-Holds.valid.small))
          (omega (arith, body.2.same_length, after_header-Holds.valid.push_in))
          (omega (arith, body.2.same_length, after_header_length))
        ∙ ap (λ c. some (wrap c (after_header.push_ptr + length msg))) body.2.same_length

    whole_length : length msg % u32_mod ≡ length msg
    whole_length = omega arith

    checked :
        ltb after_push.push_ptr (length after_push.buffer)
          && ltb after_push.pop_ptr (length after_push.buffer)
        ≡ true
    checked = rw (
      lt→ltb after_push.push_ptr (length after_push.buffer) after_push-Holds.valid.push_in,
      lt→ltb after_push.pop_ptr (length after_push.buffer) after_push-Holds.valid.pop_in,
    )

    push_eq : push debug q msg ≡ some (Rc.ok, after_push)
    unfolding push after_header after_push
    push_eq = rw (
      le→ltb (length q.buffer) (add64 (queue_occupancy q) (add64 4 (length msg)))
          (omega (arith, occupancy_le q v, v.small)),
      whole_length,
      header.1,
      step_header,
      body.1,
      step_body,
      assert-true debug _ checked,
    )

    is_rising : after_push.rising_occupancy ≡ true
    unfolding after_push
    is_rising = refl

    same_buffer : length after_push.buffer ≡ length q.buffer
    unfolding after_push
    same_buffer = body.2.same_length ∙ after_header_length

    contents-after_push : contents after_push ≡ contents q ++ frame msg
    contents-after_push =
        ap (window after_push.buffer after_push.pop_ptr) (
          occupancy_of_holds after_push (queue_occupancy q + 4 + length msg)
            ((contents q ++ u32_bytes (length msg)) ++ msg) after_push-Holds
            (λ z. absurd (omega arith)) (λ _. is_rising))
        ∙ after_push-Holds.bytes
        ∙ append_assoc (contents q) (u32_bytes (length msg)) msg

    -- Pushing what fits appends its frame to the bytes held.
    pub push_fits :
        (q' : Queue) × (push debug q msg ≡ some (Rc.ok, q'))
        × IsValid q'
        × (length q'.buffer ≡ length q.buffer)
        × (contents q' ≡ contents q ++ frame msg)
    push_fits = (after_push, push_eq, after_push-Holds.valid, same_buffer, contents-after_push)
