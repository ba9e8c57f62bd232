-- ===== src/Shm/Queue/Pop.antt =====
-- ngx_wa_shm_queue_pop_locked on the bytes of the ring.
use ngx_wasm_module.Common.{
  ℕ, ◌+◌, ◌^◌, ◌≤◌, ◌<◌, ◌≡◌, inl, inr, refl, sym, ap, ◌∙◌, Bool, true, false, not, ◌&&◌, none,
  some, List, [], ◌++◌, arith, length, ltb, Bool-cases, le→leb, ltb→lt, lt→ltb, le→ltb,
  length-append, Rc,
}
use ngx_wasm_module.Shm.Queue.{
  Queue, queue_occupancy, assert, inc_ptr, u32_bytes, u32_value, pop, circular_read,
}
use ngx_wasm_module.Shm.Queue.Ring.{
  IsValid, wrap, window, occupancy_le, assert-true, inc_ptr_lem, circular_read_lem,
}
use ngx_wasm_module.Shm.Queue.Bytes.{
  Holds, contents, Holds-contents, Holds-length, occupancy_of_holds, read_front, read_holds,
}
use ngx_wasm_module.Shm.Queue.Frames.{frame, u32_value-bytes}

module _ (debug : Bool) (alloc : ℕ → Bool) (q : Queue) (v : IsValid q) where
  pub pop_empty : queue_occupancy q ≡ 0 → pop debug alloc q ≡ some (Rc.again, none, q)
  unfolding pop
  pop_empty e = rw e

  -- The oldest frame is that of `msg`.
  module _ (msg rest : List ℕ) (small : length msg < 2 ^ 32)
      (bytes : contents q ≡ frame msg ++ rest) where
    size : queue_occupancy q ≡ 4 + (length msg + length rest)
    size =
        sym (Holds-length q (queue_occupancy q) (contents q) (Holds-contents q v))
        ∙ ap length bytes
        ∙ omega (arith, length-append msg rest)

    before :
        Holds q
          (length (u32_bytes (length msg)) + length (msg ++ rest))
          (u32_bytes (length msg) ++ (msg ++ rest))
    before = record {
      valid = v;
      fits = omega (arith, length-append msg rest, size, occupancy_le q v);
      next = (Holds-contents q v).next ∙ ap (λ n. wrap (length q.buffer) (q.pop_ptr + n)) same_size;
      bytes = ap (window q.buffer q.pop_ptr) (sym same_size) ∙ bytes;
    }
      where
        same_size : queue_occupancy q ≡ 4 + length (msg ++ rest)
        same_size = omega (arith, length-append msg rest, size)

    header_read : circular_read debug q q.pop_ptr true 4 ≡ some (u32_bytes (length msg))
    header_read =
        circular_read_lem debug q q.pop_ptr true 4 v.small v.pop_in
          (omega (arith, size, occupancy_le q v))
          (assert-true debug _ (le→leb _ _ (omega (arith, size)))) (assert-true debug true refl)
        ∙ ap some (read_front q (u32_bytes (length msg)) (msg ++ rest) before)

    after_header : Queue
    after_header = record q { pop_ptr = wrap (length q.buffer) (q.pop_ptr + 4) }

    after_header-Holds : Holds after_header (length (msg ++ rest)) (msg ++ rest)
    unfolding after_header
    after_header-Holds =
        read_holds q (u32_bytes (length msg)) (msg ++ rest) before q.rising_occupancy

    length_read : u32_value (u32_bytes (length msg)) ≡ length msg
    length_read = u32_value-bytes (length msg) small

    -- No room for the copy: the ring is as it was.
    pub pop_no_memory :
        ltb 0 (length msg) && not (alloc (length msg)) ≡ true
        → pop debug alloc q ≡ some (Rc.error, none, q)
    unfolding pop
    pop_no_memory full =
        rw (le→ltb (queue_occupancy q) 4 (omega (arith, size)), header_read, length_read, full)

    same_buffer : length after_header.buffer ≡ length q.buffer
    unfolding after_header
    same_buffer = refl

    both : Holds after_header (length msg + length rest) (msg ++ rest)
    both = rw (← length-append msg rest) after_header-Holds

    -- An empty rest after the header belongs to an empty message.
    body_held : length msg ≤ queue_occupancy after_header
    body_held = elim (Bool-cases (ltb 0 (length msg))) [
      | inl e ↦
          let pos : 0 < length msg = ltb→lt _ _ e in
          let held : queue_occupancy after_header ≡ length (msg ++ rest) =
            occupancy_of_holds after_header (length (msg ++ rest)) (msg ++ rest) after_header-Holds
              (λ z. absurd (omega (arith, length-append msg rest)))
              (λ z.
                absurd
                  (omega (arith, length-append msg rest, size, occupancy_le q v, same_buffer))) in
          omega (arith, length-append msg rest)
      | inr e ↦ ground arith
    ]

    body_read :
        assert debug (ltb 0 (length msg)) ≡ some tt
        → circular_read debug after_header after_header.pop_ptr (ltb 0 (length msg)) (length msg)
          ≡ some msg
    body_read checked =
        circular_read_lem debug after_header after_header.pop_ptr (ltb 0 (length msg)) (length msg)
          after_header-Holds.valid.small after_header-Holds.valid.pop_in
          (omega (arith, after_header-Holds.fits, length-append msg rest))
          (assert-true debug _ (le→leb _ _ body_held)) checked
        ∙ ap some (read_front after_header msg rest both)

    after_pop : Queue
    after_pop = record {
      buffer = after_header.buffer;
      push_ptr = after_header.push_ptr;
      pop_ptr = wrap (length after_header.buffer) (after_header.pop_ptr + length msg);
      rising_occupancy = false;
    }

    after_pop-Holds : Holds after_pop (length rest) rest
    unfolding after_pop
    after_pop-Holds = read_holds after_header msg rest both false

    step_header : inc_ptr debug q q.pop_ptr 4 ≡ some (wrap (length q.buffer) (q.pop_ptr + 4))
    step_header =
        inc_ptr_lem debug q q.pop_ptr 4 v.small v.pop_in (omega (arith, size, occupancy_le q v))

    step_body :
        inc_ptr debug after_header after_header.pop_ptr (length msg)
        ≡ some (wrap (length after_header.buffer) (after_header.pop_ptr + length msg))
    step_body =
        inc_ptr_lem debug after_header after_header.pop_ptr (length msg)
          after_header-Holds.valid.small after_header-Holds.valid.pop_in (omega (arith, both.fits))

    checked :
        ltb after_pop.push_ptr (length after_pop.buffer)
          && ltb after_pop.pop_ptr (length after_pop.buffer)
        ≡ true
    checked = rw (
      lt→ltb after_pop.push_ptr (length after_pop.buffer) after_pop-Holds.valid.push_in,
      lt→ltb after_pop.pop_ptr (length after_pop.buffer) after_pop-Holds.valid.pop_in,
    )

    pop_eq :
        assert debug (ltb 0 (length msg)) ≡ some tt
        → ltb 0 (length msg) && not (alloc (length msg)) ≡ false
        → pop debug alloc q ≡ some (Rc.ok, some msg, after_pop)
    unfolding pop after_header after_pop
    pop_eq asserted allocated = rw (
      le→ltb (queue_occupancy q) 4 (omega (arith, size)),
      header_read,
      length_read,
      allocated,
      step_header,
      asserted,
      body_read asserted,
      step_body,
      assert-true debug _ checked,
    )

    is_falling : after_pop.rising_occupancy ≡ false
    unfolding after_pop
    is_falling = refl

    final_buffer : length after_pop.buffer ≡ length q.buffer
    unfolding after_pop
    final_buffer = same_buffer

    -- With memory for it, `pop` returns the oldest message and leaves the rest. The release build
    -- does so for an empty message too.
    pub pop_message :
        assert debug (ltb 0 (length msg)) ≡ some tt
        → ltb 0 (length msg) && not (alloc (length msg)) ≡ false
        → (q' : Queue) × (pop debug alloc q ≡ some (Rc.ok, some msg, q'))
          × IsValid q'
          × (length q'.buffer ≡ length q.buffer)
          × (contents q' ≡ rest)
    pop_message asserted allocated = (
      after_pop,
      pop_eq asserted allocated,
      after_pop-Holds.valid,
      final_buffer,
      ap (window after_pop.buffer after_pop.pop_ptr) (
            occupancy_of_holds after_pop (length rest) rest after_pop-Holds (λ _. is_falling)
              (λ z. absurd (omega (arith, final_buffer, size, occupancy_le q v))))
          ∙ after_pop-Holds.bytes,
    )

module _ (alloc : ℕ → Bool) (q : Queue) (v : IsValid q) (rest : List ℕ) where
  -- The build with NGX_DEBUG stops at `ngx_wa_assert(buf)` where the oldest message is empty.
  pub pop_empty_message_debug : contents q ≡ frame [] ++ rest → pop true alloc q ≡ none
  unfolding pop
  pop_empty_message_debug bytes = rw (
    le→ltb (queue_occupancy q) 4 (omega (arith, size true alloc q v [] rest (omega arith) bytes)),
    header_read true alloc q v [] rest (omega arith) bytes,
    step_header true alloc q v [] rest (omega arith) bytes,
  )
