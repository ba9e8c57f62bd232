-- ===== src/Shm/Queue/Tests.antt =====
-- Runs of the byte ring on small buffers, and the theorems at concrete rings.
use ngx_wasm_module.Common.{
  ◌≡◌, refl, Bool, true, false, none, some, List, [], ◌∷◌, arith, length, Rc, ◌>>=◌, leb,
}
use ngx_wasm_module.Shm.Queue.{
  Queue, queue_occupancy, inc_ptr, copy_in, copy_out, circular_write, circular_read, queue_init,
  push, pop,
}
use ngx_wasm_module.Shm.Queue.Ring.{IsValid}
use ngx_wasm_module.Shm.Queue.Frames.{Represents}
use ngx_wasm_module.Shm.Queue.Pop.{pop_empty_message_debug}
use ngx_wasm_module.Shm.Queue.Fifo.{
  push_refines, pop_refines, run, run_refines, queue_init-Represents, Ran, Op, push_op, pop_op,
  pushed, popped,
}

-- Sixteen bytes; the one message `7 8` goes round the end.
abbrev wrapped : Queue
wrapped = record {
  buffer = 0 ∷ 7 ∷ 8 ∷ 0 ∷ 0 ∷ 0 ∷ 0 ∷ 0 ∷ 0 ∷ 0 ∷ 0 ∷ 0 ∷ 0 ∷ 2 ∷ 0 ∷ 0 ∷ [];
  push_ptr = 3;
  pop_ptr = 13;
  rising_occupancy = true;
}

-- The message without bytes, alone.
abbrev bare : Queue
bare = record {
  buffer = 0 ∷ 0 ∷ 0 ∷ 0 ∷ 0 ∷ 0 ∷ [];
  push_ptr = 4;
  pop_ptr = 0;
  rising_occupancy = true;
}

abbrev script : List Op
script =
    push_op (1 ∷ 2 ∷ 3 ∷ 4 ∷ [])
    ∷ push_op []
    ∷ pop_op (λ n. false)
    ∷ pop_op (λ n. true)
    ∷ push_op (9 ∷ [])
    ∷ pop_op (λ n. true)
    ∷ pop_op (λ n. leb n 3)
    ∷ pop_op (λ n. true)
    ∷ []

script_replies :
    (run false wrapped script >>= λ out. some (out.0))
    ≡ some (
        pushed Rc.ok
        ∷ pushed Rc.abort
        ∷ popped Rc.error none
        ∷ popped Rc.ok (some (7 ∷ 8 ∷ []))
        ∷ pushed Rc.ok
        ∷ popped Rc.ok (some (1 ∷ 2 ∷ 3 ∷ 4 ∷ []))
        ∷ popped Rc.ok (some (9 ∷ []))
        ∷ popped Rc.again none
        ∷ [])
unfolding run push pop circular_write circular_read copy_in copy_out inc_ptr queue_occupancy
script_replies = refl

wrapped-IsValid : IsValid wrapped
wrapped-IsValid = omega arith

wrapped-Represents : (debug : Bool) → Represents debug wrapped ((7 ∷ 8 ∷ []) ∷ [])
unfolding queue_occupancy
wrapped-Represents true = record {
  valid = wrapped-IsValid;
  bytes = refl;
  messages = ((omega arith, refl), tt);
}
wrapped-Represents false = record {
  valid = wrapped-IsValid;
  bytes = refl;
  messages = ((omega arith, refl), tt);
}

pushed_once :
    (q' : Queue) × (push true wrapped (5 ∷ 6 ∷ []) ≡ some (Rc.ok, q'))
    × Represents true q' ((7 ∷ 8 ∷ []) ∷ (5 ∷ 6 ∷ []) ∷ [])
    × (length q'.buffer ≡ 16)
pushed_once =
    push_refines true wrapped ((7 ∷ 8 ∷ []) ∷ []) (5 ∷ 6 ∷ []) (wrapped-Represents true)
      (omega arith, refl)

popped_once :
    (q' : Queue) × (pop true (λ n. true) wrapped ≡ some (Rc.ok, some (7 ∷ 8 ∷ []), q'))
    × Represents true q' []
    × (length q'.buffer ≡ 16)
popped_once = pop_refines true (λ n. true) wrapped ((7 ∷ 8 ∷ []) ∷ []) (wrapped-Represents true)

run_refines_example : Ran false 16 ((7 ∷ 8 ∷ []) ∷ []) script (run false wrapped script)
run_refines_example =
    run_refines false wrapped ((7 ∷ 8 ∷ []) ∷ []) script (wrapped-Represents false)
      ((omega arith, refl), ((omega arith, refl), ((omega arith, refl), tt)))

queue_init-Represents_example :
    (q : Queue) × (queue_init true false false 5000 4096 ≡ some (Rc.ok, some q))
    × Represents true q []
    × (length q.buffer ≡ 904)
queue_init-Represents_example = queue_init-Represents true 5000 4096 (omega arith) (omega arith)

pop_empty_message_debug_example : pop true (λ n. true) bare ≡ none
unfolding queue_occupancy
pop_empty_message_debug_example = pop_empty_message_debug (λ n. true) bare (omega arith) [] refl
