-- ===== src/Shm/Queue/Fifo.antt =====
-- ngx_wa_shm_queue.c refines a first-in first-out queue of messages of bounded total size.
use mathlib.Core.Path.{subst}
use ngx_wasm_module.Common.{
  ℕ, ◌+◌, ◌-◌, ◌^◌, ◌<◌, ◌≡◌, inl, inr, refl, sym, ap, ◌∙◌, Bool, false, not, ◌&&◌, Option, none,
  some, List, [], ◌∷◌, ◌++◌, arith, length, ltb, leb, if◌then◌else◌, ◌>>=◌, replicate,
  length-replicate, sub64, Bool-cases, leb→le, lt→ltb, Rc,
}
use ngx_wasm_module.Shm.Queue.{Queue, queue_occupancy, queue_init, push, pop}
use ngx_wasm_module.Shm.Queue.Ring.{assert-true}
use ngx_wasm_module.Shm.Queue.Bytes.{contents}
use ngx_wasm_module.Shm.Queue.Frames.{
  frame, frames, IsMessage, Represents, frames-append, AllMessages-append, Represents-occupancy,
}
use ngx_wasm_module.Shm.Queue.Push.{push_full, push_fits}
use ngx_wasm_module.Shm.Queue.Pop.{pop_empty, pop_no_memory, pop_message}

-- The abstract queue: messages in order, at most `cap` bytes with their headers.
abbrev pub spec_push : ℕ → List (List ℕ) → List ℕ → Rc × List (List ℕ)
spec_push cap ms msg =
    if leb (length (frames ms) + (4 + length msg)) cap
    then (Rc.ok, ms ++ msg ∷ [])
    else (Rc.abort, ms)

abbrev pub spec_pop : (ℕ → Bool) → List (List ℕ) → Rc × Option (List ℕ) × List (List ℕ)
spec_pop alloc [] = (Rc.again, none, [])
spec_pop alloc (m ∷ ms) =
    if ltb 0 (length m) && not (alloc (length m))
    then (Rc.error, none, m ∷ ms)
    else (Rc.ok, some m, ms)

-- `push` never faults, returns the code of the abstract queue, and leaves the ring standing for
-- its messages.
pub push_refines :
    (debug : Bool) (q : Queue) (ms : List (List ℕ)) (msg : List ℕ)
    → Represents debug q ms
    → IsMessage debug msg
    → let (rc, ms') = spec_push (length q.buffer) ms msg in
      (q' : Queue) × (push debug q msg ≡ some (rc, q'))
      × Represents debug q' ms'
      × (length q'.buffer ≡ length q.buffer)
push_refines debug q ms msg r m =
    elim (Bool-cases (leb (length (frames ms) + (4 + length msg)) (length q.buffer))) [
      | inl e ↦
          let held = Represents-occupancy debug q ms r in
          let (q', eq, valid, same, bytes) =
            push_fits debug q msg r.valid m.0 (omega (arith, leb→le _ _ e, held)) in
          rw e (
            q',
            eq,
            record {
              valid = valid;
              bytes = bytes ∙ ap (λ b. b ++ frame msg) r.bytes ∙ sym (frames-append ms msg);
              messages = AllMessages-append debug ms msg r.messages m;
            },
            same,
          )
      | inr e ↦ rw e (
        q,
        push_full debug q msg r.valid m.0 (ground (arith, Represents-occupancy debug q ms r)),
        r,
        refl,
      )
    ]

-- `pop` never faults, returns the code and the message of the abstract queue, and leaves the ring
-- standing for its messages.
pub pop_refines :
    (debug : Bool) (alloc : ℕ → Bool) (q : Queue) (ms : List (List ℕ))
    → Represents debug q ms
    → let (rc, out, ms') = spec_pop alloc ms in
      (q' : Queue) × (pop debug alloc q ≡ some (rc, out, q'))
      × Represents debug q' ms'
      × (length q'.buffer ≡ length q.buffer)
pop_refines debug alloc q [] r =
    (q, pop_empty debug alloc q r.valid (Represents-occupancy debug q [] r), r, refl)
pop_refines debug alloc q (m ∷ ms) r =
    let bytes : contents q ≡ frame m ++ frames ms = r.bytes in
    elim (Bool-cases (ltb 0 (length m) && not (alloc (length m)))) [
      | inl e ↦
          rw e
            (q, pop_no_memory debug alloc q r.valid m (frames ms) r.messages.0.0 bytes e, r, refl)
      | inr e ↦
          let (q', eq, valid, same, left) =
            pop_message debug alloc q r.valid m (frames ms) r.messages.0.0 bytes r.messages.0.1 e in
          rw e (q', eq, record { valid = valid; bytes = left; messages = r.messages.1 }, same)
    ]

-- A worker's calls in the order in which the zone's lock lets them through.
pub data Op : Type 0 where
  push_op : List ℕ → Op
  pop_op : (ℕ → Bool) → Op

pub data Reply : Type 0 where
  pushed : Rc → Reply
  popped : Rc → Option (List ℕ) → Reply

unfoldable pub run : Bool → Queue → List Op → Option (List Reply × Queue)
run debug q [] = some ([], q)
run debug q (push_op msg ∷ ops) = do
  (rc, q') ← push debug q msg
  (replies, q'') ← run debug q' ops
  some (pushed rc ∷ replies, q'')
run debug q (pop_op alloc ∷ ops) = do
  (rc, out, q') ← pop debug alloc q
  (replies, q'') ← run debug q' ops
  some (popped rc out ∷ replies, q'')

abbrev pub spec_run : ℕ → List (List ℕ) → List Op → List Reply × List (List ℕ)
spec_run cap ms [] = ([], ms)
spec_run cap ms (push_op msg ∷ ops) =
    let (rc, ms') = spec_push cap ms msg in
    let (replies, ms'') = spec_run cap ms' ops in (pushed rc ∷ replies, ms'')
spec_run cap ms (pop_op alloc ∷ ops) =
    let (rc, out, ms') = spec_pop alloc ms in
    let (replies, ms'') = spec_run cap ms' ops in (popped rc out ∷ replies, ms'')

abbrev pub AllPushes : Bool → List Op → Type 0
AllPushes debug [] = Unit {0}
AllPushes debug (push_op msg ∷ ops) = IsMessage debug msg × AllPushes debug ops
AllPushes debug (pop_op alloc ∷ ops) = AllPushes debug ops

-- What a whole run leaves.
pub record Ran (debug : Bool) (cap : ℕ) (ms : List (List ℕ)) (ops : List Op)
    (out : Option (List Reply × Queue)) : Type 0 where
  pub last : Queue
  pub replies : out ≡ some ((spec_run cap ms ops).0, last)
  pub held : Represents debug last (spec_run cap ms ops).1
  pub same_capacity : length last.buffer ≡ cap

-- On a ring that stands for a list of messages, any sequence of pushes and pops whose pushed
-- messages are each shorter than 2^32 bytes and, in a build with NGX_DEBUG, not empty, runs
-- without a fault, returns what a bounded first-in first-out queue of messages returns, and
-- leaves the ring standing for that queue's messages.
pub run_refines :
    (debug : Bool) (q : Queue) (ms : List (List ℕ)) (ops : List Op)
    → Represents debug q ms
    → AllPushes debug ops
    → Ran debug (length q.buffer) ms ops (run debug q ops)
unfolding run
run_refines debug q ms [] r a = record { last = q; replies = refl; held = r; same_capacity = refl }
run_refines debug q ms (push_op msg ∷ ops) r a =
    let (q', eq, r', same) = push_refines debug q ms msg r a.0 in
    let next : Ran debug (length q.buffer) (spec_push (length q.buffer) ms msg).1 ops
        (run debug q' ops) =
      subst (λ c. Ran debug c (spec_push (length q.buffer) ms msg).1 ops (run debug q' ops)) same
        (run_refines debug q' (spec_push (length q.buffer) ms msg).1 ops r' a.1) in
    record {
      last = next.last;
      replies = rw (eq, next.replies);
      held = next.held;
      same_capacity = next.same_capacity;
    }
run_refines debug q ms (pop_op alloc ∷ ops) r a =
    let (q', eq, r', same) = pop_refines debug alloc q ms r in
    let next : Ran debug (length q.buffer) (spec_pop alloc ms).2 ops (run debug q' ops) =
      subst (λ c. Ran debug c (spec_pop alloc ms).2 ops (run debug q' ops)) same
        (run_refines debug q' (spec_pop alloc ms).2 ops r' a) in
    record {
      last = next.last;
      replies = rw (eq, next.replies);
      held = next.held;
      same_capacity = next.same_capacity;
    }

-- A new zone holds no message, in all its pool but one page.
pub queue_init-Represents :
    (debug : Bool) (pool_size pagesize : ℕ)
    → pagesize < pool_size
    → pool_size < 2 ^ 63
    → (q : Queue) × (queue_init debug false false pool_size pagesize ≡ some (Rc.ok, some q))
      × Represents debug q []
      × (length q.buffer ≡ pool_size - pagesize)
unfolding queue_init queue_occupancy
queue_init-Represents debug pool_size pagesize lt small =
    let n : ℕ = pool_size - pagesize in
    let size : sub64 pool_size pagesize ≡ n = omega arith in
    let zeros : List ℕ = replicate n 0 in
    let len : length zeros ≡ n = length-replicate n 0 in
    let pos : 0 < length zeros = omega arith in
    (
      record { buffer = zeros; push_ptr = 0; pop_ptr = 0; rising_occupancy = false },
      rw (
        assert-true debug _ (lt→ltb pagesize pool_size lt),
        size,
        assert-true debug (ltb 0 (length zeros) && ltb 0 (length zeros)) (rw (lt→ltb _ _ pos)),
      ),
      record {
        valid = record { push_in = pos; pop_in = pos; small = omega arith };
        bytes = refl;
        messages = tt;
      },
      len,
    )
