-- ===== src/Shm/Queue.antt =====
-- src/common/shm/ngx_wa_shm_queue.c: the byte ring that holds the messages of a shared queue.
-- The buffer is the list of its bytes, so its length is `buffer_end - buffer`. A step that reads or
-- writes outside the buffer is a fault, `none`. `debug` says whether NGX_DEBUG is set: only then
-- is a failed `ngx_wa_assert` a fault too.
pub mod Ring
pub mod Bytes
pub mod Frames
pub mod Push
pub mod Pop
pub mod Fifo
mod Tests
use ngx_wasm_module.Common.{
  ℕ, ◌+◌, ◌-◌, ◌*◌, ◌/◌, ◌%◌, ◌^◌, Bool, true, false, ◌&&◌, ◌||◌, not, Option, none, some, List, [],
  ◌∷◌, ◌++◌, length, take, drop, replicate, ltb, leb, ◌==◌, if◌then◌else◌, ◌>>=◌, ◌>>◌, guard, Rc,
  u32_mod, add64, sub64,
}

-- `ngx_wa_shm_queue_t`
pub record Queue : Type 0 where
  pub buffer : List ℕ
  pub push_ptr : ℕ
  pub pop_ptr : ℕ
  pub rising_occupancy : Bool

abbrev pub queue_capacity : Queue → ℕ
queue_capacity q = length q.buffer

pub queue_occupancy : Queue → ℕ
queue_occupancy q =
    if ltb q.pop_ptr q.push_ptr
    then sub64 q.push_ptr q.pop_ptr
    else if ltb q.push_ptr q.pop_ptr
    then sub64 (queue_capacity q) (sub64 q.pop_ptr q.push_ptr)
    else if q.rising_occupancy
    then queue_capacity q
    else 0

-- `ngx_wa_assert`
abbrev pub assert : Bool → Bool → Option (Unit {0})
assert debug b = guard (not debug || b)

-- The new value of `*ptr`.
pub inc_ptr : Bool → Queue → ℕ → ℕ → Option ℕ
inc_ptr debug q ptr n = do
  let new_ptr = add64 ptr n
  let cap = queue_capacity q
  if leb cap new_ptr
      then (assert debug (ltb (sub64 new_ptr cap) cap) >> some (sub64 new_ptr cap))
      else some new_ptr

-- `ngx_memcpy (buffer + off, src, length src)`
pub copy_in : List ℕ → ℕ → List ℕ → Option (List ℕ)
copy_in buf off src =
    if leb (off + length src) (length buf)
    then some (take off buf ++ (src ++ drop (off + length src) buf))
    else none

-- `ngx_memcpy (out, buffer + off, n)`
pub copy_out : List ℕ → ℕ → ℕ → Option (List ℕ)
copy_out buf off n = if leb (off + n) (length buf) then some (take n (drop off buf)) else none

pub circular_write : Bool → Queue → ℕ → List ℕ → Option Queue
circular_write debug q ptr src = do
  let cap = queue_capacity q
  let forward_capacity = sub64 cap ptr
  assert debug (leb (length src) (sub64 cap (queue_occupancy q)))
  assert debug (ltb ptr cap)
  if leb forward_capacity (length src)
      then (do
        front ← copy_in q.buffer ptr (take forward_capacity src)
        both ← copy_in front 0 (drop forward_capacity src)
        some (record q { buffer = both }))
      else do buf ← copy_in q.buffer ptr src; some (record q { buffer = buf })

-- `out_set` says whether `data_out` is a pointer other than NULL.
pub circular_read : Bool → Queue → ℕ → Bool → ℕ → Option (List ℕ)
circular_read debug q ptr out_set data_size = do
  let cap = queue_capacity q
  let forward_capacity = sub64 cap ptr
  assert debug (leb data_size (queue_occupancy q))
  assert debug (ltb ptr cap)
  assert debug out_set
  if leb forward_capacity data_size
      then (do
        front ← copy_out q.buffer ptr forward_capacity
        back ← copy_out q.buffer 0 (data_size - forward_capacity)
        some (front ++ back))
      else copy_out q.buffer ptr data_size

-- `check_queue_invariance`, whose assertions NGX_DEBUG guards once more.
abbrev pub check_queue_invariance : Bool → Queue → Option (Unit {0})
check_queue_invariance debug q =
    assert debug (ltb q.push_ptr (queue_capacity q) && ltb q.pop_ptr (queue_capacity q))

-- The four bytes of a `uint32_t` in memory, least significant first, and back.
abbrev pub u32_bytes : ℕ → List ℕ
u32_bytes n = n % 256 ∷ n / 256 % 256 ∷ n / 65536 % 256 ∷ n / 16777216 % 256 ∷ []

abbrev pub u32_value : List ℕ → ℕ
u32_value (a ∷ b ∷ c ∷ d ∷ []) = a + 256 * b + 65536 * c + 16777216 * d
u32_value _ = 0

-- What `ngx_wa_shm_queue_init` stores once the slab gave it `buffer_size` zeroed bytes; the
-- allocations fail as the two arguments say.
pub queue_init : Bool → Bool → Bool → ℕ → ℕ → Option (Rc × Option Queue)
queue_init debug queue_fails buffer_fails pool_size pagesize =
    if queue_fails then some (Rc.error, none) else (do
      assert debug (ltb pagesize pool_size)
      let buffer_size = sub64 pool_size pagesize
      let q = fresh buffer_size
      if buffer_fails
          then some (Rc.error, none)
          else (check_queue_invariance debug q >> some (Rc.ok, some q)))
  where
    fresh : ℕ → Queue
    fresh n = record { buffer = replicate n 0; push_ptr = 0; pop_ptr = 0; rising_occupancy = false }

-- `ngx_wa_shm_queue_push_locked`
pub push : Bool → Queue → List ℕ → Option (Rc × Queue)
push debug q msg = do
  let len = length msg % u32_mod
  let entry_size = add64 4 (length msg)
  if ltb (queue_capacity q) (add64 (queue_occupancy q) entry_size) then some (Rc.abort, q) else do
    q1 ← circular_write debug q q.push_ptr (u32_bytes len)
    p1 ← inc_ptr debug q1 q1.push_ptr 4
    let q2 = record q1 { push_ptr = p1 }
    q3 ← circular_write debug q2 q2.push_ptr msg
    p2 ← inc_ptr debug q3 q3.push_ptr (length msg)
    let q4 = record q3 { push_ptr = p2; rising_occupancy = true }
    check_queue_invariance debug q4
    some (Rc.ok, q4)

-- `ngx_wa_shm_queue_pop_locked`. `alloc` says whether the caller's allocator has room; the result
-- carries what `data_out` receives.
pub pop : Bool → (ℕ → Bool) → Queue → Option (Rc × Option (List ℕ) × Queue)
pop debug alloc q = if ltb (queue_occupancy q) 4 then some (Rc.again, none, q) else do
  header ← circular_read debug q q.pop_ptr true 4
  let len = u32_value header
  if ltb 0 len && not (alloc len) then some (Rc.error, none, q) else do
    p1 ← inc_ptr debug q q.pop_ptr 4
    let q1 = record q { pop_ptr = p1 }
    assert debug (ltb 0 len)
    msg ← circular_read debug q1 q1.pop_ptr (ltb 0 len) len
    p2 ← inc_ptr debug q1 q1.pop_ptr len
    let q2 = record q1 { pop_ptr = p2; rising_occupancy = false }
    check_queue_invariance debug q2
    some (Rc.ok, some msg, q2)
