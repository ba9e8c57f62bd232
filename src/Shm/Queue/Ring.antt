-- ===== src/Shm/Queue/Ring.antt =====
-- ngx_wa_shm_queue.c: the pointers and the wrap-around copies, cell by cell.
use ngx_wasm_module.Common.{
  ℕ, ◌+◌, ◌-◌, ◌^◌, ◌≤◌, ◌<◌, ◌≡◌, refl, sym, ap, ◌∙◌, inl, inr, Bool, true, false, some, List,
  ◌++◌, arith, length, take, drop, get_or, ltb, leb, if◌then◌else◌, lt→ltb, le→leb, le→ltb, leb→le,
  Bool-cases, length-append, length-take, length-drop, get_or-take, get_or-drop, get_or-append_left,
  get_or-append_right, sub64,
}
use mathlib.Core.Path.{ap₂}
use ngx_wasm_module.Common.Tabulate.{tabulate, tabulate_ext, tabulate-add, tabulate-get_or}
use ngx_wasm_module.Shm.Queue.{
  Queue, queue_occupancy, assert, inc_ptr, copy_in, copy_out, circular_write, circular_read,
}

pub record IsValid (q : Queue) : Type 0 where
  pub push_in : q.push_ptr < length q.buffer
  pub pop_in : q.pop_ptr < length q.buffer
  pub small : length q.buffer < 2 ^ 63

-- The index `k` of a ring that is read once round, `k < 2 * cap`.
abbrev pub wrap : ℕ → ℕ → ℕ
wrap cap k = if ltb k cap then k else k - cap

pub occupancy_le : (q : Queue) → IsValid q → queue_occupancy q ≤ length q.buffer
unfolding queue_occupancy
occupancy_le q v = ground arith

-- The bytes held end where the next one goes.
pub push_ptr_lem :
    (q : Queue) → IsValid q → q.push_ptr ≡ wrap (length q.buffer) (q.pop_ptr + queue_occupancy q)
unfolding queue_occupancy
push_ptr_lem q v = ground arith

pub assert-true : (debug b : Bool) → b ≡ true → assert debug b ≡ some tt
assert-true true b h = rw h
assert-true false b h = refl

pub inc_ptr_lem :
    (debug : Bool) (q : Queue) (ptr n : ℕ)
    → length q.buffer < 2 ^ 63
    → ptr < length q.buffer
    → n ≤ length q.buffer
    → inc_ptr debug q ptr n ≡ some (wrap (length q.buffer) (ptr + n))
unfolding inc_ptr
inc_ptr_lem true q ptr n s h l = ground arith
inc_ptr_lem false q ptr n s h l = ground arith

-- One `ngx_memcpy` into the buffer.
written : List ℕ → ℕ → List ℕ → List ℕ
written buf off src = take off buf ++ (src ++ drop (off + length src) buf)

copy_in_lem :
    (buf : List ℕ) (off : ℕ) (src : List ℕ)
    → off + length src ≤ length buf
    → copy_in buf off src ≡ some (written buf off src)
unfolding copy_in written
copy_in_lem buf off src h = rw (le→leb _ _ h)

module _ (buf : List ℕ) (off : ℕ) (src : List ℕ) (fits : off + length src ≤ length buf) where
  length-written : length (written buf off src) ≡ length buf
  unfolding written
  length-written = omega (
    arith,
    length-append (take off buf) (src ++ drop (off + length src) buf),
    length-append src (drop (off + length src) buf),
    length-take off buf,
    length-drop (off + length src) buf,
  )

  taken : length (take off buf) ≡ off
  taken = omega (arith, length-take off buf)

  get_or-written_in :
      (i : ℕ) → i < length src → get_or (written buf off src) (off + i) 0 ≡ get_or src i 0
  unfolding written
  get_or-written_in i h =
      ap (λ k. get_or (written buf off src) (k + i) 0) (sym taken)
      ∙ get_or-append_right (take off buf) (src ++ drop (off + length src) buf) i 0
      ∙ get_or-append_left src (drop (off + length src) buf) i 0 h

  get_or-written_below : (k : ℕ) → k < off → get_or (written buf off src) k 0 ≡ get_or buf k 0
  unfolding written
  get_or-written_below k h =
      get_or-append_left (take off buf) (src ++ drop (off + length src) buf) k 0
        (omega (arith, taken))
      ∙ get_or-take off k buf 0 h

  get_or-written_above :
      (k : ℕ) → off + length src ≤ k → get_or (written buf off src) k 0 ≡ get_or buf k 0
  unfolding written
  get_or-written_above k h =
      ap (λ n. get_or (written buf off src) n 0) split
      ∙ get_or-append_right (take off buf) (src ++ drop (off + length src) buf) (length src + rest)
          0
      ∙ get_or-append_right src (drop (off + length src) buf) rest 0
      ∙ get_or-drop (off + length src) rest buf 0
      ∙ ap (λ n. get_or buf n 0) (omega arith)
    where
      rest : ℕ
      rest = k - (off + length src)

      split : k ≡ length (take off buf) + (length src + rest)
      split = omega (arith, taken)

-- What a wrap-around write does to each cell, counted from `ptr`.
pub record Written (q : Queue) (ptr : ℕ) (src buf : List ℕ) : Type 0 where
  pub same_length : length buf ≡ length q.buffer
  pub inside :
      (i : ℕ) → i < length src → get_or buf (wrap (length q.buffer) (ptr + i)) 0 ≡ get_or src i 0
  pub outside :
      (i : ℕ)
      → length src ≤ i
      → i < length q.buffer
      → get_or buf (wrap (length q.buffer) (ptr + i)) 0
        ≡ get_or q.buffer (wrap (length q.buffer) (ptr + i)) 0

module _ (q : Queue) (ptr : ℕ) (src : List ℕ) (ptr_in : ptr < length q.buffer)
    (room : length src ≤ length q.buffer) where
  straight : length src < length q.buffer - ptr → Written q ptr src (written q.buffer ptr src)
  straight h = record {
    same_length = length-written q.buffer ptr src (omega arith);
    inside = λ i lt.
        rw (lt→ltb (ptr + i) (length q.buffer) (omega arith))
          (get_or-written_in q.buffer ptr src (omega arith) i lt);
    outside = λ i ge lt. elim (Bool-cases (ltb (ptr + i) (length q.buffer))) [
      | inl e ↦ rw e (get_or-written_above q.buffer ptr src (omega arith) (ptr + i) (omega arith))
      | inr e ↦ rw e (
          get_or-written_below q.buffer ptr src (omega arith) (ptr + i - length q.buffer)
            (ground arith))
    ];
  }

  -- The first `ngx_memcpy` of a write that goes round.
  front : List ℕ
  front = written q.buffer ptr (take (length q.buffer - ptr) src)

  round : List ℕ
  round = written front 0 (drop (length q.buffer - ptr) src)

  module _ (goes_round : length q.buffer - ptr ≤ length src) where
    head_length : length (take (length q.buffer - ptr) src) ≡ length q.buffer - ptr
    head_length = omega (arith, length-take (length q.buffer - ptr) src)

    tail_length : length (drop (length q.buffer - ptr) src) ≡ length src - (length q.buffer - ptr)
    tail_length = length-drop (length q.buffer - ptr) src

    front-length : length front ≡ length q.buffer
    unfolding front
    front-length =
        length-written q.buffer ptr (take (length q.buffer - ptr) src) (omega (arith, head_length))

    tail_fits : 0 + length (drop (length q.buffer - ptr) src) ≤ length front
    tail_fits = omega (arith, front-length, tail_length)

    front_eq : copy_in q.buffer ptr (take (length q.buffer - ptr) src) ≡ some front
    unfolding front
    front_eq = copy_in_lem q.buffer ptr _ (omega (arith, head_length))

    round_eq : copy_in front 0 (drop (length q.buffer - ptr) src) ≡ some round
    unfolding round
    round_eq = copy_in_lem front 0 _ tail_fits

    round_inside_front :
        (i : ℕ) → i < length q.buffer - ptr → get_or round (ptr + i) 0 ≡ get_or src i 0
    unfolding round front
    round_inside_front i h =
        get_or-written_above front 0 (drop (length q.buffer - ptr) src) tail_fits (ptr + i)
          (omega (arith, tail_length))
        ∙ get_or-written_in q.buffer ptr (take (length q.buffer - ptr) src)
            (omega (arith, head_length)) i (omega (arith, head_length))
        ∙ get_or-take (length q.buffer - ptr) i src 0 h

    round_inside_back :
        (i : ℕ)
        → length q.buffer - ptr ≤ i
        → i < length src
        → get_or round (ptr + i - length q.buffer) 0 ≡ get_or src i 0
    unfolding round
    round_inside_back i h lt =
        ap (λ k. get_or round k 0) (omega arith)
        ∙ get_or-written_in front 0 (drop (length q.buffer - ptr) src) tail_fits
            (i - (length q.buffer - ptr)) (omega (arith, tail_length))
        ∙ get_or-drop (length q.buffer - ptr) (i - (length q.buffer - ptr)) src 0
        ∙ ap (λ k. get_or src k 0) (omega arith)

    round_outside :
        (i : ℕ)
        → length src ≤ i
        → i < length q.buffer
        → get_or round (ptr + i - length q.buffer) 0 ≡ get_or q.buffer (ptr + i - length q.buffer) 0
    unfolding round front
    round_outside i h lt =
        get_or-written_above front 0 (drop (length q.buffer - ptr) src) tail_fits
          (ptr + i - length q.buffer) (omega (arith, tail_length))
        ∙ get_or-written_below q.buffer ptr (take (length q.buffer - ptr) src)
            (omega (arith, head_length)) (ptr + i - length q.buffer) (omega arith)

    round-Written : Written q ptr src round
    unfolding round
    round-Written = record {
      same_length =
          length-written front 0 (drop (length q.buffer - ptr) src) tail_fits ∙ front-length;
      inside = λ i lt. elim (Bool-cases (ltb (ptr + i) (length q.buffer))) [
        | inl e ↦ rw e (round_inside_front i (ground arith))
        | inr e ↦ rw e (round_inside_back i (ground arith) lt)
      ];
      outside =
          λ i ge lt. rw (le→ltb (ptr + i) (length q.buffer) (omega arith)) (round_outside i ge lt);
    }

  -- No copy leaves the buffer, and no assertion fails, where the data fits in the free space.
  pub circular_write-Written :
      (debug : Bool)
      → IsValid q
      → queue_occupancy q + length src ≤ length q.buffer
      → (buf : List ℕ) × (circular_write debug q ptr src ≡ some (record q { buffer = buf }))
        × Written q ptr src buf
  unfolding circular_write
  circular_write-Written debug v fits =
      let forward : sub64 (length q.buffer) ptr ≡ length q.buffer - ptr = omega (arith, v.small) in
      let free : leb (length src) (sub64 (length q.buffer) (queue_occupancy q)) ≡ true =
        le→leb _ _ (omega (arith, v.small)) in
      elim (Bool-cases (leb (length q.buffer - ptr) (length src))) [
        | inl e ↦ (
          round,
          rw (
            assert-true debug _ free,
            assert-true debug _ (lt→ltb ptr (length q.buffer) ptr_in),
            forward,
            e,
            front_eq (leb→le _ _ e),
            round_eq (leb→le _ _ e),
          ),
          round-Written (leb→le _ _ e),
        )
        | inr e ↦
            let short : length src < length q.buffer - ptr = ground arith in
            (
              written q.buffer ptr src,
              rw (
                assert-true debug _ free,
                assert-true debug _ (lt→ltb ptr (length q.buffer) ptr_in),
                forward,
                e,
                copy_in_lem q.buffer ptr src (omega arith),
              ),
              straight short,
            )
      ]

-- Reading `n` cells from `ptr` on.
abbrev pub window : List ℕ → ℕ → ℕ → List ℕ
window buf ptr n = tabulate n (λ i. get_or buf (wrap (length buf) (ptr + i)) 0)

copy_out_lem :
    (buf : List ℕ) (off n : ℕ)
    → off + n ≤ length buf
    → copy_out buf off n ≡ some (tabulate n (λ i. get_or buf (off + i) 0))
unfolding copy_out
copy_out_lem buf off n h = rw (le→leb _ _ h) (ap some (sym cells))
  where
    part : List ℕ
    part = take n (drop off buf)

    cells : tabulate n (λ i. get_or buf (off + i) 0) ≡ part
    cells =
        tabulate_ext n (λ i. get_or buf (off + i) 0) (λ i. get_or part i 0)
          (λ i lt. sym (get_or-take n i (drop off buf) 0 lt ∙ get_or-drop off i buf 0))
        ∙ tabulate-get_or n part 0
            (omega (arith, length-take n (drop off buf), length-drop off buf))

-- A read of at most what is held gives the cells from `ptr` on, going round at the end.
pub circular_read_lem :
    (debug : Bool) (q : Queue) (ptr : ℕ) (out_set : Bool) (n : ℕ)
    → length q.buffer < 2 ^ 63
    → ptr < length q.buffer
    → n ≤ length q.buffer
    → assert debug (leb n (queue_occupancy q)) ≡ some tt
    → assert debug out_set ≡ some tt
    → circular_read debug q ptr out_set n ≡ some (window q.buffer ptr n)
unfolding circular_read
circular_read_lem debug q ptr out_set n small ptr_in le held set =
    let forward : sub64 (length q.buffer) ptr ≡ length q.buffer - ptr = omega arith in
    elim (Bool-cases (leb (length q.buffer - ptr) n)) [
      | inl e ↦
          rw
            (
              held,
              assert-true debug _ (lt→ltb ptr (length q.buffer) ptr_in),
              set,
              forward,
              e,
              copy_out_lem q.buffer ptr (length q.buffer - ptr) (omega arith),
              copy_out_lem q.buffer 0 (n - (length q.buffer - ptr)) (omega arith),
            )
            (ap some (two_parts (leb→le _ _ e)))
      | inr e ↦
          rw
            (
              held,
              assert-true debug _ (lt→ltb ptr (length q.buffer) ptr_in),
              set,
              forward,
              e,
              copy_out_lem q.buffer ptr n (ground arith),
            )
            (ap some (one_part (ground arith)))
    ]
  where
    cap : ℕ
    cap = length q.buffer

    cell : ℕ → ℕ
    cell i = get_or q.buffer (wrap (length q.buffer) (ptr + i)) 0

    one_part : n < cap - ptr → tabulate n (λ i. get_or q.buffer (ptr + i) 0) ≡ window q.buffer ptr n
    one_part h =
        tabulate_ext n (λ i. get_or q.buffer (ptr + i) 0) cell
          (λ i lt. rw (lt→ltb (ptr + i) cap (omega arith)))

    two_parts :
        cap - ptr ≤ n
        → tabulate (cap - ptr) (λ i. get_or q.buffer (ptr + i) 0)
            ++ tabulate (n - (cap - ptr)) (λ i. get_or q.buffer (0 + i) 0)
          ≡ window q.buffer ptr n
    two_parts h =
        ap₂ ◌++◌
          (tabulate_ext (cap - ptr) (λ i. get_or q.buffer (ptr + i) 0) cell
            (λ i lt. rw (lt→ltb (ptr + i) cap (omega arith))))
          (tabulate_ext (n - (cap - ptr)) (λ i. get_or q.buffer (0 + i) 0)
            (λ i. cell (cap - ptr + i))
            (λ i lt.
              rw (le→ltb (ptr + (cap - ptr + i)) cap (omega arith))
                (ap (λ k. get_or q.buffer k 0) (omega arith))))
        ∙ sym (tabulate-add (cap - ptr) (n - (cap - ptr)) cell)
        ∙ ap (λ k. tabulate k cell) (omega arith)
