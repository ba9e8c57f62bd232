-- ===== src/Shm/Queue/Bytes.antt =====
-- ngx_wa_shm_queue.c: the bytes that the ring holds, oldest first, under the copies and `inc_ptr`.
use mathlib.Core.Path.{ap₂}
use ngx_wasm_module.Common.{
  ℕ, ◌+◌, ◌-◌, ◌≤◌, ◌<◌, ◌≡◌, refl, sym, ap, ◌∙◌, Bool, true, false, List, ◌++◌, arith, length,
  take, drop, get_or, take-append_self, drop-append_self,
}
use ngx_wasm_module.Common.Tabulate.{
  tabulate, tabulate_ext, tabulate-add, tabulate-get_or, length-tabulate,
}
use ngx_wasm_module.Shm.Queue.{Queue, queue_occupancy}
use ngx_wasm_module.Shm.Queue.Ring.{IsValid, Written, wrap, window, push_ptr_lem, occupancy_le}

-- The bytes held.
abbrev pub contents : Queue → List ℕ
contents q = window q.buffer q.pop_ptr (queue_occupancy q)

-- The ring holds the `n` bytes `bs`, whatever `rising_occupancy` says.
pub record Holds (q : Queue) (n : ℕ) (bs : List ℕ) : Type 0 where
  pub valid : IsValid q
  pub fits : n ≤ length q.buffer
  pub next : q.push_ptr ≡ wrap (length q.buffer) (q.pop_ptr + n)
  pub bytes : window q.buffer q.pop_ptr n ≡ bs

pub Holds-contents : (q : Queue) → IsValid q → Holds q (queue_occupancy q) (contents q)
Holds-contents q v = record {
  valid = v;
  fits = occupancy_le q v;
  next = push_ptr_lem q v;
  bytes = refl;
}

pub Holds-length : (q : Queue) (n : ℕ) (bs : List ℕ) → Holds q n bs → length bs ≡ n
Holds-length q n bs h =
    ap length (sym h.bytes)
    ∙ length-tabulate n (λ i. get_or q.buffer (wrap (length q.buffer) (q.pop_ptr + i)) 0)

-- Where the pointers meet, `rising_occupancy` tells a full ring from an empty one.
pub occupancy_of_holds :
    (q : Queue) (n : ℕ) (bs : List ℕ)
    → Holds q n bs
    → (n ≡ 0 → q.rising_occupancy ≡ false)
    → (n ≡ length q.buffer → q.rising_occupancy ≡ true)
    → queue_occupancy q ≡ n
unfolding queue_occupancy
occupancy_of_holds q n bs h low high = ground arith

-- Stepping round in two steps, from the first cell held and from the next free one.
wrap-wrap :
    (cap p n i : ℕ)
    → p < cap
    → n + i ≤ cap
    → wrap cap (wrap cap (p + n) + i) ≡ wrap cap (p + (n + i))
wrap-wrap cap p n i hp hn = ground arith

wrap_back :
    (cap p n i : ℕ)
    → p < cap
    → n ≤ cap
    → i < n
    → wrap cap (wrap cap (p + n) + (cap - n + i)) ≡ wrap cap (p + i)
wrap_back cap p n i hp hn hi = ground arith

wrap_lt : (cap k : ℕ) → k < cap + cap → wrap cap k < cap
wrap_lt cap k h = ground arith

module _ (q : Queue) (n : ℕ) (bs src buf : List ℕ) (h : Holds q n bs)
    (room : n + length src ≤ length q.buffer) (w : Written q q.push_ptr src buf) where
  cell : ℕ → ℕ
  cell i = get_or buf (wrap (length q.buffer) (q.pop_ptr + i)) 0

  old_cells : tabulate n cell ≡ bs
  unfolding cell
  old_cells =
      tabulate_ext n cell (λ i. get_or q.buffer (wrap (length q.buffer) (q.pop_ptr + i)) 0)
        (λ i lt.
          let e : wrap (length q.buffer) (q.push_ptr + (length q.buffer - n + i))
              ≡ wrap (length q.buffer) (q.pop_ptr + i) =
            ap (λ k. wrap (length q.buffer) (k + (length q.buffer - n + i))) h.next
            ∙ wrap_back (length q.buffer) q.pop_ptr n i h.valid.pop_in h.fits lt in
          ap (λ k. get_or buf k 0) (sym e)
          ∙ w.outside (length q.buffer - n + i) (omega arith) (omega arith)
          ∙ ap (λ k. get_or q.buffer k 0) e)
      ∙ h.bytes

  new_cells : tabulate (length src) (λ i. cell (n + i)) ≡ src
  unfolding cell
  new_cells =
      tabulate_ext (length src) (λ i. cell (n + i)) (λ i. get_or src i 0)
        (λ i lt.
          ap (λ k. get_or buf k 0)
            (sym (
              ap (λ k. wrap (length q.buffer) (k + i)) h.next
              ∙ wrap-wrap (length q.buffer) q.pop_ptr n i h.valid.pop_in (omega arith)))
          ∙ w.inside i lt)
      ∙ tabulate-get_or (length src) src 0 refl

  -- A write at `push_ptr`, and the step of `push_ptr` over it.
  pub write_holds :
      (r : Bool)
      → Holds
          (record {
            buffer = buf;
            push_ptr = wrap (length q.buffer) (q.push_ptr + length src);
            pop_ptr = q.pop_ptr;
            rising_occupancy = r;
          })
          (n + length src)
          (bs ++ src)
  unfolding cell
  write_holds r = record {
    valid = record {
      push_in =
          rw w.same_length
            (wrap_lt (length q.buffer) (q.push_ptr + length src) (omega (arith, h.valid.push_in)));
      pop_in = rw w.same_length h.valid.pop_in;
      small = rw w.same_length h.valid.small;
    };
    fits = rw w.same_length room;
    next = rw w.same_length (
        ap (λ k. wrap (length q.buffer) (k + length src)) h.next
        ∙ wrap-wrap (length q.buffer) q.pop_ptr n (length src) h.valid.pop_in room);
    bytes = rw w.same_length (tabulate-add n (length src) cell ∙ ap₂ ◌++◌ old_cells new_cells);
  }

module _ (q : Queue) (xs ys : List ℕ) (h : Holds q (length xs + length ys) (xs ++ ys)) where
  cell_at : ℕ → ℕ
  cell_at i = get_or q.buffer (wrap (length q.buffer) (q.pop_ptr + i)) 0

  parts :
      tabulate (length xs) cell_at ++ tabulate (length ys) (λ i. cell_at (length xs + i)) ≡ xs ++ ys
  unfolding cell_at
  parts = sym (tabulate-add (length xs) (length ys) cell_at) ∙ h.bytes

  all_cells : List ℕ
  all_cells = tabulate (length xs) cell_at ++ tabulate (length ys) (λ i. cell_at (length xs + i))

  -- A read of the first part, and the step of `pop_ptr` over it.
  pub read_front : window q.buffer q.pop_ptr (length xs) ≡ xs
  unfolding cell_at all_cells
  read_front =
      sym (
        take-append_self (tabulate (length xs) cell_at)
          (tabulate (length ys) (λ i. cell_at (length xs + i))))
      ∙ ap (λ k. take k all_cells) (length-tabulate (length xs) cell_at)
      ∙ ap (take (length xs)) parts
      ∙ take-append_self xs ys

  rest_cells : tabulate (length ys) (λ i. cell_at (length xs + i)) ≡ ys
  unfolding all_cells
  rest_cells =
      sym (
        drop-append_self (tabulate (length xs) cell_at)
          (tabulate (length ys) (λ i. cell_at (length xs + i))))
      ∙ ap (λ k. drop k all_cells) (length-tabulate (length xs) cell_at)
      ∙ ap (drop (length xs)) parts
      ∙ drop-append_self xs ys

  pub read_holds :
      (r : Bool)
      → Holds
          (record {
            buffer = q.buffer;
            push_ptr = q.push_ptr;
            pop_ptr = wrap (length q.buffer) (q.pop_ptr + length xs);
            rising_occupancy = r;
          })
          (length ys)
          ys
  unfolding cell_at
  read_holds r = record {
    valid = record {
      push_in = h.valid.push_in;
      pop_in =
          wrap_lt (length q.buffer) (q.pop_ptr + length xs) (omega (arith, h.fits, h.valid.pop_in));
      small = h.valid.small;
    };
    fits = omega (arith, h.fits);
    next =
        h.next
        ∙ sym (wrap-wrap (length q.buffer) q.pop_ptr (length xs) (length ys) h.valid.pop_in h.fits);
    bytes =
        tabulate_ext (length ys)
          (λ i.
            get_or q.buffer
              (wrap (length q.buffer) (wrap (length q.buffer) (q.pop_ptr + length xs) + i)) 0)
          (λ i. cell_at (length xs + i))
          (λ i lt.
            ap (λ k. get_or q.buffer k 0)
              (wrap-wrap (length q.buffer) q.pop_ptr (length xs) i h.valid.pop_in
                (omega (arith, h.fits))))
        ∙ rest_cells;
  }
