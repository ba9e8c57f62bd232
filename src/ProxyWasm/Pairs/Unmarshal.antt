-- ===== src/ProxyWasm/Pairs/Unmarshal.antt =====
-- ngx_proxy_wasm_pairs_unmarshal reads back what ngx_proxy_wasm_pairs_marshal writes.
use ngx_wasm_module.Common.{
  ℕ, zero, suc, ◌+◌, ◌-◌, ◌^◌, ◌<◌, ◌≤◌, ◌≡◌, inl, inr, refl, sym, ap, ◌∙◌, Bool, true, false, none,
  some, List, [], ◌∷◌, ◌++◌, append_assoc, arith, length, length-append, length-take, take,
  take-append_self, drop-append_suc, ◌==◌, Bool-cases, le→leb,
}
use mathlib.Core.Path.{subst}
use ngx_wasm_module.Shm.Queue.{u32_bytes}
use ngx_wasm_module.Shm.Queue.Frames.{u32_value-bytes}
use ngx_wasm_module.ProxyWasm.Pairs.{
  Elt, pairs_count, marshal_count, first_active, marshalled, lengths, pair_contents, pairs_marshal,
  read_u32, read_lengths, copy_string, read_contents, pairs_unmarshal,
}

-- Strings whose lengths fit in 32 bits.
abbrev pub AllShort : List Elt → Type 0
AllShort [] = Unit {0}
AllShort (e ∷ elts) = (length e.key < 2 ^ 32) × (length e.value < 2 ^ 32) × AllShort elts

abbrev sizes : List Elt → List (ℕ × ℕ)
sizes [] = []
sizes (e ∷ elts) = (length e.key, length e.value) ∷ sizes elts

-- The pairs as they are read: without a hash.
abbrev pub unhashed : List Elt → List Elt
unhashed [] = []
unhashed (e ∷ elts) = record e { hash = 0 } ∷ unhashed elts

read_u32-bytes :
    (n : ℕ) (rest : List ℕ) → n < 2 ^ 32 → read_u32 (u32_bytes n ++ rest) ≡ some (n, rest)
unfolding read_u32
read_u32-bytes n rest h = ap (λ k. some (k, rest)) (u32_value-bytes n h)

read_lengths_one :
    (push : ℕ → Bool) (i count k v : ℕ) (buf buf1 buf2 rest : List ℕ) (ss : List (ℕ × ℕ))
    → push i ≡ true
    → read_u32 buf ≡ some (k, buf1)
    → read_u32 buf1 ≡ some (v, buf2)
    → read_lengths push (i + 1) count buf2 ≡ some (some (ss, rest))
    → read_lengths push i (suc count) buf ≡ some (some ((k, v) ∷ ss, rest))
unfolding read_lengths
read_lengths_one push i count k v buf buf1 buf2 rest ss room key value more =
    rw (room, key, value, more) refl

read_lengths-lengths :
    (push : ℕ → Bool)
    → ((i : ℕ) → push i ≡ true)
    → (i : ℕ) (elts : List Elt) (rest : List ℕ) → AllShort elts
    → read_lengths push i (length elts) (lengths elts ++ rest) ≡ some (some (sizes elts, rest))
unfolding read_lengths lengths
read_lengths-lengths push room i [] rest h = refl
read_lengths-lengths push room i (e ∷ elts) rest h =
    let key =
      read_u32-bytes (length e.key) (u32_bytes (length e.value) ++ (lengths elts ++ rest)) h.0 in
    let value = read_u32-bytes (length e.value) (lengths elts ++ rest) h.1 in
    read_lengths_one push i (length elts) (length e.key) (length e.value)
      (lengths (e ∷ elts) ++ rest) (u32_bytes (length e.value) ++ (lengths elts ++ rest))
      (lengths elts ++ rest) rest (sizes elts) (room i) key value
      (read_lengths-lengths push room (i + 1) elts rest h.2)

copy_string-append : (xs rest : List ℕ) → copy_string (length xs) (xs ++ 0 ∷ rest) ≡ some (xs, rest)
unfolding copy_string
copy_string-append xs rest =
    let size = length-append xs (0 ∷ rest) in
    rw
      (
        le→leb (length xs + 1) (length (xs ++ 0 ∷ rest)) (omega (arith, size)),
        take-append_self xs (0 ∷ rest),
        drop-append_suc xs 0 rest,
      )
      refl

read_contents-pair_contents :
    (alloc : ℕ → Bool)
    → ((n : ℕ) → alloc n ≡ true)
    → (elts : List Elt) (rest : List ℕ)
    → read_contents alloc (sizes elts) (pair_contents elts ++ rest) ≡ some (some (unhashed elts))
unfolding read_contents pair_contents
read_contents-pair_contents alloc room [] rest = refl
read_contents-pair_contents alloc room (e ∷ elts) rest =
    let shape : pair_contents (e ∷ elts) ++ rest
        ≡ e.key ++ (0 ∷ (e.value ++ (0 ∷ (pair_contents elts ++ rest)))) =
      append_assoc e.key _ rest ∙ ap (λ xs. e.key ++ (0 ∷ xs)) (append_assoc e.value _ rest) in
    let key = copy_string-append e.key (e.value ++ (0 ∷ (pair_contents elts ++ rest))) in
    let value = copy_string-append e.value (pair_contents elts ++ rest) in
    rw
      (
        shape,
        room (length e.key + 1),
        key,
        room (length e.value + 1),
        value,
        read_contents-pair_contents alloc room elts rest,
      )
      refl

length-first_active :
    (k : ℕ) (elts : List Elt) → k ≤ pairs_count elts → length (first_active k elts) ≡ k
unfolding first_active pairs_count
length-first_active k [] h = omega arith
length-first_active zero (e ∷ elts) h = refl
length-first_active (suc k) (e ∷ elts) h = elim (Bool-cases (e.hash == 0)) [
  | inl t ↦ rw t (length-first_active (suc k) elts (ground arith))
  | inr f ↦ rw f (ap suc (length-first_active k elts (ground arith)))
]

marshal_count_small :
    (list extras : List Elt) (max : ℕ)
    → pairs_count list + length extras < 2 ^ 32
    → marshal_count list extras max < 2 ^ 32
unfolding marshal_count
marshal_count_small list extras max small = ground arith

length-marshalled :
    (list extras : List Elt) (max : ℕ)
    → pairs_count list + length extras < 2 ^ 32
    → length (marshalled (marshal_count list extras max) list extras)
      ≡ marshal_count list extras max
unfolding marshalled marshal_count
length-marshalled list extras max small =
    let count = marshal_count list extras max in
    let le : count ≤ pairs_count list + length extras = ground arith in
    let first = length-take count extras in
    let rest =
      length-first_active (count - length (take count extras)) list (omega (arith, first, le)) in
    length-append (take count extras) (first_active (count - length (take count extras)) list)
    ∙ omega (arith, first, rest)

pairs_unmarshal_steps :
    (push alloc : ℕ → Bool) (len count : ℕ) (mem buf rest : List ℕ) (ss : List (ℕ × ℕ))
    (elts : List Elt)
    → (len == 0) ≡ false
    → read_u32 mem ≡ some (count, buf)
    → read_lengths push 0 count buf ≡ some (some (ss, rest))
    → read_contents alloc ss rest ≡ some (some elts)
    → pairs_unmarshal true push alloc len mem ≡ some (some elts)
unfolding pairs_unmarshal
pairs_unmarshal_steps push alloc len count mem buf rest ss elts has head lens strings =
    rw (has, head, lens, strings) refl

-- Where the guest's memory holds what was marshalled from fewer than 2^32 pairs, none longer than
-- 32 bits can say, and there is memory for the copies, the pairs that were written are read back,
-- in order, without their hashes; what lies behind them does not matter.
pub pairs_unmarshal-pairs_marshal :
    (push alloc : ℕ → Bool)
    → ((i : ℕ) → push i ≡ true)
    → ((n : ℕ) → alloc n ≡ true)
    → (list extras : List Elt) (max len : ℕ) (rest : List ℕ)
    → pairs_count list + length extras < 2 ^ 32
    → AllShort (marshalled (marshal_count list extras max) list extras)
    → 0 < len
    → pairs_unmarshal true push alloc len (pairs_marshal list extras max ++ rest)
      ≡ some (some (unhashed (marshalled (marshal_count list extras max) list extras)))
unfolding pairs_marshal
pairs_unmarshal-pairs_marshal push alloc pushes allocs list extras max len rest small short pos =
    let count = marshal_count list extras max in
    let elts = marshalled count list extras in
    let total = length-marshalled list extras max small in
    let count_small : count < 2 ^ 32 = marshal_count_small list extras max small in
    let head = read_u32-bytes count ((lengths elts ++ pair_contents elts) ++ rest) count_small in
    let lens : read_lengths push 0 count ((lengths elts ++ pair_contents elts) ++ rest)
        ≡ some (some (sizes elts, pair_contents elts ++ rest)) =
      ap (read_lengths push 0 count) (append_assoc (lengths elts) (pair_contents elts) rest)
      ∙ ap (λ n. read_lengths push 0 n (lengths elts ++ (pair_contents elts ++ rest))) (sym total)
      ∙ read_lengths-lengths push pushes 0 elts (pair_contents elts ++ rest) short in
    pairs_unmarshal_steps push alloc len count (pairs_marshal list extras max ++ rest)
      ((lengths elts ++ pair_contents elts) ++ rest) (pair_contents elts ++ rest) (sizes elts)
      (unhashed elts) (ground arith) head lens (read_contents-pair_contents alloc allocs elts rest)

read_u32_short : (buf : List ℕ) → length buf < 4 → read_u32 buf ≡ none
unfolding read_u32
read_u32_short [] h = refl
read_u32_short (a ∷ []) h = refl
read_u32_short (a ∷ b ∷ []) h = refl
read_u32_short (a ∷ b ∷ c ∷ []) h = refl
read_u32_short (a ∷ b ∷ c ∷ d ∷ buf) h = absurd (omega arith)

read_lengths_short :
    (push : ℕ → Bool) (count : ℕ) (rest : List ℕ)
    → push 0 ≡ true
    → length rest < 4
    → read_lengths push 0 (suc count) rest ≡ none
unfolding read_lengths
read_lengths_short push count rest room short = rw (room, read_u32_short rest short) refl

pairs_unmarshal_fault :
    (push alloc : ℕ → Bool) (count len : ℕ) (mem buf : List ℕ)
    → (len == 0) ≡ false
    → read_u32 mem ≡ some (count, buf)
    → read_lengths push 0 count buf ≡ none
    → pairs_unmarshal true push alloc len mem ≡ none
unfolding pairs_unmarshal
pairs_unmarshal_fault push alloc count len mem buf has head lens = rw (has, head, lens) refl

-- A map of four bytes at the end of the guest's memory, which say that pairs follow, is read past
-- the end: the lengths are not compared with `map->len`.
pub pairs_unmarshal_overrun :
    (push alloc : ℕ → Bool) (count len : ℕ) (rest : List ℕ)
    → push 0 ≡ true
    → count + 1 < 2 ^ 32
    → 0 < len
    → length rest < 4
    → pairs_unmarshal true push alloc len (u32_bytes (count + 1) ++ rest) ≡ none
pairs_unmarshal_overrun push alloc count len rest room small pos short =
    let next : suc count ≡ count + 1 = omega arith in
    pairs_unmarshal_fault push alloc (count + 1) len (u32_bytes (count + 1) ++ rest) rest
      (ground arith) (read_u32-bytes (count + 1) rest small)
      (subst (λ n. read_lengths push 0 n rest ≡ none) next
        (read_lengths_short push count rest room short))
