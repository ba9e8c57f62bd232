-- ===== src/ProxyWasm/Pairs.antt =====
-- ngx_proxy_wasm_util.c: the size and the bytes of a list of pairs for the guest, and their reading
-- back. The parts of a list are one list here; no part after the first is empty.
pub mod Size
pub mod Unmarshal
mod Tests
use ngx_wasm_module.Common.{
  ℕ, zero, suc, ◌+◌, ◌-◌, ◌%◌, Bool, true, false, ◌&&◌, not, List, [], ◌∷◌, ◌++◌, length, take,
  drop, ltb, Option, none, some, ◌>>=◌, leb, ◌==◌, if◌then◌else◌, u32_mod, u64_mod,
}
use ngx_wasm_module.Shm.Queue.{u32_bytes, u32_value}

-- `ngx_table_elt_t`
pub record Elt : Type 0 where
  pub hash : ℕ
  pub key : List ℕ
  pub value : List ℕ

-- `ngx_proxy_wasm_pairs_count`
pub pairs_count : List Elt → ℕ
pairs_count [] = 0
pairs_count (e ∷ elts) = let rest = pairs_count elts in if e.hash == 0 then rest else rest + 1

-- `NGX_PROXY_WASM_PTR_SIZE * 2`, and the lengths with their ends.
abbrev pub elt_size : Elt → ℕ
elt_size e = 8 + (length e.key + 1) + (length e.value + 1)

-- The loops of `ngx_proxy_wasm_pairs_size`, with the size so far and `n`.
pub size_list : ℕ → List Elt → ℕ → ℕ → ℕ × ℕ
size_list max [] size n = (size, n)
size_list max (e ∷ elts) size n =
    let counted = (size + elt_size e) % u64_mod in
    let skipped = size_list max elts size n in
    let next = size_list max elts counted (n + 1) in
    if e.hash == 0
    then skipped
    else if not (max == 0) && leb max (n + 1)
    then (counted, n + 1)
    else next

pub size_extras : ℕ → List Elt → ℕ → ℕ → ℕ
size_extras max [] size n = size
size_extras max (e ∷ elts) size n =
    let counted = (size + elt_size e) % u64_mod in
    let next = size_extras max elts counted (n + 1) in
    if not (max == 0) && leb max n then counted else next

-- `ngx_proxy_wasm_pairs_size`
pub pairs_size : List Elt → List Elt → ℕ → ℕ
pairs_size list extras max = let (size, n) = size_list max list 4 0 in size_extras max extras size n

-- The count that `ngx_proxy_wasm_pairs_marshal` writes.
pub marshal_count : List Elt → List Elt → ℕ → ℕ
marshal_count list extras max =
    let count = (pairs_count list + length extras) % u32_mod in
    if not (max == 0) && ltb max count then max else count

-- The pairs that its loop over the list comes to.
pub first_active : ℕ → List Elt → List Elt
first_active k [] = []
first_active zero (e ∷ elts) = []
first_active (suc k) (e ∷ elts) =
    let skipped = first_active (suc k) elts in
    let next = first_active k elts in if e.hash == 0 then skipped else e ∷ next

-- The pairs that its loops write: the extra ones first.
pub marshalled : ℕ → List Elt → List Elt → List Elt
marshalled count list extras =
    take count extras ++ first_active (count - length (take count extras)) list

pub lengths : List Elt → List ℕ
lengths [] = []
lengths (e ∷ elts) = u32_bytes (length e.key) ++ u32_bytes (length e.value) ++ lengths elts

pub pair_contents : List Elt → List ℕ
pair_contents [] = []
pair_contents (e ∷ elts) = e.key ++ (0 ∷ (e.value ++ (0 ∷ pair_contents elts)))

-- `ngx_proxy_wasm_pairs_marshal`: what it writes to its buffer.
pub pairs_marshal : List Elt → List Elt → ℕ → List ℕ
pairs_marshal list extras max =
    let count = marshal_count list extras max in
    let elts = marshalled count list extras in
    u32_bytes count ++ (lengths elts ++ pair_contents elts)

-- The four bytes of a `uint32_t`, from the guest's memory; `none` is a read behind its end.
pub read_u32 : List ℕ → Option (ℕ × List ℕ)
read_u32 (a ∷ b ∷ c ∷ d ∷ buf) = some (u32_value (a ∷ b ∷ c ∷ d ∷ []), buf)
read_u32 _ = none

-- The first loop of `ngx_proxy_wasm_pairs_unmarshal`, which reads the lengths of `count` pairs.
-- `push` says whether the array has room for the pair of an index; the inner `none` is NGX_ERROR.
pub read_lengths : (ℕ → Bool) → ℕ → ℕ → List ℕ → Option (Option (List (ℕ × ℕ) × List ℕ))
unfolding read_u32
read_lengths push i zero buf = some (some ([], buf))
read_lengths push i (suc count) buf = if not (push i) then some none else (do
  (key, buf1) ← read_u32 buf
  (value, buf2) ← read_u32 buf1
  read ← read_lengths push (i + 1) count buf2
  some (elim read [ none ↦ none | some rest ↦ some ((key, value) ∷ rest.0, rest.1) ]))

-- `ngx_memcpy` of a string of `n` bytes with its end.
pub copy_string : ℕ → List ℕ → Option (List ℕ × List ℕ)
copy_string n buf = if leb (n + 1) (length buf) then some (take n buf, drop (n + 1) buf) else none

-- The second loop, which copies the strings; `alloc` is `ngx_pnalloc`.
pub read_contents : (ℕ → Bool) → List (ℕ × ℕ) → List ℕ → Option (Option (List Elt))
unfolding copy_string
read_contents alloc [] buf = some (some [])
read_contents alloc ((k, v) ∷ sizes) buf = if not (alloc (k + 1)) then some none else (do
  (key, buf1) ← copy_string k buf
  if not (alloc (v + 1)) then some none else (do
    (value, buf2) ← copy_string v buf1
    read ← read_contents alloc sizes buf2
    some (elim read [
      | none ↦ none
      | some elts ↦ some (record { hash = 0; key = key; value = value } ∷ elts)
    ])))

-- `ngx_proxy_wasm_pairs_unmarshal`, with `map->len` and the guest's memory from `map->data` on;
-- `init` says whether the array is made.
pub pairs_unmarshal : Bool → (ℕ → Bool) → (ℕ → Bool) → ℕ → List ℕ → Option (Option (List Elt))
unfolding read_lengths read_contents
pairs_unmarshal init push alloc len mem = do
  (count, buf) ← if len == 0 then some (0, mem) else read_u32 mem
  if not init then some none else (do
    read ← read_lengths push 0 count buf
    elim read [ none ↦ some none | some lens ↦ read_contents alloc lens.0 lens.1 ])
