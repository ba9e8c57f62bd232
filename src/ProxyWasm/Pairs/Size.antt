-- ===== src/ProxyWasm/Pairs/Size.antt =====
-- ngx_proxy_wasm_pairs_size: the bytes that are reserved against the bytes that are written.
use ngx_wasm_module.Common.{
  ℕ, zero, suc, ◌+◌, ◌*◌, ◌%◌, ◌^◌, ◌<◌, ◌≤◌, ◌≡◌, ◌∙◌, ap, sym, refl, true, false, ◌&&◌, not, List,
  [], ◌∷◌, ◌++◌, arith, length, length-append, take, ltb, leb, ◌==◌, inl, inr, ◌⊎◌, Bool-cases,
  u32_mod, u64_mod,
}
use ngx_wasm_module.ProxyWasm.Pairs.{
  Elt, pairs_count, elt_size, size_list, size_extras, pairs_size, marshal_count, first_active,
  marshalled, lengths, pair_contents, pairs_marshal,
}

abbrev pub total : List Elt → ℕ
total [] = 0
total (e ∷ elts) = elt_size e + total elts

length-lengths : (elts : List Elt) → length (lengths elts) ≡ 8 * length elts
unfolding lengths
length-lengths [] = refl
length-lengths (e ∷ elts) = let rest = length-lengths elts in omega (arith, rest)

length-pair_contents :
    (elts : List Elt) → length (pair_contents elts) + 8 * length elts ≡ total elts
unfolding pair_contents
length-pair_contents [] = refl
length-pair_contents (e ∷ elts) =
    let rest = length-pair_contents elts in
    omega (
      arith,
      rest,
      length-append e.key (0 ∷ (e.value ++ (0 ∷ pair_contents elts))),
      length-append e.value (0 ∷ pair_contents elts),
    )

-- The bytes written: the count, and what each pair takes.
length-pairs_marshal :
    (list extras : List Elt) (max : ℕ)
    → length (pairs_marshal list extras max)
      ≡ 4 + total (marshalled (marshal_count list extras max) list extras)
unfolding pairs_marshal
length-pairs_marshal list extras max =
    let elts = marshalled (marshal_count list extras max) list extras in
    omega (
      arith,
      length-append (lengths elts) (pair_contents elts),
      length-lengths elts,
      length-pair_contents elts,
    )

-- How many pairs the loop may still count: all of them, or `max - n`.
abbrev pub HasLeft : ℕ → ℕ → ℕ → List Elt → Type 0
HasLeft max n k elts = ((max ≡ 0) × (pairs_count elts ≤ k)) ⊎ ((max ≡ n + k) × (0 < k))

first_active-zero : (elts : List Elt) → first_active 0 elts ≡ []
unfolding first_active
first_active-zero [] = refl
first_active-zero (e ∷ elts) = refl

size_list_lem :
    (max : ℕ) (elts : List Elt) (size n k : ℕ)
    → size < u64_mod
    → HasLeft max n k elts
    → (size_list max elts size n).0 ≡ (size + total (first_active k elts)) % u64_mod
unfolding size_list first_active pairs_count
size_list_lem max [] size n k small left = omega arith
size_list_lem max (e ∷ elts) size n zero small left = elim left [
  | inl (unlimited, few) ↦
      let absent : (e.hash == 0) ≡ true = ground arith in
      let rest =
        size_list_lem max elts size n zero small (inl (unlimited, ground (arith, absent))) in
      rw (size_list, absent) (rest ∙ rw (first_active-zero elts) refl)
  | inr (limited, none_left) ↦ ground arith
]
size_list_lem max (e ∷ elts) size n (suc k) small left = elim (Bool-cases (e.hash == 0)) [
  | inl absent ↦ rw absent (size_list_lem max elts size n (suc k) small (ground (arith, left)))
  | inr active ↦ elim (Bool-cases (not (max == 0) && leb max (n + 1))) [
    | inl stop ↦
        let last : k ≡ 0 = ground arith in
        rw (active, stop, last, first_active-zero elts) (omega arith)
    | inr go ↦
        let rest =
          size_list_lem max elts ((size + elt_size e) % u64_mod) (n + 1) k (omega arith)
            (ground arith) in
        rw (active, go) (omega (arith, rest))
  ]
]

-- A loop that may go through all the pairs does not depend on how many more it may.
first_active_all :
    (elts : List Elt) (k k' : ℕ)
    → pairs_count elts ≤ k
    → pairs_count elts ≤ k'
    → first_active k elts ≡ first_active k' elts
unfolding first_active pairs_count
first_active_all [] k k' le le' = refl
first_active_all (e ∷ elts) zero zero le le' = refl
first_active_all (e ∷ elts) zero (suc k') le le' =
    let absent : (e.hash == 0) ≡ true = ground arith in
    let rest =
      first_active_all elts zero (suc k') (ground (arith, absent)) (ground (arith, absent)) in
    rw (first_active, absent) (sym (first_active-zero elts) ∙ rest)
first_active_all (e ∷ elts) (suc k) zero le le' =
    let absent : (e.hash == 0) ≡ true = ground arith in
    let rest =
      first_active_all elts (suc k) zero (ground (arith, absent)) (ground (arith, absent)) in
    rw (first_active, absent) (rest ∙ first_active-zero elts)
first_active_all (e ∷ elts) (suc k) (suc k') le le' = elim (Bool-cases (e.hash == 0)) [
  | inl absent ↦
      rw absent
        (first_active_all elts (suc k) (suc k') (ground (arith, absent)) (ground (arith, absent)))
  | inr active ↦
      rw active
        (ap (◌∷◌ e) (first_active_all elts k k' (ground (arith, active)) (ground (arith, active))))
]

take-nil : (k : ℕ) → take {A = Elt} k [] ≡ []
take-nil zero = refl
take-nil (suc k) = refl

marshalled-none : (count : ℕ) (list : List Elt) → marshalled count list [] ≡ first_active count list
unfolding marshalled
marshalled-none count list =
    rw (marshalled, take-nil count) (ap (λ k. first_active k list) (omega arith))

pairs_size_left :
    (list : List Elt) (max k : ℕ)
    → HasLeft max 0 k list
    → first_active k list ≡ first_active (marshal_count list [] max) list
    → pairs_size list [] max ≡ length (pairs_marshal list [] max) % u64_mod
unfolding pairs_size size_extras
pairs_size_left list max k left same =
    let sized = size_list_lem max list 4 0 k (omega arith) left in
    let written = length-pairs_marshal list [] max in
    let which = marshalled-none (marshal_count list [] max) list in
    sized ∙ rw (written, which, same) refl

-- Without extra pairs and with fewer than 2^32 pairs, the bytes reserved are the bytes written,
-- modulo 2^64, whatever the limit.
pub pairs_size-marshal :
    (list : List Elt) (max : ℕ)
    → pairs_count list < u32_mod
    → pairs_size list [] max ≡ length (pairs_marshal list [] max) % u64_mod
unfolding marshal_count
pairs_size-marshal list max few = elim (Bool-cases (max == 0)) [
  | inl unlimited ↦
      pairs_size_left list max (pairs_count list) (inl (ground arith, omega arith))
        (ap (λ k. first_active k list) (ground (arith, unlimited)))
  | inr limited ↦ elim (Bool-cases (ltb max (pairs_count list))) [
    | inl over ↦
        pairs_size_left list max max (inr (omega arith, ground arith))
          (ap (λ k. first_active k list) (ground (arith, limited, over)))
    | inr under ↦
        let all : marshal_count list [] max ≡ pairs_count list = ground (arith, limited, under) in
        pairs_size_left list max max (inr (omega arith, ground arith)) (
          first_active_all list max (marshal_count list [] max) (ground (arith, under))
            (omega (arith, all)))
  ]
]

-- With a limit of two pairs, a list of two and two extra pairs, the extra pairs are written but
-- only the first of them is counted beside the list: a second one longer than the list's pairs
-- together does not fit into what was reserved (the first three pairs taking less than 2^32
-- bytes).
pub pairs_marshal_overrun :
    (a b c d : Elt)
    → (a.hash == 0) ≡ false
    → (b.hash == 0) ≡ false
    → elt_size a + (elt_size b + elt_size c) < 2 ^ 32
    → elt_size a + elt_size b < elt_size d
    → pairs_size (a ∷ b ∷ []) (c ∷ d ∷ []) 2 < length (pairs_marshal (a ∷ b ∷ []) (c ∷ d ∷ []) 2)
unfolding pairs_size size_list size_extras marshalled marshal_count pairs_count first_active
pairs_marshal_overrun a b c d active active' small long =
    let written = length-pairs_marshal (a ∷ b ∷ []) (c ∷ d ∷ []) 2 in
    let which : marshalled (marshal_count (a ∷ b ∷ []) (c ∷ d ∷ []) 2) (a ∷ b ∷ []) (c ∷ d ∷ [])
        ≡ c ∷ d ∷ [] =
      rw (active, active') refl in
    rw (active, active', written, which) (omega arith)
