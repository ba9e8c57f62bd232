-- ===== src/Shm/Kv/Entries.antt =====
-- ngx_wa_shm_kv.c: the red-black tree as the list of its entries in order, and the lookup in it.
use ngx_wasm_module.Common.{
  ℕ, suc, ◌+◌, ◌<◌, ◌≤◌, ◌≢◌, ◌≡◌, refl, Option, none, some, List, [], ◌∷◌, ◌++◌, arith, length,
  ltb, ◌==◌, if◌then◌else◌, inl, inr, Bool-cases, ltb→lt,
}
use ngx_wasm_module.Shm.Kv.{Tree, leaf, node, rbtree_lookup}

-- Hash and address of each node, in order.
unfoldable pub entries : Tree → List (ℕ × ℕ)
entries leaf = []
entries (node l h a r) = entries l ++ (h, a) ∷ entries r

-- Each hash is above the ones before it, and none is below `lo`.
unfoldable pub Sorted : ℕ → List (ℕ × ℕ) → Type 0
Sorted lo [] = Unit
Sorted lo ((h, a) ∷ es) = (lo ≤ h) × Sorted (suc h) es

unfoldable pub assoc : ℕ → List (ℕ × ℕ) → Option ℕ
assoc h [] = none
assoc h ((k, a) ∷ es) = if h == k then some a else assoc h es

-- The sorted insertion, and the removal of an address.
unfoldable pub ins : ℕ → ℕ → List (ℕ × ℕ) → List (ℕ × ℕ)
ins h a [] = (h, a) ∷ []
ins h a ((k, b) ∷ es) = if ltb h k then (h, a) ∷ (k, b) ∷ es else (k, b) ∷ ins h a es

unfoldable pub erase : ℕ → List (ℕ × ℕ) → List (ℕ × ℕ)
erase a [] = []
erase a ((k, b) ∷ es) = if a == b then es else (k, b) ∷ erase a es

pub assoc_below : (lo h : ℕ) (es : List (ℕ × ℕ)) → Sorted lo es → h < lo → assoc h es ≡ none
unfolding assoc Sorted
assoc_below lo h [] s lt = refl
assoc_below lo h ((k, a) ∷ es) s lt =
    let rest = assoc_below (suc k) h es s.1 (omega (arith, s.0)) in ground (arith, s.0)

pub Sorted-weaken : (lo lo' : ℕ) (es : List (ℕ × ℕ)) → lo' ≤ lo → Sorted lo es → Sorted lo' es
unfolding Sorted
Sorted-weaken lo lo' [] le s = tt
Sorted-weaken lo lo' ((k, a) ∷ es) le s = (omega (arith, s.0), s.1)

-- What an entry in the middle splits.
pub Sorted-split :
    (lo : ℕ) (l : List (ℕ × ℕ)) (k a : ℕ) (r : List (ℕ × ℕ))
    → Sorted lo (l ++ (k, a) ∷ r)
    → Sorted lo l × (lo ≤ k) × Sorted (suc k) r
unfolding Sorted
Sorted-split lo [] k a r s = (tt, s.0, s.1)
Sorted-split lo ((j, b) ∷ l) k a r s =
    let (sl, le, sr) = Sorted-split (suc j) l k a r s.1 in ((s.0, sl), omega (arith, s.0), sr)

pub assoc_middle :
    (lo : ℕ) (l : List (ℕ × ℕ)) (k a : ℕ) (r : List (ℕ × ℕ)) (h : ℕ)
    → Sorted lo (l ++ (k, a) ∷ r)
    → assoc h (l ++ (k, a) ∷ r)
      ≡ (if h == k then some a else if ltb h k then assoc h l else assoc h r)
unfolding Sorted assoc
assoc_middle lo [] k a r h s = let low = assoc_below (suc k) h r s.1 in ground arith
assoc_middle lo ((j, b) ∷ l) k a r h s =
    let rest = assoc_middle (suc j) l k a r h s.1 in
    let above = Sorted-split (suc j) l k a r s.1 in ground (arith, above.1)

-- The lookup of the C code finds what the entries hold.
pub rbtree_lookup_lem :
    (lo : ℕ) (t : Tree) (h : ℕ) → Sorted lo (entries t) → rbtree_lookup t h ≡ assoc h (entries t)
unfolding rbtree_lookup assoc entries
rbtree_lookup_lem lo leaf h s = refl
rbtree_lookup_lem lo (node l k a r) h s =
    let parts = Sorted-split lo (entries l) k a (entries r) s in
    rw
      (
        rbtree_lookup_lem lo l h parts.0,
        rbtree_lookup_lem (suc k) r h parts.2,
        assoc_middle lo (entries l) k a (entries r) h s,
      )
      refl

pub assoc_tail :
    (h k b : ℕ) (es : List (ℕ × ℕ)) → assoc h ((k, b) ∷ es) ≡ none → (h ≢ k) × (assoc h es ≡ none)
unfolding assoc
assoc_tail h k b es e = ground arith

pub Sorted-ins :
    (lo h a : ℕ) (es : List (ℕ × ℕ))
    → Sorted lo es
    → lo ≤ h
    → assoc h es ≡ none
    → Sorted lo (ins h a es)
unfolding Sorted ins
Sorted-ins lo h a [] s le e = (le, tt)
Sorted-ins lo h a ((k, b) ∷ es) s le e = elim (Bool-cases (ltb h k)) [
  | inl lt ↦ rw lt (le, (ltb→lt h k lt, s.1))
  | inr ge ↦
      let (ne, e') = assoc_tail h k b es e in
      rw ge (s.0, Sorted-ins (suc k) h a es s.1 (ground arith) e')
]

pub assoc-ins :
    (h' h a : ℕ) (es : List (ℕ × ℕ))
    → assoc h es ≡ none
    → assoc h' (ins h a es) ≡ (if h' == h then some a else assoc h' es)
unfolding ins assoc
assoc-ins h' h a [] e = refl
assoc-ins h' h a ((k, b) ∷ es) e = elim (Bool-cases (ltb h k)) [
  | inl lt ↦ rw lt refl
  | inr ge ↦
      let tail = assoc_tail h k b es e in
      let rest = assoc-ins h' h a es tail.1 in rw (ge, rest) (ground (arith, tail.0))
]

pub length-ins : (h a : ℕ) (es : List (ℕ × ℕ)) → length (ins h a es) ≡ length es + 1
unfolding ins
length-ins h a [] = refl
length-ins h a ((k, b) ∷ es) = let rest = length-ins h a es in ground arith

pub Sorted-erase : (lo a : ℕ) (es : List (ℕ × ℕ)) → Sorted lo es → Sorted lo (erase a es)
unfolding Sorted erase
Sorted-erase lo a [] s = tt
Sorted-erase lo a ((k, b) ∷ es) s = elim (Bool-cases (a == b)) [
  | inl e ↦ rw e (Sorted-weaken (suc k) lo es (omega (arith, s.0)) s.1)
  | inr ne ↦ rw ne (s.0, Sorted-erase (suc k) a es s.1)
]

-- One address stands under one hash only.
pub assoc-erase :
    (lo h' h a : ℕ) (es : List (ℕ × ℕ))
    → Sorted lo es
    → assoc h es ≡ some a
    → ((k : ℕ) → assoc k es ≡ some a → k ≡ h)
    → assoc h' (erase a es) ≡ (if h' == h then none else assoc h' es)
unfolding Sorted erase assoc
assoc-erase lo h' h a [] s e one = ground arith
assoc-erase lo h' h a ((k, b) ∷ es) s e one = elim (Bool-cases (a == b)) [
  | inl same ↦
      let low = assoc_below (suc k) k es s.1 (omega arith) in
      let is_k = one k (ground arith) in rw same (ground arith)
  | inr other ↦
      let low = assoc_below (suc k) k es s.1 (omega arith) in
      let e' : assoc h es ≡ some a = ground arith in
      let one' : ((j : ℕ) → assoc j es ≡ some a → j ≡ h) = λ j at. one j (ground arith) in
      let rest = assoc-erase (suc k) h' h a es s.1 e' one' in rw other (ground arith)
]

pub length-erase :
    (h a : ℕ) (es : List (ℕ × ℕ)) → assoc h es ≡ some a → length (erase a es) + 1 ≡ length es
unfolding erase assoc
length-erase h a [] e = ground arith
length-erase h a ((k, b) ∷ es) e = elim (Bool-cases (a == b)) [
  | inl same ↦ rw same (omega arith)
  | inr other ↦
      let e' : assoc h es ≡ some a = ground arith in
      let rest = length-erase h a es e' in rw other (omega arith)
]
