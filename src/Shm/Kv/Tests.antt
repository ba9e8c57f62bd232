-- ===== src/Shm/Kv/Tests.antt =====
-- The key-value store over a small pool and a plain tree, and the theorems there.
use ngx_wasm_module.Common.{
  suc, ℕ, ◌+◌, ◌<◌, ◌≡◌, sym, refl, false, not, ◌&&◌, ◌||◌, Option, none, some, List, [], ◌∷◌,
  arith, length, ltb, ◌==◌, if◌then◌else◌, Rc, inl, inr, Bool-cases,
}
use ngx_wasm_module.Shm.Kv.Evict.{Made, alloc_loop_lru_lem}
use ngx_wasm_module.Shm.Kv.{
  update, get_locked, kv_init, Host, Kv, Node, Tree, leaf, node, Eviction, linked, rbtree_lookup,
}
use ngx_wasm_module.Shm.Kv.Entries.{entries, Sorted, assoc, ins, erase}
use ngx_wasm_module.Shm.Kv.Laws.{HostLaws, update-same, held}
use ngx_wasm_module.Shm.Kv.View.{IsKv, get_locked_lem, Outcome, spec_set, view, kv_init_lem}
use ngx_wasm_module.Shm.Kv.Refine.{room, set_locked_refines}
use ngx_wasm_module.Shm.Kv.Fault.{set_locked_lru_fault}
use ngx_wasm_module.Shm.Kv.Set.{set_locked, alloc_loop, linked_nodes}

-- A tree of given entries, all to the right.
spine : List (ℕ × ℕ) → Tree
spine [] = leaf
spine ((h, a) ∷ es) = node leaf h a (spine es)

entries-spine : (es : List (ℕ × ℕ)) → entries (spine es) ≡ es
unfolding entries spine
entries-spine [] = refl
entries-spine ((h, a) ∷ es) = rw (entries-spine es) refl

-- A pool of at most two blocks: the blocks in use.
abbrev total : List ℕ → ℕ
total [] = 0
total (a ∷ p) = a + total p

abbrev grant : List ℕ → ℕ → Option (ℕ × List ℕ)
grant p size = if ltb (length p) 2 then some (total p + 1, (total p + 1) ∷ p) else none

abbrev release : List ℕ → ℕ → List ℕ
release [] a = []
release (b ∷ p) a = if b == a then release p a else b ∷ release p a

le-total : (p : List ℕ) (a : ℕ) → total p < a → linked a p ≡ false
le-total [] a lt = refl
le-total (b ∷ p) a lt = let rest = le-total p a (omega arith) in ground arith

linked-release : (p : List ℕ) (a b : ℕ) → linked b (release p a) ≡ (not (b == a) && linked b p)
linked-release [] a b = ground arith
linked-release (c ∷ p) a b = let rest = linked-release p a b in ground arith

abbrev sum_hash : List ℕ → ℕ
sum_hash key = total key

instance test_host : Host
test_host = record {
  Pool = List ℕ;
  calloc = grant;
  free = release;
  owned = λ p a. linked a p;
  rb_insert = λ t h a. spine (ins h a (entries t));
  rb_delete = λ t a. spine (erase a (entries t));
  crc32 = sum_hash;
  node_size = 112;
  pagesize = 4096;
  pagesize_shift = 12;
  min_size = 8;
  min_shift = 3;
}

grant_lem :
    (p p' : List ℕ) (size a : ℕ) → grant p size ≡ some (a, p') → (a ≡ total p + 1) × (p' ≡ a ∷ p)
grant_lem p p' size a e = elim (Bool-cases (ltb (length p) 2)) [
  | inl free ↦ ground arith
  | inr full ↦ ground arith
]

grant_fresh : (p p' : List ℕ) (size a : ℕ) → grant p size ≡ some (a, p') → linked a p ≡ false
grant_fresh p p' size a e =
    let made = grant_lem p p' size a e in le-total p a (omega (arith, made.0))

grant-linked :
    (p p' : List ℕ) (size a b : ℕ)
    → grant p size ≡ some (a, p')
    → linked b p' ≡ ((b == a) || linked b p)
grant-linked p p' size a b e = let made = grant_lem p p' size a e in rw made.1 refl

test_laws : HostLaws
unfolding test_host
test_laws = record {
  calloc_fresh = grant_fresh;
  calloc_owned = grant-linked;
  free_owned = linked-release;
  insert_entries = λ t h a s e. entries-spine (ins h a (entries t));
  delete_entries = λ t h a s e. entries-spine (erase a (entries t));
}

-- One pair: the value `5 6` in its second version under a key of hash 3.
abbrev pair : Node
pair = record { key = 3 ∷ []; key_hash = 3; value = 5 ∷ 6 ∷ []; cas = 2 }

abbrev one_pair : Eviction → List (List ℕ) → Kv ⦃host = test_host⦄
unfolding test_host
one_pair eviction queues = record {
  eviction = eviction;
  pool = 1 ∷ [];
  heap = update (λ a. none) 1 (some pair);
  tree = node leaf 3 1 leaf;
  nelts = 1;
  queues = queues;
}

one_pair-IsKv : IsKv (one_pair Eviction.no_eviction [])
unfolding test_host one_pair entries Sorted assoc
one_pair-IsKv = record {
  stored = record {
    sorted = (omega arith, tt);
    live = λ h a e.
        let both : (h ≡ 3) × (a ≡ 1) = ground arith in
        (pair, update-same (λ b. none) 1 a (some pair) both.1, sym both.0, rw both.1 refl);
  };
  counted = refl;
  kept = refl;
}

set_locked_refines_example :
    Outcome (set_locked (one_pair Eviction.no_eviction []) (3 ∷ []) (some (7 ∷ 8 ∷ 9 ∷ [])) 2) (
      spec_set
        (room (one_pair Eviction.no_eviction []) (3 ∷ []) (some (7 ∷ 8 ∷ 9 ∷ [])))
        (view (one_pair Eviction.no_eviction []))
        3
        (some (7 ∷ 8 ∷ 9 ∷ []))
        2)
unfolding test_host
set_locked_refines_example =
    set_locked_refines test_laws (one_pair Eviction.no_eviction []) (3 ∷ []) (some (7 ∷ 8 ∷ 9 ∷ []))
      2 one_pair-IsKv

get_locked_lem_example :
    get_locked (one_pair Eviction.no_eviction []) (3 ∷ []) none
    ≡ some (Rc.ok, some (5 ∷ 6 ∷ [], 2), one_pair Eviction.no_eviction [])
unfolding test_host one_pair held assoc entries
get_locked_lem_example =
    get_locked_lem (one_pair Eviction.no_eviction []) (3 ∷ []) none one_pair-IsKv

-- The second block of the pool is not the store's; a pair longer than two bytes needs a new block.
abbrev lru_pair : Kv ⦃host = test_host⦄
unfolding test_host
lru_pair = record {
  eviction = Eviction.lru;
  pool = 1 ∷ 2 ∷ [];
  heap = update (λ a. none) 1 (some pair);
  tree = node leaf 3 1 leaf;
  nelts = 1;
  queues = (1 ∷ []) ∷ [];
}

set_locked_lru_fault_example : set_locked lru_pair (3 ∷ []) (some (7 ∷ 8 ∷ 9 ∷ [])) 2 ≡ none
unfolding test_host lru_pair rbtree_lookup
set_locked_lru_fault_example =
    set_locked_lru_fault (1 ∷ 2 ∷ []) (3 ∷ 2 ∷ []) (update (λ a. none) 1 (some pair))
      (node leaf 3 1 leaf) 1 (3 ∷ []) (7 ∷ 8 ∷ 9 ∷ []) 1 3 pair refl refl (omega arith) refl refl

abbrev tiny_pool : test_host.Pool
unfolding test_host
tiny_pool = 2 ∷ []

new_store :
    (kv : Kv ⦃host = test_host⦄) × (kv_init Eviction.no_eviction tiny_pool false ≡ (Rc.ok, some kv))
    × IsKv kv
    × ((k : ℕ) → view kv k ≡ none)
new_store = kv_init_lem tiny_pool

alloc_loop_lru_lem_example : Made (alloc_loop (suc (linked_nodes lru_pair.queues)) lru_pair 300)
unfolding test_host lru_pair
alloc_loop_lru_lem_example =
    alloc_loop_lru_lem lru_pair (1 ∷ []) 300
      (record { eviction = refl; queues = refl; held = ((pair, refl), refl, tt) })
