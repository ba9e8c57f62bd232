-- ===== src/Shm/Kv.antt =====
-- src/common/shm/ngx_wa_shm_kv.c: the key-value store of a shared zone, with its eviction.
-- A node is an address; `heap` holds what lies there, and a read at an address that holds no node
-- is a fault, `none`. The queue links of the nodes are lists of addresses, head first; to unlink
-- an address that no list holds is a fault. `lru_queue` and `slru_queues[0]` share their memory,
-- so the first list is either. The slab allocator, the red-black tree's insertion and deletion and
-- the hash are nginx's own: the record `Host` stands for them.
pub mod Set
pub mod Laws
pub mod Entries
pub mod View
pub mod Refine
pub mod Fault
pub mod Evict
mod Tests
use mathlib.Core.WellFounded.{Acc}
use mathlib.Core.Logic.{dite}
use mathlib.Core.List.{reverse}
use native.Mathlib.Decide.{ℕ_discrete}
use ngx_wasm_module.Common.{
  ℕ, zero, suc, ◌+◌, ◌-◌, ◌*◌, ◌/◌, ◌%◌, ◌^◌, ◌<◌, ◌≤◌, ◌≢◌, Bool, true, false, ◌&&◌, ◌||◌, not,
  Option, none, some, List, [], ◌∷◌, ◌++◌, arith, length, take, drop, modify, get_or, replicate,
  ltb, leb, ◌==◌, if◌then◌else◌, ◌>>=◌, ◌>>◌, guard, Rc, u32_mod, u64_mod, add64, sub64,
}
use ngx_wasm_module.Common.Order.{lt_wf}

pub data Eviction : Type 0 where
  lru slru no_eviction : Eviction

-- `ngx_wa_shm_kv_node_t`
pub record Node : Type 0 where
  pub key : List ℕ
  pub key_hash : ℕ
  pub value : List ℕ
  pub cas : ℕ

-- The tree as the lookup walks it: left, the key of the node, its address, right.
pub data Tree : Type 0 where
  leaf : Tree
  node : Tree → ℕ → ℕ → Tree → Tree

-- What nginx provides: the slab pool (allocation of zeroed bytes, release), `ngx_rbtree_insert`,
-- `ngx_rbtree_delete`, `ngx_crc32_long`; and the sizes that the build fixes.
pub record Host : Type 1 where
  pub Pool : Type 0
  pub calloc : Pool → ℕ → Option (ℕ × Pool)
  pub free : Pool → ℕ → Pool
  pub owned : Pool → ℕ → Bool
  pub rb_insert : Tree → ℕ → ℕ → Tree
  pub rb_delete : Tree → ℕ → Tree
  pub crc32 : List ℕ → ℕ
  pub node_size : ℕ
  pub pagesize : ℕ
  pub pagesize_shift : ℕ
  pub min_size : ℕ
  pub min_shift : ℕ

-- `ngx_wa_shm_rbtree_lookup`
pub rbtree_lookup : Tree → ℕ → Option ℕ
rbtree_lookup leaf hash = none
rbtree_lookup (node l h a r) hash =
    let left = rbtree_lookup l hash in
    let right = rbtree_lookup r hash in
    if hash == h then some a else if ltb hash h then left else right

-- `for (s = size - 1; s >>= 1; shift++)`
pub shift_loop : (s : ℕ) → ℕ → Acc ◌<◌ s → ℕ
shift_loop s shift (Acc.intro _ smaller) =
    dite (ℕ_discrete (s / 2) 0) (λ _. shift)
      (λ h. shift_loop (s / 2) (shift + 1) (smaller (s / 2) (omega arith)))

-- Lists of addresses.
abbrev linked : ℕ → List ℕ → Bool
linked a [] = false
linked a (b ∷ q) = (a == b) || linked a q

abbrev unlink : ℕ → List ℕ → List ℕ
unlink a [] = []
unlink a (b ∷ q) = if a == b then q else b ∷ unlink a q

abbrev queue_last : List ℕ → Option ℕ
queue_last [] = none
queue_last (a ∷ []) = some a
queue_last (a ∷ b ∷ q) = queue_last (b ∷ q)

abbrev queue_remove : ℕ → List (List ℕ) → Option (List (List ℕ))
queue_remove a [] = none
queue_remove a (q ∷ queues) =
    let rest = queue_remove a queues >>= λ queues'. some (q ∷ queues') in
    if linked a q then some (unlink a q ∷ queues) else rest

abbrev update : (ℕ → Option Node) → ℕ → Option Node → ℕ → Option Node
update heap a n b = if b == a then n else heap b

module _ ⦃host : Host⦄ where
  open host use {
    Pool, calloc, free, rb_insert, rb_delete, crc32, node_size, pagesize, pagesize_shift, min_size,
    min_shift,
  }

  -- `ngx_wa_shm_kv_t`, with the zone's pool and eviction policy.
  pub record Kv : Type 0 where
    pub eviction : Eviction
    pub pool : Pool
    pub heap : ℕ → Option Node
    pub tree : Tree
    pub nelts : ℕ
    pub queues : List (List ℕ)

  -- `NGX_WASM_SLRU_NQUEUES`
  pub nqueues : ℕ
  nqueues = add64 (sub64 pagesize_shift min_shift) 1

  pub slru_index_for_size : ℕ → ℕ
  slru_index_for_size size =
      if ltb (pagesize / 2) size
      then sub64 nqueues 1
      else if ltb min_size size
      then sub64 (shift_loop (size - 1) 1 (lt_wf.apply (size - 1))) min_shift
      else 0

  -- `queue_for_node`; without eviction it is not reached.
  pub queue_for_node : Kv → Node → Option ℕ
  queue_for_node kv n = elim kv.eviction [
    | lru ↦ some 0
    | slru ↦ some (slru_index_for_size (node_size + length n.key + length n.value))
    | no_eviction ↦ none
  ]

  abbrev pub evicting : Kv → Bool
  evicting kv = elim kv.eviction [ no_eviction ↦ false | _ ↦ true ]

  -- `ngx_queue_insert_head(queue_for_node(shm, n), &n->queue)`
  pub queue_insert : Kv → ℕ → Node → Option Kv
  queue_insert kv a n = do
    i ← queue_for_node kv n
    guard (ltb i (length kv.queues))
    some (record kv { queues = modify (◌∷◌ a) i kv.queues })

  -- `node_queue_remove`
  pub node_queue_remove : Kv → ℕ → Option Kv
  node_queue_remove kv a =
      if evicting kv
      then (queue_remove a kv.queues >>= λ qs. some (record kv { queues = qs }))
      else some kv

  -- The move of a node to the head of its queue.
  pub touch : Kv → ℕ → Node → Option Kv
  touch kv a n =
      if evicting kv then (node_queue_remove kv a >>= λ kv'. queue_insert kv' a n) else some kv

  -- `ngx_wa_shm_kv_get_locked`: with `key_hash`, or by the hash of the key.
  pub get_locked : Kv → List ℕ → Option ℕ → Option (Rc × Option (List ℕ × ℕ) × Kv)
  get_locked kv key key_hash =
      let hash : ℕ = elim key_hash [ some h ↦ h | none ↦ crc32 key ] in
      elim (rbtree_lookup kv.tree hash) [
        | none ↦ some (Rc.declined, none, kv)
        | some a ↦ do n ← kv.heap a; kv' ← touch kv a n; some (Rc.ok, some (n.value, n.cas), kv')
      ]

  -- The end of a node: out of the tree, and its memory given back.
  pub drop_node : Kv → ℕ → Kv
  drop_node kv a = record kv {
    tree = rb_delete kv.tree a;
    pool = free kv.pool a;
    heap = update kv.heap a none;
  }

  pub queue_expire : Kv → ℕ → Option Kv
  queue_expire kv a = do
    kv' ← node_queue_remove kv a
    n ← kv'.heap a
    let gone = drop_node kv' a
    some (record gone { nelts = sub64 gone.nelts 1 })

  -- The last address of the first of the lists that has one.
  pub first_last : List (List ℕ) → Option ℕ
  first_last [] = none
  first_last (q ∷ queues) = elim (queue_last q) [ none ↦ first_last queues | some a ↦ some a ]

  -- `lru_expire`; the inner `none` is NGX_ABORT.
  pub lru_expire : Kv → Option (Option Kv)
  lru_expire kv = elim (queue_last (get_or kv.queues 0 [])) [
    | none ↦ some none
    | some a ↦ queue_expire kv a >>= λ kv'. some (some kv')
  ]

  -- `slru_expire`: from the right list into larger slots, then into smaller ones.
  pub slru_expire : Kv → ℕ → Option (Option Kv)
  slru_expire kv size =
      let start = slru_index_for_size size in
      elim (first_last (drop start kv.queues)) [
        | some a ↦ queue_expire kv a >>= λ kv'. some (some kv')
        | none ↦ elim (first_last (reverse (take start kv.queues))) [
          | some a ↦ queue_expire kv a >>= λ kv'. some (some kv')
          | none ↦ some none
        ]
      ]

  -- The policy's way to make room.
  pub expire : Kv → ℕ → Option (Option Kv)
  expire kv size = elim kv.eviction [
    | lru ↦ lru_expire kv
    | slru ↦ slru_expire kv size
    | no_eviction ↦ some none
  ]

  -- `ngx_wa_shm_kv_init` on a zone whose pool grants the allocation or not.
  pub kv_init : Eviction → Pool → Bool → Rc × Option Kv
  kv_init eviction pool fails = if fails then (Rc.error, none) else (
    Rc.ok,
    some (record {
      eviction = eviction;
      pool = pool;
      heap = λ a. none;
      tree = leaf;
      nelts = 0;
      queues = elim eviction [ lru ↦ [] ∷ [] | slru ↦ replicate nqueues [] | no_eviction ↦ [] ];
    }),
  )
