-- ===== src/Shm/Kv/Fault.antt =====
-- ngx_wa_shm_kv_set_locked with LRU eviction: the node to replace may itself be expired.
use ngx_wasm_module.Common.{
  ℕ, ◌<◌, ◌≡◌, refl, true, Option, none, some, List, [], ◌∷◌, arith, length, ◌==◌, lt→ltb,
}
use ngx_wasm_module.Shm.Kv.{
  Host, Node, Tree, Eviction, rbtree_lookup, drop_node, node_queue_remove, lru_expire, queue_expire,
  expire,
}
use ngx_wasm_module.Shm.Kv.Set.{
  alloc_loop, replace_old, set_new, set_checked, find_node, set_locked,
}
use ngx_wasm_module.Shm.Kv.View.{pair_size}

module _ ⦃host : Host⦄ where
  open host use {calloc, free, crc32, rb_delete}

  -- Where the pair to replace is the only one in the LRU list, and the pool has no room for the longer
  -- value until the pair is expired, a set touches the pair's node after it was freed.
  pub set_locked_lru_fault :
      (pool p : host.Pool) (heap : ℕ → Option Node) (tree : Tree) (nelts : ℕ) (key value : List ℕ)
      (a b : ℕ) (n : Node)
      → rbtree_lookup tree (crc32 key) ≡ some a
      → heap a ≡ some n
      → length n.value < length value
      → calloc pool (pair_size key value) ≡ none
      → calloc (free pool a) (pair_size key value) ≡ some (b, p)
      → set_locked
          (record {
            eviction = Eviction.lru;
            pool = pool;
            heap = heap;
            tree = tree;
            nelts = nelts;
            queues = (a ∷ []) ∷ [];
          })
          key
          (some value)
          n.cas
        ≡ none
  unfolding set_locked find_node set_checked set_new alloc_loop expire lru_expire queue_expire
      node_queue_remove replace_old drop_node
  set_locked_lru_fault pool p heap tree nelts key value a b n look lives longer full granted =
      let here : (a == a) ≡ true = ground arith in
      let same : (n.cas == n.cas) ≡ true = ground arith in
      rw
        (
          set_locked,
          find_node,
          look,
          lives,
          same,
          lt→ltb _ _ longer,
          set_new,
          alloc_loop,
          full,
          expire,
          lru_expire,
          queue_expire,
          node_queue_remove,
          here,
          lives,
          granted,
        )
        refl
