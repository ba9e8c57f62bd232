-- ===== src/Shm/Kv/Set.antt =====
-- ngx_wa_shm_kv_set_locked: writing, replacing and deleting a pair.
use ngx_wasm_module.Common.{
  ℕ, zero, suc, ◌+◌, ◌%◌, Bool, true, false, Option, none, some, List, [], ◌∷◌, length, ltb, ◌==◌,
  if◌then◌else◌, ◌>>=◌, Rc, u32_mod, add64, sub64,
}
use ngx_wasm_module.Shm.Kv.{
  Host, Kv, Node, update, rbtree_lookup, node_queue_remove, queue_insert, touch, drop_node,
  evicting, expire,
}

module _ ⦃host : Host⦄ where
  open host use {calloc, rb_insert, crc32, node_size}

  -- `for ( ;; )` around `ngx_slab_calloc_locked`, on fuel; the inner `none` is NGX_ERROR. Every
  -- round but the last unlinks a node, so one round more than there are linked nodes is enough.
  unfoldable pub alloc_loop : ℕ → Kv → ℕ → Option (Option ℕ × Kv)
  alloc_loop zero kv size = none
  alloc_loop (suc fuel) kv size = elim (calloc kv.pool size) [
    | some (a, pool') ↦ some (some a, record kv { pool = pool' })
    | none ↦ elim (expire kv size) [
      | none ↦ none
      | some none ↦ some (none, kv)
      | some (some kv') ↦ alloc_loop fuel kv' size
    ]
  ]

  abbrev pub linked_nodes : List (List ℕ) → ℕ
  linked_nodes [] = 0
  linked_nodes (q ∷ queues) = length q + linked_nodes queues

  -- The value given to a node, the last step of a set.
  unfoldable pub write_value : Kv → ℕ → Node → List ℕ → Kv
  write_value kv a n value = record kv {
    heap = update kv.heap a (some (record n { value = value; cas = (n.cas + 1) % u32_mod }));
  }

  -- The old node, if there is one, gives its version to the new one and goes.
  unfoldable pub replace_old : Kv → Option ℕ → Option (ℕ × Kv)
  replace_old kv none = some (0, record kv { nelts = add64 kv.nelts 1 })
  replace_old kv (some old) = do
    kv' ← node_queue_remove kv old
    o ← kv'.heap old
    some (o.cas, drop_node kv' old)

  abbrev pub new_node : List ℕ → List ℕ → ℕ → Node
  new_node key value cas = record { key = key; key_hash = crc32 key; value = value; cas = cas }

  -- A set that needs a new node.
  unfoldable pub set_new : Kv → List ℕ → List ℕ → Option ℕ → Option (Rc × Option Bool × Kv)
  set_new kv key value old = do
    let size = add64 (add64 node_size (length key)) (length value)
    (block, kv1) ← alloc_loop (suc (linked_nodes kv.queues)) kv size
    elim block [
      | none ↦ some (Rc.error, none, kv1)
      | some a ↦ do
        (cas, kv2) ← replace_old kv1 old
        let n = new_node key value cas
        let kv3 = record kv2 {
          tree = rb_insert kv2.tree (crc32 key) a;
          heap = update kv2.heap a (some n);
        }
        kv4 ← if evicting kv3 then queue_insert kv3 a n else some kv3
        some (Rc.ok, some true, write_value kv4 a n value)
    ]

  -- A set in the place of the value, which is at least as long.
  unfoldable pub set_in_place : Kv → ℕ → Node → List ℕ → Option (Rc × Option Bool × Kv)
  set_in_place kv a n value = do
    kv' ← touch kv a (record n { value = value })
    some (Rc.ok, some true, write_value kv' a n value)

  unfoldable pub delete : Kv → Option ℕ → Option (Rc × Option Bool × Kv)
  delete kv none = some (Rc.ok, some false, kv)
  delete kv (some a) = do
    kv' ← node_queue_remove kv a
    n ← kv'.heap a
    let gone = drop_node kv' a
    some (Rc.ok, some true, record gone { nelts = sub64 gone.nelts 1 })

  -- `ngx_wa_shm_kv_set_locked` once the version is checked; no value means to delete.
  unfoldable pub set_checked :
      Kv → List ℕ → Option (List ℕ) → Option (ℕ × Node) → Option (Rc × Option Bool × Kv)
  set_checked kv key none none = delete kv none
  set_checked kv key none (some (a, n)) = delete kv (some a)
  set_checked kv key (some value) none = set_new kv key value none
  set_checked kv key (some value) (some (a, n)) =
      if ltb (length n.value) (length value)
      then set_new kv key value (some a)
      else set_in_place kv a n value

  -- The node that the lookup finds, read.
  unfoldable pub find_node : Kv → ℕ → Option (Option (ℕ × Node))
  find_node kv hash = elim (rbtree_lookup kv.tree hash) [
    | none ↦ some none
    | some a ↦ kv.heap a >>= λ n. some (some (a, n))
  ]

  abbrev pub version : Option (ℕ × Node) → ℕ
  version none = 0
  version (some (a, n)) = n.cas

  -- `ngx_wa_shm_kv_set_locked`: the code, what `*written` is set to, and the store.
  unfoldable pub set_locked : Kv → List ℕ → Option (List ℕ) → ℕ → Option (Rc × Option Bool × Kv)
  set_locked kv key value cas = do
    n ← find_node kv (crc32 key)
    if cas == version n then set_checked kv key value n else some (Rc.ok, some false, kv)
