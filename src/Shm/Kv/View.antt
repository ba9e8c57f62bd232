-- ===== src/Shm/Kv/View.antt =====
-- ngx_wa_shm_kv.c without eviction: get and set against a map from hashes to versioned values.
use ngx_wasm_module.Common.{
  ℕ, suc, ◌+◌, ◌%◌, ◌≡◌, ◌∙◌, refl, ◌⊎◌, Bool, true, false, ◌||◌, Option, none, some, List, [],
  arith, length, leb, ◌==◌, if◌then◌else◌, inl, inr, Option-cases, u64_mod, u32_mod, add64, sub64,
  Rc,
}
use ngx_wasm_module.Shm.Kv.{
  Host, Kv, kv_init, leaf, Node, Tree, Eviction, update, node_queue_remove, touch, drop_node,
  get_locked, expire,
}
use ngx_wasm_module.Shm.Kv.Entries.{entries, assoc, Sorted, rbtree_lookup_lem, length-erase}
use ngx_wasm_module.Shm.Kv.Laws.{
  HostLaws, Stored, held, Stored-drop, held-drop, assoc-insert, Stored-insert, held-insert,
  Stored-write, held-write, update-same,
}
use ngx_wasm_module.Shm.Kv.Set.{alloc_loop, write_value, set_in_place, delete, find_node}

-- The abstract store: at most one value with its version under each hash.
abbrev pub View : Type 0
View = ℕ → Option (List ℕ × ℕ)

abbrev pub put : View → ℕ → Option (List ℕ × ℕ) → View
put m h o k = if k == h then o else m k

abbrev pub is_some {ℓ} : {A : Type ℓ} → Option A → Bool
is_some none = false
is_some (some a) = true

abbrev pub spec_version : Option (List ℕ × ℕ) → ℕ
spec_version none = 0
spec_version (some (v, c)) = c

abbrev pub in_place : Option (List ℕ × ℕ) → List ℕ → Bool
in_place none v = false
in_place (some (old, c)) v = leb (length v) (length old)

abbrev pub spec_write : Bool → View → ℕ → Option (List ℕ) → Rc × Option Bool × View
spec_write room m h none = (Rc.ok, some (is_some (m h)), put m h none)
spec_write room m h (some v) =
    if in_place (m h) v || room
    then (Rc.ok, some true, put m h (some (v, (spec_version (m h) + 1) % u32_mod)))
    else (Rc.error, none, m)

abbrev pub spec_set : Bool → View → ℕ → Option (List ℕ) → ℕ → Rc × Option Bool × View
spec_set room m h value cas =
    if cas == spec_version (m h) then spec_write room m h value else (Rc.ok, some false, m)

pub count_down : (x n : ℕ) → x + 1 ≡ n → sub64 (n % u64_mod) 1 ≡ x % u64_mod
count_down x n e = omega arith

pub count_up : (x n : ℕ) → x ≡ n + 1 → add64 (n % u64_mod) 1 ≡ x % u64_mod
count_up x n e = omega arith

module _ ⦃host : Host⦄ where
  open host use {Pool, calloc, free, owned, rb_insert, rb_delete, crc32, node_size}

  -- A store without eviction: its nodes are in order and counted.
  pub record IsKv (kv : Kv) : Type 0 where
    pub stored : Stored kv.pool kv.heap kv.tree
    pub counted : kv.nelts ≡ length (entries kv.tree) % u64_mod
    pub kept : kv.eviction ≡ Eviction.no_eviction

  abbrev pub view : Kv → View
  view kv = held kv.heap kv.tree

  -- A call that returns what the abstract store returns, and whose store shows the abstract one.
  pub record Outcome (call : Option (Rc × Option Bool × Kv)) (spec : Rc × Option Bool × View)
      : Type 0 where
    pub after : Kv
    pub returns : call ≡ some (spec.0, spec.1, after)
    pub shows : (k : ℕ) → view after k ≡ spec.2 k
    pub is_kv : IsKv after

  -- A new store without eviction is in order and holds nothing.
  pub kv_init_lem :
      (pool : Pool)
      → (kv : Kv) × (kv_init Eviction.no_eviction pool false ≡ (Rc.ok, some kv))
        × IsKv kv
        × ((k : ℕ) → view kv k ≡ none)
  unfolding kv_init held assoc entries Sorted
  kv_init_lem pool = (
    record {
      eviction = Eviction.no_eviction;
      pool = pool;
      heap = λ a. none;
      tree = leaf;
      nelts = 0;
      queues = [];
    },
    refl,
    record {
      stored = record { sorted = tt; live = λ h a e. ground (arith, e) };
      counted = refl;
      kept = refl;
    },
    λ k. refl,
  )

  pub find_node_lem :
      (kv : Kv) (h : ℕ)
      → IsKv kv
      → ((assoc h (entries kv.tree) ≡ none) × (find_node kv h ≡ some none))
        ⊎ ((a : ℕ) × (n : Node) × (assoc h (entries kv.tree) ≡ some a)
            × (kv.heap a ≡ some n)
            × (find_node kv h ≡ some (some (a, n))))
  unfolding find_node
  find_node_lem kv h w =
      let look = rbtree_lookup_lem 0 kv.tree h w.stored.sorted in
      elim (Option-cases (assoc h (entries kv.tree))) [
        | inl missing ↦ inl (missing, rw (find_node, look, missing) refl)
        | inr (a, at) ↦
            let (n, lives, is, own) = w.stored.live h a at in
            inr (a, n, at, lives, rw (find_node, look, at, lives) refl)
      ]

  pub node_queue_remove-kept : (kv : Kv) (a : ℕ) → IsKv kv → node_queue_remove kv a ≡ some kv
  unfolding node_queue_remove
  node_queue_remove-kept kv a w = rw w.kept refl

  touch-kept : (kv : Kv) (a : ℕ) (n : Node) → IsKv kv → touch kv a n ≡ some kv
  unfolding touch
  touch-kept kv a n w = rw w.kept refl

  -- The hash that a get looks for.
  abbrev pub hash_of : List ℕ → Option ℕ → ℕ
  hash_of key none = crc32 key
  hash_of key (some h) = h

  abbrev pub get_code : Option (List ℕ × ℕ) → Rc
  get_code none = Rc.declined
  get_code (some r) = Rc.ok

  -- Without eviction, a get returns the value and version that the store holds under the hash, or
  -- NGX_DECLINED where it holds none, and changes nothing.
  pub get_locked_lem :
      (kv : Kv) (key : List ℕ) (key_hash : Option ℕ)
      → IsKv kv
      → let m = view kv (hash_of key key_hash) in
        get_locked kv key key_hash ≡ some (get_code m, m, kv)
  unfolding get_locked held
  get_locked_lem kv key key_hash w =
      let look = rbtree_lookup_lem 0 kv.tree (hash_of key key_hash) w.stored.sorted in
      elim (Option-cases (assoc (hash_of key key_hash) (entries kv.tree))) [
        | inl missing ↦ rw (get_locked, look, held, missing) refl
        | inr (a, at) ↦
            let (n, lives, is, own) = w.stored.live (hash_of key key_hash) a at in
            rw (get_locked, look, held, at, lives, touch-kept kv a n w) refl
      ]

  pub delete_lem :
      (laws : HostLaws) (kv : Kv) (h a : ℕ) (n : Node)
      → IsKv kv
      → assoc h (entries kv.tree) ≡ some a
      → kv.heap a ≡ some n
      → Outcome (delete kv (some a)) (Rc.ok, some true, put (view kv) h none)
  unfolding delete drop_node
  delete_lem laws kv h a n w at lives = record {
    after = record (drop_node kv a) { nelts = sub64 kv.nelts 1 };
    returns = rw (node_queue_remove-kept kv a w, lives) refl;
    shows = λ k. held-drop laws kv.pool kv.heap kv.tree w.stored h a k at;
    is_kv = record {
      stored = Stored-drop laws kv.pool kv.heap kv.tree w.stored h a at;
      counted = rw w.counted (
          count_down (length (entries (rb_delete kv.tree a))) (length (entries kv.tree)) (
            rw (laws.delete_entries kv.tree h a w.stored.sorted at)
              (length-erase h a (entries kv.tree) at)));
      kept = w.kept;
    };
  }

  module _ (laws : HostLaws) (kv : Kv) (w : IsKv kv) (h a : ℕ) (n : Node)
      (at : assoc h (entries kv.tree) ≡ some a) (lives : kv.heap a ≡ some n) where
    pub set_in_place_lem :
        (value : List ℕ)
        → Outcome
            (set_in_place kv a n value)
            (Rc.ok, some true, put (view kv) h (some (value, (n.cas + 1) % u32_mod)))
    unfolding set_in_place write_value
    set_in_place_lem value = record {
      after = write_value kv a n value;
      returns = rw (touch-kept kv a (record n { value = value }) w) refl;
      shows = λ k.
          held-write laws kv.pool kv.heap kv.tree w.stored h a n
            (record n { value = value; cas = (n.cas + 1) % u32_mod }) at lives refl k;
      is_kv = record {
        stored =
            Stored-write laws kv.pool kv.heap kv.tree w.stored h a n
              (record n { value = value; cas = (n.cas + 1) % u32_mod }) at lives refl;
        counted = w.counted;
        kept = w.kept;
      };
    }

  expire-kept :
      (kv : Kv) (size : ℕ) → kv.eviction ≡ Eviction.no_eviction → expire kv size ≡ some none
  unfolding expire
  expire-kept kv size kept = rw kept refl

  -- Without room, and with it.
  pub alloc_loop-full :
      (fuel : ℕ) (kv : Kv) (size : ℕ)
      → kv.eviction ≡ Eviction.no_eviction
      → calloc kv.pool size ≡ none
      → alloc_loop (suc fuel) kv size ≡ some (none, kv)
  unfolding alloc_loop
  alloc_loop-full fuel kv size kept e = rw (alloc_loop, e, expire-kept kv size kept) refl

  pub alloc_loop-room :
      (fuel : ℕ) (kv : Kv) (size a : ℕ) (p : Pool)
      → calloc kv.pool size ≡ some (a, p)
      → alloc_loop (suc fuel) kv size ≡ some (some a, record kv { pool = p })
  unfolding alloc_loop
  alloc_loop-room fuel kv size a p e = rw (alloc_loop, e) refl

  abbrev pub pair_size : List ℕ → List ℕ → ℕ
  pair_size key value = add64 (add64 node_size (length key)) (length value)

  -- A new node in a store that has none of its hash, once its block is granted.
  module _ (laws : HostLaws) (p : Pool) (heap : ℕ → Option Node) (t : Tree) (s : Stored p heap t)
      (a : ℕ) (n : Node) (absent : assoc n.key_hash (entries t) ≡ none)
      (unused : (k b : ℕ) → assoc k (entries t) ≡ some b → (b == a) ≡ false)
      (own : owned p a ≡ true) where
    grown : Stored p (update heap a (some n)) (rb_insert t n.key_hash a)
    grown = Stored-insert laws p heap t s a n absent unused own

    at_new : assoc n.key_hash (entries (rb_insert t n.key_hash a)) ≡ some a
    at_new = assoc-insert laws p heap t s n.key_hash a n.key_hash absent ∙ ground arith

    module _ (m : Node) (same_key : m.key_hash ≡ n.key_hash) where
      pub Stored-new :
          Stored p (update (update heap a (some n)) a (some m)) (rb_insert t n.key_hash a)
      Stored-new =
          Stored-write laws p (update heap a (some n)) (rb_insert t n.key_hash a) grown n.key_hash a
            n m at_new (update-same heap a a (some n) refl) same_key

      pub held-new :
          (k : ℕ)
          → held (update (update heap a (some n)) a (some m)) (rb_insert t n.key_hash a) k
            ≡ (if k == n.key_hash then some (m.value, m.cas) else held heap t k)
      held-new k =
          held-write laws p (update heap a (some n)) (rb_insert t n.key_hash a) grown n.key_hash a n
            m at_new (update-same heap a a (some n) refl) same_key k
          ∙ rw (held-insert laws p heap t s a n absent unused k) (ground arith)
