-- ===== src/Shm/Kv/Refine.antt =====
-- ngx_wa_shm_kv_set_locked without eviction refines a map of versioned values.
use ngx_wasm_module.Common.{
  ℕ, ◌+◌, ◌%◌, ◌≡◌, ◌∙◌, ap, sym, refl, Bool, true, false, Option, none, some, List, arith, length,
  leb, ◌==◌, if◌then◌else◌, inl, inr, Bool-cases, le→ltb, lt→ltb, leb→le, Option-cases, u64_mod,
  u32_mod, add64, Rc,
}
use ngx_wasm_module.Shm.Kv.{Host, Kv, Node, drop_node, update, node_queue_remove}
use ngx_wasm_module.Shm.Kv.Entries.{entries, assoc, length-ins, length-erase}
use ngx_wasm_module.Shm.Kv.Laws.{
  HostLaws, Stored, held, Stored-drop, held-drop, assoc-drop, Stored-calloc,
}
use ngx_wasm_module.Shm.Kv.Set.{
  find_node, linked_nodes, write_value, replace_old, new_node, set_new, delete, set_checked,
  version, set_locked,
}
use ngx_wasm_module.Shm.Kv.View.{
  View, put, spec_version, is_some, spec_write, spec_set, IsKv, view, Outcome, find_node_lem,
  count_up, delete_lem, set_in_place_lem, alloc_loop-full, alloc_loop-room, pair_size, Stored-new,
  held-new,
}

kept_at : (k h : ℕ) (o : Option ℕ) (b : ℕ) → (if k == h then none else o) ≡ some b → o ≡ some b
kept_at k h o b e = ground arith

put-same : (m : View) (h k : ℕ) → m h ≡ none → m k ≡ put m h none k
put-same m h k e = elim (Bool-cases (k == h)) [
  | inl same ↦ let k_is : k ≡ h = ground arith in rw same (ap m k_is ∙ e)
  | inr ne ↦ rw ne refl
]

module _ ⦃host : Host⦄ where
  open host use {Pool, calloc, free, owned, rb_insert, rb_delete, crc32, node_size}

  set_new-full :
      (kv : Kv) (key value : List ℕ) (old : Option ℕ)
      → IsKv kv
      → calloc kv.pool (pair_size key value) ≡ none
      → Outcome (set_new kv key value old) (Rc.error, none, view kv)
  unfolding set_new
  set_new-full kv key value old w e = record {
    after = kv;
    returns = rw (alloc_loop-full (linked_nodes kv.queues) kv (pair_size key value) w.kept e) refl;
    shows = λ k. refl;
    is_kv = w;
  }

  module _ (laws : HostLaws) (kv : Kv) (w : IsKv kv) (key value : List ℕ) (a : ℕ) (p : Pool)
      (granted : calloc kv.pool (pair_size key value) ≡ some (a, p)) where
    set_new-absent :
        assoc (crc32 key) (entries kv.tree) ≡ none
        → Outcome
            (set_new kv key value none)
            (Rc.ok, some true, put (view kv) (crc32 key) (some (value, 1)))
    unfolding set_new replace_old write_value
    set_new-absent absent =
        let (stored, own, unused) =
          Stored-calloc laws kv.pool kv.heap kv.tree w.stored (pair_size key value) a p granted in
        let n = new_node key value 0 in
        let m = new_node key value 1 in
        record {
          after = record kv {
            pool = p;
            nelts = add64 kv.nelts 1;
            tree = rb_insert kv.tree (crc32 key) a;
            heap = update (update kv.heap a (some n)) a (some m);
          };
          returns =
              rw
                (
                  alloc_loop-room (linked_nodes kv.queues) kv (pair_size key value) a p granted,
                  w.kept,
                )
                refl;
          shows = λ k. held-new laws p kv.heap kv.tree stored a n absent unused own m refl k;
          is_kv = record {
            stored = Stored-new laws p kv.heap kv.tree stored a n absent unused own m refl;
            counted = rw w.counted (
                count_up (length (entries (rb_insert kv.tree (crc32 key) a)))
                  (length (entries kv.tree))
                  (rw (laws.insert_entries kv.tree (crc32 key) a w.stored.sorted absent)
                    (length-ins (crc32 key) a (entries kv.tree))));
            kept = w.kept;
          };
        }

    module _ (b : ℕ) (o : Node) (at : assoc (crc32 key) (entries kv.tree) ≡ some b)
        (lives : kv.heap b ≡ some o) where
      set_new-replace :
          Outcome
            (set_new kv key value (some b))
            (Rc.ok, some true, put (view kv) (crc32 key) (some (value, (o.cas + 1) % u32_mod)))
      unfolding set_new replace_old write_value drop_node node_queue_remove
      set_new-replace =
          let (stored, own, unused) =
            Stored-calloc laws kv.pool kv.heap kv.tree w.stored (pair_size key value) a p granted in
          let n = new_node key value o.cas in
          let m = new_node key value ((o.cas + 1) % u32_mod) in
          let heap = update kv.heap b none in
          let t = rb_delete kv.tree b in
          let h = crc32 key in
          let dropped : Stored (free p b) heap t =
            Stored-drop laws p kv.heap kv.tree stored h b at in
          let gone = λ (k : ℕ). assoc-drop laws p kv.heap kv.tree stored h b k at in
          let absent : assoc h (entries t) ≡ none = gone h ∙ ground arith in
          let unused' = λ (k c : ℕ) (e : assoc k (entries t) ≡ some c).
            unused k c (kept_at k h (assoc k (entries kv.tree)) c (sym (gone k) ∙ e)) in
          let own' : owned (free p b) a ≡ true =
            laws.free_owned p b a ∙ ground (arith, unused h b at, own) in
          record {
            after = record kv {
              pool = free p b;
              tree = rb_insert t h a;
              heap = update (update heap a (some n)) a (some m);
            };
            returns =
                rw
                  (
                    alloc_loop-room (linked_nodes kv.queues) kv (pair_size key value) a p granted,
                    w.kept,
                    lives,
                  )
                  refl;
            shows = λ k.
                held-new laws (free p b) heap t dropped a n absent unused' own' m refl k
                ∙ rw (held-drop laws p kv.heap kv.tree stored h b k at) (ground arith);
            is_kv = record {
              stored = Stored-new laws (free p b) heap t dropped a n absent unused' own' m refl;
              counted =
                  w.counted
                  ∙ ap (λ x. x % u64_mod)
                      (sym (length-erase h b (entries kv.tree) at)
                        ∙ rw
                            (
                              laws.insert_entries t h a dropped.sorted absent,
                              length-ins h a (entries t),
                              laws.delete_entries kv.tree h b w.stored.sorted at,
                            )
                            refl);
              kept = w.kept;
            };
          }

  -- Whether the pool grants the block that a set of the value asks for.
  abbrev pub room : Kv → List ℕ → Option (List ℕ) → Bool
  room kv key none = false
  room kv key (some value) = is_some (calloc kv.pool (pair_size key value))

  view-absent : (kv : Kv) (h : ℕ) → assoc h (entries kv.tree) ≡ none → view kv h ≡ none
  unfolding held
  view-absent kv h e = rw (held, e) refl

  view-present :
      (kv : Kv) (h a : ℕ) (n : Node)
      → assoc h (entries kv.tree) ≡ some a
      → kv.heap a ≡ some n
      → view kv h ≡ some (n.value, n.cas)
  unfolding held
  view-present kv h a n e lives = rw (held, e, lives) refl

  module _ (laws : HostLaws) (kv : Kv) (w : IsKv kv) (key : List ℕ) where
    set_checked-absent :
        (value : Option (List ℕ))
        → assoc (crc32 key) (entries kv.tree) ≡ none
        → Outcome
            (set_checked kv key value none)
            (spec_write (room kv key value) (view kv) (crc32 key) value)
    unfolding set_checked delete
    set_checked-absent none e = rw (view-absent kv (crc32 key) e) (record {
      after = kv;
      returns = refl;
      shows = λ k. put-same (view kv) (crc32 key) k (view-absent kv (crc32 key) e);
      is_kv = w;
    })
    set_checked-absent (some value) e =
        rw (view-absent kv (crc32 key) e)
          (elim (Option-cases (calloc kv.pool (pair_size key value))) [
            | inl full ↦ rw full (set_new-full kv key value none w full)
            | inr ((a, p), granted) ↦ rw granted (set_new-absent laws kv w key value a p granted e)
          ])

    module _ (a : ℕ) (n : Node) (at : assoc (crc32 key) (entries kv.tree) ≡ some a)
        (lives : kv.heap a ≡ some n) where
      set_checked-present :
          (value : Option (List ℕ))
          → Outcome
              (set_checked kv key value (some (a, n)))
              (spec_write (room kv key value) (view kv) (crc32 key) value)
      unfolding set_checked
      set_checked-present none =
          rw (view-present kv (crc32 key) a n at lives)
            (delete_lem laws kv (crc32 key) a n w at lives)
      set_checked-present (some value) =
          rw (view-present kv (crc32 key) a n at lives)
            (elim (Bool-cases (leb (length value) (length n.value))) [
              | inl fits ↦
                  rw (fits, le→ltb (length n.value) (length value) (leb→le _ _ fits))
                    (set_in_place_lem laws kv w (crc32 key) a n at lives value)
              | inr longer ↦
                  rw (longer, lt→ltb (length n.value) (length value) (ground arith))
                    (elim (Option-cases (calloc kv.pool (pair_size key value))) [
                      | inl full ↦ rw full (set_new-full kv key value (some a) w full)
                      | inr ((b, p), granted) ↦
                          rw granted (set_new-replace laws kv w key value b p granted a n at lives)
                    ])
            ])

  by_version :
      (kv : Kv) (key : List ℕ) (value : Option (List ℕ)) (cas : ℕ) (found : Option (ℕ × Node))
      → IsKv kv
      → find_node kv (crc32 key) ≡ some found
      → spec_version (view kv (crc32 key)) ≡ version found
      → Outcome
          (set_checked kv key value found)
          (spec_write (room kv key value) (view kv) (crc32 key) value)
      → Outcome
          (set_locked kv key value cas)
          (spec_set (room kv key value) (view kv) (crc32 key) value cas)
  unfolding set_locked
  by_version kv key value cas found w e same written =
      rw (set_locked, e, same)
        (elim (Bool-cases (cas == version found)) [
          | inl due ↦ rw due written
          | inr stale ↦
              rw stale (record { after = kv; returns = refl; shows = λ k. refl; is_kv = w })
        ])

  -- Without eviction, a set or delete never faults, returns what the map of versioned values
  -- returns (`room` tells whether the pool grants the block that a longer value needs), and leaves
  -- a store in order that shows the map's values and counts its nodes.
  pub set_locked_refines :
      (laws : HostLaws) (kv : Kv) (key : List ℕ) (value : Option (List ℕ)) (cas : ℕ)
      → IsKv kv
      → Outcome
          (set_locked kv key value cas)
          (spec_set (room kv key value) (view kv) (crc32 key) value cas)
  set_locked_refines laws kv key value cas w = elim (find_node_lem kv (crc32 key) w) [
    | inl (missing, found) ↦
        by_version kv key value cas none w found
          (ap spec_version (view-absent kv (crc32 key) missing))
          (set_checked-absent laws kv w key value missing)
    | inr (a, n, at, lives, found) ↦
        by_version kv key value cas (some (a, n)) w found
          (ap spec_version (view-present kv (crc32 key) a n at lives))
          (set_checked-present laws kv w key a n at lives value)
  ]
