-- ===== src/Shm/Kv/Laws.antt =====
-- ngx_wa_shm_kv.c: what nginx's allocator and tree do for the store, and the stores in order.
use ngx_wasm_module.Common.{
  ℕ, ◌≢◌, ◌≡◌, ◌∙◌, ap, sym, refl, true, false, not, ◌&&◌, ◌||◌, Option, none, some, List, arith,
  ◌==◌, if◌then◌else◌, ◌>>=◌, inl, inr, Bool-cases, Option-cases,
}
use ngx_wasm_module.Shm.Kv.{Host, Node, Tree, update}
use ngx_wasm_module.Shm.Kv.Entries.{
  entries, Sorted, assoc, ins, erase, Sorted-ins, assoc-ins, Sorted-erase, assoc-erase,
}

if_none :
    (k h : ℕ) (o : Option ℕ) (b : ℕ)
    → (if k == h then none else o) ≡ some b
    → (k ≢ h) × (o ≡ some b)
if_none k h o b e = ground arith

if_some :
    (k h a : ℕ) (o : Option ℕ) (b : ℕ)
    → (k == h) ≡ true
    → (if k == h then some a else o) ≡ some b
    → (b ≡ a) × (k ≡ h)
if_some k h a o b same e = ground arith

if_other :
    (k h a : ℕ) (o : Option ℕ) (b : ℕ)
    → (k == h) ≡ false
    → (if k == h then some a else o) ≡ some b
    → o ≡ some b
if_other k h a o b ne e = ground arith

pub update-same :
    (heap : ℕ → Option Node) (a b : ℕ) (n : Option Node) → b ≡ a → update heap a n b ≡ n
update-same heap a b n e = ground arith

module _ ⦃host : Host⦄ where
  open host use {Pool, calloc, free, owned, rb_insert, rb_delete}

  -- A block is granted once until it is given back; the tree keeps its entries in order.
  pub record HostLaws : Type 0 where
    pub calloc_fresh : (p p' : Pool) (size a : ℕ) → calloc p size ≡ some (a, p') → owned p a ≡ false
    pub calloc_owned :
        (p p' : Pool) (size a b : ℕ)
        → calloc p size ≡ some (a, p')
        → owned p' b ≡ ((b == a) || owned p b)
    pub free_owned : (p : Pool) (a b : ℕ) → owned (free p a) b ≡ (not (b == a) && owned p b)
    pub insert_entries :
        (t : Tree) (h a : ℕ)
        → Sorted 0 (entries t)
        → assoc h (entries t) ≡ none
        → entries (rb_insert t h a) ≡ ins h a (entries t)
    pub delete_entries :
        (t : Tree) (h a : ℕ)
        → Sorted 0 (entries t)
        → assoc h (entries t) ≡ some a
        → entries (rb_delete t a) ≡ erase a (entries t)

  -- The nodes of the tree are in order, and each is a block of the pool that holds its hash.
  pub record Stored (p : Pool) (heap : ℕ → Option Node) (t : Tree) : Type 0 where
    pub sorted : Sorted 0 (entries t)
    pub live :
        (h a : ℕ)
        → assoc h (entries t) ≡ some a
        → (n : Node) × (heap a ≡ some n) × (n.key_hash ≡ h) × (owned p a ≡ true)

  -- What the store holds under a hash: the value and its version.
  unfoldable pub held : (ℕ → Option Node) → Tree → ℕ → Option (List ℕ × ℕ)
  held heap t h = assoc h (entries t) >>= heap >>= λ n. some (n.value, n.cas)

  -- One address stands under one hash.
  Stored-one :
      (p : Pool) (heap : ℕ → Option Node) (t : Tree) (h k a : ℕ)
      → Stored p heap t
      → assoc h (entries t) ≡ some a
      → assoc k (entries t) ≡ some a
      → k ≡ h
  Stored-one p heap t h k a s e e' =
      let (n, at, is, _) = s.live h a e in
      let (n', at', is', _) = s.live k a e' in
      let same : n' ≡ n = cc in sym is' ∙ (ap (λ m. m.key_hash) same ∙ is)

  Stored-other :
      (p : Pool) (heap : ℕ → Option Node) (t : Tree) (h k a b : ℕ)
      → Stored p heap t
      → assoc h (entries t) ≡ some a
      → assoc k (entries t) ≡ some b
      → k ≢ h
      → (b == a) ≡ false
  Stored-other p heap t h k a b s e e' ne = elim (Bool-cases (b == a)) [
    | inl same ↦
        let b_is_a : b ≡ a = ground arith in
        let one = Stored-one p heap t h k a s e (e' ∙ ap some b_is_a) in ground (arith, ne one)
    | inr other ↦ other
  ]

  module _ (laws : HostLaws) (p : Pool) (heap : ℕ → Option Node) (t : Tree)
      (s : Stored p heap t) where
    pub assoc-drop :
        (h a k : ℕ)
        → assoc h (entries t) ≡ some a
        → assoc k (entries (rb_delete t a)) ≡ (if k == h then none else assoc k (entries t))
    assoc-drop h a k e =
        ap (assoc k) (laws.delete_entries t h a s.sorted e)
        ∙ assoc-erase 0 k h a (entries t) s.sorted e (λ j at. Stored-one p heap t h j a s e at)

    pub Stored-drop :
        (h a : ℕ)
        → assoc h (entries t) ≡ some a
        → Stored (free p a) (update heap a none) (rb_delete t a)
    Stored-drop h a e = record {
      sorted = rw (laws.delete_entries t h a s.sorted e) (Sorted-erase 0 a (entries t) s.sorted);
      live = λ k b at.
          let at' = sym (assoc-drop h a k e) ∙ at in
          let kept : (k ≢ h) × (assoc k (entries t) ≡ some b) =
            if_none k h (assoc k (entries t)) b at' in
          let other = Stored-other p heap t h k a b s e kept.1 kept.0 in
          let (n, lives, is, own) = s.live k b kept.1 in
          rw other (n, lives, is, laws.free_owned p a b ∙ rw (other, own) refl);
    }

    pub held-drop :
        (h a k : ℕ)
        → assoc h (entries t) ≡ some a
        → held (update heap a none) (rb_delete t a) k ≡ (if k == h then none else held heap t k)
    unfolding held
    held-drop h a k e = rw (assoc-drop h a k e) (elim (Bool-cases (k == h)) [
      | inl same ↦ rw same refl
      | inr ne ↦ rw ne (elim (Option-cases (assoc k (entries t))) [
        | inl missing ↦ rw missing refl
        | inr (b, at) ↦ rw (at, Stored-other p heap t h k a b s e at (ground arith)) refl
      ])
    ])

    pub assoc-insert :
        (h a k : ℕ)
        → assoc h (entries t) ≡ none
        → assoc k (entries (rb_insert t h a)) ≡ (if k == h then some a else assoc k (entries t))
    assoc-insert h a k e =
        ap (assoc k) (laws.insert_entries t h a s.sorted e) ∙ assoc-ins k h a (entries t) e

    module _ (a : ℕ) (n : Node) (absent : assoc n.key_hash (entries t) ≡ none)
        (unused : (k b : ℕ) → assoc k (entries t) ≡ some b → (b == a) ≡ false) where
      pub Stored-insert :
          owned p a ≡ true → Stored p (update heap a (some n)) (rb_insert t n.key_hash a)
      Stored-insert own = record {
        sorted =
            rw (laws.insert_entries t n.key_hash a s.sorted absent)
              (Sorted-ins 0 n.key_hash a (entries t) s.sorted (omega arith) absent);
        live = λ k b at. elim (Bool-cases (k == n.key_hash)) [
          | inl same ↦
              let (b_is, k_is) =
                if_some k n.key_hash a (assoc k (entries t)) b same
                  (sym (assoc-insert n.key_hash a k absent) ∙ at) in
              (n, update-same heap a b (some n) b_is, sym k_is, ap (owned p) b_is ∙ own)
          | inr ne ↦
              let there : assoc k (entries t) ≡ some b =
                if_other k n.key_hash a (assoc k (entries t)) b ne
                  (sym (assoc-insert n.key_hash a k absent) ∙ at) in
              let (m, lives, is, own') = s.live k b there in
              (m, rw (unused k b there) lives, is, own')
        ];
      }

      pub held-insert :
          (k : ℕ)
          → held (update heap a (some n)) (rb_insert t n.key_hash a) k
            ≡ (if k == n.key_hash then some (n.value, n.cas) else held heap t k)
      unfolding held
      held-insert k = rw (assoc-insert n.key_hash a k absent) (elim (Bool-cases (k == n.key_hash)) [
        | inl same ↦ rw same (rw (update-same heap a a (some n) refl) refl)
        | inr ne ↦ rw ne (elim (Option-cases (assoc k (entries t))) [
          | inl missing ↦ rw missing refl
          | inr (b, at) ↦ rw (at, unused k b at) refl
        ])
      ])

    not_fresh :
        (size a b : ℕ) (p' : Pool)
        → calloc p size ≡ some (a, p')
        → owned p b ≡ true
        → (b == a) ≡ false
    not_fresh size a b p' e own = elim (Bool-cases (b == a)) [
      | inl same ↦
          let b_is : b ≡ a = ground arith in
          let fresh = laws.calloc_fresh p p' size a e in
          let own' = ap (owned p) (sym b_is) ∙ own in ground (arith, own', fresh)
      | inr other ↦ other
    ]

    -- A block just granted is no node's.
    pub Stored-calloc :
        (size a : ℕ) (p' : Pool)
        → calloc p size ≡ some (a, p')
        → Stored p' heap t
          × (owned p' a ≡ true)
          × ((k b : ℕ) → assoc k (entries t) ≡ some b → (b == a) ≡ false)
    Stored-calloc size a p' e =
        let others = λ (k b : ℕ) (at : assoc k (entries t) ≡ some b).
          not_fresh size a b p' e (s.live k b at).3 in
        (
          record {
            sorted = s.sorted;
            live = λ k b at.
                let (n, lives, is, own) = s.live k b at in
                (n, lives, is, laws.calloc_owned p p' size a b e ∙ rw (own, others k b at) refl);
          },
          laws.calloc_owned p p' size a a e ∙ ground arith,
          others,
        )

    module _ (h a : ℕ) (n n' : Node) (at : assoc h (entries t) ≡ some a) (lives : heap a ≡ some n)
        (same_key : n'.key_hash ≡ n.key_hash) where
      key_at : n.key_hash ≡ h
      key_at =
          let (m, lives', is, _) = s.live h a at in
          let same : m ≡ n = cc in sym (ap (λ x. x.key_hash) same) ∙ is

      pub Stored-write : Stored p (update heap a (some n')) t
      Stored-write = record {
        sorted = s.sorted;
        live = λ k b at'. elim (Bool-cases (b == a)) [
          | inl same ↦
              let b_is : b ≡ a = ground arith in
              let k_is = Stored-one p heap t h k a s at (at' ∙ ap some b_is) in
              (
                n',
                update-same heap a b (some n') b_is,
                same_key ∙ (key_at ∙ sym k_is),
                (s.live k b at').3,
              )
          | inr other ↦ rw other (s.live k b at')
        ];
      }

      pub held-write :
          (k : ℕ)
          → held (update heap a (some n')) t k
            ≡ (if k == h then some (n'.value, n'.cas) else held heap t k)
      unfolding held
      held-write k = elim (Bool-cases (k == h)) [
        | inl same ↦
            let k_is : k ≡ h = ground arith in
            rw (same, k_is, at) (rw (update-same heap a a (some n') refl) refl)
        | inr ne ↦ rw ne (elim (Option-cases (assoc k (entries t))) [
          | inl missing ↦ rw missing refl
          | inr (b, at') ↦ rw (at', Stored-other p heap t h k a b s at at' (ground arith)) refl
        ])
      ]
