-- ===== src/Shm/Kv/Evict.antt =====
-- ngx_wa_shm_kv_set_locked with LRU eviction: the loop that makes room ends.
use ngx_wasm_module.Common.{
  ℕ, zero, suc, ◌+◌, ◌<◌, ◌≡◌, ◌⊎◌, inl, inr, refl, sym, ap, ◌∙◌, Bool, true, false, ◌||◌, Option,
  none, some, List, [], ◌∷◌, arith, length, ◌==◌, if◌then◌else◌, ◌>>=◌, Bool-cases, sub64, get_or,
}
use ngx_wasm_module.Shm.Kv.{
  Host, Node, Kv, Eviction, evicting, linked, unlink, queue_last, queue_remove, update, drop_node,
  node_queue_remove, lru_expire, slru_expire, queue_expire, expire,
}
use ngx_wasm_module.Shm.Kv.Set.{alloc_loop, linked_nodes}

-- The nodes of a list are live, and none is linked twice.
abbrev pub Held : (ℕ → Option Node) → List ℕ → Type 0
Held heap [] = Unit {0}
Held heap (a ∷ q) = ((n : Node) × (heap a ≡ some n)) × (linked a q ≡ false) × Held heap q

queue_last-linked :
    (b : ℕ) (q : List ℕ) → (a : ℕ) × (queue_last (b ∷ q) ≡ some a) × (linked a (b ∷ q) ≡ true)
queue_last-linked b [] = (b, refl, ground arith)
queue_last-linked b (c ∷ q) =
    let (a, last, here) = queue_last-linked c q in (a, last, rw here (or_true (a == b)))
  where
    or_true : (x : Bool) → (x || true) ≡ true
    or_true x = ground arith

length-unlink : (a : ℕ) (q : List ℕ) → linked a q ≡ true → suc (length (unlink a q)) ≡ length q
length-unlink a [] h = absurd (ground arith)
length-unlink a (b ∷ q) h = elim (Bool-cases (a == b)) [
  | inl t ↦ rw t refl
  | inr f ↦ rw f (ap suc (length-unlink a q (ground arith)))
]

linked-unlink : (a b : ℕ) (q : List ℕ) → linked b q ≡ false → linked b (unlink a q) ≡ false
linked-unlink a b [] h = refl
linked-unlink a b (c ∷ q) h = elim (Bool-cases (a == c)) [
  | inl t ↦ rw t (ground arith)
  | inr f ↦ (let rest = linked-unlink a b q (ground arith) in rw f (ground (arith, rest, h)))
]

update-other : (heap : ℕ → Option Node) (a b : ℕ) → (b == a) ≡ false → update heap a none b ≡ heap b
update-other heap a b h = rw h refl

Held-other :
    (heap : ℕ → Option Node) (a : ℕ) (q : List ℕ)
    → linked a q ≡ false
    → Held heap q
    → Held (update heap a none) q
Held-other heap a [] h held = tt
Held-other heap a (b ∷ q) h ((n, live), once, held) = (
  (n, update-other heap a b (ground arith) ∙ live),
  once,
  Held-other heap a q (ground arith) held,
)

Held-unlink :
    (heap : ℕ → Option Node) (a : ℕ) (q : List ℕ)
    → linked a q ≡ true
    → Held heap q
    → Held (update heap a none) (unlink a q)
Held-unlink heap a [] h held = tt
Held-unlink heap a (b ∷ q) h ((n, live), once, held) = elim (Bool-cases (a == b)) [
  | inl t ↦
      (let same : b ≡ a = ground arith in
        rw t (Held-other heap a q (ap (λ x. linked x q) (sym same) ∙ once) held))
  | inr f ↦ rw f (
    (n, update-other heap a b (ground arith) ∙ live),
    linked-unlink a b q once,
    Held-unlink heap a q (ground arith) held,
  )
]

Held-get :
    (heap : ℕ → Option Node) (a : ℕ) (q : List ℕ)
    → linked a q ≡ true
    → Held heap q
    → (n : Node) × (heap a ≡ some n)
Held-get heap a [] h held = absurd (ground arith)
Held-get heap a (b ∷ q) h ((n, live), once, held) = elim (Bool-cases (a == b)) [
  | inl t ↦ (n, ap heap (ground arith) ∙ live)
  | inr f ↦ Held-get heap a q (ground arith) held
]

module _ ⦃host : Host⦄ where
  open host use {calloc}

  -- A store with LRU eviction whose list is `q`.
  pub record IsLru (kv : Kv) (q : List ℕ) : Type 0 where
    pub eviction : kv.eviction ≡ Eviction.lru
    pub queues : kv.queues ≡ q ∷ []
    pub held : Held kv.heap q

  expired : Kv → ℕ → List ℕ → Kv
  expired kv a q =
      (let gone = drop_node (record kv { queues = unlink a q ∷ [] }) a in
        record gone { nelts = sub64 gone.nelts 1 })

  unlink_lru :
      (kv : Kv) (a : ℕ) (q : List ℕ)
      → kv.eviction ≡ Eviction.lru
      → kv.queues ≡ q ∷ []
      → linked a q ≡ true
      → node_queue_remove kv a ≡ some (record kv { queues = unlink a q ∷ [] })
  unfolding node_queue_remove
  unlink_lru kv a q policy one here =
      let ev : evicting kv ≡ true =
        ap (λ e. elim e as (λ _. Bool) [ Eviction.no_eviction ↦ false | _ ↦ true ]) policy in
      let first : queue_remove a (q ∷ []) ≡ some (unlink a q ∷ []) = rw here refl in
      ap
        (λ (x : Bool).
          if x
          then (queue_remove a kv.queues >>= λ qs. some (record kv { queues = qs }))
          else some kv)
        ev
      ∙ ap (λ (x : Option (List (List ℕ))). x >>= λ qs. some (record kv { queues = qs }))
          (ap (queue_remove a) one ∙ first)

  queue_expire_lru :
      (kv : Kv) (a : ℕ) (q : List ℕ) (n : Node)
      → kv.eviction ≡ Eviction.lru
      → kv.queues ≡ q ∷ []
      → linked a q ≡ true
      → kv.heap a ≡ some n
      → queue_expire kv a ≡ some (expired kv a q)
  unfolding queue_expire expired
  queue_expire_lru kv a q n policy one here live =
      let kv1 : Kv = record kv { queues = unlink a q ∷ [] } in
      let gone : Kv = drop_node kv1 a in
      ap
        (λ (x : Option Kv). x >>= λ kv'. kv'.heap a >>= λ _.
          some (record (drop_node kv' a) { nelts = sub64 (drop_node kv' a).nelts 1 }))
        (unlink_lru kv a q policy one here)
      ∙ ap (λ (x : Option Node). x >>= λ _. some (record gone { nelts = sub64 gone.nelts 1 })) live

  expire_by : (kv : Kv) (size : ℕ) → kv.eviction ≡ Eviction.lru → expire kv size ≡ lru_expire kv
  unfolding expire
  expire_by kv size policy =
      ap
        (λ (e : Eviction). elim e as (λ _. Option (Option Kv)) [
          | Eviction.lru ↦ lru_expire kv
          | Eviction.slru ↦ slru_expire kv size
          | Eviction.no_eviction ↦ some none
        ])
        policy

  expire_lru :
      (kv : Kv) (size : ℕ) (a b : ℕ) (q : List ℕ) (n : Node)
      → kv.eviction ≡ Eviction.lru
      → kv.queues ≡ (b ∷ q) ∷ []
      → queue_last (b ∷ q) ≡ some a
      → linked a (b ∷ q) ≡ true
      → kv.heap a ≡ some n
      → expire kv size ≡ some (some (expired kv a (b ∷ q)))
  unfolding lru_expire
  expire_lru kv size a b q n policy one last here live =
      let oldest : queue_last (get_or kv.queues 0 []) ≡ some a =
        ap (λ qs. queue_last (get_or qs 0 [])) one ∙ last in
      expire_by kv size policy
      ∙ ap
          (λ (x : Option ℕ). elim x as (λ _. Option (Option Kv)) [
            | none ↦ some none
            | some c ↦ queue_expire kv c >>= λ kv'. some (some kv')
          ])
          oldest
      ∙ ap (λ (x : Option Kv). x >>= λ kv'. some (some kv'))
          (queue_expire_lru kv a (b ∷ q) n policy one here live)

  expire_empty :
      (kv : Kv) (size : ℕ)
      → kv.eviction ≡ Eviction.lru
      → kv.queues ≡ [] ∷ []
      → expire kv size ≡ some none
  unfolding lru_expire
  expire_empty kv size policy one =
      let oldest : queue_last (get_or kv.queues 0 []) ≡ none =
        ap (λ qs. queue_last (get_or qs 0 [])) one in
      expire_by kv size policy
      ∙ ap
          (λ (x : Option ℕ). elim x as (λ _. Option (Option Kv)) [
            | none ↦ some none
            | some c ↦ queue_expire kv c >>= λ kv'. some (some kv')
          ])
          oldest

  alloc_loop_full :
      (fuel : ℕ) (kv kv' : Kv) (size : ℕ)
      → calloc kv.pool size ≡ none
      → expire kv size ≡ some (some kv')
      → alloc_loop (suc fuel) kv size ≡ alloc_loop fuel kv' size
  unfolding alloc_loop
  alloc_loop_full fuel kv kv' size full more = rw (alloc_loop, full, more) refl

  alloc_loop_empty :
      (fuel : ℕ) (kv : Kv) (size : ℕ)
      → calloc kv.pool size ≡ none
      → expire kv size ≡ some none
      → alloc_loop (suc fuel) kv size ≡ some (none, kv)
  unfolding alloc_loop
  alloc_loop_empty fuel kv size full more = rw (alloc_loop, full, more) refl

  alloc_loop_granted :
      (fuel : ℕ) (kv : Kv) (size a : ℕ) (pool : host.Pool)
      → calloc kv.pool size ≡ some (a, pool)
      → alloc_loop (suc fuel) kv size ≡ some (some a, record kv { pool = pool })
  unfolding alloc_loop
  alloc_loop_granted fuel kv size a pool granted = rw (alloc_loop, granted) refl

  -- What the loop leaves: a block, or no node in the list.
  pub record Made (r : Option (Option ℕ × Kv)) : Type 0 where
    pub block : Option ℕ
    pub last : Kv
    pub left : List ℕ
    pub returns : r ≡ some (block, last)
    pub lru_list : IsLru last left
    pub failed : ((a : ℕ) × (block ≡ some a)) ⊎ (left ≡ [])

  expired-IsLru :
      (kv : Kv) (a : ℕ) (q : List ℕ)
      → IsLru kv q
      → linked a q ≡ true
      → IsLru (expired kv a q) (unlink a q)
  unfolding expired drop_node
  expired-IsLru kv a q l here = record {
    eviction = l.eviction;
    queues = refl;
    held = Held-unlink kv.heap a q here l.held;
  }

  alloc_loop-Made :
      (fuel : ℕ) (kv : Kv) (q : List ℕ) (size : ℕ)
      → IsLru kv q
      → length q < fuel
      → Made (alloc_loop fuel kv size)
  alloc_loop-Made zero kv q size l enough = absurd (omega arith)
  alloc_loop-Made (suc fuel) kv q size l enough =
      by_calloc (calloc kv.pool size) refl q l enough
        (λ kv' q' l' e'. alloc_loop-Made fuel kv' q' size l' e')
    where
      by_calloc :
          (c : Option (ℕ × host.Pool))
          → calloc kv.pool size ≡ c
          → (q : List ℕ) → IsLru kv q
          → length q < suc fuel
          → ((kv' : Kv) (q' : List ℕ)
              → IsLru kv' q'
              → length q' < fuel
              → Made (alloc_loop fuel kv' size))
          → Made (alloc_loop (suc fuel) kv size)
      by_calloc (some (a, pool)) eq q l enough next = record {
        block = some a;
        last = record kv { pool = pool };
        left = q;
        returns = alloc_loop_granted fuel kv size a pool eq;
        lru_list = record { eviction = l.eviction; queues = l.queues; held = l.held };
        failed = inl (a, refl);
      }
      by_calloc none eq [] l enough next = record {
        block = none;
        last = kv;
        left = [];
        returns = alloc_loop_empty fuel kv size eq (expire_empty kv size l.eviction l.queues);
        lru_list = l;
        failed = inr refl;
      }
      by_calloc none eq (b ∷ q) l enough next =
          let (a, last, here) = queue_last-linked b q in
          let (n, live) = Held-get kv.heap a (b ∷ q) here l.held in
          let shorter = length-unlink a (b ∷ q) here in
          let r =
            next (expired kv a (b ∷ q)) (unlink a (b ∷ q)) (expired-IsLru kv a (b ∷ q) l here)
              (omega (arith, shorter, enough)) in
          record {
            block = r.block;
            last = r.last;
            left = r.left;
            returns =
                alloc_loop_full fuel kv (expired kv a (b ∷ q)) size eq
                  (expire_lru kv size a b q n l.eviction l.queues last here live)
                ∙ r.returns;
            lru_list = r.lru_list;
            failed = r.failed;
          }

  -- With LRU eviction, the loop that makes room for a new node ends without a fault, whatever the
  -- pool grants, if the nodes of the list are live and none is linked twice: a set gives it one
  -- round more than there are linked nodes. It returns a block, or NGX_ERROR with no node left in
  -- the list, and what is left in the list is live.
  pub alloc_loop_lru_lem :
      (kv : Kv) (q : List ℕ) (size : ℕ)
      → IsLru kv q
      → Made (alloc_loop (suc (linked_nodes kv.queues)) kv size)
  alloc_loop_lru_lem kv q size l =
      let count : linked_nodes kv.queues ≡ length q + 0 = ap linked_nodes l.queues in
      alloc_loop-Made (suc (linked_nodes kv.queues)) kv q size l (omega (arith, count))
