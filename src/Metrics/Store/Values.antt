-- ===== src/Metrics/Store/Values.antt =====
-- ngx_wa_metrics.c: what is read from a metric after it was updated.
use ngx_wasm_module.Common.{
  ℕ, zero, suc, ◌+◌, ◌-◌, ◌%◌, ◌<◌, ◌≡◌, ◌∙◌, ap, sym, refl, length-modify, Bool, true, false, some,
  List, [], ◌∷◌, arith, length, modify, ltb, ◌==◌, inl, inr, Bool-cases, lt→ltb, le→ltb, Rc,
  u64_mod, replicate,
}
use ngx_wasm_module.Metrics.Histogram.{Histogram, Memcpy}
use ngx_wasm_module.Metrics.Store.{
  Gauge, Metrics, counters, gauges, store, counter_from, get_counter, gauge_from, get_gauge,
  increment, record_value, get, counter_value, gauge_value,
}

-- The sum of the slots.
abbrev pub slots_sum : List ℕ → ℕ
slots_sum [] = 0
slots_sum (c ∷ slots) = c + slots_sum slots

counter_from_lem :
    (slots : List ℕ) (val : ℕ)
    → val < u64_mod
    → counter_from (length slots) slots val ≡ some ((val + slots_sum slots) % u64_mod)
unfolding counter_from
counter_from_lem [] val lt = ap some (omega arith)
counter_from_lem (c ∷ slots) val lt =
    counter_from_lem slots ((val + c) % u64_mod) (omega arith) ∙ ap some (omega arith)

-- Reading as many slots as there are yields their sum.
pub get_counter_lem :
    (workers : ℕ) (slots : List ℕ)
    → length slots ≡ workers
    → get_counter workers slots ≡ some (slots_sum slots % u64_mod)
unfolding get_counter
get_counter_lem workers slots e =
    ap (λ n. counter_from n slots 0) (sym e)
    ∙ counter_from_lem slots 0 (omega arith)
    ∙ ap some (omega arith)

slots_sum-modify :
    (n i : ℕ) (slots : List ℕ)
    → i < length slots
    → slots_sum (modify (λ c. (c + n) % u64_mod) i slots) % u64_mod
      ≡ (slots_sum slots + n) % u64_mod
slots_sum-modify n i [] lt = ground arith
slots_sum-modify n zero (c ∷ slots) lt = omega arith
slots_sum-modify n (suc i) (c ∷ slots) lt =
    let rest = slots_sum-modify n i slots (omega arith) in omega (arith, rest)

-- A counter with one slot for each worker reads as the sum of its slots modulo 2^64; an
-- increment by any process that has a slot adds to what every process reads, modulo 2^64, and
-- leaves the other metrics alone.
pub get-increment :
    (memcpy : Memcpy) (ms : Metrics) (slot mid n : ℕ) (slots : List ℕ) (out : Histogram)
    → ms.table mid ≡ some (counters slots)
    → length slots ≡ ms.workers
    → slot < length slots
    → (ms' : Metrics) × (increment ms slot mid n ≡ some (Rc.ok, ms'))
      × (get memcpy ms mid out ≡ some (Rc.ok, some (counter_value (slots_sum slots % u64_mod))))
      × (get memcpy ms' mid out
          ≡ some (Rc.ok, some (counter_value ((slots_sum slots + n) % u64_mod))))
      × ((k : ℕ) → (k == mid) ≡ false → get memcpy ms' k out ≡ get memcpy ms k out)
unfolding increment get
get-increment memcpy ms slot mid n slots out e size lt =
    let here : (mid == mid) ≡ true = ground arith in
    let sum = slots_sum-modify n slot slots lt in
    let change : ℕ → ℕ = λ c. (c + n) % u64_mod in
    let slots' = modify change slot slots in
    let value = get_counter_lem ms.workers slots' (length-modify change slot slots ∙ size) in
    (
      store ms mid (counters slots'),
      rw (increment, e, lt→ltb slot (length slots) lt) refl,
      rw (get, e, get_counter_lem ms.workers slots size) refl,
      rw (get, here, value, sum) refl,
      λ k ne. rw (get, ne) refl,
    )

pub slots_sum-replicate : (n : ℕ) → slots_sum (replicate n 0) ≡ 0
slots_sum-replicate zero = refl
slots_sum-replicate (suc n) = let rest = slots_sum-replicate n in omega (arith, rest)

-- All slots were updated before a time.
abbrev pub AllBefore : ℕ → List Gauge → Type 0
AllBefore now [] = Unit {0}
AllBefore now (g ∷ slots) = (g.last_update < now) × AllBefore now slots

gauge_from_old :
    (slots : List Gauge) (n now : ℕ)
    → AllBefore now slots
    → gauge_from (length slots) slots (record { value = n; last_update = now }) ≡ some n
unfolding gauge_from
gauge_from_old [] n now b = refl
gauge_from_old (g ∷ slots) n now b =
    rw (gauge_from, le→ltb now g.last_update (omega (arith, b.0))) (gauge_from_old slots n now b.1)

gauge_from-modify :
    (slots : List Gauge) (i n now : ℕ) (last : Gauge)
    → AllBefore now slots
    → last.last_update < now
    → i < length slots
    → gauge_from (length slots) (modify (λ g. record { value = n; last_update = now }) i slots) last
      ≡ some n
unfolding gauge_from
gauge_from-modify [] i n now last b l lt = ground arith
gauge_from-modify (g ∷ slots) zero n now last b l lt =
    rw (gauge_from, lt→ltb last.last_update now l) (gauge_from_old slots n now b.1)
gauge_from-modify (g ∷ slots) (suc i) n now last b l lt =
    elim (Bool-cases (ltb last.last_update g.last_update)) [
      | inl e ↦ rw (gauge_from, e) (gauge_from-modify slots i n now g b.1 b.0 (omega arith))
      | inr e ↦ rw (gauge_from, e) (gauge_from-modify slots i n now last b.1 l (omega arith))
    ]

get_gauge-modify :
    (slots : List Gauge) (i n now : ℕ)
    → AllBefore now slots
    → i < length slots
    → get_gauge (length slots) (modify (λ g. record { value = n; last_update = now }) i slots)
      ≡ some n
unfolding get_gauge
get_gauge-modify [] i n now b lt = ground arith
get_gauge-modify (g ∷ slots) zero n now b lt =
    let rest : suc (length slots) - 1 ≡ length slots = omega arith in
    rw rest (gauge_from_old slots n now b.1)
get_gauge-modify (g ∷ slots) (suc i) n now b lt =
    let rest : suc (length slots) - 1 ≡ length slots = omega arith in
    rw rest (gauge_from-modify slots i n now g b.1 b.0 (omega arith))

-- A gauge with one slot for each worker reads as the value recorded last by any process that has
-- a slot, if no slot was updated in the same millisecond or later; the other metrics are left
-- alone.
pub get-record_value :
    (memcpy : Memcpy) (room : Bool) (ms : Metrics) (now slot mid n : ℕ) (slots : List Gauge)
    (out : Histogram)
    → ms.table mid ≡ some (gauges slots)
    → length slots ≡ ms.workers
    → AllBefore now slots
    → slot < length slots
    → (ms' : Metrics) × (record_value memcpy room now ms slot mid n ≡ some (Rc.ok, ms'))
      × (get memcpy ms' mid out ≡ some (Rc.ok, some (gauge_value n)))
      × ((k : ℕ) → (k == mid) ≡ false → get memcpy ms' k out ≡ get memcpy ms k out)
unfolding record_value get
get-record_value memcpy room ms now slot mid n slots out e size before lt =
    let here : (mid == mid) ≡ true = ground arith in
    let slots' = modify (λ (g : Gauge). record { value = n; last_update = now }) slot slots in
    let value : get_gauge ms.workers slots' ≡ some n =
      ap (λ k. get_gauge k slots') (sym size) ∙ get_gauge-modify slots slot n now before lt in
    (
      store ms mid (gauges slots'),
      rw (record_value, e, lt→ltb slot (length slots) lt) refl,
      rw (get, here, value) refl,
      λ k ne. rw (get, ne) refl,
    )
