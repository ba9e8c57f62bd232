-- ===== src/Metrics/Histogram.antt =====
-- src/common/metrics/ngx_wa_histogram.c, with its constants and types of ngx_wa_metrics.h.
-- The flexible array `bins` is a list, whose length is `n_bins`. A pointer to a bin is its index.
-- What the slab allocator answers is an argument, and so is the platform's `memcpy`.
pub mod Bounds
pub mod Insert
pub mod Tally
pub mod Place
pub mod Record
pub mod Merge
pub mod Order
pub mod Add
mod Tests
use mathlib.Core.WellFounded.{Acc}
use mathlib.Core.Logic.{dite}
use native.Mathlib.Decide.{ℕ_discrete}
use Prim.Native.Nat.{min}
use ngx_wasm_module.Common.{
  ℕ, zero, suc, ◌+◌, ◌-◌, ◌*◌, ◌/◌, ◌%◌, ◌^◌, ◌<◌, ◌≤◌, ◌≢◌, Bool, true, false, ◌&&◌, Option, none,
  some, List, [], ◌∷◌, ◌++◌, arith, length, take, drop, replicate, modify, ltb, leb, ◌==◌,
  if◌then◌else◌, ◌>>=◌, Rc, u32_mod, u64_mod,
}
use ngx_wasm_module.Common.Order.{lt_wf}

-- `ngx_wa_metrics_bin_t`
pub record Bin : Type 0 where
  pub upper_bound : ℕ
  pub count : ℕ

pub data HistogramType : Type 0 where
  log2 custom : HistogramType

-- `ngx_wa_metrics_histogram_t`
pub record Histogram : Type 0 where
  pub h_type : HistogramType
  pub sum : ℕ
  pub bins : List Bin

-- `NGX_MAX_UINT32_VALUE` and the three `NGX_WA_METRICS_HISTOGRAM_BINS_*`
abbrev pub max_u32 : ℕ
max_u32 = 0xffffffff

abbrev pub bins_init : ℕ
bins_init = 5

abbrev pub bins_max : ℕ
bins_max = 18

abbrev pub bins_increment : ℕ
bins_increment = 4

-- A bin of a zeroed allocation.
abbrev pub zero_bin : Bin
zero_bin = record { upper_bound = 0; count = 0 }

-- `for (...; n >>= 1; upper_bound <<= 1)`
pub log2_loop : (n : ℕ) → ℕ → Acc ◌<◌ n → ℕ
log2_loop n upper_bound (Acc.intro _ smaller) =
    dite (ℕ_discrete (n / 2) 0) (λ _. upper_bound)
      (λ h. log2_loop (n / 2) (upper_bound * 2 % u32_mod) (smaller (n / 2) (omega arith)))

pub bin_log2_upper_bound : ℕ → ℕ
unfolding log2_loop lt_wf ℕ_discrete
bin_log2_upper_bound n =
    if leb n 1
    then 1
    else if ltb (max_u32 / 2) n
    then max_u32
    else log2_loop (n - 1) 2 (lt_wf.apply (n - 1))

-- `histogram_grow`; `none` for NGX_ERROR. The old bins are copied, the new ones are zero.
pub histogram_grow : Bool → List Bin → Option (List Bin)
histogram_grow room bins =
    if length bins == bins_max
    then none
    else if room
    then some (bins ++ replicate (min bins_increment (bins_max - length bins)) zero_bin)
    else none

-- `histogram_custom_bin`, from the index `i` on; `last` is the bin of the round before.
pub histogram_custom_from : ℕ → List Bin → ℕ → Option ℕ → Option ℕ
histogram_custom_from n [] i last = last
histogram_custom_from n (b ∷ bins) i last =
    if leb n b.upper_bound then some i else histogram_custom_from n bins (i + 1) (some i)

pub histogram_custom_bin : ℕ → List Bin → Option ℕ
unfolding histogram_custom_from
histogram_custom_bin n bins = histogram_custom_from n bins 0 none

-- How the loop of `histogram_log2_bin` ends: at the bin itself, or with its `i` and `j`.
pub data Scan : Type 0 where
  found : ℕ → Scan
  ended : ℕ → ℕ → Scan

pub log2_scan : ℕ → List Bin → ℕ → ℕ → Scan
log2_scan ub [] i j = ended i j
log2_scan ub (b ∷ bins) i j =
    let j' = if j == 0 && ltb ub b.upper_bound then i else j in
    if b.upper_bound == ub
    then found i
    else if b.upper_bound == max_u32
    then ended (i + 1) j'
    else log2_scan ub bins (i + 1) j'

-- `memcpy dst src n bins`: what the platform's `memcpy` makes of the array when it copies `n` bins
-- from the place `src` to the place `dst`. C leaves it undefined where the two regions overlap.
abbrev pub Memcpy : Type 0
Memcpy = ℕ → ℕ → ℕ → List Bin → List Bin

-- The shift of the bins `j` to `i - 1` one place up, and the new bin in the place `j`.
pub insert_bin : Memcpy → ℕ → ℕ → ℕ → List Bin → List Bin
insert_bin memcpy ub i j bins =
    modify (λ b. record { upper_bound = ub; count = 0 }) j (memcpy (j + 1) j (i - j) bins)

-- What `histogram_log2_bin` does where its loop found no bin.
pub place_bin : Memcpy → Bool → Bool → ℕ → ℕ → ℕ → List Bin → List Bin × ℕ
place_bin memcpy out room ub i j bins =
    if i == length bins
    then (elim (if out then histogram_grow room bins else none) [
      | none ↦ (bins, j)
      | some grown ↦ (insert_bin memcpy ub i j grown, j)
    ])
    else (insert_bin memcpy ub i j bins, j)

-- `histogram_log2_bin`: the bins and the index of the bin for `n`. `out` tells whether the
-- histogram may grow, `room` whether the slab has room for that.
pub histogram_log2_bin : Memcpy → Bool → Bool → ℕ → List Bin → List Bin × ℕ
histogram_log2_bin memcpy out room n bins = elim (log2_scan (bin_log2_upper_bound n) bins 0 0) [
  | found i ↦ (bins, i)
  | ended i j ↦ place_bin memcpy out room (bin_log2_upper_bound n) i j bins
]

abbrev add_count : ℕ → Bin → Bin
add_count c b = record b { count = (b.count + c) % u32_mod }

-- `ngx_wa_metrics_histogram_record`. `none` is the NULL bin of a histogram with no bins.
pub histogram_record : Memcpy → Bool → ℕ → Histogram → Option Histogram
histogram_record memcpy room n h = elim h.h_type [
  | log2 ↦
      let (bins, i) = histogram_log2_bin memcpy true room n h.bins in
      some (record {
        h_type = h.h_type;
        sum = (h.sum + n) % u64_mod;
        bins = modify (add_count 1) i bins;
      })
  | custom ↦ elim (histogram_custom_bin n h.bins) [
    | none ↦ none
    | some i ↦ some (record {
      h_type = h.h_type;
      sum = (h.sum + n) % u64_mod;
      bins = modify (add_count 1) i h.bins;
    })
  ]
]

-- One round of the inner loop of `ngx_wa_metrics_histogram_get`, for the bin `j` of a slot. A bin
-- that `out` has no place for is written behind its end, a fault.
pub merge_bin : Memcpy → HistogramType → Bin → ℕ → List Bin → Option (List Bin)
merge_bin memcpy log2 b j out =
    let (bins, i) = histogram_log2_bin memcpy false false b.upper_bound out in
    some (modify (add_count b.count) i bins)
merge_bin memcpy custom b j out =
    if ltb j (length out)
    then some (modify (λ o. add_count b.count (record o { upper_bound = b.upper_bound })) j out)
    else none

-- The inner loop, from the bin `j` on.
pub merge_bins : Memcpy → HistogramType → List Bin → ℕ → List Bin → Option (List Bin)
merge_bins memcpy t [] j out = some out
merge_bins memcpy t (b ∷ bins) j out = merge_bin memcpy t b j out >>= λ out'.
    let rest = merge_bins memcpy t bins (j + 1) out' in
    if b.upper_bound == max_u32 then some out' else rest

-- `ngx_wa_metrics_histogram_get` over the first `slots` slots; one that is not there is a fault.
pub histogram_get : Memcpy → ℕ → List Histogram → Histogram → Option Histogram
histogram_get memcpy zero hs out = some out
histogram_get memcpy (suc slots) [] out = none
histogram_get memcpy (suc slots) (h ∷ hs) out =
    merge_bins memcpy h.h_type h.bins 0 out.bins >>= λ bins.
    histogram_get memcpy slots hs (record out { sum = (out.sum + h.sum) % u64_mod; bins = bins })

-- The zeroed buffer of `n` bins that `ngx_wa_metrics_histogram_set_buffer` hands to it.
pub histogram_set_buffer : ℕ → Histogram
histogram_set_buffer n = record {
  h_type = log2;
  sum = 0;
  bins = modify (λ b. record b { upper_bound = max_u32 }) 0 (replicate n zero_bin);
}

-- A user-defined set of bins, and a last bin without bound.
abbrev pub bound_bins : List ℕ → List Bin
bound_bins [] = record { upper_bound = max_u32; count = 0 } ∷ []
bound_bins (u ∷ us) = record { upper_bound = u; count = 0 } ∷ bound_bins us

-- The histogram that `ngx_wa_metrics_histogram_add_locked` gives to one worker.
pub new_histogram : Option (List ℕ) → Histogram
new_histogram none = record {
  h_type = log2;
  sum = 0;
  bins = record { upper_bound = max_u32; count = 0 } ∷ replicate (bins_init - 1) zero_bin;
}
new_histogram (some bounds) = record { h_type = custom; sum = 0; bins = bound_bins bounds }

-- The pointer in a slot: NULL, to a histogram, to freed memory, or one that was freed when it
-- pointed to none.
pub data Slot : Type 0 where
  null freed bad_free : Slot
  held : Histogram → Slot

-- `ngx_slab_free_locked`
abbrev pub free_slot : Slot → Slot
free_slot (held h) = freed
free_slot _ = bad_free

-- `for (; i > 0; i--)`
pub free_slots : ℕ → List Slot → List Slot
free_slots zero slots = slots
free_slots (suc i) slots = free_slots i (modify free_slot i slots)

-- The loop over the workers, from `i` on; the list says for each whether the slab has room. At a
-- failed allocation the slots below `i` are freed.
pub add_slots : Option (List ℕ) → List Bool → ℕ → List Slot → Rc × List Slot
unfolding free_slots
add_slots bounds [] i slots = (Rc.ok, slots)
add_slots bounds (false ∷ rooms) i slots = (Rc.error, free_slots i (modify (λ _. null) i slots))
add_slots bounds (true ∷ rooms) i slots =
    add_slots bounds rooms (i + 1) (modify (λ _. held (new_histogram bounds)) i slots)

abbrev too_many_bins : Option (List ℕ) → Bool
too_many_bins none = false
too_many_bins (some bounds) = leb bins_max (length bounds)

-- `ngx_wa_metrics_histogram_add_locked`, from zeroed slots
pub histogram_add_locked : Option (List ℕ) → List Bool → Rc × List Slot
histogram_add_locked bounds rooms =
    let slots = replicate (length rooms) null in
    if too_many_bins bounds then (Rc.abort, slots) else add_slots bounds rooms 0 slots
