-- ===== src/ProxyWasm/Pairs/Tests.antt =====
-- Marshalling of a few pairs, and the theorems there.
use ngx_wasm_module.Common.{
  ◌%◌, ◌<◌, ◌≡◌, refl, true, none, some, [], ◌∷◌, ◌++◌, arith, length, u64_mod,
}
use ngx_wasm_module.ProxyWasm.Pairs.{
  Elt, pairs_count, pairs_size, pairs_marshal, marshalled, marshal_count, first_active, lengths,
  pair_contents, pairs_unmarshal,
}
use ngx_wasm_module.ProxyWasm.Pairs.Size.{pairs_size-marshal, pairs_marshal_overrun}
use ngx_wasm_module.ProxyWasm.Pairs.Unmarshal.{
  unhashed, pairs_unmarshal-pairs_marshal, pairs_unmarshal_overrun,
}
use ngx_wasm_module.Shm.Queue.{u32_bytes}

abbrev short_pair : Elt
short_pair = record { hash = 1; key = 97 ∷ []; value = 98 ∷ [] }

abbrev removed_pair : Elt
removed_pair = record { hash = 0; key = 120 ∷ []; value = [] }

abbrev long_pair : Elt
long_pair = record {
  hash = 1;
  key = 107 ∷ [];
  value = 1 ∷ 2 ∷ 3 ∷ 4 ∷ 5 ∷ 6 ∷ 7 ∷ 8 ∷ 9 ∷ 10 ∷ 11 ∷ 12 ∷ 13 ∷ 14 ∷ 15 ∷ 16 ∷ [];
}

written :
    pairs_marshal (removed_pair ∷ short_pair ∷ []) [] 0
    ≡ 1 ∷ 0 ∷ 0 ∷ 0 ∷ 1 ∷ 0 ∷ 0 ∷ 0 ∷ 1 ∷ 0 ∷ 0 ∷ 0 ∷ 97 ∷ 0 ∷ 98 ∷ 0 ∷ []
unfolding pairs_marshal marshalled marshal_count pairs_count first_active lengths pair_contents
written = refl

pairs_size-marshal_example :
    pairs_size (removed_pair ∷ short_pair ∷ long_pair ∷ []) [] 1
    ≡ length (pairs_marshal (removed_pair ∷ short_pair ∷ long_pair ∷ []) [] 1) % u64_mod
unfolding pairs_count
pairs_size-marshal_example =
    pairs_size-marshal (removed_pair ∷ short_pair ∷ long_pair ∷ []) 1 (omega arith)

pairs_marshal_overrun_example :
    pairs_size (short_pair ∷ short_pair ∷ []) (short_pair ∷ long_pair ∷ []) 2
    < length (pairs_marshal (short_pair ∷ short_pair ∷ []) (short_pair ∷ long_pair ∷ []) 2)
pairs_marshal_overrun_example =
    pairs_marshal_overrun short_pair short_pair short_pair long_pair refl refl (omega arith)
      (omega arith)

test_unmarshal :
    pairs_unmarshal true
      (λ i. true)
      (λ n. true)
      16
      (1 ∷ 0 ∷ 0 ∷ 0 ∷ 1 ∷ 0 ∷ 0 ∷ 0 ∷ 1 ∷ 0 ∷ 0 ∷ 0 ∷ 97 ∷ 0 ∷ 98 ∷ 0 ∷ [])
    ≡ some (some (record { hash = 0; key = 97 ∷ []; value = 98 ∷ [] } ∷ []))
unfolding pairs_unmarshal
test_unmarshal = refl

pairs_unmarshal-pairs_marshal_example :
    pairs_unmarshal true
      (λ i. true)
      (λ n. true)
      16
      (pairs_marshal (removed_pair ∷ short_pair ∷ []) (short_pair ∷ []) 1 ++ (5 ∷ []))
    ≡ some (
        some (
          unhashed (
            marshalled
              (marshal_count (removed_pair ∷ short_pair ∷ []) (short_pair ∷ []) 1)
              (removed_pair ∷ short_pair ∷ [])
              (short_pair ∷ []))))
unfolding pairs_count marshalled marshal_count first_active
pairs_unmarshal-pairs_marshal_example =
    pairs_unmarshal-pairs_marshal (λ i. true) (λ n. true) (λ i. refl) (λ n. refl)
      (removed_pair ∷ short_pair ∷ []) (short_pair ∷ []) 1 16 (5 ∷ []) (omega arith)
      (omega arith, omega arith, tt) (omega arith)

pairs_unmarshal_overrun_example :
    pairs_unmarshal true (λ i. true) (λ n. true) 4 (u32_bytes 3 ++ (0 ∷ [])) ≡ none
pairs_unmarshal_overrun_example =
    pairs_unmarshal_overrun (λ i. true) (λ n. true) 2 4 (0 ∷ []) refl (omega arith) (omega arith)
      (omega arith)
