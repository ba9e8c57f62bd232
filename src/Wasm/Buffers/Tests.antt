-- ===== src/Wasm/Buffers/Tests.antt =====
-- Concrete runs of the operations on chains of buffers.
use ngx_wasm_module.Common.{
  ℕ, zero, suc, ◌≡◌, refl, true, Option, none, some, List, [], ◌∷◌, ◌++◌, arith, ◌==◌,
  if◌then◌else◌,
}
use ngx_wasm_module.Wasm.Buffers.{
  Links, ChainRc, temp_buf, chain_len, chain_clear, chain_prepend, chain_append, get_free_buf,
}
use ngx_wasm_module.Wasm.Buffers.Segments.{Chain, at_end, at_link, no_link, one_full}
use ngx_wasm_module.Wasm.Buffers.Cut.{some_split}
use ngx_wasm_module.Wasm.Buffers.Clear.{Keeps, chain_clear-Keeps}
use ngx_wasm_module.Wasm.Buffers.Link.{Frees, NewLink, get_free_buf-NewLink}
use ngx_wasm_module.Wasm.Buffers.Well.{WellChain}
use ngx_wasm_module.Wasm.Buffers.Prepend.{Prepended, chain_prepend-Prepended}
use ngx_wasm_module.Wasm.Buffers.Append.{Appended, chain_append-Appended}

-- Two buffers, the second of which ends the body, and a free link.
abbrev pub two_links : Links
two_links = record {
  next = λ a. if a == 0 then some 1 else none;
  buf = λ a.
      if a == 0
      then record (temp_buf 8 7) { bytes = 1 ∷ 2 ∷ 3 ∷ [] }
      else if a == 1
      then record (temp_buf 8 7) { bytes = 4 ∷ 5 ∷ []; last_buf = true; last_in_chain = true }
      else temp_buf 4 7;
  free = some 2;
  top = 3;
}

pub two_links-Chain : Chain two_links.next (some 0) (0 ∷ 1 ∷ [])
two_links-Chain = at_link (at_link at_end)

pub two_links-Frees : Frees (2 ∷ []) two_links
two_links-Frees = record {
  chain = at_link at_end;
  distinct = (refl, tt);
  below = λ a i. ground (arith, i);
}

pub two_links-WellChain : WellChain (some 0) (0 ∷ 1 ∷ []) (2 ∷ []) two_links
two_links-WellChain = record {
  chain = two_links-Chain;
  distinct = (refl, (refl, tt));
  split = some_split (one_full refl (one_full refl no_link));
  below = λ a i. ground (arith, i);
  free = two_links-Frees;
  apart = λ a i. ground (arith, i);
}

chain_clear-Keeps_example : Keeps 4 two_links (0 ∷ 1 ∷ []) (chain_clear 2 4 two_links (some 0))
chain_clear-Keeps_example =
    chain_clear-Keeps 2 4 two_links (some 0) (0 ∷ 1 ∷ []) two_links-Chain (refl, (refl, tt))
      (omega arith)

get_free_buf-NewLink_example : NewLink 6 (2 ∷ []) two_links (get_free_buf true 6 7 true two_links)
get_free_buf-NewLink_example = get_free_buf-NewLink 6 7 two_links (2 ∷ []) two_links-Frees

chain_append-Appended_example :
    Appended 3
      (9 ∷ 8 ∷ [])
      two_links
      (0 ∷ 1 ∷ [])
      (chain_append 2 true (9 ∷ 8 ∷ []) 3 7 (some 0) two_links)
chain_append-Appended_example =
    chain_append-Appended 3 7 (9 ∷ 8 ∷ []) two_links (some 0) (0 ∷ 1 ∷ []) (2 ∷ []) 2
      two_links-WellChain (omega arith)

chain_prepend-Prepended_example :
    Prepended (9 ∷ []) two_links (0 ∷ 1 ∷ []) (chain_prepend true (9 ∷ []) 7 (some 0) two_links)
chain_prepend-Prepended_example =
    chain_prepend-Prepended 7 9 [] two_links (some 0) (0 ∷ 1 ∷ []) (2 ∷ []) two_links-WellChain

chain_len_run : chain_len 2 two_links (some 0) ≡ some (5, true)
unfolding chain_len
chain_len_run = refl

-- The bytes that a chain leads to.
read_out : ℕ → Links → Option ℕ → List ℕ
read_out n s none = []
read_out zero s (some cl) = []
read_out (suc n) s (some cl) = let rest = read_out n s (s.next cl) in (s.buf cl).bytes ++ rest

abbrev read_appended : Option (ChainRc × Option ℕ × Links) → List ℕ
unfolding read_out
read_appended none = []
read_appended (some (rc, head, s)) = read_out 5 s head

append_run :
    read_appended (chain_append 2 true (9 ∷ 8 ∷ []) 4 7 (some 0) two_links)
    ≡ 1 ∷ 2 ∷ 3 ∷ 4 ∷ 9 ∷ 8 ∷ []
unfolding chain_append read_out
append_run = refl

-- An empty buffer of the same tag between two full ones: the bytes behind it are lost.
abbrev empty_between : Links
empty_between = record two_links {
  next = λ a. if a == 0 then some 2 else if a == 2 then some 1 else none;
  free = none;
}

lost_behind_empty :
    read_appended (chain_append 3 true (9 ∷ []) 5 7 (some 0) empty_between) ≡ 1 ∷ 2 ∷ 3 ∷ []
unfolding chain_append read_out
lost_behind_empty = refl

-- An empty buffer of another tag in front: all the bytes behind it are lost.
lost_behind_first :
    read_appended (
      chain_append 3 true (9 ∷ []) 5 8 (some 2) (record two_links {
        next = λ a. if a == 2 then some 0 else if a == 0 then some 1 else none;
        free = none;
      }))
    ≡ 9 ∷ []
unfolding chain_append read_out
lost_behind_first = refl
