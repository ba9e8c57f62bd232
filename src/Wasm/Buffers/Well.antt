-- ===== src/Wasm/Buffers/Well.antt =====
-- Chains of ngx_wasm_util.c that are well formed.
use ngx_wasm_module.Common.{ℕ, ◌<◌, ◌≡◌, true, false, Option, List}
use ngx_wasm_module.Wasm.Buffers.{Links}
use ngx_wasm_module.Wasm.Buffers.Segments.{has, Distinct, Chain}
use ngx_wasm_module.Wasm.Buffers.Cut.{SomeSplit}
use ngx_wasm_module.Wasm.Buffers.Link.{Frees}

-- The chain has different links, none of them a free one, all used before; its full buffers come
-- first.
pub record WellChain (head : Option ℕ) (ps frees : List ℕ) (s : Links) : Type 0 where
  pub chain : Chain s.next head ps
  pub distinct : Distinct ps
  pub split : SomeSplit s.buf ps
  pub below : (a : ℕ) → has a ps ≡ true → a < s.top
  pub free : Frees frees s
  pub apart : (a : ℕ) → has a ps ≡ true → has a frees ≡ false
