-- ===== src/Http/Escape.antt =====
-- src/http/ngx_http_wasm_escape.c, and ngx_http_copy_escaped of src/http/ngx_http_wasm_util.c: percent-encoding of the bytes that a context does not admit.
pub mod Decode
mod Tests
use ngx_wasm_module.Common.{
  ℕ, ◌+◌, ◌*◌, ◌/◌, ◌%◌, ◌^◌, ◌≡◌, refl, Bool, true, false, Option, some, none, List, [], ◌∷◌,
  arith, length, get_or, ltb, ◌==◌, if◌then◌else◌, inl, inr, Bool-cases,
}

-- `ngx_http_wasm_escape_kind`
pub data EscapeKind : Type 0 where
  uri uri_component args header_name header_value : EscapeKind

-- The bit maps, 32 bytes of the character set in each word.
pub escape_map : EscapeKind → List ℕ
escape_map uri =
    0xffffffff ∷ 0x80000029 ∷ 0x00000000 ∷ 0x80000000 ∷ 0xffffffff ∷ 0xffffffff ∷ 0xffffffff
    ∷ 0xffffffff ∷ []
escape_map uri_component =
    0xffffffff ∷ 0xfc00987d ∷ 0x78000001 ∷ 0xb8000001 ∷ 0xffffffff ∷ 0xffffffff ∷ 0xffffffff
    ∷ 0xffffffff ∷ []
escape_map args =
    0xffffffff ∷ 0x80000829 ∷ 0x00000000 ∷ 0x80000000 ∷ 0xffffffff ∷ 0xffffffff ∷ 0xffffffff
    ∷ 0xffffffff ∷ []
escape_map header_name =
    0xffffffff ∷ 0xfc009305 ∷ 0x38000001 ∷ 0xa8000000 ∷ 0xffffffff ∷ 0xffffffff ∷ 0xffffffff
    ∷ 0xffffffff ∷ []
escape_map header_value =
    0xfffffdff ∷ 0x00000000 ∷ 0x00000000 ∷ 0x80000000 ∷ 0x00000000 ∷ 0x00000000 ∷ 0x00000000
    ∷ 0x00000000 ∷ []

-- `escape[c >> 5] & (1 << (c & 0x1f))`
pub is_escaped : EscapeKind → ℕ → Bool
unfolding escape_map
is_escaped kind c = (get_or (escape_map kind) (c / 32) 0 / 2 ^ (c % 32)) % 2 == 1

-- `hex[]`
abbrev pub hex : ℕ → ℕ
hex n = if ltb n 10 then 48 + n else 55 + n

-- The call with no destination: how many bytes it escapes.
pub escape_count : EscapeKind → List ℕ → ℕ
escape_count kind [] = 0
escape_count kind (c ∷ src) =
    let rest = escape_count kind src in if is_escaped kind c then rest + 1 else rest

-- The call with a destination: what it writes there.
pub escape : EscapeKind → List ℕ → List ℕ
escape kind [] = []
escape kind (c ∷ src) =
    let rest = escape kind src in
    if is_escaped kind c then 37 ∷ hex (c / 16) ∷ hex (c % 16) ∷ rest else c ∷ rest

-- `ngx_http_copy_escaped`; `room` says whether the pool grants the copy.
pub copy_escaped : Bool → EscapeKind → List ℕ → Option (List ℕ)
copy_escaped room kind src =
    if escape_count kind src == 0 then some src else if room then some (escape kind src) else none
