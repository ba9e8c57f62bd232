-- ===== src/Http/Escape/Tests.antt =====
-- Escaping of a few bytes, and the theorems there.
use ngx_wasm_module.Common.{
  ◌+◌, ◌*◌, ◌≡◌, refl, false, ◌||◌, ◌==◌, some, none, if◌then◌else◌, [], ◌∷◌, arith, length,
}
use ngx_wasm_module.Http.Escape.{
  uri, header_value, escape, escape_count, copy_escaped, is_escaped, escape_map,
}
use ngx_wasm_module.Http.Escape.Decode.{length-escape, unescape, unescape-escape, copy_escaped_lem}

-- `a b%` as a URI.
escaped : escape uri (97 ∷ 32 ∷ 98 ∷ 37 ∷ []) ≡ 97 ∷ 37 ∷ 50 ∷ 48 ∷ 98 ∷ 37 ∷ 50 ∷ 53 ∷ []
unfolding escape is_escaped escape_map
escaped = refl

escaped_length :
    length (escape uri (97 ∷ 32 ∷ 37 ∷ [])) ≡ 3 + 2 * escape_count uri (97 ∷ 32 ∷ 37 ∷ [])
escaped_length = length-escape uri (97 ∷ 32 ∷ 37 ∷ [])

unescape-escape_example : unescape (escape uri (97 ∷ 32 ∷ 37 ∷ [])) ≡ 97 ∷ 32 ∷ 37 ∷ []
unfolding is_escaped escape_map
unescape-escape_example =
    unescape-escape uri (97 ∷ 32 ∷ 37 ∷ []) refl (omega arith, (omega arith, (omega arith, tt)))

copied_header : copy_escaped false header_value (97 ∷ 10 ∷ []) ≡ (
    if false || escape_count header_value (97 ∷ 10 ∷ []) == 0
    then some (escape header_value (97 ∷ 10 ∷ []))
    else none)
copied_header = copy_escaped_lem false header_value (97 ∷ 10 ∷ [])
