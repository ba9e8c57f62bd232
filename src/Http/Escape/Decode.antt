-- ===== src/Http/Escape/Decode.antt =====
-- ngx_http_wasm_escape.c: the length of what is written, and its decoding.
use ngx_wasm_module.Common.{
  ℕ, ◌+◌, ◌-◌, ◌*◌, ◌/◌, ◌%◌, ◌<◌, ◌≡◌, ◌∙◌, ap, refl, Bool, true, false, List, [], ◌∷◌, arith,
  length, ltb, ◌==◌, if◌then◌else◌, inl, inr, ◌||◌, some, none, Bool-cases,
}
use ngx_wasm_module.Http.Escape.{EscapeKind, is_escaped, hex, escape_count, escape, copy_escaped}

-- The bytes that the caller reserves, two more for each one counted, are the bytes written.
pub length-escape :
    (kind : EscapeKind) (src : List ℕ)
    → length (escape kind src) ≡ length src + 2 * escape_count kind src
unfolding escape escape_count
length-escape kind [] = refl
length-escape kind (c ∷ src) =
    let rest = length-escape kind src in
    elim (Bool-cases (is_escaped kind c)) [
      | inl e ↦ rw e (omega (arith, rest))
      | inr e ↦ rw e (omega (arith, rest))
    ]

abbrev pub AllBytes : List ℕ → Type 0
AllBytes [] = Unit {0}
AllBytes (c ∷ src) = (c < 256) × AllBytes src

-- Percent-decoding.
abbrev pub hex_value : ℕ → ℕ
hex_value d = if ltb d 65 then d - 48 else d - 55

pub unescape : List ℕ → List ℕ
unescape [] = []
unescape (c ∷ []) = c ∷ []
unescape (c ∷ d ∷ []) = c ∷ d ∷ []
unescape (c ∷ d ∷ e ∷ rest) =
    let skipped = unescape rest in
    let next = unescape (d ∷ e ∷ rest) in
    if c == 37 then (16 * hex_value d + hex_value e) ∷ skipped else c ∷ next

unescape_plain :
    (c : ℕ) (rest : List ℕ) → (c == 37) ≡ false → unescape (c ∷ rest) ≡ c ∷ unescape rest
unfolding unescape
unescape_plain c [] e = refl
unescape_plain c (d ∷ []) e = refl
unescape_plain c (d ∷ f ∷ rest) e = rw e refl

hex_value-hex : (n : ℕ) → n < 16 → hex_value (hex n) ≡ n
hex_value-hex n lt = ground arith

unescape_code :
    (c : ℕ) (rest : List ℕ)
    → c < 256
    → unescape (37 ∷ hex (c / 16) ∷ hex (c % 16) ∷ rest) ≡ c ∷ unescape rest
unfolding unescape
unescape_code c rest lt =
    let high = hex_value-hex (c / 16) (omega arith) in
    let low = hex_value-hex (c % 16) (omega arith) in
    ap (λ b. b ∷ unescape rest) (omega (arith, high, low))

not_percent :
    (kind : EscapeKind) (c : ℕ)
    → is_escaped kind 37 ≡ true
    → is_escaped kind c ≡ false
    → (c == 37) ≡ false
not_percent kind c p e = elim (Bool-cases (c == 37)) [
  | inl same ↦
      let is : c ≡ 37 = ground arith in
      let p' = ap (is_escaped kind) is ∙ p in ground (arith, p', e)
  | inr ne ↦ ne
]

-- Where the percent sign is escaped itself, decoding gives the bytes back.
pub unescape-escape :
    (kind : EscapeKind) (src : List ℕ)
    → is_escaped kind 37 ≡ true
    → AllBytes src
    → unescape (escape kind src) ≡ src
unfolding escape unescape
unescape-escape kind [] p b = refl
unescape-escape kind (c ∷ src) p b =
    let rest = unescape-escape kind src p b.1 in
    elim (Bool-cases (is_escaped kind c)) [
      | inl e ↦ rw e (unescape_code c (escape kind src) b.0 ∙ ap (◌∷◌ c) rest)
      | inr e ↦ rw e (unescape_plain c (escape kind src) (not_percent kind c p e) ∙ ap (◌∷◌ c) rest)
    ]

escape_nothing :
    (kind : EscapeKind) (src : List ℕ) → escape_count kind src ≡ 0 → escape kind src ≡ src
unfolding escape escape_count
escape_nothing kind [] none_left = refl
escape_nothing kind (c ∷ src) none_left = elim (Bool-cases (is_escaped kind c)) [
  | inl e ↦ ground (arith, e)
  | inr e ↦
      let none_after : escape_count kind src ≡ 0 = ground (arith, e) in
      rw e (ap (◌∷◌ c) (escape_nothing kind src none_after))
]

-- A string is copied in its escaped form; NULL is returned only where a byte is to be escaped and
-- the pool has no room.
pub copy_escaped_lem :
    (room : Bool) (kind : EscapeKind) (src : List ℕ)
    → copy_escaped room kind src
      ≡ (if room || escape_count kind src == 0 then some (escape kind src) else none)
unfolding copy_escaped
copy_escaped_lem room kind src = elim (Bool-cases (escape_count kind src == 0)) [
  | inl same ↦
      let nothing : escape_count kind src ≡ 0 = ground arith in
      rw (copy_escaped, same, escape_nothing kind src nothing) (ground arith)
  | inr some_left ↦ rw (copy_escaped, some_left) (ground arith)
]
