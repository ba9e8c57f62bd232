-- ===== src/Common/Codes.antt =====
-- nginx's return codes, and the unsigned machine words of the C code.
use Prim.Native.Nat.{ℕ, ◌+◌, ◌-◌, ◌%◌, ◌^◌}

pub data Rc : Type 0 where
  ok error again busy done declined abort : Rc

-- The moduli of `uint32_t` and of the 64-bit `size_t`, `ngx_uint_t`.
abbrev pub u32_mod : ℕ
u32_mod = 2 ^ 32

abbrev pub u64_mod : ℕ
u64_mod = 2 ^ 64

abbrev pub add64 : ℕ → ℕ → ℕ
add64 a b = (a + b) % u64_mod

-- `-` on ℕ stops at 0, so the modulus is added first.
abbrev pub sub64 : ℕ → ℕ → ℕ
sub64 a b = (a + u64_mod - b) % u64_mod
