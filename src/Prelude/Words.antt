-- ===== src/Prelude/Words.antt =====
-- Machine integers: `uint8_t`, `uint16_t`, and `unsigned long`, `uint32_t` and `size_t`, which are
-- 32 bits wide on the ESP32 and the ESP8266. A value is a number below the modulus of its type.
use Prim.Native.Nat.{ℕ, ◌+◌, ◌-◌, ◌*◌, ◌/◌, ◌%◌, ◌<◌}
use mathlib.Core.Path.{◌≡◌}
use mathlib.Core.List.{List, [], ◌∷◌}
use native.Mathlib.Omega.{arith}

abbrev pub u8_mod : ℕ
u8_mod = 256

abbrev pub u16_mod : ℕ
u16_mod = 65536

abbrev pub u32_mod : ℕ
u32_mod = 4294967296

-- `-1ul`, also `~0ul`.
abbrev pub u32_max : ℕ
u32_max = 4294967295

abbrev pub add32 : ℕ → ℕ → ℕ
add32 a b = (a + b) % u32_mod

-- `-` stops at 0, so the modulus is added first.
abbrev pub sub32 : ℕ → ℕ → ℕ
sub32 a b = (a + u32_mod - b) % u32_mod

-- The two bytes of a `uint16_t`, low byte first, as both chips store it.
abbrev pub le16 : ℕ → List ℕ
le16 n = n % u8_mod ∷ n / u8_mod % u8_mod ∷ []

abbrev pub of_le16 : ℕ → ℕ → ℕ
of_le16 lo hi = lo + u8_mod * hi

-- A delay measured by a clock that wraps is the delay itself, if it is below the clock's period.
pub sub32-add32 : (t d : ℕ) → t < u32_mod → d < u32_mod → sub32 (add32 t d) t ≡ d
sub32-add32 t d h k = omega arith
