-- ===== src/Base/Parameter.antt =====
-- base/parameter.h: the four kinds of parameter. Each keeps the memory that it points to, of
-- `sizeof(T)` bytes, or `_size` for a fixed string. A generated parameter keeps what its generator
-- returns when it is asked. Conversions between texts and numbers are the Arduino core's.
pub mod Laws
use esp_iot_framework.Prelude.{
  ℕ, ◌-◌, ◌≡◌, Bool, true, false, not, [], ◌∷◌, ltb, ◌==◌, if◌then◌else◌, length, take, replicate,
  Bytes, write_at, strnlen,
}

pub data Parameter : Type 0 where
  value : Bytes → Parameter
  complex : Bytes → Parameter
  fixed_string : Bytes → Parameter
  generated : Bytes → Parameter

-- `size()`
abbrev pub size_of : Parameter → ℕ
size_of (value m) = length m
size_of (complex m) = length m
size_of (fixed_string m) = length m
size_of (generated m) = length m

-- The memory that `get_value()` points to.
abbrev pub get_value : Parameter → Bytes
get_value (value m) = m
get_value (complex m) = m
get_value (fixed_string m) = m
get_value (generated m) = m

-- `memset(ptr + at, 0, n)`
abbrev zero_fill : Bytes → ℕ → ℕ → Bytes
zero_fill m at n = write_at m at (replicate n 0)

-- `bytes` is the memory behind `data`, which may go on behind the `size` bytes that are meant.
unfoldable pub set_value : Parameter → Bytes → ℕ → Bool × Parameter
set_value (value m) bytes size =
    if not (size == length m)
    then (false, value m)
    else (true, value (write_at m 0 (take (length m) bytes)))
set_value (complex m) bytes size =
    if not (size == length m)
    then (false, complex m)
    else (true, complex (write_at m 0 (take (length m) bytes)))
set_value (fixed_string m) bytes size =
    let copied = write_at m 0 (take (length m) bytes) in
    if ltb (length m) size then (false, fixed_string m) else (
      true,
      fixed_string
          (if ltb size (length m) then zero_fill copied size (length m - size) else copied),
    )
set_value (generated m) bytes size = (false, generated m)

-- What the Arduino core's `String` does for a parameter's C++ type, which its size alone does not
-- determine: `toInt`, `toFloat` or `toDouble`, as the memory of the number that they return for so many
-- bytes, and the text of a value.
pub record Conversions : Type 0 where
  pub to_number : ℕ → Bytes → Bytes
  pub to_text : Bytes → Bytes
  pub length-to_number : (n : ℕ) (text : Bytes) → length (to_number n text) ≡ n

module _ (c : Conversions) where
  unfoldable pub parse : Parameter → Bytes → Bool × Parameter
  parse (value m) text =
      if length text == 0
      then (false, value m)
      else (true, (set_value (value m) (c.to_number (length m) text) (length m)).1)
  parse (complex m) text = (false, complex m)
  parse (fixed_string m) text =
      if ltb (length m) (length text)
      then (false, fixed_string m)
      else set_value (fixed_string m) text (length text)
  parse (generated m) text = (false, generated m)

  -- "*Not supported*" for a complex parameter.
  unfoldable pub to_string : Parameter → Bytes
  to_string (value m) = c.to_text m
  to_string (complex m) =
      b'*' ∷ b'N' ∷ b'o' ∷ b't' ∷ b' ' ∷ b's' ∷ b'u' ∷ b'p' ∷ b'p' ∷ b'o' ∷ b'r' ∷ b't' ∷ b'e'
      ∷ b'd' ∷ b'*' ∷ []
  to_string (fixed_string m) = take (strnlen m (length m)) m
  to_string (generated m) = c.to_text m
