-- ===== src/Base/Parameter/Laws.antt =====
-- What setting, parsing and printing a parameter do to its memory.
use esp_iot_framework.Prelude.{
  ℕ, zero, suc, ◌+◌, ◌-◌, ◌≤◌, ◌≡◌, refl, ap, Bool, true, false, [], ◌∷◌, ◌++◌, arith, ltb, leb,
  ◌==◌, if◌then◌else◌, length, take, replicate, length-append, length-replicate, take-all,
  take-append, Bytes, write_at, length-write_at, write_at-zero, drop-all, c_string, HasNoZero,
  strnlen-terminated, strnlen-all, append-nil,
}
use esp_iot_framework.Base.Parameter.{
  Parameter, value, complex, fixed_string, generated, size_of, set_value, Conversions, parse,
  to_string,
}

-- The sizes that a parameter takes data of.
abbrev pub accepts : Parameter → ℕ → Bool
accepts (value m) size = size == length m
accepts (complex m) size = size == length m
accepts (fixed_string m) size = leb size (length m)
accepts (generated m) size = false

abbrev pub with_memory : Parameter → Bytes → Parameter
with_memory (value m) bytes = value bytes
with_memory (complex m) bytes = complex bytes
with_memory (fixed_string m) bytes = fixed_string bytes
with_memory (generated m) bytes = generated bytes

-- The memory of a parameter that took the data: the data, with zeros behind a short text.
abbrev pub padded : ℕ → Bytes → Bytes
padded n text = text ++ replicate (n - length text) 0

size_of-set_value :
    (p : Parameter) (bytes : Bytes) (size : ℕ) → size_of (set_value p bytes size).1 ≡ size_of p
unfolding set_value
size_of-set_value (value m) bytes size = ground (arith, length-write_at m 0 (take (length m) bytes))
size_of-set_value (complex m) bytes size =
    ground (arith, length-write_at m 0 (take (length m) bytes))
size_of-set_value (fixed_string m) bytes size =
    let copied : Bytes = write_at m 0 (take (length m) bytes) in
    ground (
      arith,
      length-write_at m 0 (take (length m) bytes),
      length-write_at copied size (replicate (length m - size) 0),
    )
size_of-set_value (generated m) bytes size = refl

padded-full : (m d : Bytes) → length d ≡ length m → padded (length m) d ≡ d
padded-full m d e =
    let none_left : length m - length d ≡ 0 = omega arith in rw (none_left, append-nil)

-- `memcpy` of as many bytes as the memory has.
copy-full :
    (m d rest : Bytes) → length d ≡ length m → write_at m 0 (take (length m) (d ++ rest)) ≡ d
copy-full m d rest e = rw (
  ← e,
  take-append d rest,
  write_at-zero m d (omega arith),
  drop-all (length d) m (omega arith),
  append-nil,
)

-- `memcpy` of the whole memory's size, then zeros from the end of the text on.
fill_short :
    (m d rest : Bytes) (n : ℕ)
    → length d + n ≡ length m
    → write_at (write_at m 0 (take (length m) (d ++ rest))) (length d) (replicate n 0)
      ≡ d ++ replicate n 0
fill_short m [] rest n h =
    let copied : Bytes = write_at m 0 (take (length m) rest) in
    let size : length copied ≡ n = omega (arith, length-write_at m 0 (take (length m) rest)) in
    let zeros = length-replicate n (zero) in
    rw (
      write_at-zero copied (replicate n 0) (omega arith),
      drop-all (length (replicate {A = ℕ} n 0)) copied (omega arith),
      append-nil,
    )
fill_short [] (b ∷ d) rest n h = absurd (omega arith)
fill_short (x ∷ m) (b ∷ d) rest n h = ap (λ r. b ∷ r) (fill_short m d rest n (omega arith))

-- Data of a size that the parameter accepts replaces its memory, with zeros behind a text that is
-- shorter than the memory, whatever lies behind the data; data of any other size is refused and
-- changes nothing.
pub set_value_lem :
    (p : Parameter) (given rest : Bytes)
    → set_value p (given ++ rest) (length given) ≡ (
        if accepts p (length given)
        then (true, with_memory p (padded (size_of p) given))
        else (false, p))
unfolding set_value
set_value_lem (value m) d rest = ground (arith, copy-full m d rest, padded-full m d)
set_value_lem (complex m) d rest = ground (arith, copy-full m d rest, padded-full m d)
set_value_lem (fixed_string m) d rest =
    ground (arith, copy-full m d rest, padded-full m d, fill_short m d rest (length m - length d))
set_value_lem (generated m) d rest = refl

set_value-exact :
    (p : Parameter) (given : Bytes)
    → set_value p given (length given) ≡ (
        if accepts p (length given)
        then (true, with_memory p (padded (size_of p) given))
        else (false, p))
set_value-exact p given = rw append-nil at (set_value_lem p given [])

c_string-padded :
    (text : Bytes) (n : ℕ)
    → HasNoZero text
    → c_string (text ++ replicate n 0) (length (text ++ replicate {A = ℕ} n 0)) ≡ text
c_string-padded text zero z =
    rw (append-nil, strnlen-all text z, take-all (length text) text (omega arith))
c_string-padded text (suc n) z = rw (
  strnlen-terminated text (replicate n 0) (length (text ++ 0 ∷ replicate n 0)) z
      (omega (arith, length-append text (0 ∷ replicate n 0))),
  take-append text (0 ∷ replicate n 0),
)

-- A text that a fixed string accepts, without zeros in it, is printed as it was parsed.
to_string-parse :
    (c : Conversions) (m text : Bytes)
    → HasNoZero text
    → length text ≤ length m
    → to_string c (parse c (fixed_string m) text).1 ≡ text
unfolding parse to_string
to_string-parse c m text z h =
    let fits : leb (length text) (length m) ≡ true = ground arith in
    let not_long : ltb (length m) (length text) ≡ false = ground arith in
    rw (not_long, set_value-exact (fixed_string m) text, fits)
      (c_string-padded text (length m - length text) z)
