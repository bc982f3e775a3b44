-- ===== src/Prelude/Memory.antt =====
-- Byte arrays and the C library's routines on them. Memory is a list of bytes; a routine that would
-- leave its destination writes what fits, so a theorem that needs the bound states it.
use Prim.Native.Nat.{ℕ, zero, suc, ◌+◌, ◌-◌, ◌<◌, ◌≤◌}
use mathlib.Core.Path.{◌≡◌, refl, ap}
use mathlib.Core.Logic.{◌≢◌}
use mathlib.Core.Bool.{◌&&◌}
use mathlib.Core.List.{List, [], ◌∷◌, ◌++◌}
use native.Mathlib.Omega.{arith}
use esp_iot_framework.Prelude.Tests.{◌==◌, if◌then◌else◌, ltb, leb}
use esp_iot_framework.Prelude.Lists.{length, get_or, set, take, drop}

abbrev pub Bytes : Type 0
Bytes = List ℕ

-- `memcpy(dst + at, src, length src)`.
abbrev pub write_at : Bytes → ℕ → Bytes → Bytes
write_at [] at src = []
write_at (d ∷ ds) zero [] = d ∷ ds
write_at (d ∷ ds) zero (b ∷ bs) = b ∷ write_at ds zero bs
write_at (d ∷ ds) (suc at) src = d ∷ write_at ds at src

-- `strnlen(s, n)`: the bytes before the first zero, and no more than `n`.
abbrev pub strnlen : Bytes → ℕ → ℕ
strnlen [] n = 0
strnlen (b ∷ bs) zero = 0
strnlen (b ∷ bs) (suc n) = if b == 0 then 0 else suc (strnlen bs n)

pub length-write_at :
    (dst : Bytes) (at : ℕ) (src : Bytes) → length (write_at dst at src) ≡ length dst
length-write_at [] at src = refl
length-write_at (d ∷ ds) zero [] = refl
length-write_at (d ∷ ds) zero (b ∷ bs) = ap suc (length-write_at ds zero bs)
length-write_at (d ∷ ds) (suc at) src = ap suc (length-write_at ds at src)

-- A write of as many bytes as the destination has room for replaces its beginning.
pub write_at-zero :
    (dst src : Bytes) → length src ≤ length dst → write_at dst 0 src ≡ src ++ drop (length src) dst
write_at-zero [] [] h = refl
write_at-zero [] (b ∷ bs) h = absurd (omega arith)
write_at-zero (d ∷ ds) [] h = refl
write_at-zero (d ∷ ds) (b ∷ bs) h = ap (λ r. b ∷ r) (write_at-zero ds bs (omega arith))

-- Each byte of the destination after a write.
pub get_or-write_at :
    (dst : Bytes) (at : ℕ) (src : Bytes) (j : ℕ)
    → j < length dst
    → get_or (write_at dst at src) j 0
      ≡ (if leb at j && ltb j (at + length src) then get_or src (j - at) 0 else get_or dst j 0)
get_or-write_at [] at src j h = absurd (omega arith)
get_or-write_at (d ∷ ds) zero [] j h = ground arith
get_or-write_at (d ∷ ds) zero (b ∷ bs) zero h = ground arith
get_or-write_at (d ∷ ds) zero (b ∷ bs) (suc j) h = ground (arith, get_or-write_at ds zero bs j)
get_or-write_at (d ∷ ds) (suc at) src zero h = ground arith
get_or-write_at (d ∷ ds) (suc at) src (suc j) h = ground (arith, get_or-write_at ds at src j)

pub get_or-drop : (n : ℕ) (xs : Bytes) (j : ℕ) → get_or (drop n xs) j 0 ≡ get_or xs (n + j) 0
get_or-drop zero xs j = ap (λ k. get_or xs k 0) (omega arith)
get_or-drop (suc n) [] j = ground arith
get_or-drop (suc n) (x ∷ xs) j = ground (arith, get_or-drop n xs j)

pub get_or-take : (n : ℕ) (xs : Bytes) (j : ℕ) → j < n → get_or (take n xs) j 0 ≡ get_or xs j 0
get_or-take zero xs j h = absurd (omega arith)
get_or-take (suc n) [] j h = refl
get_or-take (suc n) (x ∷ xs) zero h = refl
get_or-take (suc n) (x ∷ xs) (suc j) h = get_or-take n xs j (omega arith)

-- Arrays of one length are equal if they agree at every index.
pub bytes_ext :
    (xs ys : Bytes)
    → length xs ≡ length ys
    → ((j : ℕ) → j < length xs → get_or xs j 0 ≡ get_or ys j 0)
    → xs ≡ ys
bytes_ext [] [] e h = refl
bytes_ext [] (y ∷ ys) e h = absurd (omega arith)
bytes_ext (x ∷ xs) [] e h = absurd (omega arith)
bytes_ext (x ∷ xs) (y ∷ ys) e h =
    let rest = bytes_ext xs ys (omega arith) (λ j k. h (suc j) (omega arith)) in
    let first = h 0 (omega arith) in ground (arith, rest, first)

pub strnlen-le : (bs : Bytes) (n : ℕ) → strnlen bs n ≤ n
strnlen-le [] n = omega arith
strnlen-le (b ∷ bs) zero = omega arith
strnlen-le (b ∷ bs) (suc n) = ground (arith, strnlen-le bs n)

-- The text that a C string of at most `n` bytes holds.
abbrev pub c_string : Bytes → ℕ → Bytes
c_string s n = take (strnlen s n) s

abbrev pub HasNoZero : Bytes → Type 0
HasNoZero [] = Unit {0}
HasNoZero (b ∷ bs) = (b ≢ 0) × HasNoZero bs

-- A terminated text is read up to its terminator.
pub strnlen-terminated :
    (text rest : Bytes) (n : ℕ)
    → HasNoZero text
    → length text < n
    → strnlen (text ++ 0 ∷ rest) n ≡ length text
strnlen-terminated [] rest zero z h = refl
strnlen-terminated [] rest (suc n) z h = refl
strnlen-terminated (b ∷ text) rest zero z h = absurd (omega arith)
strnlen-terminated (b ∷ text) rest (suc n) z h = ground (arith, strnlen-terminated text rest n z.1)

-- A text that fills its memory is read whole.
pub strnlen-full :
    (text rest : Bytes) → HasNoZero text → strnlen (text ++ rest) (length text) ≡ length text
strnlen-full [] [] z = refl
strnlen-full [] (b ∷ rest) z = refl
strnlen-full (b ∷ text) rest z = ground (arith, strnlen-full text rest z.1)

-- Storing a text and its terminator behind one another.
pub set-write_at :
    (dst text : Bytes)
    → length text < length dst
    → set (write_at dst 0 text) (length text) 0 ≡ text ++ 0 ∷ drop (length text + 1) dst
set-write_at [] text h = absurd (omega arith)
set-write_at (d ∷ ds) [] h = refl
set-write_at (d ∷ ds) (b ∷ text) h = ground (arith, set-write_at ds text)

pub strnlen-all : (text : Bytes) → HasNoZero text → strnlen text (length text) ≡ length text
strnlen-all [] z = refl
strnlen-all (b ∷ text) z = ground (arith, strnlen-all text z.1)
