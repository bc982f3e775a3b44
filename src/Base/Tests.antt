-- ===== src/Base/Tests.antt =====
-- The theorems about parameters at concrete ones.
use esp_iot_framework.Prelude.{
  ℕ, zero, suc, ◌≡◌, refl, true, [], ◌∷◌, arith, length, get_or, take, replicate, length-take,
  length-replicate, Bytes,
}
use esp_iot_framework.Base.Parameter.{fixed_string, set_value, Conversions}
use esp_iot_framework.Base.Parameter.Laws.{set_value_lem}

abbrev memory : Bytes
memory = 9 ∷ 9 ∷ 9 ∷ 9 ∷ []

abbrev text : Bytes
text = 104 ∷ 105 ∷ []

abbrev filled : Bytes
filled = 104 ∷ 105 ∷ 0 ∷ 0 ∷ []

set_value_lem_example :
    set_value (fixed_string memory) (104 ∷ 105 ∷ 7 ∷ []) 2 ≡ (true, fixed_string filled)
set_value_lem_example = set_value_lem (fixed_string memory) text (7 ∷ [])

-- A number is its text's length in its lowest byte.
pub length-lowest_byte : (n : ℕ) (b : ℕ) → length (take n (b ∷ replicate n 0)) ≡ n
length-lowest_byte zero b = refl
length-lowest_byte (suc n) b =
    ground (arith, length-take n (replicate {A = ℕ} (suc n) 0), length-replicate (suc n) zero)

abbrev pub conversions : Conversions
conversions = record {
  to_number = λ n t. take n (length t ∷ replicate n 0);
  to_text = λ m. get_or m 0 0 ∷ [];
  length-to_number = λ n t. length-lowest_byte n (length t);
}
