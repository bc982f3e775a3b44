-- ===== src/Network/Topics.antt =====
-- A `std::map` with texts for keys, in the order of the keys, as the Arduino core's `String` has it.
use esp_iot_framework.Prelude.{
  ◌≡◌, refl, ap, ap₂, ◌↔◌, inl, inr, Bool, true, false, ◌&&◌, ◌||◌, Option, none, some, List, [],
  ◌∷◌, arith, ltb, ◌==◌, if◌then◌else◌, Bool-cases, get_or, drop, Bytes,
}

unfoldable pub text_eq : Bytes → Bytes → Bool
text_eq [] [] = true
text_eq [] (y ∷ ys) = false
text_eq (x ∷ xs) [] = false
text_eq (x ∷ xs) (y ∷ ys) = (x == y) && text_eq xs ys

text_less : Bytes → Bytes → Bool
text_less xs [] = false
text_less [] (y ∷ ys) = true
text_less (x ∷ xs) (y ∷ ys) = ltb x y || ((x == y) && text_less xs ys)

pub text_eq_iff : (xs ys : Bytes) → (text_eq xs ys ≡ true) ↔ (xs ≡ ys)
unfolding text_eq
text_eq_iff [] [] = (λ e. refl, λ e. refl)
text_eq_iff [] (y ∷ ys) = (λ e. absurd (cc), λ e. absurd (cc))
text_eq_iff (x ∷ xs) [] = (λ e. absurd (cc), λ e. absurd (cc))
text_eq_iff (x ∷ xs) (y ∷ ys) =
    let ih = text_eq_iff xs ys in
    (
      λ e. ap₂ (λ z zs. z ∷ zs) (ground (arith, e)) (ih.0 (ground (arith, e))),
      λ e. ground (arith, ap (λ zs. get_or zs 0 0) e, ih.1 (ap (λ zs. drop 1 zs) e)),
    )

text_eq_sym : (xs ys : Bytes) → text_eq xs ys ≡ text_eq ys xs
unfolding text_eq
text_eq_sym [] [] = refl
text_eq_sym [] (y ∷ ys) = refl
text_eq_sym (x ∷ xs) [] = refl
text_eq_sym (x ∷ xs) (y ∷ ys) = ground (arith, text_eq_sym xs ys)

abbrev pub TopicMap {ℓ} : Type ℓ → Type ℓ
TopicMap V = List (Bytes × V)

module _ {ℓ} {V : Type ℓ} where
  -- `find`
  unfoldable pub find : Bytes → TopicMap V → Option V
  unfolding text_eq
  find k [] = none
  find k ((j, v) ∷ m) = if text_eq j k then some v else find k m

  -- `m[k] = v`
  unfoldable pub put : Bytes → V → TopicMap V → TopicMap V
  unfolding text_eq text_less
  put k v [] = (k, v) ∷ []
  put k v ((j, w) ∷ m) =
      if text_eq j k
      then (k, v) ∷ m
      else if text_less k j
      then (k, v) ∷ (j, w) ∷ m
      else (j, w) ∷ put k v m

  unfoldable pub topics : TopicMap V → List Bytes
  topics [] = []
  topics ((j, v) ∷ m) = j ∷ topics m

  pub find-put :
      (j k : Bytes) (v : V) (m : TopicMap V)
      → find j (put k v m) ≡ (if text_eq k j then some v else find j m)
  unfolding find put
  find-put j k v [] = refl
  find-put j k v ((i, w) ∷ m) = elim (Bool-cases (text_eq i k)) [
    | inl same ↦
        let e : i ≡ k = (text_eq_iff i k).0 same in
        rw (same, e) (elim (Bool-cases (text_eq k j)) [ inl y ↦ rw y | inr n ↦ rw n ])
    | inr other ↦ elim (Bool-cases (text_less k i)) [
      | inl before ↦ rw (other, before)
      | inr behind ↦ elim (Bool-cases (text_eq i j)) [
        | inl here ↦
            let e : i ≡ j = (text_eq_iff i j).0 here in
            rw (other, behind, here, ← e, text_eq_sym k i, other)
        | inr further ↦ rw (other, behind, further) (find-put j k v m)
      ]
    ]
  ]
