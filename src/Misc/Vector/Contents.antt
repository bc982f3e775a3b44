-- ===== src/Misc/Vector/Contents.antt =====
-- A vector holds what a list would, and its memory always has room for it.
use esp_iot_framework.Prelude.{
  ℕ, zero, suc, ◌+◌, ◌-◌, ◌≤◌, ◌<◌, max, ◌≡◌, refl, sym, ap, ap₂, ◌∙◌, inl, inr, some, List, [],
  ◌∷◌, ◌++◌, arith, ltb, leb, ◌==◌, if◌then◌else◌, ltb→lt, leb→le, ==_iff, Bool-cases, length, take,
  replicate, length-append, length-take, take-all, append-nil, append_assoc,
}
use esp_iot_framework.Misc.Vector.{
  Vector, reserve, new_size, grow_if_needed, push, drop_last, pop, pops, pushes, resize,
}

module _ {ℓ} {A : Type ℓ} where
  push_room :
      (v : Vector A) (value : A)
      → length v.values < v.capacity
      → push v value ≡ some (record v { values = v.values ++ value ∷ [] })
  unfolding push grow_if_needed
  push_room v value h = ground arith

  push_full :
      (v : Vector A) (value : A)
      → length v.values ≡ v.capacity
      → v.capacity < 4294967296 - 64
      → push v value
        ≡ some (record { capacity = new_size v.capacity; values = v.values ++ value ∷ [] })
  unfolding push grow_if_needed reserve
  push_full v value h k = ground arith

  length-drop_last : (xs : List A) → length (drop_last xs) ≡ length xs - 1
  length-drop_last [] = omega arith
  length-drop_last (x ∷ []) = omega arith
  length-drop_last (x ∷ y ∷ xs) = omega (arith, length-drop_last (y ∷ xs))

  take-drop_last : (n : ℕ) (xs : List A) → n < length xs → take n (drop_last xs) ≡ take n xs
  take-drop_last zero xs h = refl
  take-drop_last (suc n) [] h = refl
  take-drop_last (suc n) (x ∷ []) h = absurd (omega arith)
  take-drop_last (suc n) (x ∷ y ∷ xs) h =
      ap (λ zs. x ∷ zs) (take-drop_last n (y ∷ xs) (omega arith))

  -- `n` pops leave the first values.
  pub pops-lem :
      (n : ℕ) (v : Vector A)
      → n ≤ length v.values
      → pops n v ≡ record v { values = take (length v.values - n) v.values }
  unfolding pops pop
  pops-lem zero v h =
      ap (λ xs. record v { values = xs })
        (sym (take-all (length v.values - 0) v.values (omega arith)))
  pops-lem (suc n) v h =
      let shorter = length-drop_last v.values in
      let left : length (drop_last v.values) - n ≡ length v.values - suc n =
        omega (arith, shorter) in
      pops-lem n (pop v) (omega (arith, shorter))
      ∙ ap (λ xs. record v { values = xs })
          (rw left (take-drop_last (length v.values - suc n) v.values (omega arith)))

  pushes-step :
      (n : ℕ) (v v' : Vector A) (value : A)
      → push v value ≡ some v'
      → pushes (suc n) v value ≡ pushes n v' value
  unfolding pushes
  pushes-step n v v' value e = rw (e, pushes)

  -- `n` pushes that the memory has room for.
  pushes-lem :
      (n : ℕ) (v : Vector A) (value : A)
      → length v.values + n ≤ v.capacity
      → pushes n v value ≡ some (record v { values = v.values ++ replicate n value })
  unfolding pushes
  pushes-lem zero v value h = ap (λ xs. some (record v { values = xs })) (sym (append-nil v.values))
  pushes-lem (suc n) v value h =
      pushes-step n v (record v { values = v.values ++ value ∷ [] }) value
        (push_room v value (omega arith))
      ∙ pushes-lem n (record v { values = v.values ++ value ∷ [] }) value
          (omega (arith, length-append v.values (value ∷ [])))
      ∙ ap (λ xs. some (record v { values = xs }))
          (append_assoc v.values (value ∷ []) (replicate n value))

-- A value is pushed behind those that the vector holds, and the memory then has room for all of
-- them, if it had before and its capacity is at least 64 below 2 ^ 32.
push_appends {ℓ} :
    {A : Type ℓ} (v : Vector A) (value : A)
    → length v.values ≤ v.capacity
    → v.capacity < 4294967296 - 64
    → (v' : Vector A) × (push v value ≡ some v')
      × (v'.values ≡ v.values ++ value ∷ [])
      × (length v'.values ≤ v'.capacity)
push_appends v value h k =
    let longer = length-append v.values (value ∷ []) in
    elim (Bool-cases (ltb (length v.values) v.capacity)) [
      | inl room ↦ (
        record v { values = v.values ++ value ∷ [] },
        push_room v value (ltb→lt _ _ room),
        refl,
        omega (arith, longer, ltb→lt (length v.values) v.capacity room),
      )
      | inr full ↦
          let e : length v.values ≡ v.capacity = ground arith in
          (
            record { capacity = new_size v.capacity; values = v.values ++ value ∷ [] },
            push_full v value e k,
            refl,
            omega (arith, longer, e),
          )
    ]

resize-rounds {ℓ} :
    {A : Type ℓ} (v : Vector A) (n : ℕ) (value : A)
    → resize v n value ≡ (
        let v' = pops (length v.values - n) (reserve v n).1 in
        if n == length v.values then some v else pushes (n - length v'.values) v' value)
unfolding resize
resize-rounds v n value = refl

reserve-lem {ℓ} :
    {A : Type ℓ} (v : Vector A) (n : ℕ) → (reserve v n).1 ≡ record v { capacity = max v.capacity n }
unfolding reserve
reserve-lem v n = elim (Bool-cases (leb n v.capacity)) [
  | inl there ↦
      simp there (ap (λ c. record v { capacity = c }) (omega (arith, leb→le n v.capacity there)))
  | inr larger ↦ simp larger (ap (λ c. record v { capacity = c }) (ground (arith, larger)))
]

take-kept {ℓ} :
    {A : Type ℓ} (xs : List A) (n : ℕ) → take (length xs - (length xs - n)) xs ≡ take n xs
take-kept xs n = elim (Bool-cases (leb n (length xs))) [
  | inl short ↦
      let same : length xs - (length xs - n) ≡ n = omega (arith, leb→le n (length xs) short) in
      rw same
  | inr long ↦
      let all : length xs ≤ n = ground (arith, long) in
      take-all (length xs - (length xs - n)) xs (omega arith) ∙ sym (take-all n xs all)
]

-- A vector whose memory has room for its values, and that is resized, holds its first values, as
-- many as the new size has, and behind them the given value as often as is wanted. The memory grows
-- to the new size, if it was smaller, and never shrinks.
pub resize_lem {ℓ} :
    {A : Type ℓ} (v : Vector A) (n : ℕ) (value : A)
    → length v.values ≤ v.capacity
    → resize v n value
      ≡ some (record {
        capacity = max v.capacity n;
        values = take n v.values ++ replicate (n - length v.values) value;
      })
resize_lem {A = A} v n value h =
    let xs = v.values in
    let kept : Vector A = record { capacity = max v.capacity n; values = take n xs } in
    let cut = pops-lem (length xs - n) (record v { capacity = max v.capacity n }) (omega arith) in
    let added : n - length (take n xs) ≡ n - length xs = omega (arith, length-take n xs) in
    resize-rounds v n value
    ∙ rw (reserve-lem v n, cut, take-kept xs n, added)
        (elim (Bool-cases (n == length xs)) [
          | inl same ↦
              let e : n ≡ length xs = (==_iff _ _).0 same in
              let none_added : n - length xs ≡ 0 = omega arith in
              simp (same, none_added, take-all n xs (omega arith))
                (ap₂ (λ c ys. some (record { capacity = c; values = ys })) (omega arith)
                  (sym (append-nil xs)))
          | inr other ↦
              simp other (pushes-lem (n - length xs) kept value (omega (arith, length-take n xs)))
        ])
