-- ===== src/Misc/Vector/Lifetimes.antt =====
-- What a vector that is made from a list holds, and what is freed at its end.
use esp_iot_framework.Prelude.{
  ℕ, suc, ◌+◌, ◌-◌, ◌≡◌, refl, sym, ap, ap₂, ◌∙◌, false, none, some, List, [], ◌∷◌, ◌++◌, arith,
  leb, ◌==◌, length, set, take, replicate, length-append, append_assoc, if_false, take-all,
}
use esp_iot_framework.Misc.Vector.{
  Vector, empty, clear, filled, assign, assign_all, of_list, destroy,
}
use esp_iot_framework.Misc.Vector.Contents.{resize_lem, pops-lem}

module _ {ℓ} {A : Type ℓ} where
  set-behind : (xs ys : List A) (y z : A) → set (xs ++ y ∷ ys) (length xs) z ≡ xs ++ z ∷ ys
  set-behind [] ys y z = refl
  set-behind (x ∷ xs) ys y z = ap (λ zs. x ∷ zs) (set-behind xs ys y z)

  -- The loop when it has put `done`, and `todo` is as long as what is left of the first values.
  assign-lem :
      (todo done : List A) (d : A) (capacity : ℕ)
      → assign
          (record { capacity = capacity; values = done ++ replicate (length todo) d })
          (length done)
          todo
        ≡ some (record { capacity = capacity; values = done ++ todo })
  unfolding assign
  assign-lem [] done d capacity = refl
  assign-lem (x ∷ todo) done d capacity =
      let v : Vector A = record {
        capacity = capacity;
        values = done ++ replicate (suc (length todo)) d;
      } in
      let rest = assign-lem todo (done ++ x ∷ []) d capacity in
      let place : set (done ++ replicate (suc (length todo)) d) (length done) x
          ≡ (done ++ x ∷ []) ++ replicate (length todo) d =
        set-behind done (replicate (length todo) d) d x
        ∙ sym (append_assoc done (x ∷ []) (replicate (length todo) d)) in
      let next : length done + 1 ≡ length (done ++ x ∷ []) =
        omega (arith, length-append done (x ∷ [])) in
      let inside : leb (length (done ++ replicate (suc (length todo)) d)) (length done) ≡ false =
        let n = length-append done (replicate (suc (length todo)) d) in ground (arith, n) in
      if_false none
        (assign (record v { values = set v.values (length done) x }) (length done + 1) todo) inside
      ∙ ap₂ (λ vs i. assign (record { capacity = capacity; values = vs }) i todo) place next
      ∙ rest
      ∙ ap (λ vs. some (record { capacity = capacity; values = vs }))
          (append_assoc done (x ∷ []) todo)

  -- A vector that is made from an initializer list holds that list, and has no more room than for it.
  of_list_lem :
      (d : A) (xs : List A) → of_list d xs ≡ some (record { capacity = length xs; values = xs })
  unfolding of_list filled
  of_list_lem d xs =
      let n = length xs in
      let blanks : take n [] ++ replicate (n - 0) d ≡ replicate n d =
        ap₂ (λ vs k. vs ++ replicate k d) (take-all n [] (omega arith)) (omega arith) in
      ap (assign_all xs) (resize_lem empty n d (omega arith))
      ∙ ap₂ (λ c vs. assign (record { capacity = c; values = vs }) 0 xs) (omega arith) blanks
      ∙ assign-lem xs [] d n

  clear-lem : (v : Vector A) → clear v ≡ record v { values = [] }
  unfolding clear
  clear-lem v =
      let none_left : length v.values - length v.values ≡ 0 = omega arith in
      pops-lem (length v.values) v (omega arith)
      ∙ ap (λ k. record v { values = take k v.values }) none_left

  -- A vector is made from an initializer list that is not empty, and holds it with no more room than for
  -- it. The destructor frees that room; but if the vector was cleared before, it frees nothing, though
  -- the vector still has that room.
  pub cleared_vector_leaks :
      (d x : A) (xs : List A)
      → (v : Vector A) × (of_list d (x ∷ xs) ≡ some v)
        × (v.values ≡ x ∷ xs)
        × (destroy v ≡ (empty, suc (length xs)))
        × (destroy (clear v) ≡ (record { capacity = suc (length xs); values = [] }, 0))
  unfolding destroy
  cleared_vector_leaks d x xs =
      let v : Vector A = record { capacity = suc (length xs); values = x ∷ xs } in
      let some_held : (suc (length xs) == 0) ≡ false = ground arith in
      (
        v,
        of_list_lem d (x ∷ xs),
        refl,
        if_false (v, 0) (empty, suc (length xs)) some_held,
        ap destroy (clear-lem v),
      )
