-- ===== src/Misc/CircularBuffer/Window.antt =====
-- The values from an index of a circular array on.
use esp_iot_framework.Prelude.{
  ℕ, zero, suc, ◌+◌, ◌-◌, ◌<◌, ◌≡◌, refl, ap, ap₂, ◌∙◌, ◌≢◌, List, [], ◌∷◌, ◌++◌, arith, ltb, leb,
  if◌then◌else◌, length, get_or, set, get_or-set_ne,
}

-- The index behind `i`, and the index `k` places on, round the end of the array.
abbrev pub after : ℕ → ℕ → ℕ
after size i = if leb size (i + 1) then 0 else i + 1

abbrev pub place : ℕ → ℕ → ℕ → ℕ
place size i k = if ltb (i + k) size then i + k else i + k - size

module _ {ℓ} {A : Type ℓ} (blank : A) where
  -- The `n` values from index `i` on.
  abbrev pub window : List A → ℕ → ℕ → ℕ → List A
  window buffer size i zero = []
  window buffer size i (suc n) = get_or buffer i blank ∷ window buffer size (after size i) n

  pub window-snoc :
      (buffer : List A) (size i n : ℕ)
      → i < size
      → n < size
      → window buffer size i (suc n)
        ≡ window buffer size i n ++ (get_or buffer (place size i n) blank ∷ [])
  window-snoc buffer size i zero h k = ap (λ j. get_or buffer j blank ∷ []) (ground arith)
  window-snoc buffer size i (suc n) h k =
      let p : place size (after size i) n ≡ place size i (suc n) = ground arith in
      ap (λ r. get_or buffer i blank ∷ r)
        (window-snoc buffer size (after size i) n (ground arith) (omega arith)
          ∙ ap (λ j. window buffer size (after size i) n ++ (get_or buffer j blank ∷ [])) p)

  -- A write behind a window leaves it alone.
  pub window-set :
      (buffer : List A) (size i n : ℕ) (value : A)
      → i < size
      → n < size
      → window (set buffer (place size i n) value) size i n ≡ window buffer size i n
  window-set buffer size i zero value h k = refl
  window-set buffer size i (suc n) value h k =
      let p : place size (after size i) n ≡ place size i (suc n) = ground arith in
      let rest = window-set buffer size (after size i) n value (ground arith) (omega arith) in
      ap₂ (λ a r. a ∷ r) (get_or-set_ne buffer (place size i (suc n)) i value blank (ground arith))
        (rw p at rest)

  pub length-window : (buffer : List A) (size i n : ℕ) → length (window buffer size i n) ≡ n
  length-window buffer size i zero = refl
  length-window buffer size i (suc n) = ap suc (length-window buffer size (after size i) n)

  pub window-pop :
      (buffer : List A) (size i n : ℕ)
      → n ≢ 0
      → window buffer size i n ≡ get_or buffer i blank ∷ window buffer size (after size i) (n - 1)
  window-pop buffer size i zero h = absurd (h refl)
  window-pop buffer size i (suc n) h =
      ap (λ m. get_or buffer i blank ∷ window buffer size (after size i) m) (omega arith)

  pub window-none : (buffer : List A) (size i n : ℕ) → n ≡ 0 → window buffer size i n ≡ []
  window-none buffer size i zero h = refl
  window-none buffer size i (suc n) h = absurd (omega arith)
