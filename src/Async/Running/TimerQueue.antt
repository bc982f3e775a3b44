-- ===== src/Async/Running/TimerQueue.antt =====
-- The order of the timer queue, and what of it is due.
use esp_iot_framework.Prelude.{
  ℕ, ◌≤◌, ◌≡◌, refl, ap, ◌∙◌, ◌⊎◌, inl, inr, true, false, some, List, [], ◌∷◌, arith, ltb,
  if◌then◌else◌, Bool-cases, length,
}
use esp_iot_framework.Async.SystemTimer.{TimerTask, SystemTimer, push, has_pending_task, take_timer}

module _ {ℓ} {A : Type ℓ} where
  abbrev AllFrom : ℕ → List (TimerTask A) → Type 0
  AllFrom n [] = Unit {0}
  AllFrom n (t ∷ ts) = (n ≤ t.timeout_at) × AllFrom n ts

  abbrev pub IsSorted : List (TimerTask A) → Type 0
  IsSorted [] = Unit {0}
  IsSorted (t ∷ ts) = AllFrom t.timeout_at ts × IsSorted ts

  -- The timers whose time is past.
  abbrev pub due : ℕ → List (TimerTask A) → List (TimerTask A)
  due now [] = []
  due now (t ∷ ts) = if ltb t.timeout_at now then t ∷ due now ts else due now ts

  AllFrom-mono : (m n : ℕ) (ts : List (TimerTask A)) → m ≤ n → AllFrom n ts → AllFrom m ts
  AllFrom-mono m n [] h a = tt
  AllFrom-mono m n (t ∷ ts) h a = (omega arith, AllFrom-mono m n ts h a.1)

  due-AllFrom : (now n : ℕ) (ts : List (TimerTask A)) → now ≤ n → AllFrom n ts → due now ts ≡ []
  due-AllFrom now n [] h a = refl
  due-AllFrom now n (t ∷ ts) h a =
      let late : ltb t.timeout_at now ≡ false = ground arith in rw late (due-AllFrom now n ts h a.1)

  -- A timer that is set keeps the queue in order, and is due only if its time is past.
  AllFrom-push :
      (n : ℕ) (t : TimerTask A) (ts : List (TimerTask A))
      → n ≤ t.timeout_at
      → AllFrom n ts
      → AllFrom n (push t ts)
  unfolding push
  AllFrom-push n t [] h a = (h, tt)
  AllFrom-push n t (x ∷ ts) h a = elim (Bool-cases (ltb t.timeout_at x.timeout_at)) [
    | inl first ↦ rw (first, push) (h, (a.0, a.1))
    | inr later ↦ rw (later, push) (a.0, AllFrom-push n t ts h a.1)
  ]

  push-IsSorted : (t : TimerTask A) (ts : List (TimerTask A)) → IsSorted ts → IsSorted (push t ts)
  unfolding push
  push-IsSorted t [] s = (tt, tt)
  push-IsSorted t (x ∷ ts) s = elim (Bool-cases (ltb t.timeout_at x.timeout_at)) [
    | inl first ↦
        rw (first, push)
          (let before : t.timeout_at ≤ x.timeout_at = ground arith in
            ((before, AllFrom-mono t.timeout_at x.timeout_at ts before s.0), (s.0, s.1)))
    | inr later ↦
        rw (later, push)
          (let before : x.timeout_at ≤ t.timeout_at = ground arith in
            (AllFrom-push x.timeout_at t ts before s.0, push-IsSorted t ts s.1))
  ]

  due-push :
      (now : ℕ) (t : TimerTask A) (ts : List (TimerTask A))
      → now ≤ t.timeout_at
      → due now (push t ts) ≡ due now ts
  unfolding push
  due-push now t [] h = ground arith
  due-push now t (x ∷ ts) h = ground (arith, due-push now t ts h)

  -- In an ordered queue nothing is due behind a timer that is not.
  pub due_none :
      (now : ℕ) (ts : List (TimerTask A))
      → IsSorted ts
      → has_pending_task now ts ≡ false
      → due now ts ≡ []
  unfolding has_pending_task
  due_none now [] s h = refl
  due_none now (t ∷ ts) s h =
      let late : now ≤ t.timeout_at = ground arith in
      rw h (due-AllFrom now t.timeout_at ts late s.0)

  pub timers_cases :
      (now : ℕ) (ts : List (TimerTask A))
      → (has_pending_task now ts ≡ false)
        ⊎ ((t : TimerTask A) × (us : List (TimerTask A)) × (ts ≡ t ∷ us)
            × (ltb t.timeout_at now ≡ true))
  unfolding has_pending_task
  timers_cases now [] = inl refl
  timers_cases now (t ∷ ts) = elim (Bool-cases (ltb t.timeout_at now)) [
    | inl past ↦ inr (t, ts, refl, past)
    | inr late ↦ inl late
  ]

pub take_timer_front {ℓ} :
    {A : Type ℓ} (now now' : ℕ) (s : SystemTimer A) (t : TimerTask A) (ts : List (TimerTask A))
    → s.timers ≡ t ∷ ts
    → ltb t.timeout_at now ≡ true
    → take_timer now now' s ≡ (some (t, has_pending_task now' ts), record s { timers = ts })
unfolding take_timer
take_timer_front now now' s t ts e past =
    ap (λ q. take_timer now now' (record s { timers = q })) e ∙ rw (past, take_timer) refl

pub due_front {ℓ} :
    {A : Type ℓ} (now : ℕ) (qs : List (TimerTask A)) (t : TimerTask A) (ts : List (TimerTask A))
    → qs ≡ t ∷ ts
    → ltb t.timeout_at now ≡ true
    → due now qs ≡ t ∷ due now ts
due_front now qs t ts e past = ap (λ q. due now q) e ∙ rw past refl

pub no_more {ℓ} : {A : Type ℓ} (xs : List A) → length xs ≤ 0 → xs ≡ []
no_more [] h = refl
no_more (x ∷ xs) h = absurd (omega arith)
