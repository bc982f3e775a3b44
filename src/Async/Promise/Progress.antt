-- ===== src/Async/Promise/Progress.antt =====
-- No operation unsettles a promise, and what is dispatched belongs to promises that are settled.
use esp_iot_framework.Prelude.{
  ℕ, zero, suc, ◌≡◌, refl, sym, subst, ◌∙◌, ◌⊎◌, inl, inr, Bool, true, false, ◌&&◌, List, [], ◌∷◌,
  ◌++◌, arith, ltb, ◌==◌, if◌then◌else◌, ==_refl, Bool-cases, if_false, length, get_or, drop,
}
use esp_iot_framework.Async.Dispatcher.{dispatch}
use esp_iot_framework.Async.World.{
  Callback, Promise, blank_promise, Task, World, promise_at, put_promise, notify,
}
use esp_iot_framework.Async.Promise.{
  notify_all, on_promise_finished, finish, set_success, on_finished,
}
use esp_iot_framework.Async.Promise.Effects.{get_or-set}

get_or-outside {ℓ} :
    {A : Type ℓ} (xs : List A) (i : ℕ) (d : A) → ltb i (length xs) ≡ false → get_or xs i d ≡ d
get_or-outside [] i d h = refl
get_or-outside (x ∷ xs) zero d h = ground arith
get_or-outside (x ∷ xs) (suc i) d h = get_or-outside xs i d (ground arith)

-- A promise that is settled stays so, with its result.
abbrev StaysSettled : Promise → Promise → Type 0
StaysSettled q q' =
    q.finished ≡ true → (q'.finished ≡ true) × (q'.success ≡ q.success) × (q'.result ≡ q.result)

module _ {S : Type 0} where
  abbrev pub Told : World S → List Task → Type 0
  Told w [] = Unit {0}
  Told w (t ∷ ts) = ((promise_at w t.promise).finished ≡ true) × Told w ts

  -- Only settled promises tell.
  abbrev pub IsValid : World S → Type 0
  IsValid w = Told w w.dispatcher.dispatched

  abbrev Later : World S → World S → Type 0
  Later w w' = (p : ℕ) → StaysSettled (promise_at w p) (promise_at w' p)

  -- What an operation on a valid world leads to.
  pub record Progress (w w' : World S) : Type 0 where
    pub valid : IsValid w'
    pub later : Later w w'

  Told-append : (w : World S) (ts us : List Task) → Told w ts → Told w us → Told w (ts ++ us)
  Told-append w [] us h k = k
  Told-append w (t ∷ ts) us h k = (h.0, Told-append w ts us h.1 k)

  Told-drop : (w : World S) (ts : List Task) → Told w ts → Told w (drop 1 ts)
  Told-drop w [] h = h
  Told-drop w (t ∷ ts) h = h.1

  Told-Later : (ts : List Task) (w w' : World S) → Later w w' → Told w ts → Told w' ts
  Told-Later [] w w' l h = h
  Told-Later (t ∷ ts) w w' l h = ((l t.promise h.0).0, Told-Later ts w w' l h.1)

  pub Progress-refl : (w : World S) → IsValid w → Progress w w
  Progress-refl w v = record { valid = v; later = λ p h. (h, refl, refl) }

  pub Progress-trans : (w w' w'' : World S) → Progress w w' → Progress w' w'' → Progress w w''
  Progress-trans w w' w'' a b = record {
    valid = b.valid;
    later = λ p h.
        let (f, s, r) = a.later p h in let (f', s', r') = b.later p f in (f', s' ∙ s, r' ∙ r);
  }

  notify-Told :
      (w : World S) (t : Task)
      → IsValid w
      → (promise_at w t.promise).finished ≡ true
      → Told w (notify w t).dispatcher.dispatched
  unfolding notify dispatch
  notify-Told w t v done =
      let more = Told-append w w.dispatcher.dispatched (t ∷ []) v (done, tt) in
      let fewer = Told-drop w (w.dispatcher.dispatched ++ t ∷ []) more in ground arith

  notify-promises : (w : World S) (t : Task) → (notify w t).promises ≡ w.promises
  unfolding notify
  notify-promises w t = refl

  Later-same : (w w' : World S) → w'.promises ≡ w.promises → Later w w'
  Later-same w w' e p h = rw e (h, refl, refl)

  notify-Progress :
      (w : World S) (t : Task)
      → IsValid w
      → (promise_at w t.promise).finished ≡ true
      → Progress w (notify w t)
  notify-Progress w t v done =
      let l = Later-same w (notify w t) (notify-promises w t) in
      record {
        valid =
            Told-Later (notify w t).dispatcher.dispatched w (notify w t) l (notify-Told w t v done);
        later = l;
      }

  put-Progress :
      (w : World S) (p : ℕ) (q : Promise)
      → IsValid w
      → StaysSettled (promise_at w p) q
      → Progress w (put_promise w p q)
  put-Progress w p q v stays =
      let l : Later w (put_promise w p q) = λ j h.
        let at : promise_at (put_promise w p q) j
            ≡ (if p == j && ltb p (length w.promises) then q else promise_at w j) =
          get_or-set w.promises p j q blank_promise in
        elim (Bool-cases (p == j && ltb p (length w.promises))) [
          | inl it ↦
              let same : p ≡ j = ground arith in
              let here : promise_at w j ≡ promise_at w p = rw same refl in
              rw (at, it, here) (stays (rw (← here) h))
          | inr other ↦ rw (at, other) (h, refl, refl)
        ] in
      record { valid = Told-Later w.dispatcher.dispatched w (put_promise w p q) l v; later = l }

  notify_all-Progress :
      (cs : List Callback) (w : World S) (p : ℕ)
      → IsValid w
      → ((cs ≡ []) ⊎ ((promise_at w p).finished ≡ true))
      → Progress w (notify_all w p cs)
  unfolding notify_all
  notify_all-Progress [] w p v h = Progress-refl w v
  notify_all-Progress (c ∷ cs) w p v (inl nothing) = absurd (cc)
  notify_all-Progress (c ∷ cs) w p v (inr done) =
      let t : Task = record { promise = p; callback = c } in
      let w' = notify w t in
      let first = notify-Progress w t v done in
      Progress-trans w w' (notify_all w' p cs) first
        (notify_all-Progress cs w' p first.valid (inr (first.later p done).0))

  on_promise_finished-Progress :
      (w : World S) (p : ℕ)
      → IsValid w
      → (((promise_at w p).on_finished_callbacks ≡ []) ⊎ ((promise_at w p).finished ≡ true))
      → Progress w (on_promise_finished w p)
  unfolding on_promise_finished
  on_promise_finished-Progress w p v h =
      let w' = notify_all w p (promise_at w p).on_finished_callbacks in
      let first = notify_all-Progress (promise_at w p).on_finished_callbacks w p v h in
      let cleared = record (promise_at w' p) { on_finished_callbacks = [] } in
      Progress-trans w w' (put_promise w' p cleared) first
        (put-Progress w' p cleared first.valid (λ done. (done, refl, refl)))

  -- What is written to a pending promise is there, if the promise exists.
  after_put :
      (w : World S) (p : ℕ) (q : Promise)
      → q.finished ≡ true
      → (((promise_at (put_promise w p q) p).on_finished_callbacks ≡ [])
          ⊎ ((promise_at (put_promise w p q) p).finished ≡ true))
  after_put w p q done = elim (Bool-cases (ltb p (length w.promises))) [
    | inl inside ↦ inr (rw (get_or-set w.promises p p q blank_promise, ==_refl p, inside) done)
    | inr outside ↦ inl (
        rw (get_or-set w.promises p p q blank_promise, ==_refl p, outside)
          (rw (get_or-outside w.promises p blank_promise outside) refl))
  ]

  pub finish-Progress :
      (success : Bool) (w : World S) (p : ℕ) → IsValid w → Progress w (finish success w p)
  unfolding finish
  finish-Progress success w p v = elim (Bool-cases (promise_at w p).finished) [
    | inl done ↦ rw (done, finish) (Progress-refl w v)
    | inr pending ↦
        let q = record (promise_at w p) { finished = true; success = success } in
        let w' = put_promise w p q in
        let first = put-Progress w p q v (λ done. absurd (cc)) in
        subst (λ x. Progress w x) (sym (if_false w (on_promise_finished w' p) pending))
          (Progress-trans w w' (on_promise_finished w' p) first
            (on_promise_finished-Progress w' p first.valid (after_put w p q refl)))
  ]

  pub set_success-Progress :
      (w : World S) (p value : ℕ) → IsValid w → Progress w (set_success w p value)
  unfolding set_success
  set_success-Progress w p value v = elim (Bool-cases (promise_at w p).finished) [
    | inl done ↦ rw (done, set_success) (Progress-refl w v)
    | inr pending ↦
        let q = record (promise_at w p) { result = value } in
        let w' = put_promise w p q in
        let first = put-Progress w p q v (λ done. absurd (cc)) in
        subst (λ x. Progress w x) (sym (if_false w (finish true w' p) pending))
          (Progress-trans w w' (finish true w' p) first (finish-Progress true w' p first.valid))
  ]

  pub on_finished-Progress :
      (w : World S) (p : ℕ) (c : Callback) → IsValid w → Progress w (on_finished w p c)
  unfolding on_finished
  on_finished-Progress w p c v = elim (Bool-cases (promise_at w p).finished) [
    | inl done ↦
        rw (done, on_finished) (notify-Progress w (record { promise = p; callback = c }) v done)
    | inr pending ↦
        let q = promise_at w p in
        let changed = record q { on_finished_callbacks = q.on_finished_callbacks ++ c ∷ [] } in
        subst (λ x. Progress w x)
          (sym (
            if_false (notify w (record { promise = p; callback = c })) (put_promise w p changed)
              pending))
          (put-Progress w p changed v (λ done. (done, refl, refl)))
  ]
