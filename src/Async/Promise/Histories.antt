-- ===== src/Async/Promise/Histories.antt =====
-- What became of a promise, after anything that was done to it and to others.
use esp_iot_framework.Prelude.{
  ℕ, ◌<◌, ◌≡◌, refl, sym, ap, subst, ◌∙◌, inl, inr, true, false, Option, none, some, List, [], ◌∷◌,
  ◌++◌, arith, ◌==◌, if◌then◌else◌, ==_iff, ==_refl, Bool-cases, length, append-nil, append_assoc,
}
use esp_iot_framework.Async.World.{Promise, blank_promise, World, promise_at}
use esp_iot_framework.Async.Promise.{set_success, set_error, on_finished}
use esp_iot_framework.Async.Promise.Settling.{
  finish-Effect, set_success-Effect, finish-finished, set_success-finished, on_finished_pending,
  on_finished_finished,
}
use esp_iot_framework.Async.Promise.Effects.{Works, Effect, told, settled_with}
use esp_iot_framework.Async.Promise.Deeds.{
  Action, Deed, Outcome, settlement, with_callback, registered, is_settled, change, tell, pick,
  AllExist, registered_split, change_finished, register, succeed, fail, succeeded, failed,
}

module _ {S : Type 0} where
  abbrev pub act : World S → ℕ → Action → World S
  act w p (register c) = on_finished w p c
  act w p (succeed v) = set_success w p v
  act w p fail = set_error w p

  unfoldable pub after : World S → List Deed → World S
  after w [] = w
  after w (d ∷ ds) = after (act w d.target d.action) ds

  abbrev pub outcome_at : World S → ℕ → Option Outcome
  outcome_at w p =
      let q = promise_at w p in
      if q.finished then some (if q.success then succeeded q.result else failed) else none

  unchanged : (w w' : World S) (p : ℕ) → Works w → w' ≡ w → Effect w w' p (promise_at w p) []
  unchanged w w' p h e =
      subst (λ x. Effect w x p (promise_at w p) []) (sym e)
        (record {
          works = h;
          same_length = refl;
          at = λ j. elim (Bool-cases (p == j)) [
            | inl same ↦ rw (same, (==_iff p j).0 same) refl
            | inr other ↦ rw other refl
          ];
          tells = λ j. ground (arith, append-nil (told w j));
        })

  pub act-Effect :
      (a : Action) (w : World S) (p : ℕ)
      → Works w
      → p < length w.promises
      → Effect w (act w p a) p (change a (promise_at w p)) (tell a (promise_at w p))
  act-Effect (register c) w p h inside =
      let q = promise_at w p in
      pick (Effect w (on_finished w p c) p) q.finished q
        (record q { on_finished_callbacks = q.on_finished_callbacks ++ c ∷ [] }) (c ∷ []) []
        (on_finished_finished w p c h) (on_finished_pending w p c h inside)
  act-Effect (succeed v) w p h inside =
      let q = promise_at w p in
      pick (Effect w (set_success w p v) p) q.finished q
        (record { finished = true; success = true; result = v; on_finished_callbacks = [] }) []
        q.on_finished_callbacks
        (λ done. unchanged w (set_success w p v) p h (set_success-finished w p v done))
        (set_success-Effect w p v h inside)
  act-Effect fail w p h inside =
      let q = promise_at w p in
      pick (Effect w (set_error w p) p) q.finished q (settled_with false q) []
        q.on_finished_callbacks
        (λ done. unchanged w (set_error w p) p h (finish-finished false w p done))
        (finish-Effect false w p h inside)

  act-at :
      (a : Action) (w : World S) (j p : ℕ)
      → Works w
      → j < length w.promises
      → (promise_at (act w j a) p ≡ (if j == p then change a (promise_at w p) else promise_at w p))
        × (told (act w j a) p ≡ told w p ++ (if j == p then tell a (promise_at w p) else []))
  act-at a w j p h exists = elim (Bool-cases (j == p)) [
    | inl same ↦
        let it : j ≡ p = (==_iff j p).0 same in
        let e = act-Effect a w j h exists in (e.at p ∙ rw it refl, e.tells p ∙ rw it refl)
    | inr other ↦
        let e = act-Effect a w j h exists in (e.at p ∙ rw other refl, e.tells p ∙ rw other refl)
  ]

  after_finished :
      (ds : List Deed) (w : World S) (p : ℕ)
      → Works w
      → AllExist (length w.promises) ds
      → (promise_at w p).finished ≡ true
      → (promise_at (after w ds) p ≡ promise_at w p)
        × (told (after w ds) p ≡ told w p ++ registered p ds)
  unfolding after
  after_finished [] w p h exist done = (refl, sym (append-nil (told w p)))
  after_finished (d ∷ ds) w p h exist done =
      let e = act-Effect d.action w d.target h exist.0 in
      let w' = act w d.target d.action in
      let (at, tells) = act-at d.action w d.target p h exist.0 in
      let (same_change, same_tell) = change_finished d.action (promise_at w p) done in
      let same : promise_at w' p ≡ promise_at w p = at ∙ ground (arith, same_change) in
      let rest = after_finished ds w' p e.works (rw e.same_length exist.1) (rw same done) in
      (
        rest.0 ∙ same,
        rest.1
            ∙ ap (λ cs. cs ++ registered p ds)
                (tells ∙ ap (λ cs. told w p ++ (if d.target == p then cs else [])) same_tell)
            ∙ append_assoc (told w p) (if d.target == p then with_callback d.action [] else [])
                (registered p ds)
            ∙ ap (λ cs. told w p ++ cs) (sym (registered_split p d ds)),
      )

  -- What the deeds `ds` make of a promise that is pending in `w`, if they lead to `w'`.
  abbrev Comes : World S → World S → ℕ → List Deed → Type 0
  Comes w w' p ds =
      (outcome_at w' p ≡ settlement p ds)
      × (told w' p
          ≡ told w p
            ++ (if is_settled (settlement p ds)
                then (promise_at w p).on_finished_callbacks ++ registered p ds
                else []))

  -- What comes after the settlement of a pending promise.
  settled_at :
      (w w' : World S) (p : ℕ) (q : Promise) (ds : List Deed)
      → Effect w w' p q (promise_at w p).on_finished_callbacks
      → AllExist (length w.promises) ds
      → q.finished ≡ true
      → (promise_at (after w' ds) p ≡ q)
        × (told (after w' ds) p
            ≡ told w p ++ ((promise_at w p).on_finished_callbacks ++ registered p ds))
  settled_at w w' p q ds e exist done =
      let cs = (promise_at w p).on_finished_callbacks in
      let at : promise_at w' p ≡ q = e.at p ∙ rw (==_refl p) refl in
      let tells : told w' p ≡ told w p ++ cs = e.tells p ∙ rw (==_refl p) refl in
      let (still, t) =
        after_finished ds w' p e.works (rw e.same_length exist) (ap (λ x. x.finished) at ∙ done) in
      (still ∙ at, t ∙ rw tells (append_assoc (told w p) cs (registered p ds)))

  -- The first deed at a pending promise.
  pending_at :
      (a : Action) (w : World S) (p : ℕ) (ds : List Deed)
      → Works w
      → p < length w.promises
      → AllExist (length w.promises) ds
      → (promise_at w p).finished ≡ false
      → ((w' : World S)
          → Works w'
          → length w'.promises ≡ length w.promises
          → (promise_at w' p).finished ≡ false
          → Comes w' (after w' ds) p ds)
      → Comes w (after (act w p a) ds) p (record { target = p; action = a } ∷ ds)
  pending_at (register c) w p ds h exists exist pending ih =
      let w' = on_finished w p c in
      let e = on_finished_pending w p c h exists pending in
      let q = promise_at w p in
      let at : promise_at w' p
          ≡ record q { on_finished_callbacks = q.on_finished_callbacks ++ c ∷ [] } =
        e.at p ∙ rw (==_refl p) refl in
      let (o, t) = ih w' e.works e.same_length (ap (λ q. q.finished) at ∙ pending) in
      let told_same : told w' p ≡ told w p = e.tells p ∙ rw (==_refl p) (append-nil (told w p)) in
      rw (==_refl p) (
        o,
        t
            ∙ rw (told_same, at)
                (rw (append_assoc (promise_at w p).on_finished_callbacks (c ∷ []) (registered p ds))
                  refl),
      )
  pending_at (succeed v) w p ds h exists exist pending ih =
      let settled : Promise = record {
        finished = true;
        success = true;
        result = v;
        on_finished_callbacks = [];
      } in
      let (at, t) =
        settled_at w (set_success w p v) p settled ds (set_success-Effect w p v h exists pending)
          exist refl in
      rw (==_refl p) (rw at refl, t)
  pending_at fail w p ds h exists exist pending ih =
      let (at, t) =
        settled_at w (set_error w p) p (settled_with false (promise_at w p)) ds
          (finish-Effect false w p h exists pending) exist refl in
      rw (==_refl p) (rw at refl, t)

  after_pending :
      (ds : List Deed) (w : World S) (p : ℕ)
      → Works w
      → p < length w.promises
      → AllExist (length w.promises) ds
      → (promise_at w p).finished ≡ false
      → Comes w (after w ds) p ds
  unfolding after
  after_pending [] w p h exists exist pending = (rw pending refl, sym (append-nil (told w p)))
  after_pending (d ∷ ds) w p h exists exist pending = elim (Bool-cases (d.target == p)) [
    | inl same ↦
        let it : d.target ≡ p = (==_iff d.target p).0 same in
        let ih =
          λ (w' : World S) (works : Works w') (l : length w'.promises ≡ length w.promises)
              (still : (promise_at w' p).finished ≡ false).
            after_pending ds w' p works (rw l exists) (rw l exist.1) still in
        subst
          (λ j.
            Comes w (after (act w j d.action) ds) p (record { target = j; action = d.action } ∷ ds))
          (sym it) (pending_at d.action w p ds h exists exist.1 pending ih)
    | inr other ↦
        let w' = act w d.target d.action in
        let e = act-Effect d.action w d.target h exist.0 in
        let at : promise_at w' p ≡ promise_at w p = e.at p ∙ rw other refl in
        let told_same : told w' p ≡ told w p = e.tells p ∙ rw other (append-nil (told w p)) in
        let (o, t) =
          after_pending ds w' p e.works (rw e.same_length exists) (rw e.same_length exist.1)
            (ap (λ q. q.finished) at ∙ pending) in
        rw other (o, t ∙ rw (told_same, at) refl)
  ]

  -- The dispatcher takes what it is given. Callbacks are registered at promises and promises are
  -- settled, in any order and however often; `p` is pending at first and has no callbacks. Then the
  -- first settlement of `p` is what becomes of it, value included, and later ones change nothing;
  -- once it is settled, every callback that was registered at it, before or after, is dispatched
  -- once, in the order of registration, and none before.
  pub after_settles :
      (ds : List Deed) (w : World S) (p : ℕ)
      → Works w
      → p < length w.promises
      → AllExist (length w.promises) ds
      → promise_at w p ≡ blank_promise
      → (outcome_at (after w ds) p ≡ settlement p ds)
        × (told (after w ds) p
            ≡ told w p ++ (if is_settled (settlement p ds) then registered p ds else []))
  after_settles ds w p h exists exist blank =
      let (o, t) = after_pending ds w p h exists exist (ap (λ q. q.finished) blank) in
      (o, t ∙ rw blank refl)
