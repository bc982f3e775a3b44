-- ===== src/Async/Promise/Races.antt =====
-- `any`: what the future that it returns comes to.
use esp_iot_framework.Prelude.{
  ℕ, suc, ◌<◌, ◌≡◌, refl, sym, ap, subst, ◌∙◌, Bool, true, false, Option, none, some, List, [], ◌∷◌,
  ◌++◌, arith, if◌then◌else◌, ==_refl, if_false, length, length-append,
}
use esp_iot_framework.Async.World.{any_step, blank_promise, World, promise_at}
use esp_iot_framework.Async.Promise.{
  create, set_success, set_error, first_finished, race, any, on_any_step,
}
use esp_iot_framework.Async.Promise.Settling.{finish-Effect, set_success-Effect}
use esp_iot_framework.Async.Promise.Effects.{Works, settled_with}
use esp_iot_framework.Async.Promise.Histories.{after, outcome_at}
use esp_iot_framework.Async.Promise.Deeds.{Outcome, succeeded, failed}
use esp_iot_framework.Async.Promise.Aggregates.{
  listens, get_or-snoc, AllBelow, register_all-after, listens-Listened,
}

abbrev first_verdict : List Bool → Option Outcome
first_verdict [] = none
first_verdict (b ∷ bs) = some (if b then succeeded 0 else failed)

module _ {S : Type 0} where
  any_steps : World S → ℕ → List Bool → World S
  any_steps w r [] = w
  any_steps w r (b ∷ bs) = any_steps (on_any_step w r b) r bs

  any_steps_finished :
      (bs : List Bool) (w : World S) (r : ℕ)
      → (promise_at w r).finished ≡ true
      → any_steps w r bs ≡ w
  unfolding any_steps on_any_step
  any_steps_finished [] w r h = refl
  any_steps_finished (b ∷ bs) w r h =
      ap (λ x. any_steps x r bs) (let same : on_any_step w r b ≡ w = rw h in same)
      ∙ any_steps_finished bs w r h

  any_steps-lem :
      (bs : List Bool) (w : World S) (r : ℕ)
      → Works w
      → r < length w.promises
      → (promise_at w r).finished ≡ false
      → outcome_at (any_steps w r bs) r ≡ first_verdict bs
  unfolding any_steps on_any_step
  any_steps-lem [] w r h inside pending = rw pending refl
  any_steps-lem (true ∷ bs) w r h inside pending =
      let e = set_success-Effect w r 0 h inside pending in
      let at : promise_at (set_success w r 0) r
          ≡ record { finished = true; success = true; result = 0; on_finished_callbacks = [] } =
        e.at r ∙ rw (==_refl r) refl in
      let step : on_any_step w r true ≡ set_success w r 0 =
        if_false w (set_success w r 0) pending in
      let rest : any_steps (on_any_step w r true) r bs ≡ set_success w r 0 =
        ap (λ x. any_steps x r bs) step
        ∙ any_steps_finished bs (set_success w r 0) r (ap (λ q. q.finished) at) in
      ap (λ x. outcome_at x r) rest ∙ rw at refl
  any_steps-lem (false ∷ bs) w r h inside pending =
      let e = finish-Effect false w r h inside pending in
      let at : promise_at (set_error w r) r ≡ settled_with false (promise_at w r) =
        e.at r ∙ rw (==_refl r) refl in
      let step : on_any_step w r false ≡ set_error w r = if_false w (set_error w r) pending in
      let rest : any_steps (on_any_step w r false) r bs ≡ set_error w r =
        ap (λ x. any_steps x r bs) step
        ∙ any_steps_finished bs (set_error w r) r (ap (λ q. q.finished) at) in
      ap (λ x. outcome_at x r) rest ∙ rw at refl

  abbrev raced : World S → World S
  raced w = record w { promises = w.promises ++ blank_promise ∷ [] }

  race_pending :
      (w : World S) (fs : List ℕ)
      → first_finished w fs ≡ none
      → race w fs ≡ (after (raced w) (listens (any_step (length w.promises)) fs), length w.promises)
  unfolding race create
  race_pending w fs e =
      rw (e, race)
        (ap (λ x. (x, length w.promises))
          (register_all-after fs (raced w) (any_step (length w.promises))))

  -- `any` of two or more futures that exist and are pending registers one callback at each, in order,
  -- and returns a new future. Whatever callbacks have been called, in whatever order, the first one
  -- decides: that future has failed if it was called for a failure, has succeeded if it was called
  -- for a success, and is pending while none was called.
  any_settles :
      (w : World S) (f g : ℕ) (fs : List ℕ) (bs : List Bool)
      → Works w
      → AllBelow (length w.promises) (f ∷ g ∷ fs)
      → first_finished w (f ∷ g ∷ fs) ≡ none
      → (w' : World S) × (any w (f ∷ g ∷ fs) ≡ (w', length w.promises))
        × (w' ≡ after (raced w) (listens (any_step (length w.promises)) (f ∷ g ∷ fs)))
        × (outcome_at (any_steps w' (length w.promises) bs) (length w.promises) ≡ first_verdict bs)
  unfolding any
  any_settles w f g fs bs h below e =
      let members = f ∷ g ∷ fs in
      let r = length w.promises in
      let w' = after (raced w) (listens (any_step r) members) in
      let longer : length (raced w).promises ≡ suc r =
        length-append w.promises (blank_promise ∷ []) ∙ omega arith in
      let l =
        listens-Listened members (any_step r) (raced w) r
          (record { begun = h.begun; delivers = h.delivers })
          (subst (λ n. r < n) (sym longer) (omega arith)) below in
      let fresh : promise_at w' r ≡ blank_promise =
        l.same ∙ get_or-snoc w.promises blank_promise blank_promise in
      let inside : r < length w'.promises = omega (arith, l.same_length, longer) in
      (
        w',
        race_pending w members e,
        refl,
        any_steps-lem bs w' r l.works inside (ap (λ q. q.finished) fresh),
      )
