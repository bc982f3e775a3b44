-- ===== src/Async/Untouched.antt =====
-- async/promise.h and async/future.h: promises and futures leave the program's own state alone until
-- the tasks call what was registered.
use esp_iot_framework.Prelude.{
  ℕ, ◌≡◌, refl, ◌∙◌, Bool, true, false, List, [], ◌∷◌, Option, none, some, arith, Bool-cases,
  length, inl, inr, ◌⊎◌,
}
use esp_iot_framework.Async.World.{Callback, World, resolve, promise_at, notify}
use esp_iot_framework.Async.Promise.{
  create, notify_all, on_promise_finished, finish, set_success, on_finished, successful, errored,
  register_all, already_done, aggregate, all, first_finished, race, any, start_sequence,
}
use esp_iot_framework.Async.Future.{chain_future, chain_value, chain_error, delay, set_alarm}

Verdict-cases : (o : Option Bool) → (o ≡ none) ⊎ ((o ≡ some true) ⊎ (o ≡ some false))
Verdict-cases none = inl refl
Verdict-cases (some true) = inr (inl refl)
Verdict-cases (some false) = inr (inr refl)

module _ {S : Type 0} where
  notify_all-state :
      (w : World S) (p : ℕ) (cs : List Callback) → (notify_all w p cs).state ≡ w.state
  unfolding notify_all notify
  notify_all-state w p [] = refl
  notify_all-state w p (c ∷ cs) =
      notify_all-state (notify w (record { promise = p; callback = c })) p cs

  pub finish-state : (success : Bool) (w : World S) (p : ℕ) → (finish success w p).state ≡ w.state
  unfolding finish on_promise_finished
  finish-state success w p = elim (Bool-cases (promise_at w p).finished) [
    | inl done ↦ rw done refl
    | inr pending ↦ rw pending (notify_all-state _ p _)
  ]

  pub set_success-state : (w : World S) (p v : ℕ) → (set_success w p v).state ≡ w.state
  unfolding set_success
  set_success-state w p v = elim (Bool-cases (promise_at w p).finished) [
    | inl done ↦ rw done refl
    | inr pending ↦ rw pending (finish-state true _ p)
  ]

  on_finished-state : (w : World S) (p : ℕ) (c : Callback) → (on_finished w p c).state ≡ w.state
  unfolding on_finished notify
  on_finished-state w p c = ground arith

  pub errored-state : (w : World S) → (errored w).0.state ≡ w.state
  unfolding errored create
  errored-state w = finish-state false _ _

  pub successful-state : (w : World S) (v : ℕ) → (successful w v).0.state ≡ w.state
  unfolding successful create
  successful-state w v = set_success-state _ _ v

  register_all-state :
      (fs : List ℕ) (w : World S) (c : Callback) → (register_all w fs c).state ≡ w.state
  unfolding register_all
  register_all-state [] w c = refl
  register_all-state (f ∷ fs) w c =
      register_all-state fs (on_finished w f c) c ∙ on_finished-state w f c

  aggregate-state : (w : World S) (fs : List ℕ) → (aggregate w fs).0.state ≡ w.state
  unfolding aggregate create
  aggregate-state w fs = elim (Verdict-cases (already_done w fs true)) [
    | inl failed ↦ rw (failed, aggregate) (errored-state w)
    | inr (inl done) ↦ rw (done, aggregate) (successful-state w 0)
    | inr (inr waits) ↦ rw (waits, aggregate) (register_all-state fs _ _)
  ]

  pub all-state : (w : World S) (fs : List ℕ) → (all w fs).0.state ≡ w.state
  unfolding all
  all-state w [] = errored-state w
  all-state w (f ∷ []) = refl
  all-state w (f ∷ g ∷ fs) = aggregate-state w (f ∷ g ∷ fs)

  race-state : (w : World S) (fs : List ℕ) → (race w fs).0.state ≡ w.state
  unfolding race create
  race-state w fs = elim (Verdict-cases (first_finished w fs)) [
    | inl waits ↦ rw (waits, race) (register_all-state fs _ _)
    | inr (inl done) ↦ rw (done, race) (successful-state w 0)
    | inr (inr failed) ↦ rw (failed, race) (errored-state w)
  ]

  pub any-state : (w : World S) (fs : List ℕ) → (any w fs).0.state ≡ w.state
  unfolding any
  any-state w [] = errored-state w
  any-state w (f ∷ []) = refl
  any-state w (f ∷ g ∷ fs) = race-state w (f ∷ g ∷ fs)

  pub chain_future-state :
      (w : World S) (future fn : ℕ) → (chain_future w future fn).0.state ≡ w.state
  unfolding chain_future create
  chain_future-state w future fn = on_finished-state _ _ _

  pub chain_value-state :
      (w : World S) (future fn : ℕ) → (chain_value w future fn).0.state ≡ w.state
  unfolding chain_value create
  chain_value-state w future fn = on_finished-state _ _ _

  pub chain_error-state :
      (w : World S) (future fn : ℕ) → (chain_error w future fn).0.state ≡ w.state
  unfolding chain_error create
  chain_error-state w future fn = on_finished-state _ _ _

  pub start_sequence-state :
      (w : World S) (first more next : ℕ) → (start_sequence w first more next).0.state ≡ w.state
  unfolding start_sequence create
  start_sequence-state w first more next = on_finished-state _ _ _

  pub delay-state : (w : World S) (ms : ℕ) → (delay w ms).0.state ≡ w.state
  unfolding delay create
  delay-state w ms = elim (Bool-cases (set_alarm (create w).0 ms (resolve (length w.promises))).1) [
    | inl timed ↦ rw timed refl
    | inr refused ↦ rw refused (finish-state false _ _)
  ]
