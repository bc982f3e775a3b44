-- ===== src/Async/Promise/Settling.antt =====
-- A promise is settled once, and tells every callback once, whenever it was registered.
use esp_iot_framework.Prelude.{
  ℕ, ◌<◌, ◌≡◌, refl, sym, subst, ◌∙◌, Bool, true, false, [], ◌∷◌, ◌++◌, ==_refl, if_false, length,
}
use esp_iot_framework.Async.World.{Callback, World, promise_at, put_promise, notify}
use esp_iot_framework.Async.Promise.{
  notify_all, on_promise_finished, finish, set_success, on_finished,
}
use esp_iot_framework.Async.Promise.Effects.{
  settled_with, Works, Effect, put_promise-Effect, Effect-trans, notify_all-Effect,
  on_promise_finished-Effect,
}

module _ {S : Type 0} where
  pub finish-Effect :
      (success : Bool) (w : World S) (p : ℕ)
      → Works w
      → p < length w.promises
      → (promise_at w p).finished ≡ false
      → Effect w
          (finish success w p)
          p
          (settled_with success (promise_at w p))
          (promise_at w p).on_finished_callbacks
  unfolding finish
  finish-Effect success w p h inside pending =
      let q = record (promise_at w p) { finished = true; success = success } in
      let put = put_promise-Effect w p q h inside in
      let w' = put_promise w p q in
      let same : promise_at w' p ≡ q = put.at p ∙ rw (==_refl p) refl in
      let f = on_promise_finished-Effect w' p put.works (rw put.same_length inside) in
      let e =
        Effect-trans w w' (on_promise_finished w' p) p q
          (record (promise_at w' p) { on_finished_callbacks = [] }) []
          (promise_at w' p).on_finished_callbacks put f in
      subst
        (λ x.
          Effect w x p (settled_with success (promise_at w p))
            (promise_at w p).on_finished_callbacks)
        (sym (if_false w (on_promise_finished w' p) pending))
        (subst
          (λ r.
            Effect w (on_promise_finished w' p) p (record r { on_finished_callbacks = [] })
              r.on_finished_callbacks)
          same e)

  pub set_success-Effect :
      (w : World S) (p value : ℕ)
      → Works w
      → p < length w.promises
      → (promise_at w p).finished ≡ false
      → Effect w
          (set_success w p value)
          p
          (record { finished = true; success = true; result = value; on_finished_callbacks = [] })
          (promise_at w p).on_finished_callbacks
  unfolding set_success
  set_success-Effect w p value h inside pending =
      let q = record (promise_at w p) { result = value } in
      let put = put_promise-Effect w p q h inside in
      let w' = put_promise w p q in
      let same : promise_at w' p ≡ q = put.at p ∙ rw (==_refl p) refl in
      let f = finish-Effect true w' p put.works (rw put.same_length inside) (rw same pending) in
      let e =
        Effect-trans w w' (finish true w' p) p q (settled_with true (promise_at w' p)) []
          (promise_at w' p).on_finished_callbacks put f in
      subst
        (λ x.
          Effect w x p
            (record { finished = true; success = true; result = value; on_finished_callbacks = [] })
            (promise_at w p).on_finished_callbacks)
        (sym (if_false w (finish true w' p) pending))
        (subst (λ r. Effect w (finish true w' p) p (settled_with true r) r.on_finished_callbacks)
          same e)

  pub finish-finished :
      (success : Bool) (w : World S) (p : ℕ)
      → (promise_at w p).finished ≡ true
      → finish success w p ≡ w
  unfolding finish
  finish-finished success w p h = rw h

  pub set_success-finished :
      (w : World S) (p value : ℕ) → (promise_at w p).finished ≡ true → set_success w p value ≡ w
  unfolding set_success
  set_success-finished w p value h = rw h

  pub on_finished_pending :
      (w : World S) (p : ℕ) (c : Callback)
      → Works w
      → p < length w.promises
      → (promise_at w p).finished ≡ false
      → Effect w
          (on_finished w p c)
          p
          (record (promise_at w p) {
            on_finished_callbacks = (promise_at w p).on_finished_callbacks ++ c ∷ [];
          })
          []
  unfolding on_finished
  on_finished_pending w p c h inside pending =
      let q = promise_at w p in
      let changed = record q { on_finished_callbacks = q.on_finished_callbacks ++ c ∷ [] } in
      subst (λ x. Effect w x p changed [])
        (sym (
          if_false (notify w (record { promise = p; callback = c })) (put_promise w p changed)
            pending))
        (put_promise-Effect w p changed h inside)

  pub on_finished_finished :
      (w : World S) (p : ℕ) (c : Callback)
      → Works w
      → (promise_at w p).finished ≡ true
      → Effect w (on_finished w p c) p (promise_at w p) (c ∷ [])
  unfolding on_finished notify_all
  on_finished_finished w p c h finished = rw finished (notify_all-Effect w p (c ∷ []) h)
