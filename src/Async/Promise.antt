-- ===== src/Async/Promise.antt =====
-- async/promise.h and async/promise.cpp: `Promise`, `all`, `any` and `sequential`. The results of
-- debug output are left out.
pub mod Effects
pub mod Settling
pub mod Deeds
pub mod Histories
pub mod Aggregates
pub mod Races
pub mod Progress
use esp_iot_framework.Prelude.{
  ℕ, ◌-◌, Bool, true, false, not, ◌&&◌, Option, none, some, List, [], ◌∷◌, ◌++◌, ◌==◌,
  if◌then◌else◌, length, get_or, set,
}
use esp_iot_framework.Async.World.{
  Callback, all_step, any_step, sequential, blank_promise, World, promise_at, put_promise, notify,
}

module _ {S : Type 0} where
  unfoldable pub create : World S → World S × ℕ
  create w = (record w { promises = w.promises ++ blank_promise ∷ [] }, length w.promises)

  -- The loop of `_on_promise_finished`.
  unfoldable pub notify_all : World S → ℕ → List Callback → World S
  notify_all w p [] = w
  notify_all w p (c ∷ cs) = notify_all (notify w (record { promise = p; callback = c })) p cs

  unfoldable pub on_promise_finished : World S → ℕ → World S
  on_promise_finished w p =
      let w' = notify_all w p (promise_at w p).on_finished_callbacks in
      put_promise w' p (record (promise_at w' p) { on_finished_callbacks = [] })

  -- `PromiseBase::set_success` and `set_error`.
  unfoldable pub finish : Bool → World S → ℕ → World S
  finish success w p =
      if (promise_at w p).finished
      then w
      else on_promise_finished
          (put_promise w p (record (promise_at w p) { finished = true; success = success })) p

  -- `Promise<T>::set_success`
  unfoldable pub set_success : World S → ℕ → ℕ → World S
  set_success w p value =
      if (promise_at w p).finished
      then w
      else finish true (put_promise w p (record (promise_at w p) { result = value })) p

  abbrev pub set_error : World S → ℕ → World S
  set_error w p = finish false w p

  -- `none` is `abort()`.
  abbrev pub result : World S → ℕ → Option ℕ
  result w p =
      if (promise_at w p).finished && (promise_at w p).success
      then some (promise_at w p).result
      else none

  unfoldable pub on_finished : World S → ℕ → Callback → World S
  on_finished w p c =
      let q = promise_at w p in
      if q.finished
      then notify w (record { promise = p; callback = c })
      else put_promise w p (record q { on_finished_callbacks = q.on_finished_callbacks ++ c ∷ [] })

  unfoldable pub successful : World S → ℕ → World S × ℕ
  successful w value = let (w', p) = create w in (set_success w' p value, p)

  unfoldable pub errored : World S → World S × ℕ
  errored w = let (w', p) = create w in (set_error w' p, p)

  -- The last loop of `all` and of `any`.
  unfoldable pub register_all : World S → List ℕ → Callback → World S
  register_all w [] c = w
  register_all w (f ∷ fs) c = register_all (on_finished w f c) fs c

  -- The first loop of `all`: `none` is a future that failed.
  unfoldable pub already_done : World S → List ℕ → Bool → Option Bool
  already_done w [] already_finished = some already_finished
  already_done w (f ∷ fs) already_finished =
      let q = promise_at w f in
      if q.finished && not q.success
      then none
      else already_done w fs (already_finished && q.finished)

  -- `all` of two or more futures.
  unfoldable pub aggregate : World S → List ℕ → World S × ℕ
  aggregate w collection = elim (already_done w collection true) [
    | none ↦ errored w
    | some true ↦ successful w 0
    | some false ↦
        let (w', r) = create w in
        let counted = record w' { counters = w'.counters ++ length collection ∷ [] } in
        (register_all counted collection (all_step (length w'.counters) r), r)
  ]

  unfoldable pub all : World S → List ℕ → World S × ℕ
  unfolding aggregate
  all w [] = errored w
  all w (f ∷ []) = (w, f)
  all w (f ∷ g ∷ fs) = aggregate w (f ∷ g ∷ fs)

  -- `finished_cb` of `all`.
  unfoldable pub on_all_step : World S → ℕ → ℕ → Bool → World S
  on_all_step w count_left r success =
      let n = get_or w.counters count_left 0 in
      let counted = record w { counters = set w.counters count_left (n - 1) } in
      if (promise_at w r).finished
      then w
      else if not success
      then set_error w r
      else if n - 1 == 0
      then set_success counted r 0
      else counted

  unfoldable pub first_finished : World S → List ℕ → Option Bool
  first_finished w [] = none
  first_finished w (f ∷ fs) =
      if (promise_at w f).finished then some (promise_at w f).success else first_finished w fs

  -- `any` of two or more futures.
  unfoldable pub race : World S → List ℕ → World S × ℕ
  race w collection = elim (first_finished w collection) [
    | some true ↦ successful w 0
    | some false ↦ errored w
    | none ↦ let (w', r) = create w in (register_all w' collection (any_step r), r)
  ]

  unfoldable pub any : World S → List ℕ → World S × ℕ
  unfolding race
  any w [] = errored w
  any w (f ∷ []) = (w, f)
  any w (f ∷ g ∷ fs) = race w (f ∷ g ∷ fs)

  -- `finished_cb` of `any`.
  unfoldable pub on_any_step : World S → ℕ → Bool → World S
  on_any_step w r success =
      if (promise_at w r).finished then w else if success then set_success w r 0 else set_error w r

  -- `sequential` and `_sequential_step`
  unfoldable pub start_sequence : World S → ℕ → ℕ → ℕ → World S × ℕ
  start_sequence w first has_next_fn fn =
      let (w', r) = create w in (on_finished w' first (sequential r has_next_fn fn), r)
