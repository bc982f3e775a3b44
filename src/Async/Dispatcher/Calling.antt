-- ===== src/Async/Dispatcher/Calling.antt =====
-- No function that was dispatched is forgotten, whenever it comes.
use esp_iot_framework.Prelude.{
  ℕ, zero, suc, ◌+◌, ◌-◌, ◌*◌, ◌≤◌, ◌≡◌, refl, sym, ap, ◌∙◌, Bool, true, false, not, List, [], ◌∷◌,
  ◌++◌, arith, if◌then◌else◌, length, append-nil, append_assoc,
}
use esp_iot_framework.Async.Dispatcher.{
  Kernel, dispatch, is_empty, Phase, waiting, processing, running, System, init, turn, turns,
}

pub data Move {ℓ} (A : Type ℓ) : Type ℓ where
  dispatches : Kernel → A → Move A
  turns_once : Move A

abbrev is_asleep : Phase → Bool
is_asleep waiting = true
is_asleep processing = false
is_asleep (running has_more) = not has_more

-- The turns that are left until the queue is empty.
abbrev turns_of : Phase → ℕ
turns_of waiting = 1
turns_of processing = 0
turns_of (running has_more) = if has_more then 1 else 2

module _ {ℓ} {A : Type ℓ} where
  abbrev move : System A → Move A → System A
  move s (dispatches k fn) = record s { dispatcher = (dispatch k fn s.dispatcher).0 }
  move s turns_once = turn s

  unfoldable pub run : System A → List (Move A) → System A
  run s [] = s
  run s (m ∷ ms) = run (move s m) ms

  -- The functions for which `dispatch` returned true.
  abbrev accepted_once : System A → Move A → List A
  accepted_once s (dispatches k fn) = if (dispatch k fn s.dispatcher).1 then fn ∷ [] else []
  accepted_once s turns_once = []

  unfoldable pub accepted : System A → List (Move A) → List A
  accepted s [] = []
  accepted s (m ∷ ms) = accepted_once s m ++ accepted (move s m) ms

  -- Notifications are delivered, as `xTaskNotify` without an action does.
  abbrev Notifies : List (Move A) → Type 0
  Notifies [] = Unit {0}
  Notifies (dispatches k fn ∷ ms) = (k.sent ≡ true) × Notifies ms
  Notifies (turns_once ∷ ms) = Notifies ms

  -- The task does not wait while there is something to do.
  abbrev IsAwake : System A → Type 0
  IsAwake s =
      is_asleep s.phase ≡ true
      → is_empty s.dispatcher.dispatched ≡ false
      → s.dispatcher.notified ≡ true

  turn-IsAwake : (s : System A) → IsAwake s → IsAwake (turn s)
  unfolding turn
  turn-IsAwake s h = ground arith

  turn_keeps :
      (s : System A)
      → (turn s).called ++ (turn s).dispatcher.dispatched ≡ s.called ++ s.dispatcher.dispatched
  unfolding turn
  turn_keeps s = grind (arith, append_assoc)

  move_keeps :
      (s : System A) (k : Kernel) (fn : A)
      → k.sent ≡ true
      → (dispatch k fn s.dispatcher).0.dispatched
        ≡ s.dispatcher.dispatched ++ accepted_once s (dispatches k fn)
  unfolding dispatch
  move_keeps s k fn h = ground (arith, append-nil s.dispatcher.dispatched)

  dispatch-IsAwake :
      (s : System A) (k : Kernel) (fn : A)
      → k.sent ≡ true
      → IsAwake s
      → IsAwake (move s (dispatches k fn))
  unfolding dispatch
  dispatch-IsAwake s k fn h a = ground arith

  run_keeps :
      (ms : List (Move A)) (s : System A)
      → Notifies ms
      → (run s ms).called ++ (run s ms).dispatcher.dispatched
        ≡ (s.called ++ s.dispatcher.dispatched) ++ accepted s ms
  unfolding run accepted
  run_keeps [] s h = sym (append-nil (s.called ++ s.dispatcher.dispatched))
  run_keeps (dispatches k fn ∷ ms) s h =
      run_keeps ms (move s (dispatches k fn)) h.1 ∙ rw (move_keeps s k fn h.0) (simp append_assoc)
  run_keeps (turns_once ∷ ms) s h = run_keeps ms (turn s) h ∙ rw (turn_keeps s)

  run-IsAwake : (ms : List (Move A)) (s : System A) → Notifies ms → IsAwake s → IsAwake (run s ms)
  unfolding run
  run-IsAwake [] s h a = a
  run-IsAwake (dispatches k fn ∷ ms) s h a =
      run-IsAwake ms (move s (dispatches k fn)) h.1 (dispatch-IsAwake s k fn h.0 a)
  run-IsAwake (turns_once ∷ ms) s h a = run-IsAwake ms (turn s) h (turn-IsAwake s a)

  abbrev weight : System A → ℕ
  weight s =
      if is_empty s.dispatcher.dispatched
      then 0
      else turns_of s.phase + 2 * length s.dispatcher.dispatched

  turn-weight : (s : System A) → IsAwake s → weight (turn s) ≤ weight s - 1
  unfolding turn
  turn-weight s a = ground arith

  turns_empty :
      (n : ℕ) (s : System A)
      → IsAwake s
      → weight s ≤ n
      → is_empty (turns n s).dispatcher.dispatched ≡ true
  unfolding turns
  turns_empty zero s a h = ground arith
  turns_empty (suc n) s a h =
      turns_empty n (turn s) (turn-IsAwake s a) (omega (arith, turn-weight s a))

  turns_keep :
      (n : ℕ) (s : System A)
      → (turns n s).called ++ (turns n s).dispatcher.dispatched
        ≡ s.called ++ s.dispatcher.dispatched
  unfolding turns
  turns_keep zero s = refl
  turns_keep (suc n) s = turns_keep n (turn s) ∙ turn_keeps s

  nil_of_empty : (xs : List A) → is_empty xs ≡ true → xs ≡ []
  nil_of_empty [] h = refl
  nil_of_empty (x ∷ xs) h = cc

  -- Functions are dispatched and the task takes turns in any order, from the start, and every
  -- notification is delivered. When nothing is dispatched any more, two turns for each function that
  -- still waits and two more are enough: then the functions that were called are those for which
  -- `dispatch` returned true, each once, in the order in which they were dispatched.
  pub turns_call_all :
      (ms : List (Move A)) (n : ℕ)
      → Notifies ms
      → 2 * length (run init ms).dispatcher.dispatched + 2 ≤ n
      → (turns n (run init ms)).called ≡ accepted init ms
  turns_call_all ms n h enough =
      let s : System A = run init ms in
      let a = run-IsAwake ms init h (λ _ empty. cc) in
      let done =
        nil_of_empty (turns n s).dispatcher.dispatched (turns_empty n s a (ground arith)) in
      sym (append-nil (turns n s).called)
      ∙ ap (λ q. (turns n s).called ++ q) (sym done)
      ∙ turns_keep n s
      ∙ run_keeps ms init h
