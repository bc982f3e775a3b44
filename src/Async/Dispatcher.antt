-- ===== src/Async/Dispatcher.antt =====
-- async/dispatcher.h and async/dispatcher.cpp. A dispatched function is a value of any type; what
-- FreeRTOS answers is a record. The task that calls the functions goes in turns, between which any
-- other task or interrupt may dispatch: `waiting` for a notification, about to look into the queue,
-- or `running` a function with what it knows of the queue. `xTaskNotify` leaves a notification that
-- the task's wait then takes. When the task yields (`delay_if_too_long`) is left out.
pub mod Calling
use esp_iot_framework.Prelude.{
  ℕ, zero, suc, Bool, true, false, not, Option, none, some, List, [], ◌∷◌, ◌++◌, if◌then◌else◌,
  drop,
}

-- Whether the caller is an interrupt, and whether the task could be created and notified.
pub record Kernel : Type 0 where
  pub in_isr : Bool
  pub created : Bool
  pub sent : Bool

pub record Dispatcher {ℓ} (A : Type ℓ) : Type ℓ where
  pub initialized : Bool
  pub dispatched : List A
  pub notified : Bool

module _ {ℓ} {A : Type ℓ} where
  unfoldable pub begin : Kernel → Dispatcher A → Dispatcher A × Bool
  begin k d =
      if k.in_isr
      then (d, false)
      else if d.initialized
      then (d, true)
      else if k.created
      then (record d { initialized = true }, true)
      else (d, false)

  -- The critical section of `dispatch`: a failed notification pops the queue's front.
  unfoldable pub enqueue : Kernel → A → Dispatcher A → Dispatcher A × Bool
  enqueue k fn d =
      if k.sent
      then (record d { dispatched = d.dispatched ++ fn ∷ []; notified = true }, true)
      else (record d { dispatched = drop 1 (d.dispatched ++ fn ∷ []) }, false)

  unfoldable pub dispatch : Kernel → A → Dispatcher A → Dispatcher A × Bool
  unfolding begin enqueue
  dispatch k fn d =
      if d.initialized
      then enqueue k fn d
      else let (d', ok) = begin k d in if ok then enqueue k fn d' else (d', false)

  abbrev pub is_empty : List A → Bool
  is_empty [] = true
  is_empty (x ∷ xs) = false

  -- The critical section of `process_pending_tasks`: the function to call, and whether there are more.
  unfoldable pub take_task : Dispatcher A → Option (A × Bool) × Dispatcher A
  take_task d = elim d.dispatched [
    | [] ↦ (none, d)
    | fn ∷ fns ↦ (some (fn, not (is_empty fns)), record d { dispatched = fns })
  ]

pub data Phase : Type 0 where
  waiting : Phase
  processing : Phase
  running : Bool → Phase

-- `called` records the functions that were called.
pub record System {ℓ} (A : Type ℓ) : Type ℓ where
  pub dispatcher : Dispatcher A
  pub phase : Phase
  pub called : List A

module _ {ℓ} {A : Type ℓ} where
  abbrev pub init : System A
  init = record {
    dispatcher = record { initialized = false; dispatched = []; notified = false };
    phase = waiting;
    called = [];
  }

  -- A turn of `dispatcher_task`.
  unfoldable pub turn : System A → System A
  unfolding take_task
  turn s = elim s.phase [
    | waiting ↦
        if s.dispatcher.notified
        then record s { dispatcher = record s.dispatcher { notified = false }; phase = processing }
        else s
    | processing ↦
        let (task, d) = take_task s.dispatcher in
        elim task [
          | none ↦ record s { phase = waiting }
          | some (fn, has_more) ↦ record {
            dispatcher = d;
            phase = running has_more;
            called = s.called ++ fn ∷ [];
          }
        ]
    | running has_more ↦ record s { phase = if has_more then processing else waiting }
  ]

  unfoldable pub turns : ℕ → System A → System A
  turns zero s = s
  turns (suc n) s = turns n (turn s)
