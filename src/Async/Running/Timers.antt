-- ===== src/Async/Running/Timers.antt =====
-- The timers that a pass of the timer's task calls.
use esp_iot_framework.Prelude.{
  ℕ, zero, suc, ◌≤◌, ◌≡◌, refl, sym, ap, subst, ◌∙◌, inl, inr, Bool, true, false, Option, none,
  some, List, [], ◌∷◌, arith, ltb, if◌then◌else◌, Bool-cases, by_if, length, drop,
}
use esp_iot_framework.Async.World.{
  Callback, Alarm, resolve, expire, alarm, World, promise_at, put_promise, notify, Program,
}
use esp_iot_framework.Async.SystemTimer.{TimerTask, SystemTimer, has_pending_task, take_timer}
use esp_iot_framework.Async.Promise.{notify_all, on_promise_finished, finish, set_success}
use esp_iot_framework.Async.Running.{run_alarm, process_timers, call_timers}
use esp_iot_framework.Async.Running.TimerQueue.{
  IsSorted, due, due_none, timers_cases, take_timer_front, due_front, no_more,
}

module _ {S : Type 0} where
  abbrev pub timers_of : World S → List (TimerTask Alarm)
  timers_of w = w.timer.timers

  abbrev with_timers : World S → List (TimerTask Alarm) → World S
  with_timers w ts = record w { timer = record w.timer { timers = ts } }

  -- The timers and the time stay as they were.
  record KeepsTimers (w w' : World S) : Type 0 where
    timer : w'.timer ≡ w.timer
    clock : w'.clock ≡ w.clock

  notify_all-KeepsTimers :
      (cs : List Callback) (w : World S) (p : ℕ) → KeepsTimers w (notify_all w p cs)
  unfolding notify_all notify
  notify_all-KeepsTimers [] w p = record { timer = refl; clock = refl }
  notify_all-KeepsTimers (c ∷ cs) w p =
      let r = notify_all-KeepsTimers cs (notify w (record { promise = p; callback = c })) p in
      record { timer = r.timer; clock = r.clock }

  finish-KeepsTimers : (success : Bool) (w : World S) (p : ℕ) → KeepsTimers w (finish success w p)
  unfolding finish on_promise_finished
  finish-KeepsTimers success w p =
      let w' = put_promise w p (record (promise_at w p) { finished = true; success = success }) in
      let r = notify_all-KeepsTimers (promise_at w' p).on_finished_callbacks w' p in
      by_if (KeepsTimers w) (promise_at w p).finished w (on_promise_finished w' p)
        (record { timer = refl; clock = refl }) (record { timer = r.timer; clock = r.clock })

  set_success-KeepsTimers : (w : World S) (p v : ℕ) → KeepsTimers w (set_success w p v)
  unfolding set_success
  set_success-KeepsTimers w p v =
      let w' = put_promise w p (record (promise_at w p) { result = v }) in
      let r = finish-KeepsTimers true w' p in
      by_if (KeepsTimers w) (promise_at w p).finished w (finish true w' p)
        (record { timer = refl; clock = refl }) (record { timer = r.timer; clock = r.clock })

  -- What a callback may do to the timers: set some that are not due, and nothing else.
  pub record SetsLater (w w' : World S) : Type 0 where
    pub sorted : IsSorted (timers_of w')
    pub due : due w.clock (timers_of w') ≡ due w.clock (timers_of w)
    pub clock : w'.clock ≡ w.clock

  KeepsTimers-SetsLater :
      (w w' : World S) → IsSorted (timers_of w) → KeepsTimers w w' → SetsLater w w'
  KeepsTimers-SetsLater w w' s k = record {
    sorted = rw k.timer s;
    due = rw k.timer refl;
    clock = k.clock;
  }

  abbrev RingsLater : Program S → Type 0
  RingsLater program =
      (f : ℕ) (w : World S) → IsSorted (timers_of w) → SetsLater w (program.ring f w)

  module _ (program : Program S) where
    run_alarm-SetsLater :
        (a : Alarm) (w : World S)
        → RingsLater program
        → IsSorted (timers_of w)
        → SetsLater w (run_alarm program a w)
    unfolding run_alarm
    run_alarm-SetsLater (resolve p) w later s =
        KeepsTimers-SetsLater w (set_success w p 0) s (set_success-KeepsTimers w p 0)
    run_alarm-SetsLater (expire p) w later s =
        by_if (SetsLater w) (promise_at w p).finished w (finish false w p)
          (record { sorted = s; due = refl; clock = refl })
          (KeepsTimers-SetsLater w (finish false w p) s (finish-KeepsTimers false w p))
    run_alarm-SetsLater (alarm f) w later s = later f w s

    process_timers_front :
        (w : World S) (t : TimerTask Alarm) (ts : List (TimerTask Alarm))
        → timers_of w ≡ t ∷ ts
        → ltb t.timeout_at w.clock ≡ true
        → process_timers program w.clock w
          ≡ (run_alarm program t.callback (with_timers w ts), has_pending_task w.clock ts)
    unfolding process_timers
    process_timers_front w t ts e past =
        let outcome : Option (TimerTask Alarm × Bool) × SystemTimer Alarm → World S × Bool = λ r.
          elim r.0 [
            | none ↦ (w, false)
            | some (t, has_more) ↦
                (run_alarm program t.callback (record w { timer = r.1 }), has_more)
          ] in
        ap outcome (take_timer_front w.clock w.clock w.timer t ts e past)

    process_timers_idle :
        (w : World S)
        → has_pending_task w.clock (timers_of w) ≡ false
        → process_timers program w.clock w ≡ (w, false)
    unfolding process_timers take_timer has_pending_task
    process_timers_idle w h = ground arith

    -- The due timers are called one by one, each with those behind it in the queue.
    pub call_each : List (TimerTask Alarm) → World S → World S
    call_each [] w = w
    call_each (t ∷ ts) w =
        call_each ts (run_alarm program t.callback (with_timers w (drop 1 (timers_of w))))

    -- What a pass comes to.
    abbrev Pass : World S → World S → Type 0
    Pass w x =
        (x ≡ call_each (due w.clock (timers_of w)) w)
        × (due w.clock (timers_of x) ≡ [])
        × IsSorted (timers_of x)

    called_front :
        (w : World S) (t : TimerTask Alarm) (ts : List (TimerTask Alarm))
        → timers_of w ≡ t ∷ ts
        → ltb t.timeout_at w.clock ≡ true
        → call_each (due w.clock (timers_of w)) w
          ≡ call_each (due w.clock ts) (run_alarm program t.callback (with_timers w ts))
    unfolding call_each
    called_front w t ts e past =
        ap (λ q. call_each q w) (due_front w.clock (timers_of w) t ts e past)
        ∙ ap
            (λ q.
              call_each (due w.clock ts) (run_alarm program t.callback (with_timers w (drop 1 q))))
            e

    call_timers_front :
        (n : ℕ) (w : World S) (t : TimerTask Alarm) (ts : List (TimerTask Alarm))
        → timers_of w ≡ t ∷ ts
        → ltb t.timeout_at w.clock ≡ true
        → call_timers program (suc n) w ≡ (
            if has_pending_task w.clock ts
            then call_timers program n (run_alarm program t.callback (with_timers w ts))
            else run_alarm program t.callback (with_timers w ts))
    unfolding call_timers
    call_timers_front n w t ts e past = rw (process_timers_front w t ts e past, call_timers) refl

    -- The timers are in order, as setting one keeps them. While the clock stands still, a pass calls
    -- each timer whose time is past, once and the earliest first, with the callbacks as they are, and
    -- no other: one that a callback sets has a time that is not past. No timer is due afterwards.
    pub call_timers-call_each :
        (n : ℕ) (w : World S)
        → RingsLater program
        → IsSorted (timers_of w)
        → length (due w.clock (timers_of w)) ≤ n
        → (call_timers program n w ≡ call_each (due w.clock (timers_of w)) w)
          × (due w.clock (timers_of (call_timers program n w)) ≡ [])
          × IsSorted (timers_of (call_timers program n w))
    unfolding call_timers call_each
    call_timers-call_each zero w later s enough =
        let nothing : due w.clock (timers_of w) ≡ [] = no_more (due w.clock (timers_of w)) enough in
        (rw nothing refl, nothing, s)
    call_timers-call_each (suc n) w later s enough = elim (timers_cases w.clock (timers_of w)) [
      | inl idle ↦
          let same : call_timers program (suc n) w ≡ w =
            rw (process_timers_idle w idle, call_timers) refl in
          let nothing = due_none w.clock (timers_of w) s idle in
          (rw (same, nothing) refl, rw same nothing, rw same s)
      | inr (t, ts, e, past) ↦
          let first = with_timers w ts in
          let w' = run_alarm program t.callback first in
          let sorted : IsSorted (t ∷ ts) = subst (λ q. IsSorted q) e s in
          let set = run_alarm-SetsLater t.callback first later sorted.1 in
          let goal = called_front w t ts e past in
          let fewer : suc (length (due w.clock ts)) ≤ suc n =
            subst (λ q. length q ≤ suc n) (due_front w.clock (timers_of w) t ts e past) enough in
          let same_due : due w'.clock (timers_of w') ≡ due w.clock ts = rw set.clock set.due in
          let rest =
            call_timers-call_each n w' later set.sorted (rw same_due (omega (arith, fewer))) in
          subst (λ x. Pass w x) (sym (call_timers_front n w t ts e past))
            (elim (Bool-cases (has_pending_task w.clock ts)) [
              | inl more ↦ rw more (
                rest.0 ∙ ap (λ q. call_each q w') same_due ∙ sym goal,
                subst (λ c. due c (timers_of (call_timers program n w')) ≡ []) set.clock rest.1,
                rest.2,
              )
              | inr done ↦
                  let nothing : due w.clock ts ≡ [] = due_none w.clock ts sorted.1 done in
                  rw done (
                    ap (λ q. call_each q w') (sym nothing) ∙ sym goal,
                    set.due ∙ nothing,
                    set.sorted,
                  )
            ])
    ]
