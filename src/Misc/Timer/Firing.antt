-- ===== src/Misc/Timer/Firing.antt =====
-- What a pass of a timer's loop does when the callbacks leave the timer alone.
use esp_iot_framework.Prelude.{
  ℕ, suc, ◌+◌, ◌≤◌, ◌≡◌, refl, sym, ap, ◌∙◌, inl, inr, Bool, true, false, some, List, [], ◌∷◌, ◌++◌,
  arith, ◌==◌, if◌then◌else◌, ==_iff, Bool-cases, length, length-append, append-nil, append_assoc,
}
use esp_iot_framework.Misc.Timer.{TimerEntry, Timer, is_due, round, rounds, handle_timers}
use esp_iot_framework.Misc.Timer.Slots.{free_slots, IsValid}
use esp_iot_framework.Misc.Timer.Round.{
  leave, after_round, timer_at, round-lem, after_rounds, due_calls,
}

-- The free slots after the rounds: a slot is freed by an entry that was due and does not repeat.
abbrev freed : (ℕ → ℕ) → ℕ → List TimerEntry → ℕ → ℕ
freed clock i [] n = n
freed clock i (e ∷ es) n =
    freed clock (i + 1) es (if is_due e (clock i) then if e.repeat then n else n + 1 else n)

-- A timer's rounds with one entry moved to those that had theirs.
rounds_moved :
    (clock : ℕ → ℕ) (xs es : List TimerEntry) (e : TimerEntry) (n m : ℕ) (calls : List (ℕ × ℕ))
    → rounds leave clock (length es) (timer_at (xs ++ e ∷ []) es n calls) (length (xs ++ e ∷ []))
      ≡ some (record {
        entries = (xs ++ e ∷ []) ++ after_rounds clock (length (xs ++ e ∷ [])) es;
        free_count = freed clock (length (xs ++ e ∷ [])) es m;
        calls = calls ++ due_calls clock (length (xs ++ e ∷ [])) es;
      })
    → rounds leave clock (length es) (timer_at xs (e ∷ es) n calls) (length xs + 1)
      ≡ some (record {
        entries = xs ++ e ∷ after_rounds clock (length xs + 1) es;
        free_count = freed clock (length xs + 1) es m;
        calls = calls ++ due_calls clock (length xs + 1) es;
      })
rounds_moved clock xs es e n m calls ih =
    let next : length (xs ++ e ∷ []) ≡ length xs + 1 = omega (arith, length-append xs (e ∷ [])) in
    rw
      (
        next,
        append_assoc xs (e ∷ []) es,
        append_assoc xs (e ∷ []) (after_rounds clock (length xs + 1) es),
      )
      at ih

rounds-step :
    (clock : ℕ → ℕ) (n i : ℕ) (t t' : Timer)
    → round leave t i (clock i) ≡ some t'
    → rounds leave clock (suc n) t i ≡ rounds leave clock n t' (i + 1)
unfolding rounds
rounds-step clock n i t t' e = rw (e, rounds)

calls-step :
    (due : Bool) (calls rest : List (ℕ × ℕ)) (c : ℕ × ℕ)
    → (if due then calls ++ c ∷ [] else calls) ++ rest ≡ calls ++ (if due then c ∷ rest else rest)
calls-step true calls rest c = append_assoc calls (c ∷ []) rest
calls-step false calls rest c = refl

rounds-lem :
    (es xs : List TimerEntry) (n : ℕ) (calls : List (ℕ × ℕ)) (clock : ℕ → ℕ)
    → rounds leave clock (length es) (timer_at xs es n calls) (length xs)
      ≡ some (record {
        entries = xs ++ after_rounds clock (length xs) es;
        free_count = freed clock (length xs) es n;
        calls = calls ++ due_calls clock (length xs) es;
      })
unfolding rounds
rounds-lem [] xs n calls clock =
    ap (λ cs. some (record { entries = xs ++ []; free_count = n; calls = cs }))
      (sym (append-nil calls))
rounds-lem (e ∷ es) xs n calls clock =
    let now = clock (length xs) in
    let e' = after_round e now in
    let n' = if is_due e now then if e.repeat then n else n + 1 else n in
    let calls' = if is_due e now then calls ++ (e.callback, e.parameter) ∷ [] else calls in
    let ih = rounds-lem es (xs ++ e' ∷ []) n' calls' clock in
    rounds-step clock (length es) (length xs) (timer_at xs (e ∷ es) n calls)
      (timer_at xs (e' ∷ es) n' calls') (round-lem xs es e n calls now)
    ∙ rounds_moved clock xs es e' n' n' calls' ih
    ∙ ap
        (λ cs. some (record {
          entries = xs ++ e' ∷ after_rounds clock (length xs + 1) es;
          free_count = freed clock (length xs + 1) es n';
          calls = cs;
        }))
        (calls-step (is_due e now) calls (due_calls clock (length xs + 1) es)
          (e.callback, e.parameter))

shift : (left : Bool) (a n : ℕ) → (if left then a else suc a) + n ≡ a + (if left then n else suc n)
shift true a n = refl
shift false a n = omega arith

freed-free_slots :
    (es : List TimerEntry) (clock : ℕ → ℕ) (i a : ℕ)
    → freed clock i es (a + free_slots es) ≡ a + free_slots (after_rounds clock i es)
freed-free_slots [] clock i a = refl
freed-free_slots (e ∷ es) clock i a =
    let now = clock i in
    let n = a + free_slots (e ∷ es) in
    let left : Bool = (after_round e now).active in
    let first : (if is_due e now then if e.repeat then n else n + 1 else n)
        ≡ (if left then a else suc a) + free_slots es =
      ground arith in
    ap (λ m. freed clock (i + 1) es m) first
    ∙ freed-free_slots es clock (i + 1) (if left then a else suc a)
    ∙ shift left a (free_slots (after_rounds clock (i + 1) es))

free_slots-le : (es : List TimerEntry) → free_slots es ≤ length es
free_slots-le [] = omega arith
free_slots-le (e ∷ es) = ground (arith, free_slots-le es)

-- Nothing is due where no entry is active.
idle :
    (es : List TimerEntry) (clock : ℕ → ℕ) (i : ℕ)
    → length es ≡ free_slots es
    → (after_rounds clock i es ≡ es) × (due_calls clock i es ≡ [])
idle [] clock i h = (refl, refl)
idle (e ∷ es) clock i h =
    let inactive : e.active ≡ false = ground (arith, free_slots-le es) in
    let (same, no_calls) = idle es clock (i + 1) (ground (arith, inactive)) in
    (simp (inactive, same), simp (inactive, no_calls))

handle_timers_idle :
    (t : Timer) (clock : ℕ → ℕ)
    → length t.entries ≡ t.free_count
    → handle_timers leave t clock ≡ some t
unfolding handle_timers
handle_timers_idle t clock h = ground arith

handle_timers_busy :
    (t : Timer) (clock : ℕ → ℕ)
    → (length t.entries == t.free_count) ≡ false
    → handle_timers leave t clock ≡ rounds leave clock (length t.entries) t 0
unfolding handle_timers
handle_timers_busy t clock h = rw h

-- The timer knows how many slots are free. A pass over it, when the callbacks leave it alone, calls
-- every entry that is due, once, with its parameter and in the order of the slots, and no other; an
-- entry that repeats starts its interval anew, one that does not is gone, and the rest stay. The
-- free slots are still counted right.
pub handle_timers_fires :
    (t : Timer) (clock : ℕ → ℕ)
    → IsValid t
    → (t' : Timer) × (handle_timers leave t clock ≡ some t')
      × (t'.entries ≡ after_rounds clock 0 t.entries)
      × (t'.calls ≡ t.calls ++ due_calls clock 0 t.entries)
      × IsValid t'
handle_timers_fires t clock v = elim (Bool-cases (length t.entries == t.free_count)) [
  | inl all_free ↦
      let same : length t.entries ≡ t.free_count = (==_iff _ _).0 all_free in
      let (kept, no_calls) = idle t.entries clock 0 (same ∙ v) in
      (t, handle_timers_idle t clock same, sym kept, rw no_calls (sym (append-nil t.calls)), v)
  | inr some_used ↦ (
    record {
      entries = after_rounds clock 0 t.entries;
      free_count = freed clock 0 t.entries t.free_count;
      calls = t.calls ++ due_calls clock 0 t.entries;
    },
    handle_timers_busy t clock some_used ∙ rounds-lem t.entries [] t.free_count t.calls clock,
    refl,
    refl,
    ap (λ n. freed clock 0 t.entries n) (v ∙ omega arith)
        ∙ freed-free_slots t.entries clock 0 0
        ∙ omega arith,
  )
]
