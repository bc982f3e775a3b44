-- ===== src/Misc/Saving/Scheduled.antt =====
-- What a scheduled save comes to.
use esp_iot_framework.Prelude.{
  ℕ, zero, suc, ◌+◌, ◌<◌, ◌≡◌, refl, sym, ap, subst, ◌∙◌, ◌≢◌, inl, inr, Bool, true, false, ◌&&◌,
  Option, none, some, List, [], ◌∷◌, arith, ◌==◌, if◌then◌else◌, Bool-cases, length, get_or, drop,
  drop-append,
}
use native.Mathlib.Decide.{ℕ_discrete}
use esp_iot_framework.Misc.Storage.{Storage, save_interval, on_save_timer}
use esp_iot_framework.Misc.Storage.Persistence.{commit_impl-save_timer_id}
use esp_iot_framework.Misc.Timer.{TimerEntry, blank_entry, new_entry, is_due}
use esp_iot_framework.Misc.Timer.Slots
use esp_iot_framework.Misc.Timer.Slots.{add_takes_free_slot, clear_frees_slot}
use esp_iot_framework.Misc.Timer.Round.{after_round, after_rounds, due_calls}
use esp_iot_framework.Misc.Timer.Firing.{handle_timers_fires}
use esp_iot_framework.Misc.Saving.{commit_callback, Device, run_calls, poll}

abbrev pub entry_at : List TimerEntry → ℕ → TimerEntry
entry_at es k = get_or es k blank_entry

-- The entry of a save that was scheduled at a time.
abbrev pub save_entry : ℕ → TimerEntry
save_entry now = new_entry commit_callback save_interval false 0 now

abbrev pub is_commit : TimerEntry → Bool
is_commit e = e.active && (e.callback == commit_callback)

-- The storage's entry is where the storage thinks it is, and it has no other.
abbrev pub Pending : Option ℕ → List TimerEntry → Type 0
Pending none es = (k : ℕ) → is_commit (entry_at es k) ≡ false
Pending (some id) es =
    (now : ℕ) × (entry_at es id ≡ save_entry now)
    × ((k : ℕ) → k ≢ id → is_commit (entry_at es k) ≡ false)

pub record IsSound (d : Device) : Type 0 where
  pub counted : Slots.IsValid d.timer
  pub pending : Pending d.storage.save_timer_id d.timer.entries

pub is_inside : (es : List TimerEntry) (k : ℕ) → (entry_at es k).active ≡ true → k < length es
is_inside [] k h = absurd (cc)
is_inside (e ∷ es) zero h = omega arith
is_inside (e ∷ es) (suc k) h = let rest = is_inside es k h in omega arith

pub after_rounds-at :
    (es : List TimerEntry) (clock : ℕ → ℕ) (i k : ℕ)
    → entry_at (after_rounds clock i es) k ≡ after_round (entry_at es k) (clock (i + k))
after_rounds-at [] clock i k = refl
after_rounds-at (e ∷ es) clock i zero = ap (λ n. after_round e (clock n)) (omega arith)
after_rounds-at (e ∷ es) clock i (suc k) =
    after_rounds-at es clock (i + 1) k
    ∙ ap (λ n. after_round (entry_at es k) (clock n)) (omega arith)

other_call :
    (callback parameter : ℕ) (calls : List (ℕ × ℕ)) (s : Storage)
    → (callback == commit_callback) ≡ false
    → run_calls ((callback, parameter) ∷ calls) s ≡ run_calls calls s
unfolding run_calls
other_call callback parameter calls s h = rw h

none_called :
    (es : List TimerEntry) (clock : ℕ → ℕ) (i : ℕ) (s : Storage)
    → ((k : ℕ) → is_commit (entry_at es k) ≡ false)
    → run_calls (due_calls clock i es) s ≡ s
unfolding run_calls
none_called [] clock i s h = refl
none_called (e ∷ es) clock i s h =
    let rest = none_called es clock (i + 1) s (λ k. h (suc k)) in
    elim (Bool-cases (is_due e (clock i))) [
      | inl due ↦
          let other : (e.callback == commit_callback) ≡ false = ground (arith, h 0) in
          rw due (other_call e.callback e.parameter (due_calls clock (i + 1) es) s other ∙ rest)
      | inr early ↦ rw early rest
    ]

one_called :
    (es : List TimerEntry) (clock : ℕ → ℕ) (i k now : ℕ) (s : Storage)
    → entry_at es k ≡ save_entry now
    → ((j : ℕ) → j ≢ k → is_commit (entry_at es j) ≡ false)
    → run_calls (due_calls clock i es) s
      ≡ (if is_due (save_entry now) (clock (i + k)) then on_save_timer s else s)
unfolding run_calls
one_called [] clock i k now s e h = absurd (let wrong = ap (λ (x : TimerEntry). x.active) e in cc)
one_called (x ∷ es) clock i zero now s e h =
    let here : i + 0 ≡ i = omega arith in
    let rest = λ (s' : Storage).
      none_called es clock (i + 1) s' (λ k. h (suc k) (λ same. absurd (omega (arith, same)))) in
    elim (Bool-cases (is_due (save_entry now) (clock i))) [
      | inl due ↦ rw (here, e, due) (rest (on_save_timer s))
      | inr early ↦ rw (here, e, early) (rest s)
    ]
one_called (x ∷ es) clock i (suc k) now s e h =
    let there : i + suc k ≡ i + 1 + k = omega arith in
    let rest =
      one_called es clock (i + 1) k now s e
        (λ j ne. h (suc j) (λ same. ne (omega (arith, same)))) in
    elim (Bool-cases (is_due x (clock i))) [
      | inl due ↦
          let first = h 0 (λ same. absurd (omega (arith, same))) in
          let other : (x.callback == commit_callback) ≡ false = ground (arith, first) in
          rw (there, due)
            (other_call x.callback x.parameter (due_calls clock (i + 1) es) s other ∙ rest)
      | inr early ↦ rw (there, early) rest
    ]

-- What a pass of the timer does to the storage, whose entry is at `id`.
abbrev pub after_pass : Option ℕ → Storage → List TimerEntry → (ℕ → ℕ) → Storage
after_pass none s es clock = s
after_pass (some id) s es clock = if is_due (entry_at es id) (clock id) then on_save_timer s else s

stays_other :
    (e : TimerEntry) (now : ℕ) → is_commit e ≡ false → is_commit (after_round e now) ≡ false
stays_other e now h = ground arith

pub on_save_timer-save_timer_id : (s : Storage) → (on_save_timer s).save_timer_id ≡ none
unfolding on_save_timer
on_save_timer-save_timer_id s = commit_impl-save_timer_id (record s { save_timer_id = none })

after_none :
    (es : List TimerEntry) (clock : ℕ → ℕ) (k : ℕ)
    → is_commit (entry_at es k) ≡ false
    → is_commit (entry_at (after_rounds clock 0 es) k) ≡ false
after_none es clock k h =
    rw (after_rounds-at es clock 0 k) (stays_other (entry_at es k) (clock (0 + k)) h)

Pending-after :
    (o : Option ℕ) (s : Storage) (es : List TimerEntry) (clock : ℕ → ℕ)
    → s.save_timer_id ≡ o
    → Pending o es
    → Pending (after_pass o s es clock).save_timer_id (after_rounds clock 0 es)
Pending-after none s es clock e h = rw e (λ k. after_none es clock k (h k))
Pending-after (some id) s es clock e (now, there, others) =
    let at_id : entry_at (after_rounds clock 0 es) id ≡ after_round (entry_at es id) (clock id) =
      after_rounds-at es clock 0 id
      ∙ ap (λ n. after_round (entry_at es id) (clock n)) (omega arith) in
    elim (Bool-cases (is_due (entry_at es id) (clock id))) [
      | inl due ↦
          let gone : is_commit (entry_at (after_rounds clock 0 es) id) ≡ false =
            rw at_id (rw (due, there) refl) in
          rw (due, on_save_timer-save_timer_id s)
            (λ k. elim (ℕ_discrete k id) [
              | yes same ↦ rw same gone
              | no other ↦ after_none es clock k (others k other)
            ])
      | inr early ↦
          rw (early, e)
            (now, at_id ∙ rw early there, λ k other. after_none es clock k (others k other))
    ]

calls_commit :
    (o : Option ℕ) (s : Storage) (es : List TimerEntry) (clock : ℕ → ℕ)
    → Pending o es
    → run_calls (due_calls clock 0 es) s ≡ after_pass o s es clock
calls_commit none s es clock h = none_called es clock 0 s h
calls_commit (some id) s es clock (now, there, others) =
    let here : 0 + id ≡ id = omega arith in
    one_called es clock 0 id now s there others ∙ rw (here, there) refl

pub poll_lem :
    (d : Device) (clock : ℕ → ℕ)
    → IsSound d
    → (d' : Device) × (poll d clock ≡ some d')
      × (d'.storage ≡ after_pass d.storage.save_timer_id d.storage d.timer.entries clock)
      × (d'.timer.entries ≡ after_rounds clock 0 d.timer.entries)
      × IsSound d'
unfolding poll
poll_lem d clock v =
    let (t, e, entries, calls, counted) = handle_timers_fires d.timer clock v.counted in
    let fresh : drop (length d.timer.calls) t.calls ≡ due_calls clock 0 d.timer.entries =
      ap (drop (length d.timer.calls)) calls ∙ drop-append d.timer.calls _ in
    let o = d.storage.save_timer_id in
    let after = after_pass o d.storage d.timer.entries clock in
    let s' = run_calls (drop (length d.timer.calls) t.calls) d.storage in
    let storage : s' ≡ after =
      ap (λ cs. run_calls cs d.storage) fresh
      ∙ calls_commit o d.storage d.timer.entries clock v.pending in
    (
      record { storage = s'; timer = t },
      rw (e, poll),
      storage,
      entries,
      record {
        counted = counted;
        pending =
            subst (λ (x : Storage). Pending x.save_timer_id t.entries) (sym storage)
              (subst (λ es. Pending after.save_timer_id es) (sym entries)
                (Pending-after o d.storage d.timer.entries clock refl v.pending));
      },
    )
