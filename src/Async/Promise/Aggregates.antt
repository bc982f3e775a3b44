-- ===== src/Async/Promise/Aggregates.antt =====
-- `all` and `any`: what the future that they return comes to.
use esp_iot_framework.Prelude.{
  ℕ, zero, suc, ◌-◌, ◌≤◌, ◌<◌, ◌≡◌, refl, sym, ap, subst, ◌∙◌, Bool, true, false, not, ◌&&◌, Option,
  none, some, List, [], ◌∷◌, ◌++◌, arith, ◌==◌, if◌then◌else◌, ==_refl, length, get_or, set,
  length-append, length-set, get_or-set_self,
}
use esp_iot_framework.Async.World.{Callback, all_step, blank_promise, World, promise_at, notify}
use esp_iot_framework.Async.Promise.{
  create, set_success, set_error, on_finished, register_all, already_done, aggregate, all,
  on_all_step,
}
use esp_iot_framework.Async.Promise.Settling.{finish-Effect, set_success-Effect}
use esp_iot_framework.Async.Promise.Effects.{Works}
use esp_iot_framework.Async.Promise.Histories.{after, outcome_at, act-Effect}
use esp_iot_framework.Async.Promise.Deeds.{register, Deed, Outcome, succeeded, failed}

abbrev none_failed : List Bool → Bool
none_failed [] = true
none_failed (b ∷ bs) = b && none_failed bs

abbrev pub listens : Callback → List ℕ → List Deed
listens c [] = []
listens c (f ∷ fs) = record { target = f; action = register c } ∷ listens c fs

pub get_or-snoc {ℓ} : {A : Type ℓ} (xs : List A) (x d : A) → get_or (xs ++ x ∷ []) (length xs) d ≡ x
get_or-snoc [] x d = refl
get_or-snoc (y ∷ xs) x d = get_or-snoc xs x d

pub get_or-snoc_default {ℓ} :
    {A : Type ℓ} (xs : List A) (d : A) (j : ℕ) → get_or (xs ++ d ∷ []) j d ≡ get_or xs j d
get_or-snoc_default [] d zero = refl
get_or-snoc_default [] d (suc j) = refl
get_or-snoc_default (x ∷ xs) d zero = refl
get_or-snoc_default (x ∷ xs) d (suc j) = get_or-snoc_default xs d j

abbrev pub AllBelow : ℕ → List ℕ → Type 0
AllBelow n [] = Unit {0}
AllBelow n (f ∷ fs) = (f < n) × AllBelow n fs

abbrev verdict : ℕ → List Bool → Option Outcome
verdict n bs =
    if not (none_failed bs)
    then some failed
    else if length bs == n
    then some (succeeded 0)
    else none

module _ {S : Type 0} where
  -- The future's members end, one after the other.
  pub all_steps : World S → ℕ → ℕ → List Bool → World S
  all_steps w k r [] = w
  all_steps w k r (b ∷ bs) = all_steps (on_all_step w k r b) k r bs

  all_steps_finished :
      (bs : List Bool) (w : World S) (k r : ℕ)
      → (promise_at w r).finished ≡ true
      → all_steps w k r bs ≡ w
  unfolding all_steps on_all_step
  all_steps_finished [] w k r h = refl
  all_steps_finished (b ∷ bs) w k r h =
      ap (λ x. all_steps x k r bs) (let same : on_all_step w k r b ≡ w = rw h in same)
      ∙ all_steps_finished bs w k r h

  abbrev counted : World S → ℕ → ℕ → World S
  counted w k n = record w { counters = set w.counters k n }

  -- The three branches of a step at a pending promise.
  step_failed :
      (w : World S) (k r : ℕ)
      → (promise_at w r).finished ≡ false
      → on_all_step w k r false ≡ set_error w r
  unfolding on_all_step
  step_failed w k r pending = rw pending refl

  step_last :
      (w : World S) (k r : ℕ)
      → (promise_at w r).finished ≡ false
      → get_or w.counters k 0 ≡ 1
      → on_all_step w k r true ≡ set_success (counted w k 0) r 0
  unfolding on_all_step
  step_last w k r pending left = rw (pending, left) refl

  step_more :
      (w : World S) (k r n : ℕ)
      → (promise_at w r).finished ≡ false
      → get_or w.counters k 0 ≡ suc (suc n)
      → on_all_step w k r true ≡ counted w k (suc n)
  unfolding on_all_step
  step_more w k r n pending left =
      let fewer : suc (suc n) - 1 ≡ suc n = omega arith in
      let not_last : (suc n == 0) ≡ false = ground arith in rw (pending, left, fewer, not_last) refl

  -- A settled promise keeps its outcome through all later steps.
  settled_by :
      (bs : List Bool) (w : World S) (k r : ℕ) (o : Outcome)
      → outcome_at w r ≡ some o
      → outcome_at (all_steps w k r bs) r ≡ some o
  settled_by bs w k r o h =
      let done : (promise_at w r).finished ≡ true = ground arith in
      rw (all_steps_finished bs w k r done) h

  all_steps-lem :
      (bs : List Bool) (n : ℕ) (w : World S) (k r : ℕ)
      → Works w
      → r < length w.promises
      → (promise_at w r).finished ≡ false
      → k < length w.counters
      → get_or w.counters k 0 ≡ suc n
      → length bs ≤ suc n
      → outcome_at (all_steps w k r bs) r ≡ verdict (suc n) bs
  unfolding all_steps
  all_steps-lem [] n w k r h inside pending counts left few = rw pending (ground arith)
  all_steps-lem (false ∷ bs) n w k r h inside pending counts left few =
      let e = finish-Effect false w r h inside pending in
      rw (all_steps, step_failed w k r pending)
        (settled_by bs (set_error w r) k r failed (rw (e.at r) (rw (==_refl r) refl)))
  all_steps-lem (true ∷ []) zero w k r h inside pending counts left few =
      let w' = counted w k 0 in
      let e =
        set_success-Effect w' r 0 (record { begun = h.begun; delivers = h.delivers }) inside
          pending in
      rw (all_steps, step_last w k r pending left) (rw (e.at r) (rw (==_refl r) refl))
  all_steps-lem (true ∷ b ∷ bs) zero w k r h inside pending counts left few = absurd (omega arith)
  all_steps-lem (true ∷ bs) (suc n) w k r h inside pending counts left few =
      let w' = counted w k (suc n) in
      let rest =
        all_steps-lem bs n w' k r (record { begun = h.begun; delivers = h.delivers }) inside pending
          (rw (length-set w.counters k (suc n)) counts)
          (get_or-set_self w.counters k (suc n) 0 counts) (omega arith) in
      rw (all_steps, step_more w k r n pending left) (rest ∙ ground arith)

  pub register_all-after :
      (fs : List ℕ) (w : World S) (c : Callback) → register_all w fs c ≡ after w (listens c fs)
  unfolding register_all after
  register_all-after [] w c = refl
  register_all-after (f ∷ fs) w c = register_all-after fs (on_finished w f c) c

  -- Registering at other promises leaves `r` and the counters alone.
  pub record Listened (w w' : World S) (r : ℕ) : Type 0 where
    pub works : Works w'
    pub same_length : length w'.promises ≡ length w.promises
    pub same : promise_at w' r ≡ promise_at w r
    pub counters : w'.counters ≡ w.counters

  on_finished-counters :
      (w : World S) (p : ℕ) (c : Callback) → (on_finished w p c).counters ≡ w.counters
  unfolding on_finished notify
  on_finished-counters w p c = ground arith

  pub listens-Listened :
      (fs : List ℕ) (c : Callback) (w : World S) (r : ℕ)
      → Works w
      → r < length w.promises
      → AllBelow r fs
      → Listened w (after w (listens c fs)) r
  unfolding after
  listens-Listened [] c w r h inside below = record {
    works = h;
    same_length = refl;
    same = refl;
    counters = refl;
  }
  listens-Listened (f ∷ fs) c w r h inside below =
      let w' = on_finished w f c in
      let e = act-Effect (register c) w f h (omega arith) in
      let other : (f == r) ≡ false = ground arith in
      let rest = listens-Listened fs c w' r e.works (rw e.same_length inside) below.1 in
      record {
        works = rest.works;
        same_length = rest.same_length ∙ e.same_length;
        same = rest.same ∙ e.at r ∙ rw other refl;
        counters = rest.counters ∙ on_finished-counters w f c;
      }

  -- The world with the promise and the counter that `all` makes.
  abbrev pub prepared : World S → ℕ → World S
  prepared w n = record w {
    promises = w.promises ++ blank_promise ∷ [];
    counters = w.counters ++ n ∷ [];
  }

  aggregate_pending :
      (w : World S) (fs : List ℕ)
      → already_done w fs true ≡ some false
      → aggregate w fs ≡ (
        after
            (prepared w (length fs))
            (listens (all_step (length w.counters) (length w.promises)) fs),
        length w.promises,
      )
  unfolding aggregate create
  aggregate_pending w fs e =
      rw (e, aggregate)
        (ap (λ x. (x, length w.promises))
          (register_all-after fs (prepared w (length fs))
            (all_step (length w.counters) (length w.promises))))

  -- `all` of two or more futures that exist, of which none has failed and one is pending, registers
  -- one callback at each, in order, and returns a new future. When as many of the callbacks as there
  -- are futures, or fewer, have been called, in whatever order, that future has failed if one of them
  -- was called for a failure, has succeeded if all were called, each for a success, and is pending
  -- otherwise.
  pub all_settles :
      (w : World S) (f g : ℕ) (fs : List ℕ) (bs : List Bool)
      → Works w
      → AllBelow (length w.promises) (f ∷ g ∷ fs)
      → already_done w (f ∷ g ∷ fs) true ≡ some false
      → length bs ≤ length (f ∷ g ∷ fs)
      → (w' : World S) × (all w (f ∷ g ∷ fs) ≡ (w', length w.promises))
        × (w'
            ≡ after
                (prepared w (length (f ∷ g ∷ fs)))
                (listens (all_step (length w.counters) (length w.promises)) (f ∷ g ∷ fs)))
        × (outcome_at (all_steps w' (length w.counters) (length w.promises) bs) (length w.promises)
            ≡ verdict (length (f ∷ g ∷ fs)) bs)
  unfolding all
  all_settles w f g fs bs h below e few =
      let members = f ∷ g ∷ fs in
      let k = length w.counters in
      let r = length w.promises in
      let start = prepared w (length members) in
      let w' = after start (listens (all_step k r) members) in
      let longer : length start.promises ≡ suc r =
        length-append w.promises (blank_promise ∷ []) ∙ omega arith in
      let l =
        listens-Listened members (all_step k r) start r
          (record { begun = h.begun; delivers = h.delivers })
          (subst (λ n. r < n) (sym longer) (omega arith)) below in
      let fresh : promise_at w' r ≡ blank_promise =
        l.same ∙ get_or-snoc w.promises blank_promise blank_promise in
      let inside : r < length w'.promises = omega (arith, l.same_length, longer) in
      let counts : k < length w'.counters =
        rw l.counters (omega (arith, length-append w.counters (length members ∷ []))) in
      let left : get_or w'.counters k 0 ≡ length members =
        rw l.counters (get_or-snoc w.counters (length members) 0) in
      (
        w',
        aggregate_pending w members e,
        refl,
        all_steps-lem bs (suc (length fs)) w' k r l.works inside (ap (λ q. q.finished) fresh) counts
            left few,
      )
