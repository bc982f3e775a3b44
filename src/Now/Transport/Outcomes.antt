-- ===== src/Now/Transport/Outcomes.antt =====
-- What became of the promises of some packets.
use esp_iot_framework.Prelude.{
  ℕ, zero, suc, ◌≤◌, ◌<◌, ◌≡◌, refl, ap, ◌∙◌, Bool, true, false, Option, none, some, List, [], ◌∷◌,
  arith, ◌==◌, if◌then◌else◌, ==_refl, length, get_or, lookup, insert, lookup-insert,
}
use esp_iot_framework.Async.World.{World, promise_at}
use esp_iot_framework.Async.Promise.{set_success, set_error}
use esp_iot_framework.Async.Promise.Settling.{finish-Effect, set_success-Effect}
use esp_iot_framework.Async.Promise.Effects.{Works, settled_with}
use esp_iot_framework.Async.Promise.Histories.{outcome_at}
use esp_iot_framework.Async.Promise.Deeds.{Outcome, succeeded, failed}
use esp_iot_framework.Now.Transport.{AsyncEspNow, waiting}

abbrev pub NotIn : ℕ → List ℕ → Type 0
NotIn p [] = Unit {0}
NotIn p (q ∷ qs) = ((q == p) ≡ false) × NotIn p qs

abbrev pub Distinct : List ℕ → Type 0
Distinct [] = Unit {0}
Distinct (p ∷ ps) = NotIn p ps × Distinct ps

abbrev verdict_of : Bool → Outcome
verdict_of success = if success then succeeded 0 else failed

abbrev pub verdicts : List Bool → List (Option Outcome)
verdicts [] = []
verdicts (s ∷ ss) = some (verdict_of s) ∷ verdicts ss

pub waiting-insert :
    (t : AsyncEspNow) (mac : ℕ) (ps : List ℕ)
    → waiting (record t { send_order = insert mac ps t.send_order }) mac ≡ ps
waiting-insert t mac ps =
    let found : lookup mac (insert mac ps t.send_order) ≡ some ps =
      lookup-insert mac mac ps t.send_order ∙ rw (==_refl mac) refl in
    let queue : Option (List ℕ) → List ℕ = λ o. elim o [ some qs ↦ qs | none ↦ [] ] in
    ap queue found

-- The numbers of `m` promises that are created one after the other, from `n` on.
abbrev pub fresh_from : ℕ → ℕ → List ℕ
fresh_from n zero = []
fresh_from n (suc m) = n ∷ fresh_from (suc n) m

fresh_from-NotIn : (m n p : ℕ) → p < n → NotIn p (fresh_from n m)
fresh_from-NotIn zero n p h = tt
fresh_from-NotIn (suc m) n p h = (ground arith, fresh_from-NotIn m (suc n) p (omega arith))

pub fresh_from-Distinct : (m n : ℕ) → Distinct (fresh_from n m)
fresh_from-Distinct zero n = tt
fresh_from-Distinct (suc m) n =
    (fresh_from-NotIn m (suc n) n (omega arith), fresh_from-Distinct m (suc n))

pub length-fresh_from : (m n : ℕ) → length (fresh_from n m) ≡ m
length-fresh_from zero n = refl
length-fresh_from (suc m) n = ap suc (length-fresh_from m (suc n))

pub get_or-past {ℓ} : {A : Type ℓ} (xs : List A) (d : A) (j : ℕ) → length xs ≤ j → get_or xs j d ≡ d
get_or-past [] d j h = refl
get_or-past (x ∷ xs) d zero h = absurd (omega arith)
get_or-past (x ∷ xs) d (suc j) h = get_or-past xs d j (omega arith)

module _ {S : Type 0} where
  abbrev pub outcomes : World S → List ℕ → List (Option Outcome)
  outcomes w [] = []
  outcomes w (p ∷ ps) = outcome_at w p ∷ outcomes w ps

  abbrev pub AllPending : World S → List ℕ → Type 0
  AllPending w [] = Unit {0}
  AllPending w (p ∷ ps) = ((p < length w.promises) × (outcome_at w p ≡ none)) × AllPending w ps

  abbrev pub settle : Bool → World S → ℕ → World S
  settle success w p = if success then set_success w p 0 else set_error w p

  -- A pending promise is settled, and no other changes.
  pub record Settles (w w' : World S) (p : ℕ) (success : Bool) : Type 0 where
    pub works : Works w'
    pub same_length : length w'.promises ≡ length w.promises
    pub settled : outcome_at w' p ≡ some (verdict_of success)
    pub others : (q : ℕ) → (p == q) ≡ false → promise_at w' q ≡ promise_at w q

  pub settle-Settles :
      (success : Bool) (w : World S) (p : ℕ)
      → Works w
      → p < length w.promises
      → outcome_at w p ≡ none
      → Settles w (settle success w p) p success
  settle-Settles true w p h inside open_still =
      let pending : (promise_at w p).finished ≡ false = ground arith in
      let e = set_success-Effect w p 0 h inside pending in
      let at : promise_at (set_success w p 0) p
          ≡ record { finished = true; success = true; result = 0; on_finished_callbacks = [] } =
        e.at p ∙ rw (==_refl p) refl in
      record {
        works = e.works;
        same_length = e.same_length;
        settled = rw at refl;
        others = λ q other. e.at q ∙ rw other refl;
      }
  settle-Settles false w p h inside open_still =
      let pending : (promise_at w p).finished ≡ false = ground arith in
      let e = finish-Effect false w p h inside pending in
      let at : promise_at (set_error w p) p ≡ settled_with false (promise_at w p) =
        e.at p ∙ rw (==_refl p) refl in
      record {
        works = e.works;
        same_length = e.same_length;
        settled = rw at refl;
        others = λ q other. e.at q ∙ rw other refl;
      }
