-- ===== src/Async/Promise/Deeds.antt =====
-- What is done to promises, and what it should come to.
use esp_iot_framework.Prelude.{
  ℕ, ◌<◌, ◌≡◌, refl, Bool, true, false, Option, none, some, List, [], ◌∷◌, ◌++◌, arith, ◌==◌,
  if◌then◌else◌,
}
use esp_iot_framework.Async.World.{Callback, Promise}
use esp_iot_framework.Async.Promise.Effects.{settled_with}

pub data Action : Type 0 where
  register : Callback → Action
  succeed : ℕ → Action
  fail : Action

pub record Deed : Type 0 where
  pub target : ℕ
  pub action : Action

-- What became of a promise.
pub data Outcome : Type 0 where
  succeeded : ℕ → Outcome
  failed : Outcome

abbrev first_of : Action → Option Outcome → Option Outcome
first_of (register c) o = o
first_of (succeed v) o = some (succeeded v)
first_of fail o = some failed

-- The first settlement of a promise.
abbrev pub settlement : ℕ → List Deed → Option Outcome
settlement p [] = none
settlement p (d ∷ ds) =
    if d.target == p then first_of d.action (settlement p ds) else settlement p ds

abbrev pub with_callback : Action → List Callback → List Callback
with_callback (register c) cs = c ∷ cs
with_callback (succeed v) cs = cs
with_callback fail cs = cs

-- The callbacks that were registered at a promise.
abbrev pub registered : ℕ → List Deed → List Callback
registered p [] = []
registered p (d ∷ ds) =
    if d.target == p then with_callback d.action (registered p ds) else registered p ds

abbrev pub is_settled : Option Outcome → Bool
is_settled none = false
is_settled (some o) = true

-- A promise's own state machine: what a deed makes of it, and the callbacks that it tells.
abbrev pub change : Action → Promise → Promise
change (register c) q =
    if q.finished then q else record q { on_finished_callbacks = q.on_finished_callbacks ++ c ∷ [] }
change (succeed v) q =
    if q.finished
    then q
    else record { finished = true; success = true; result = v; on_finished_callbacks = [] }
change fail q = if q.finished then q else settled_with false q

abbrev pub tell : Action → Promise → List Callback
tell (register c) q = if q.finished then c ∷ [] else []
tell (succeed v) q = if q.finished then [] else q.on_finished_callbacks
tell fail q = if q.finished then [] else q.on_finished_callbacks

pub pick :
    (P : Promise → List Callback → Type 0) (b : Bool) (x y : Promise) (cs ds : List Callback)
    → (b ≡ true → P x cs)
    → (b ≡ false → P y ds)
    → P (if b then x else y) (if b then cs else ds)
pick P true x y cs ds f g = f refl
pick P false x y cs ds f g = g refl

abbrev pub AllExist : ℕ → List Deed → Type 0
AllExist n [] = Unit {0}
AllExist n (d ∷ ds) = (d.target < n) × AllExist n ds

with_callback_split :
    (a : Action) (cs : List Callback) → with_callback a cs ≡ with_callback a [] ++ cs
with_callback_split (register c) cs = refl
with_callback_split (succeed v) cs = refl
with_callback_split fail cs = refl

pub registered_split :
    (p : ℕ) (d : Deed) (ds : List Deed)
    → registered p (d ∷ ds)
      ≡ (if d.target == p then with_callback d.action [] else []) ++ registered p ds
registered_split p d ds = ground (arith, with_callback_split d.action (registered p ds))

pub change_finished :
    (a : Action) (q : Promise)
    → q.finished ≡ true
    → (change a q ≡ q) × (tell a q ≡ with_callback a [])
change_finished (register c) q h = (rw h, rw h)
change_finished (succeed v) q h = (rw h, rw h)
change_finished fail q h = (rw h, rw h)
