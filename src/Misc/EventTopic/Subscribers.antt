-- ===== src/Misc/EventTopic/Subscribers.antt =====
-- Who is called for an event, after any subscriptions.
use esp_iot_framework.Prelude.{
  ℕ, suc, ◌+◌, ◌≡◌, refl, sym, ap, ap₂, subst, ◌∙◌, inl, inr, Bool, true, false, ◌&&◌, ◌||◌, List,
  [], ◌∷◌, ◌++◌, arith, ◌==◌, if◌then◌else◌, ==_iff, Bool-cases, Map, lookup, insert, lookup-insert,
}
use esp_iot_framework.Misc.EventTopic.{
  Subscription, Call, EventTopic, init, contains, emplace, subscribers_of, subscribe_all, subscribe,
  calls, publish,
}

pub data Subscribing : Type 0 where
  to_all : ℕ → ℕ → Subscribing
  to_type : ℕ → ℕ → ℕ → Subscribing

abbrev step : EventTopic → Subscribing → EventTopic
step t (to_all target callback) = subscribe_all t target callback
step t (to_type target type callback) = subscribe t target type callback

pub run : EventTopic → List Subscribing → EventTopic
run t [] = t
run t (s ∷ ss) = run (step t s) ss

-- Whether the subscriber asked for all events, and whether it asked for those of a type.
abbrev asked_for_all : ℕ → List Subscribing → Bool
asked_for_all who [] = false
asked_for_all who (to_all target callback ∷ ss) = target == who || asked_for_all who ss
asked_for_all who (to_type target type callback ∷ ss) = asked_for_all who ss

abbrev asked_for_type : ℕ → ℕ → List Subscribing → Bool
asked_for_type who wanted [] = false
asked_for_type who wanted (to_all target callback ∷ ss) = asked_for_type who wanted ss
asked_for_type who wanted (to_type target type callback ∷ ss) =
    (target == who && type == wanted) || asked_for_type who wanted ss

-- How often a subscriber is called.
abbrev pub times : ℕ → List Call → ℕ
times who [] = 0
times who (c ∷ cs) = if c.subscription.subscriber == who then suc (times who cs) else times who cs

abbrev once : Bool → ℕ
once b = if b then 1 else 0

times-append : (who : ℕ) (xs ys : List Call) → times who (xs ++ ys) ≡ times who xs + times who ys
times-append who [] ys = omega arith
times-append who (x ∷ xs) ys = ground (arith, times-append who xs ys)

-- A subscriber that is in a set is in it once.
abbrev IsOnce : ℕ → List Subscription → Type 0
IsOnce who ss =
    (sender type argument : ℕ) → times who (calls ss sender type argument) ≡ once (contains who ss)

contains-snoc :
    (who : ℕ) (ss : List Subscription) (s : Subscription)
    → contains who (ss ++ s ∷ []) ≡ (contains who ss || s.subscriber == who)
contains-snoc who [] s = ground arith
contains-snoc who (x ∷ ss) s = ground (arith, contains-snoc who ss s)

contains-emplace :
    (who : ℕ) (s : Subscription) (ss : List Subscription)
    → contains who (emplace s ss) ≡ (contains who ss || s.subscriber == who)
unfolding emplace
contains-emplace who s ss = ground (arith, contains-snoc who ss s)

calls-snoc :
    (ss : List Subscription) (s : Subscription) (sender type argument : ℕ)
    → calls (ss ++ s ∷ []) sender type argument
      ≡ calls ss sender type argument ++ calls (s ∷ []) sender type argument
calls-snoc [] s sender type argument = refl
calls-snoc (x ∷ ss) s sender type argument =
    ap (λ r. record { subscription = x; sender = sender; type = type; argument = argument } ∷ r)
      (calls-snoc ss s sender type argument)

emplace-IsOnce :
    (who : ℕ) (s : Subscription) (ss : List Subscription)
    → IsOnce who ss
    → IsOnce who (emplace s ss)
unfolding emplace
emplace-IsOnce who s ss h sender type argument = elim (Bool-cases (contains s.subscriber ss)) [
  | inl there ↦ rw there (h sender type argument)
  | inr new ↦
      let c = contains-snoc who ss s in
      let split =
        times-append who (calls ss sender type argument) (calls (s ∷ []) sender type argument) in
      rw (new, calls-snoc ss s sender type argument)
        (elim (Bool-cases (s.subscriber == who)) [
          | inl it ↦
              let absent = rw ((==_iff s.subscriber who).0 it) at new in
              ground (arith, split, c, it, absent, h sender type argument)
          | inr other ↦ ground (arith, split, c, other, h sender type argument)
        ])
]

abbrev has_all : ℕ → EventTopic → Bool
has_all who t = contains who t.broadcast_subscribers

abbrev has_type : ℕ → ℕ → EventTopic → Bool
has_type who wanted t = contains who (subscribers_of wanted t.subscribers)

record IsValid (who : ℕ) (t : EventTopic) : Type 0 where
  all : IsOnce who t.broadcast_subscribers
  typed : (type : ℕ) → IsOnce who (subscribers_of type t.subscribers)

subscribers_of-insert :
    (wanted type : ℕ) (ss : List Subscription) (m : Map (List Subscription))
    → subscribers_of wanted (insert type ss m)
      ≡ (if type == wanted then ss else subscribers_of wanted m)
subscribers_of-insert wanted type ss m = ground (arith, lookup-insert wanted type ss m)

step-IsValid : (who : ℕ) (t : EventTopic) (s : Subscribing) → IsValid who t → IsValid who (step t s)
unfolding subscribe_all subscribe
step-IsValid who t (to_all target callback) v = record {
  all =
      emplace-IsOnce who (record { subscriber = target; callback = callback })
        t.broadcast_subscribers v.all;
  typed = v.typed;
}
step-IsValid who t (to_type target type callback) v = record {
  all = v.all;
  typed = λ wanted.
      let ss = subscribers_of type t.subscribers in
      let s : Subscription = record { subscriber = target; callback = callback } in
      let kept = subscribers_of-insert wanted type (emplace s ss) t.subscribers in
      subst (λ xs. IsOnce who xs) (sym kept)
        (elim (Bool-cases (type == wanted)) [
          | inl same ↦ rw same (emplace-IsOnce who s ss (v.typed type))
          | inr other ↦ rw other (v.typed wanted)
        ]);
}

has_all-step :
    (who : ℕ) (t : EventTopic) (s : Subscribing)
    → has_all who (step t s) ≡ (has_all who t || asked_for_all who (s ∷ []))
unfolding subscribe_all subscribe
has_all-step who t (to_all target callback) = ground (
  arith,
  contains-emplace who (record { subscriber = target; callback = callback })
      t.broadcast_subscribers,
)
has_all-step who t (to_type target type callback) = ground arith

has_type-step :
    (who wanted : ℕ) (t : EventTopic) (s : Subscribing)
    → has_type who wanted (step t s) ≡ (has_type who wanted t || asked_for_type who wanted (s ∷ []))
unfolding subscribe_all subscribe
has_type-step who wanted t (to_all target callback) = ground arith
has_type-step who wanted t (to_type target type callback) =
    let ss = subscribers_of type t.subscribers in
    let s : Subscription = record { subscriber = target; callback = callback } in
    let kept = subscribers_of-insert wanted type (emplace s ss) t.subscribers in
    rw kept (elim (Bool-cases (type == wanted)) [
      | inl same ↦
          let e : type ≡ wanted = (==_iff type wanted).0 same in
          rw (same, contains-emplace who s ss, e) (ground (arith, same))
      | inr other ↦ ground (arith, other)
    ])

or_false : (b : Bool) → b ≡ (b || false)
or_false true = refl
or_false false = refl

run-IsValid :
    (ss : List Subscribing) (who : ℕ) (t : EventTopic) → IsValid who t → IsValid who (run t ss)
unfolding run
run-IsValid [] who t v = v
run-IsValid (s ∷ ss) who t v = run-IsValid ss who (step t s) (step-IsValid who t s v)

has_all-run :
    (ss : List Subscribing) (who : ℕ) (t : EventTopic)
    → has_all who (run t ss) ≡ (has_all who t || asked_for_all who ss)
unfolding run
has_all-run [] who t = or_false (has_all who t)
has_all-run (s ∷ ss) who t = has_all-run ss who (step t s) ∙ rw (has_all-step who t s) (all_of s)
  where
    all_of :
        (s : Subscribing)
        → ((has_all who t || asked_for_all who (s ∷ [])) || asked_for_all who ss)
          ≡ (has_all who t || asked_for_all who (s ∷ ss))
    all_of (to_all target callback) = ground arith
    all_of (to_type target type callback) = ground arith

has_type-run :
    (ss : List Subscribing) (who wanted : ℕ) (t : EventTopic)
    → has_type who wanted (run t ss) ≡ (has_type who wanted t || asked_for_type who wanted ss)
unfolding run
has_type-run [] who wanted t = or_false (has_type who wanted t)
has_type-run (s ∷ ss) who wanted t =
    has_type-run ss who wanted (step t s) ∙ rw (has_type-step who wanted t s) (typed_of s)
  where
    typed_of :
        (s : Subscribing)
        → ((has_type who wanted t || asked_for_type who wanted (s ∷ []))
            || asked_for_type who wanted ss)
          ≡ (has_type who wanted t || asked_for_type who wanted (s ∷ ss))
    typed_of (to_all target callback) = ground arith
    typed_of (to_type target type callback) = ground arith

-- After any subscriptions, in any order and however often a subscriber made them, an event calls each
-- subscriber once if it asked for all events, and once if it asked for events of the type: twice if it
-- did both, and never if it did neither.
pub publish_calls :
    (ss : List Subscribing) (who sender type argument : ℕ)
    → times who (publish (run init ss) sender type argument)
      ≡ (if asked_for_all who ss then 1 else 0) + (if asked_for_type who type ss then 1 else 0)
unfolding publish lookup
publish_calls ss who sender type argument =
    let t = run init ss in
    let v = run-IsValid ss who init (record { all = λ _ _ _. refl; typed = λ _ _ _ _. refl }) in
    let all = calls t.broadcast_subscribers sender type argument in
    let typed = calls (subscribers_of type t.subscribers) sender type argument in
    times-append who all typed
    ∙ ap₂ (λ a b. a + b) (v.all sender type argument ∙ ap once (has_all-run ss who init))
        (v.typed type sender type argument ∙ ap once (has_type-run ss who type init))
