-- ===== src/Misc/EventTopic.antt =====
-- misc/event_topic.h. A subscriber and its callback are numbers, an event's type its enumerator. A set
-- of subscriptions is a list that holds a subscriber once; the order in which `std::unordered_set` is
-- gone through is not fixed by the source, and is that of the subscriptions here. What `publish` calls
-- is its result.
pub mod Subscribers
mod Tests
use esp_iot_framework.Prelude.{
  ℕ, Bool, false, ◌||◌, none, some, List, [], ◌∷◌, ◌++◌, ◌==◌, if◌then◌else◌, Map, lookup, insert,
}

pub record Subscription : Type 0 where
  pub subscriber : ℕ
  pub callback : ℕ

pub record Call : Type 0 where
  pub subscription : Subscription
  pub sender : ℕ
  pub type : ℕ
  pub argument : ℕ

pub record EventTopic : Type 0 where
  pub subscribers : Map (List Subscription)
  pub broadcast_subscribers : List Subscription

abbrev pub init : EventTopic
init = record { subscribers = []; broadcast_subscribers = [] }

-- `operator==` of two subscriptions is that of their subscribers.
abbrev pub contains : ℕ → List Subscription → Bool
contains subscriber [] = false
contains subscriber (s ∷ ss) = s.subscriber == subscriber || contains subscriber ss

-- `emplace`: a subscriber that is there keeps its first callback.
unfoldable pub emplace : Subscription → List Subscription → List Subscription
emplace s ss = if contains s.subscriber ss then ss else ss ++ s ∷ []

abbrev pub subscribers_of : ℕ → Map (List Subscription) → List Subscription
subscribers_of type m = elim (lookup type m) [ some ss ↦ ss | none ↦ [] ]

unfoldable pub subscribe_all : EventTopic → ℕ → ℕ → EventTopic
unfolding emplace
subscribe_all t target callback = record t {
  broadcast_subscribers =
      emplace (record { subscriber = target; callback = callback }) t.broadcast_subscribers;
}

unfoldable pub subscribe : EventTopic → ℕ → ℕ → ℕ → EventTopic
unfolding emplace
subscribe t target type callback = record t {
  subscribers =
      insert type
        (emplace (record { subscriber = target; callback = callback })
          (subscribers_of type t.subscribers))
        t.subscribers;
}

-- One of the two loops of `publish`.
abbrev pub calls : List Subscription → ℕ → ℕ → ℕ → List Call
calls [] sender type argument = []
calls (s ∷ ss) sender type argument =
    record { subscription = s; sender = sender; type = type; argument = argument }
    ∷ calls ss sender type argument

unfoldable pub publish : EventTopic → ℕ → ℕ → ℕ → List Call
publish t sender type argument =
    calls t.broadcast_subscribers sender type argument
    ++ calls (subscribers_of type t.subscribers) sender type argument
