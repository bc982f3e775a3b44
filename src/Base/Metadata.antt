-- ===== src/Base/Metadata.antt =====
-- base/metadata.h and utils/metadata.h: what a program declares about its parameters, and the visitor
-- that goes through a declaration. A parameter is its address. A declaration is the tree that the
-- macro `DECLARE_META` expands to: `visit` of a struct visits its members in their order.
pub mod Visits
use esp_iot_framework.Prelude.{ℕ, Option, none, some, Bytes}

pub record MqttProtocolMeta : Type 0 where
  pub topic_in : Option Bytes
  pub topic_out : Option Bytes

pub record PropertyMeta : Type 0 where
  pub parameter : ℕ
  pub packet_type : Option ℕ
  pub mqtt_protocol : MqttProtocolMeta

-- The constructors: with a packet type or not, and with both topics, the one for output, or none.
unfoldable plain : ℕ → PropertyMeta
plain parameter = record {
  parameter = parameter;
  packet_type = none;
  mqtt_protocol = record { topic_in = none; topic_out = none };
}

unfoldable of_packet : ℕ → ℕ → PropertyMeta
unfolding plain
of_packet packet_type parameter = record (plain parameter) { packet_type = some packet_type }

unfoldable of_topics : Bytes → Bytes → ℕ → PropertyMeta
unfolding plain
of_topics topic_in topic_out parameter = record (plain parameter) {
  mqtt_protocol = record { topic_in = some topic_in; topic_out = some topic_out };
}

unfoldable of_topic : Bytes → ℕ → PropertyMeta
unfolding plain
of_topic topic_out parameter = record (plain parameter) {
  mqtt_protocol = record { topic_in = none; topic_out = some topic_out };
}

unfoldable of_packet_topics : ℕ → Bytes → Bytes → ℕ → PropertyMeta
unfolding of_topics
of_packet_topics packet_type topic_in topic_out parameter =
    record (of_topics topic_in topic_out parameter) { packet_type = some packet_type }

unfoldable of_packet_topic : ℕ → Bytes → ℕ → PropertyMeta
unfolding of_topic
of_packet_topic packet_type topic_out parameter = record (of_topic topic_out parameter) {
  packet_type = some packet_type;
}

-- `MEMBER`, `MEMBER_ARRAY`, `SUB_TYPE` and `SUB_TYPE_ARRAY`: an array has its elements in order.
mutual
  pub data Member : Type 0 where
    member : PropertyMeta → Member
    array : Members → Member
    sub_type : Members → Member

  pub data Members : Type 0 where
    end : Members
    next : Member → Members → Members

module _ {S : Type 0} (fn : PropertyMeta → S → S) where
  -- `_visit_impl` and `visit`, with what the visitor does to a state.
  unfoldable mutual
    pub visit : Member → S → S
    visit (member meta) s = fn meta s
    visit (array elements) s = visit_all elements s
    visit (sub_type members) s = visit_all members s

    pub visit_all : Members → S → S
    visit_all end s = s
    visit_all (next m ms) s = visit_all ms (visit m s)
