-- ===== src/Now/Tests.antt =====
-- The theorems about the interactions at a message of two parts, and one that is not delivered.
use esp_iot_framework.Prelude.{
  ℕ, zero, ◌≡◌, refl, true, false, none, some, [], ◌∷◌, map, arith, ◌==◌, if◌then◌else◌, take,
  replicate, length-replicate, Bytes, lookup, erase,
}
use mathlib.Core.List.{Permᴰ}
use esp_iot_framework.Now.Interaction.{
  EspNowMessage, Interaction, message_key, on_packet_received, receive_all,
}
use esp_iot_framework.Now.Interaction.{on_message}
use esp_iot_framework.Now.Io.{send, parse}
use esp_iot_framework.Now.Io.Transfer.{items_arrive}
use esp_iot_framework.Now.Interaction.Fragments.{fragment}
use esp_iot_framework.Now.Interaction.Acceptance.{on_packet_received_last}
use esp_iot_framework.Now.Interaction.Delivery.{delivered, receive_all_delivers}

abbrev fresh : ℕ → Bytes
fresh n = replicate n 0

abbrev receiver : Interaction
receiver = record { requests = (3, 77) ∷ []; messages = []; has_callback = true; events = [] }

-- Two parts, of 245 bytes and of one.
abbrev text : Bytes
text = replicate 246 5

-- Two parts, of 245 bytes and of three, which is one more than there are parts.
abbrev unlucky : Bytes
unlucky = replicate 248 5

on_packet_received_last_example :
    let last = fragment 3 true unlucky 1 in on_packet_received fresh receiver 9 8 last ≡ receiver
on_packet_received_last_example =
    on_packet_received_last fresh receiver 9 3 true unlucky (omega arith) refl

receive_all_delivers_example :
    let out = receive_all fresh receiver 9 (map (fragment 3 true text) (1 ∷ 0 ∷ [])) in
    (m : EspNowMessage) × (m.id ≡ 3)
    × (m.mac_addr ≡ 9)
    × (m.size ≡ 246)
    × (take m.size m.bytes ≡ text)
    × (out.events ≡ delivered receiver 3 true m)
    × (out.requests ≡ [])
    × ((j : ℕ) → lookup j out.messages ≡ (if message_key 3 true 9 == j then none else none))
unfolding lookup erase
receive_all_delivers_example =
    receive_all_delivers fresh receiver 9 3 true text (1 ∷ 0 ∷ []) (λ n. length-replicate n zero)
      (omega arith) (omega arith) refl (Permᴰ.swap refl refl) refl

abbrev items : Bytes
items = 10 ∷ 20 ∷ 30 ∷ []

-- One packet of two kinds of byte, with three items.
abbrev packet : Bytes
packet = 7 ∷ 3 ∷ items

items_arrive_example :
    (send fresh 5 false 7 3 (some items) 3 ≡ some (fragment 5 false packet 0 ∷ []))
    × ((m : EspNowMessage) × ((receive_all fresh receiver 9
            (map (fragment 5 false packet) (0 ∷ []))).events
          ≡ on_message m ∷ [])
        × ((parse m).id ≡ 5)
        × ((parse m).mac_addr ≡ 9)
        × ((parse m).type ≡ 7)
        × ((parse m).count ≡ 3)
        × ((parse m).size ≡ 3)
        × (take (parse m).size (parse m).bytes ≡ items))
unfolding lookup
items_arrive_example =
    items_arrive fresh fresh receiver 9 5 7 3 items (0 ∷ []) (λ n. length-replicate n zero)
      (λ n. length-replicate n zero) (omega arith) (omega arith) refl (Permᴰ.cons refl Permᴰ.nil)
      refl refl
