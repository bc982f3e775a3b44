-- ===== src/Now/Interaction/Acceptance.antt =====
-- Which packets of a message a receiver takes, and which it drops.
use esp_iot_framework.Prelude.{
  ℕ, ◌-◌, ◌<◌, ◌≡◌, refl, ap, ◌∙◌, ◌≢◌, inl, inr, Bool, true, false, ◌||◌, List, [], ◌∷◌, arith,
  ltb, leb, ◌==◌, if◌then◌else◌, ==_iff, Bool-cases, length, Bytes,
}
use esp_iot_framework.Now.Interaction.{
  InteractionPacketHeader, interaction_header_length, read_interaction_header, Interaction,
  is_ill_formed, accept_part, on_packet_received, receive_all,
}
use esp_iot_framework.Now.Interaction.Fragments.{parts, chunk_size, fragment_header, fragment}

-- The size of the last part.
abbrev last_size : Bytes → ℕ
last_size text = chunk_size text (parts (length text) - 1)

-- The messages whose last part passes the test: those of one part, and those whose last part is full
-- or has no more bytes than the message has parts.
abbrev pub is_deliverable : Bytes → Bool
is_deliverable text =
    parts (length text) == 1
    || (last_size text == 245 || leb (last_size text) (parts (length text)))

module _ (id : ℕ) (is_response : Bool) (text : Bytes) where
  pub read-fragment :
      (k : ℕ)
      → read_interaction_header (fragment id is_response text k)
        ≡ fragment_header id is_response text k
  read-fragment k = ground arith

  pub well_formed :
      (k : ℕ)
      → is_deliverable text ≡ true
      → k < parts (length text)
      → is_ill_formed (fragment_header id is_response text k) ≡ false
  well_formed k d h = elim (Bool-cases (k == parts (length text) - 1)) [
    | inl last ↦ let e : k ≡ parts (length text) - 1 = (==_iff _ _).0 last in rw e (ground arith)
    | inr before ↦ let full : chunk_size text k ≡ 245 = ground arith in rw full (ground arith)
  ]

  ill_formed_last :
      length text ≢ 0
      → is_deliverable text ≡ false
      → is_ill_formed (fragment_header id is_response text (parts (length text) - 1)) ≡ true
  ill_formed_last ne d = ground arith

module _ (fresh : ℕ → Bytes) (sender : ℕ) where
  pub receive_all-nil : (s : Interaction) → receive_all fresh s sender [] ≡ s
  unfolding receive_all
  receive_all-nil s = refl

  pub receive_all-cons :
      (s : Interaction) (p : Bytes) (ps : List Bytes)
      → receive_all fresh s sender (p ∷ ps)
        ≡ receive_all fresh (on_packet_received fresh s sender (length p) p) sender ps
  unfolding receive_all
  receive_all-cons s p ps = refl

  dropped :
      (s : Interaction) (size : ℕ) (packet : Bytes) (h : InteractionPacketHeader)
      → read_interaction_header packet ≡ h
      → is_ill_formed h ≡ true
      → on_packet_received fresh s sender size packet ≡ s
  unfolding on_packet_received
  dropped s size packet h e ill =
      let outcome : InteractionPacketHeader → Interaction = λ g.
        if ltb size interaction_header_length
        then s
        else if is_ill_formed g
        then s
        else accept_part fresh s sender g packet in
      ap outcome e ∙ rw ill (ground arith)

  pub accepted :
      (s : Interaction) (size : ℕ) (packet : Bytes) (h : InteractionPacketHeader)
      → read_interaction_header packet ≡ h
      → ltb size interaction_header_length ≡ false
      → is_ill_formed h ≡ false
      → on_packet_received fresh s sender size packet ≡ accept_part fresh s sender h packet
  unfolding on_packet_received
  accepted s size packet h e long well =
      let outcome : InteractionPacketHeader → Interaction = λ g.
        if ltb size interaction_header_length
        then s
        else if is_ill_formed g
        then s
        else accept_part fresh s sender g packet in
      ap outcome e ∙ rw (well, long)

-- Whatever a receiver holds, it drops the last part of a message that is not empty and not
-- deliverable: the packet changes nothing.
pub on_packet_received_last :
    (fresh : ℕ → Bytes) (s : Interaction) (sender id : ℕ) (is_response : Bool) (text : Bytes)
    → length text ≢ 0
    → is_deliverable text ≡ false
    → let last = fragment id is_response text (parts (length text) - 1) in
      on_packet_received fresh s sender (length last) last ≡ s
on_packet_received_last fresh s sender id r text ne d =
    let last = parts (length text) - 1 in
    dropped fresh sender s (length (fragment id r text last)) (fragment id r text last)
      (fragment_header id r text last) (read-fragment id r text last)
      (ill_formed_last id r text ne d)
