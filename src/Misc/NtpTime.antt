-- ===== src/Misc/NtpTime.antt =====
-- misc/ntp_time.h and misc/ntp_time.cpp: `NtpTime`. The NTPClient is the library's: its state is a type
-- `C`, and what the code calls of it a record. A 32-bit number is one below 2 ^ 32, an offset in two's
-- complement; the time zone, a `float`, is a number of quarters of an hour and whether it is negative.
-- `date`, which is the C library's, is left out.
use esp_iot_framework.Prelude.{
  ℕ, ◌+◌, ◌-◌, ◌*◌, ◌/◌, ◌%◌, ◌^◌, ◌<◌, ◌≤◌, ◌≡◌, Bool, true, false, arith, if◌then◌else◌, sub32,
  subst, sym, ap, ◌∙◌,
}

record NtpClient (C : Type 0) : Type 0 where
  pub begin_client : C → C
  pub update_client : C → C × Bool
  pub is_time_set : C → Bool
  pub set_time_offset : ℕ → C → C
  pub set_update_interval : ℕ → C → C
  pub get_epoch_time : C → ℕ
  pub get_seconds : C → ℕ
  pub get_minutes : C → ℕ
  pub get_hours : C → ℕ

record NtpTime (C : Type 0) : Type 0 where
  pub ntp_client : C
  pub tz_offset : ℕ

-- `tz` in two's complement, its fraction dropped.
abbrev whole_hours : Bool → ℕ → ℕ
whole_hours negative quarters = if negative then sub32 0 (quarters / 4) else quarters / 4

-- The time at a zone that is `hours` to the east or the west.
abbrev local_time : Bool → ℕ → ℕ → ℕ
local_time negative hours utc = if negative then utc - hours * 3600 else utc + hours * 3600

parts_of_day : (n : ℕ) → n % 60 + n % 3600 / 60 * 60 + n % 86400 / 3600 * 3600 ≡ n % 86400
parts_of_day n = omega arith

floor_of_day : (n : ℕ) → n < 2 ^ 32 → sub32 n (n % 86400 % 2 ^ 32) ≡ n / 86400 * 86400
floor_of_day n small = omega arith

local_time_lem :
    (negative : Bool) (quarters u : ℕ)
    → quarters < 96
    → 86400 ≤ u
    → u + 86400 < 2 ^ 32
    → (u + whole_hours negative quarters * 3600 % 2 ^ 32) % 2 ^ 32
      ≡ local_time negative (quarters / 4) u
local_time_lem true quarters u zone low high = omega arith
local_time_lem false quarters u zone low high = omega arith

local_time_small :
    (negative : Bool) (quarters u : ℕ)
    → quarters < 96
    → u + 86400 < 2 ^ 32
    → local_time negative (quarters / 4) u < 2 ^ 32
local_time_small true quarters u zone high = omega arith
local_time_small false quarters u zone high = omega arith

module _ {C : Type 0} (client : NtpClient C) where
  -- `(int32_t) tz * 3600`: the cast comes before the product.
  unfoldable begin : Bool → ℕ → NtpTime C → NtpTime C
  begin negative quarters t =
      let offset = whole_hours negative quarters * 3600 % 2 ^ 32 in
      let c = client.set_time_offset offset (client.begin_client t.ntp_client) in
      record { ntp_client = client.set_update_interval (24 * 3600 * 1000) c; tz_offset = offset }

  -- Without what it prints.
  update : NtpTime C → NtpTime C
  update t = record t { ntp_client = (client.update_client t.ntp_client).0 }

  available : NtpTime C → Bool
  available t = client.is_time_set t.ntp_client

  abbrev epoch_tz : NtpTime C → ℕ
  epoch_tz t = client.get_epoch_time t.ntp_client

  unfoldable seconds_from_midnight_tz : NtpTime C → ℕ
  seconds_from_midnight_tz t =
      let c = t.ntp_client in
      (client.get_seconds c + client.get_minutes c * 60 + client.get_hours c * 3600) % 2 ^ 32

  unfoldable today_tz : NtpTime C → ℕ
  unfolding seconds_from_midnight_tz
  today_tz t = sub32 (epoch_tz t) (seconds_from_midnight_tz t)

  -- What the library documents: the offset is added to the time that it has from the network, which
  -- neither its start nor the update's interval changes, and the parts of the day are those of the sum.
  record IsClock (utc : C → ℕ) : Type 0 where
    pub begun : (c : C) → utc (client.begin_client c) ≡ utc c
    pub epoch :
        (offset interval : ℕ) (c : C)
        → client.get_epoch_time
            (client.set_update_interval interval (client.set_time_offset offset c))
          ≡ (utc c + offset) % 2 ^ 32
    pub seconds : (c : C) → client.get_seconds c ≡ client.get_epoch_time c % 60
    pub minutes : (c : C) → client.get_minutes c ≡ client.get_epoch_time c % 3600 / 60
    pub hours : (c : C) → client.get_hours c ≡ client.get_epoch_time c % 86400 / 3600

  midnight :
      (t : NtpTime C) (utc : C → ℕ)
      → IsClock utc
      → epoch_tz t < 2 ^ 32
      → today_tz t ≡ epoch_tz t / 86400 * 86400
  unfolding today_tz seconds_from_midnight_tz
  midnight t utc h small =
      rw
        (
          h.seconds t.ntp_client,
          h.minutes t.ntp_client,
          h.hours t.ntp_client,
          parts_of_day (client.get_epoch_time t.ntp_client),
        )
        (floor_of_day (client.get_epoch_time t.ntp_client) small)

  -- The clock is NTPClient's as documented and stands still, the zone is within a day, and the local time a 32-bit number.
  -- After `begin` the local time is ahead of or behind the network's by the zone's whole hours, a
  -- fraction of an hour being dropped, and `today_tz` is the last midnight of that time.
  begin_today :
      (negative : Bool) (quarters : ℕ) (t : NtpTime C) (utc : C → ℕ)
      → IsClock utc
      → quarters < 96
      → 86400 ≤ utc t.ntp_client
      → utc t.ntp_client + 86400 < 2 ^ 32
      → (epoch_tz (begin negative quarters t)
          ≡ local_time negative (quarters / 4) (utc t.ntp_client))
        × (today_tz (begin negative quarters t)
            ≡ local_time negative (quarters / 4) (utc t.ntp_client) / 86400 * 86400)
  unfolding begin
  begin_today negative quarters t utc h zone low high =
      let u = utc t.ntp_client in
      let now : epoch_tz (begin negative quarters t) ≡ local_time negative (quarters / 4) u =
        h.epoch (whole_hours negative quarters * 3600 % 2 ^ 32) (24 * 3600 * 1000)
          (client.begin_client t.ntp_client)
        ∙ ap (λ n. (n + whole_hours negative quarters * 3600 % 2 ^ 32) % 2 ^ 32)
            (h.begun t.ntp_client)
        ∙ local_time_lem negative quarters u zone low high in
      let small : epoch_tz (begin negative quarters t) < 2 ^ 32 =
        subst (λ n. n < 2 ^ 32) (sym now) (local_time_small negative quarters u zone high) in
      (
        now,
        midnight (begin negative quarters t) utc h small ∙ ap (λ (n : ℕ). n / 86400 * 86400) now,
      )
