-- ===== src/Network/Wifi/Tests.antt =====
-- The theorems about the Wi-Fi manager at one for a home network.
use esp_iot_framework.Prelude.{false, none, [], ◌∷◌, Bytes}
use esp_iot_framework.Network.Wifi.{sta, init}
use esp_iot_framework.Network.Wifi.Connecting.{connects, handles, run, IsValid, run-init-IsValid}

abbrev chip : Bytes
chip = b'7' ∷ []

abbrev home : Bytes
home = b'H' ∷ []

abbrev secret : Bytes
secret = b's' ∷ b'e' ∷ b'c' ∷ b'r' ∷ b'e' ∷ b't' ∷ b'!' ∷ b'!' ∷ []

run-init-IsValid_example :
    IsValid chip
      (run chip (init home secret 5000 none) (connects sta 1000 10 ∷ handles false false 2000 ∷ []))
run-init-IsValid_example =
    run-init-IsValid chip home secret 5000 none
      (connects sta 1000 10 ∷ handles false false 2000 ∷ [])
