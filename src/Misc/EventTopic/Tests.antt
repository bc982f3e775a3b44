-- ===== src/Misc/EventTopic/Tests.antt =====
-- Runs of misc/event_topic.h.
use esp_iot_framework.Prelude.{◌≡◌, [], ◌∷◌}
use esp_iot_framework.Misc.EventTopic.{init, publish}
use esp_iot_framework.Misc.EventTopic.Subscribers.{to_all, to_type, run, times, publish_calls}

publish_calls_example :
    times 1 (publish (run init (to_all 1 5 ∷ to_type 1 2 6 ∷ to_all 1 7 ∷ [])) 9 2 0) ≡ 2
publish_calls_example = publish_calls (to_all 1 5 ∷ to_type 1 2 6 ∷ to_all 1 7 ∷ []) 1 9 2 0
