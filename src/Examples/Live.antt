-- ===== src/Examples/Live.antt =====
-- The live feed of backend/app/services/events_hub.py at concrete inputs.
use k8s_alert_manager.Prelude.{◌≡◌, suc, true, false, none, some, List, [], ◌∷◌, map}
use k8s_alert_manager.Feed.{
  HubEvent, new_hub, publish, subscribes, publishes, takes_next, Call, calls,
}
use k8s_alert_manager.Feed.Bounded.{AllSound, calls-AllSound}
use k8s_alert_manager.Feed.Latest.{reached, publish-latest}

abbrev created : HubEvent
created = record {
  type_ = "alert_created";
  event_id = 7;
  team_id = some 1;
  cluster = "prod";
  namespace = none;
  alertname = "DiskFull";
  severity = some "critical";
  is_test = false;
  ts = "2026-01-01T00:00:00+00:00";
}

-- A member of team 1, a member of team 2 and an administrator.
abbrev opening : List Call
opening =
    subscribes (1 ∷ []) false
    ∷ subscribes (2 ∷ []) false
    ∷ subscribes [] true
    ∷ publishes created
    ∷ takes_next 0
    ∷ []

calls-AllSound_example : AllSound (calls opening new_hub)
calls-AllSound_example = calls-AllSound opening

publish-latest_example : publish created (calls opening new_hub) ≡ record (calls opening new_hub) {
  subscribers =
      map
        (reached (record { seq = suc (calls opening new_hub).next_seq; event = created }))
        (calls opening new_hub).subscribers;
  next_seq = suc (calls opening new_hub).next_seq;
}
publish-latest_example = publish-latest created (calls opening new_hub) (calls-AllSound opening)
