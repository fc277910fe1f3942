-- ===== src/Mission/Refused.antt =====
-- What becomes of an upload that the autopilot refuses, in plugins/mission/mission_impl.cpp.
use stealth_drone_purdue.Base.{
  ℕ, ◌≡◌, ◌≢◌, Bool, false, not, ◌&&◌, List, [], ◌∷◌, Option-cases, inl, inr, arith, ◌==◌, All,
}
use stealth_drone_purdue.StdMap.{find, find-assign, find-erase}
use stealth_drone_purdue.Mavlink.{TimeoutCallback}
use stealth_drone_purdue.SystemImpl.{
  Surroundings, send_message, refresh_timeout_handler, unregister_timeout_handler,
  call_user_callback,
}
use stealth_drone_purdue.TimeoutHandler.{TimeoutHandler, refresh, remove, steady_time_in_future}
use stealth_drone_purdue.MissionItem.{Conversions}
use stealth_drone_purdue.Mission.{
  Mission, set_mission, MissionAck, for_others, mission_accepted, upload_mission_async,
  download_mission_async, start_mission_async, pause_mission_async, start_or_pause,
  set_current_mission_item_async, process_mission_request, process_mission_request_int,
  process_mission_ack, acknowledge, process_mission_current, process_mission_item_reached,
  process_mission_count, process_mission_item_int, receive_command_result, process_timeout,
  report_mission_result, report_mission_items_and_result, report_progress, report_progress_to,
  refresh_timeout, stop_timeout, send, upload_mission_item,
}
use stealth_drone_purdue.Mission.Steps.{Event, has_timeout, calls_back, step, run}

-- Whether an event is the acknowledgement, for this station, that the mission is accepted.
abbrev accepts : Event → Bool
accepts (Event.ack a) =
    not (for_others a.target_system a.target_component) && (a.type == mission_accepted)
accepts _ = false

-- An upload is under way, and no timeout of the plugin is registered.
abbrev IsRefused : Mission → Type 0
IsRefused m = (m.activity ≡ set_mission) × ((cookie : ℕ) → has_timeout cookie m ≡ false)

refresh-calls_back :
    (now cookie k : ℕ) (h : TimeoutHandler TimeoutCallback)
    → calls_back (find k (refresh now cookie h).timeouts) ≡ calls_back (find k h.timeouts)
unfolding refresh
refresh-calls_back now cookie k h = elim (Option-cases (find cookie h.timeouts)) [
  | inl e ↦ ground arith
  | inr (t, e) ↦ ground (
    arith,
    find-assign cookie k (record t { time = steady_time_in_future now t.duration_ms }) h.timeouts,
  )
]

remove-calls_back :
    (cookie k : ℕ) (h : TimeoutHandler TimeoutCallback)
    → calls_back (find k (remove cookie h).timeouts)
      ≡ (not (cookie == k) && calls_back (find k h.timeouts))
unfolding remove
remove-calls_back cookie k h = ground (arith, find-erase cookie k h.timeouts)

step-IsRefused :
    (d : Conversions) (e : Surroundings) (event : Event) (m : Mission)
    → accepts event ≡ false
    → IsRefused m
    → IsRefused (step d e event m)
unfolding step upload_mission_async download_mission_async start_mission_async pause_mission_async
    start_or_pause set_current_mission_item_async process_mission_request
    process_mission_request_int process_mission_ack acknowledge process_mission_current
    process_mission_item_reached process_mission_count process_mission_item_int
    receive_command_result process_timeout report_mission_result report_mission_items_and_result
    report_progress report_progress_to refresh_timeout stop_timeout send upload_mission_item
    send_message refresh_timeout_handler unregister_timeout_handler call_user_callback
step-IsRefused d e (Event.upload items callback) m n h = (ground arith, λ k. ground (arith, h.1 k))
step-IsRefused d e (Event.download callback) m n h = (ground arith, λ k. ground (arith, h.1 k))
step-IsRefused d e (Event.start callback) m n h = (ground arith, λ k. ground (arith, h.1 k))
step-IsRefused d e (Event.pause callback) m n h = (ground arith, λ k. ground (arith, h.1 k))
step-IsRefused d e (Event.select item_i callback) m n h = (ground arith, λ k. ground (arith, h.1 k))
step-IsRefused d e Event.request m n h = (
  ground arith,
  λ k. ground (arith, h.1 k, refresh-calls_back e.now m.timeout_cookie k m.parent.timeout_handler),
)
step-IsRefused d e (Event.request_int r) m n h = (
  ground arith,
  λ k. ground (arith, h.1 k, refresh-calls_back e.now m.timeout_cookie k m.parent.timeout_handler),
)
step-IsRefused d e (Event.ack a) m n h = (
  ground arith,
  λ k. ground (arith, h.1 k, remove-calls_back m.timeout_cookie k m.parent.timeout_handler),
)
step-IsRefused d e (Event.current seq) m n h = (ground arith, λ k. ground (arith, h.1 k))
step-IsRefused d e (Event.reached seq) m n h = (ground arith, λ k. ground (arith, h.1 k))
step-IsRefused d e (Event.count c) m n h = (ground arith, λ k. ground (arith, h.1 k))
step-IsRefused d e (Event.item it) m n h = (ground arith, λ k. ground (arith, h.1 k))
step-IsRefused d e (Event.result r callback) m n h = (
  ground arith,
  λ k. ground (arith, h.1 k, remove-calls_back m.timeout_cookie k m.parent.timeout_handler),
)
step-IsRefused d e (Event.expire cookie) m n h =
    (ground (arith, h.1 cookie), λ k. ground (arith, h.1 k, h.1 cookie))

run-IsRefused :
    (d : Conversions) (events : List (Surroundings × Event)) (m : Mission)
    → All (λ p. accepts p.1 ≡ false) events
    → IsRefused m
    → IsRefused (run d events m)
unfolding run
run-IsRefused d [] m n h = h
run-IsRefused d ((e, event) ∷ events) m n h =
    run-IsRefused d events (step d e event m) n.1 (step-IsRefused d e event m n.0 h)

-- The autopilot refuses an upload (any acknowledgement for this station other than
-- `MAV_MISSION_ACCEPTED`), which ends it for the user and takes the plugin's only timeout away.
-- Through any sequence of events without an acknowledgement of acceptance after that, the
-- plugin stays in `SET_MISSION`, in which it refuses every request as busy.
pub nack_blocks :
    (d : Conversions) (nack : MissionAck) (events : List (Surroundings × Event)) (m : Mission)
    → m.activity ≡ set_mission
    → ((cookie : ℕ) → cookie ≢ m.timeout_cookie → has_timeout cookie m ≡ false)
    → for_others nack.target_system nack.target_component ≡ false
    → nack.type ≢ mission_accepted
    → All (λ p. accepts p.1 ≡ false) events
    → (run d events (process_mission_ack nack m)).activity ≡ set_mission
unfolding process_mission_ack acknowledge stop_timeout unregister_timeout_handler
    report_mission_result call_user_callback
nack_blocks d nack events m busy only ours refused none_accepts =
    let h : IsRefused (process_mission_ack nack m) = (
      ground arith,
      λ k. ground (arith, only k, remove-calls_back m.timeout_cookie k m.parent.timeout_handler),
    ) in
    (run-IsRefused d events (process_mission_ack nack m) none_accepts h).0
