-- ===== src/Mission/Steps.antt =====
-- The events that drive plugins/mission/mission_impl.cpp, each handled in one step: the calls of
-- the user, the messages of the autopilot, the result of a flight mode, and an expired timeout.
use stealth_drone_purdue.Base.{ℕ, Bool, List, [], ◌∷◌, Option, none, some}
use stealth_drone_purdue.Mavlink.{
  MissionItemInt, CommandResult, TimeoutCallback, mission_process_timeout,
}
use stealth_drone_purdue.StdMap.{find, erase}
use stealth_drone_purdue.SystemImpl.{Surroundings}
use stealth_drone_purdue.TimeoutHandler.{Timeout}
use stealth_drone_purdue.MissionItem.{Conversions, MissionItem}
use stealth_drone_purdue.Mission.{
  Mission, MissionAck, MissionRequestInt, upload_mission_async, download_mission_async,
  start_mission_async, pause_mission_async, set_current_mission_item_async, process_mission_request,
  process_mission_request_int, process_mission_ack, process_mission_current,
  process_mission_item_reached, process_mission_count, process_mission_item_int,
  receive_command_result, process_timeout,
}

pub data Event : Type 0 where
  upload : List MissionItem → (callback : Option ℕ) → Event
  download : (callback : Option ℕ) → Event
  start : (callback : Option ℕ) → Event
  pause : (callback : Option ℕ) → Event
  select : (current : Option ℕ) → (callback : Option ℕ) → Event
  request : Event
  request_int : MissionRequestInt → Event
  ack : MissionAck → Event
  current : (seq : ℕ) → Event
  reached : (seq : ℕ) → Event
  count : ℕ → Event
  item : MissionItemInt → Event
  result : CommandResult → (callback : Option ℕ) → Event
  expire : (cookie : ℕ) → Event

-- `run_once` erases the entry of an expired timeout before it calls back.
abbrev pub erase_timeout : ℕ → Mission → Mission
erase_timeout cookie m = record m {
  parent = record (m.parent) {
    timeout_handler = record (m.parent.timeout_handler) {
      timeouts = erase cookie m.parent.timeout_handler.timeouts;
    };
  };
}

-- Whether a timeout is one of this plugin's.
abbrev pub calls_back : Option (Timeout TimeoutCallback) → Bool
calls_back none = Bool.false
calls_back (some t) = elim t.callback [
  | none ↦ Bool.false
  | some c ↦ elim c [ mission_process_timeout ↦ Bool.true | _ ↦ Bool.false ]
]

abbrev pub has_timeout : ℕ → Mission → Bool
has_timeout cookie m = calls_back (find cookie m.parent.timeout_handler.timeouts)

abbrev pub on_expire : Bool → Surroundings → ℕ → Mission → Mission
on_expire Bool.false e cookie m = m
on_expire Bool.true e cookie m = process_timeout e (erase_timeout cookie m)

unfoldable pub step : Conversions → Surroundings → Event → Mission → Mission
step d e (upload items callback) m = upload_mission_async e d items callback m
step d e (download callback) m = download_mission_async e callback m
step d e (start callback) m = start_mission_async callback m
step d e (pause callback) m = pause_mission_async callback m
step d e (select item_i callback) m = set_current_mission_item_async e item_i callback m
step d e request m = process_mission_request e m
step d e (request_int r) m = process_mission_request_int e r m
step d e (ack a) m = process_mission_ack a m
step d e (current seq) m = process_mission_current seq m
step d e (reached seq) m = process_mission_item_reached seq m
step d e (count n) m = process_mission_count e n m
step d e (item it) m = process_mission_item_int e d it m
step d e (result r callback) m = receive_command_result r callback m
step d e (expire cookie) m = on_expire (has_timeout cookie m) e cookie m

unfoldable pub run : Conversions → List (Surroundings × Event) → Mission → Mission
run d [] m = m
run d ((e, event) ∷ events) m = run d events (step d e event m)
