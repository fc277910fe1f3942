-- ===== src/Mission/State.antt =====
-- The state of plugins/mission/mission_impl.h, the timeouts and the reports of mission_impl.cpp.
-- An `int` that starts as -1 is an `Option`, with `none` for the negative numbers; a callback is
-- its number, `none` for `nullptr`.
use stealth_drone_purdue.Base.{
  ℕ, Bool, true, false, not, List, [], Option, none, some, ◌&&◌, ◌==◌, if◌then◌else◌,
}
use stealth_drone_purdue.Mavlink.{
  MissionItemInt, Message, MissionResult, succeeded, mission_result, mission_items,
  mission_process_timeout,
}
use stealth_drone_purdue.SystemImpl.{
  SystemImpl, Surroundings, send_message, register_timeout_handler, refresh_timeout_handler,
  unregister_timeout_handler, call_user_callback,
}
use stealth_drone_purdue.MissionItem.{MissionItem}

-- `Activity::State`; `idle` is `NONE`.
pub data Activity : Type 0 where
  idle set_current set_mission get_mission send_command : Activity

-- `SystemImpl::FlightMode`.
pub data FlightMode : Type 0 where
  hold_mode return_to_launch_mode takeoff_mode land_mode mission_mode follow_me_mode offboard_mode :
      FlightMode

pub record MissionData : Type 0 where
  pub retries : ℕ
  pub last_current : Option ℕ
  pub last_reached : Option ℕ
  pub items : List MissionItem
  pub messages : List Message
  pub indices : List (ℕ × ℕ)
  pub num_to_download : Option ℕ
  pub next_to_download : Option ℕ
  pub downloaded : List MissionItemInt
  pub result_callback : Option ℕ
  pub mission_items_and_result_callback : Option ℕ
  pub progress_callback : Option ℕ
  pub last_current_reported : Option ℕ
  pub last_total_reported : Option ℕ

-- `flight_modes` has the calls of `set_flight_mode_async`, oldest first, with the callback that
-- `receive_command_result` is bound to.
pub record Mission : Type 0 where
  pub activity : Activity
  pub mission_data : MissionData
  pub timeout_cookie : ℕ
  pub enable_rtl : Bool
  pub absolute_yaw : Bool
  pub flight_modes : List (FlightMode × Option ℕ)
  pub parent : SystemImpl

pub record MissionAck : Type 0 where
  pub target_system : ℕ
  pub target_component : ℕ
  pub type : ℕ

-- Two numbers of 8 bits, and one of 16.
pub record MissionRequestInt : Type 0 where
  pub target_system : ℕ
  pub target_component : ℕ
  pub seq : ℕ

-- `GCSClient::system_id` and `GCSClient::component_id`.
abbrev pub gcs_system_id : ℕ
gcs_system_id = 0

abbrev pub gcs_component_id : ℕ
gcs_component_id = 251

abbrev pub max_retries : ℕ
max_retries = 3

-- `RETRY_TIMEOUT_S` and `PROCESS_TIMEOUT_S`, in milliseconds.
abbrev pub retry_timeout_ms : ℕ
retry_timeout_ms = 250

abbrev pub process_timeout_ms : ℕ
process_timeout_ms = 1500

abbrev pub mission_accepted : ℕ
mission_accepted = 0

abbrev pub mission_unsupported : ℕ
mission_unsupported = 3

abbrev pub mission_no_space : ℕ
mission_no_space = 4

abbrev pub is_idle : Activity → Bool
is_idle idle = true
is_idle _ = false

abbrev pub is_succeeded : MissionResult → Bool
is_succeeded succeeded = true
is_succeeded _ = false

unfoldable pub send : Surroundings → Message → Mission → Mission
send e message m = record m { parent = send_message e message m.parent }

-- `_timeout_cookie` is set by the registration.
unfoldable pub start_timeout : Surroundings → ℕ → Mission → Mission
start_timeout e timeout_ms m = record m {
  timeout_cookie = e.address;
  parent = register_timeout_handler e mission_process_timeout timeout_ms m.parent;
}

unfoldable pub refresh_timeout : Surroundings → Mission → Mission
refresh_timeout e m = record m { parent = refresh_timeout_handler e m.timeout_cookie m.parent }

unfoldable pub stop_timeout : Mission → Mission
stop_timeout m = record m { parent = unregister_timeout_handler m.timeout_cookie m.parent }

unfoldable pub report_mission_result : Option ℕ → MissionResult → Mission → Mission
report_mission_result none result m = m
report_mission_result (some callback) result m = record m {
  parent = call_user_callback (mission_result callback result) m.parent;
}

-- A failure clears the items first, but only for a callback.
unfoldable pub report_mission_items_and_result : Option ℕ → MissionResult → Mission → Mission
report_mission_items_and_result none result m = m
report_mission_items_and_result (some callback) result m = record m {
  mission_data =
      if is_succeeded result then m.mission_data else record (m.mission_data) { items = [] };
  parent = call_user_callback (mission_items callback result) m.parent;
}

-- `==` of two such numbers.
abbrev pub same : Option ℕ → Option ℕ → Bool
same none none = true
same (some a) (some b) = a == b
same _ _ = false

-- Both ids have to differ for a message to be left alone.
abbrev pub for_others : (system component : ℕ) → Bool
for_others system component = not (system == gcs_system_id) && not (component == gcs_component_id)
