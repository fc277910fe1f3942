-- ===== src/Mavlink.antt =====
-- What the plugins hand to the connection and to the user: the messages, one constructor for each
-- `mavlink_msg_*_pack` call of the modelled code with the arguments it passes (the client's own
-- system and component id, the same in every call, are left out), and the values they share.
-- A `float` is its 32-bit pattern, an `int32_t` its bit pattern.
use stealth_drone_purdue.Base.{ℕ, ◌%◌, ◌/◌, ◌^◌, Bool, not, Option, List, ◌==◌}

abbrev pub Float32 : Type 0
Float32 = ℕ

-- `NAN`, `0.0f`, `1.0f` and so on, as IEEE 754 patterns.
abbrev pub nan : Float32
nan = 0x7fc00000

abbrev pub zero_f : Float32
zero_f = 0

abbrev pub half_f : Float32
half_f = 0x3f000000

abbrev pub one_f : Float32
one_f = 0x3f800000

abbrev pub minus_one_f : Float32
minus_one_f = 0xbf800000

abbrev pub two_f : Float32
two_f = 0x40000000

abbrev pub three_f : Float32
three_f = 0x40400000

-- `std::isfinite`: the exponent is not all ones.
unfoldable pub is_finite : Float32 → Bool
is_finite f = not (f / 2 ^ 23 % 256 == 255)

-- `MAVLinkCommands::CommandInt` with its `Params`.
pub record CommandInt : Type 0 where
  pub target_system_id : ℕ
  pub target_component_id : ℕ
  pub frame : ℕ
  pub command : ℕ
  pub current : Bool
  pub autocontinue : Bool
  pub param1 : Float32
  pub param2 : Float32
  pub param3 : Float32
  pub param4 : Float32
  pub x : ℕ
  pub y : ℕ
  pub z : Float32

-- `MAVLinkCommands::CommandLong` with its `Params`.
pub record CommandLong : Type 0 where
  pub target_system_id : ℕ
  pub target_component_id : ℕ
  pub command : ℕ
  pub confirmation : ℕ
  pub param1 : Float32
  pub param2 : Float32
  pub param3 : Float32
  pub param4 : Float32
  pub param5 : Float32
  pub param6 : Float32
  pub param7 : Float32

-- The arguments of `mavlink_msg_mission_item_int_pack`.
pub record MissionItemInt : Type 0 where
  pub seq : ℕ
  pub frame : ℕ
  pub command : ℕ
  pub current : ℕ
  pub autocontinue : ℕ
  pub param1 : Float32
  pub param2 : Float32
  pub param3 : Float32
  pub param4 : Float32
  pub x : ℕ
  pub y : ℕ
  pub z : Float32

-- A name, or a `param_id` field, as its bytes.
abbrev pub Name : Type 0
Name = List ℕ

-- `MAVLinkParameters::ParamValue` is carried about as a whole.
abbrev pub ParamValue : Type 0
ParamValue = ℕ

pub data Message : Type 0 where
  command_int : CommandInt → Message
  command_long : CommandLong → Message
  param_set : (target_system target_component : ℕ) → Name → ParamValue → Message
  param_ext_set : (target_system target_component : ℕ) → Name → ParamValue → Message
  param_request_read : (target_system target_component : ℕ) → Name → Message
  param_ext_request_read : (target_system target_component : ℕ) → Name → Message
  mission_ack : (target_system target_component type : ℕ) → Message
  mission_count : (target_system target_component count : ℕ) → Message
  mission_request_list : (target_system target_component : ℕ) → Message
  mission_request_int : (target_system target_component seq : ℕ) → Message
  mission_set_current : (target_system target_component seq : ℕ) → Message
  log_request_list : (target_system target_component index_min index_max : ℕ) → Message
  log_request_data : (target_system target_component id offset count : ℕ) → Message
  log_request_end : (target_system target_component : ℕ) → Message
  mission_item_int : (target_system target_component : ℕ) → MissionItemInt → Message

-- `MAVLinkCommands::Result`.
pub data CommandResult : Type 0 where
  success no_system connection_error busy command_denied timeout in_progress : CommandResult
  unknown_error : CommandResult

-- The functions that the modelled code registers as timeout callbacks.
pub data TimeoutCallback : Type 0 where
  commands_receive_timeout : TimeoutCallback
  parameters_receive_timeout : TimeoutCallback
  mission_process_timeout : TimeoutCallback
  log_list_timeout : TimeoutCallback
  log_data_timeout : TimeoutCallback
  other : ℕ → TimeoutCallback

-- `Mission::Result`.
pub data MissionResult : Type 0 where
  unknown succeeded error too_many_mission_items occupied timed_out : MissionResult
  invalid_argument unsupported no_mission_available failed_to_open_qgc_plan : MissionResult
  failed_to_parse_qgc_plan unsupported_mission_cmd : MissionResult

-- `LogFiles::Result`.
pub data LogResult : Type 0 where
  log_success no_logfiles log_too_many_retries log_progress log_unknown : LogResult

-- `LogFiles::Entry`, with the time of which the date is the text.
pub record LogEntry : Type 0 where
  pub id : ℕ
  pub time_utc : ℕ
  pub size_bytes : ℕ

-- What is queued on the thread pool for the user: the callback, by its number, and its arguments.
-- `mission_items` reads the mission items only when it runs.
pub data UserCall : Type 0 where
  command_result : (callback : ℕ) → CommandResult → Float32 → UserCall
  mission_result : (callback : ℕ) → MissionResult → UserCall
  mission_items : (callback : ℕ) → MissionResult → UserCall
  -- Of the progress callback that is set when the call runs.
  mission_progress : (current : Option ℕ) → (total : ℕ) → UserCall
  log_entries : (callback : ℕ) → LogResult → List LogEntry → UserCall
  log_download : (callback : ℕ) → LogResult → (percent : ℕ) → UserCall
