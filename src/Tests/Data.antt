-- ===== src/Tests/Data.antt =====
-- Sample data for the runs.
use stealth_drone_purdue.Base.{ℕ, true, false, List, [], ◌∷◌, none, some}
use stealth_drone_purdue.Mavlink.{CommandLong, command_long, zero_f, one_f, MissionItemInt}
use stealth_drone_purdue.SystemImpl.{SystemImpl, Surroundings}
use stealth_drone_purdue.Commands.{Commands}
use stealth_drone_purdue.Parameters.{Parameters}
use stealth_drone_purdue.MissionItem.{Conversions, MissionItem, new_mission_item, take_photo}
use stealth_drone_purdue.Mission.{Mission, MissionData}
use stealth_drone_purdue.Commands as C
use stealth_drone_purdue.Parameters as P
use stealth_drone_purdue.Mission as M

abbrev pub system : SystemImpl
system = record {
  timeout_handler = record { timeouts = []; iterator_invalidated = false };
  outbox = [];
  user_calls = [];
  system_id = 1;
  autopilot_id = 1;
  supports_mission_int = true;
}

abbrev pub up : Surroundings
up = record { now = 1000; address = 4096; connected = true }

abbrev pub later : Surroundings
later = record { now = 2000; address = 8192; connected = true }

-- `MAV_CMD_COMPONENT_ARM_DISARM`.
abbrev pub arm : CommandLong
arm = record {
  target_system_id = 1;
  target_component_id = 1;
  command = 400;
  confirmation = 0;
  param1 = one_f;
  param2 = zero_f;
  param3 = zero_f;
  param4 = zero_f;
  param5 = zero_f;
  param6 = zero_f;
  param7 = zero_f;
}

abbrev pub arm_work : C.Work
arm_work = record {
  retries_to_do = 3;
  timeout_ms = 500;
  mavlink_command = 400;
  mavlink_message = command_long arm;
  callback = some 7;
}

abbrev pub no_commands : Commands
no_commands = record {
  state = C.State.idle;
  work_queue = record { queue = []; locked = false };
  timeout_cookie = 0;
  parent = system;
}

abbrev pub one_command : Commands
one_command = record no_commands { work_queue = record { queue = arm_work ∷ []; locked = false } }

abbrev pub arming : Commands
arming = record one_command { state = C.State.in_progress }

-- "AB".
abbrev pub param_name : List ℕ
param_name = 65 ∷ 66 ∷ []

abbrev pub set_work : P.SetParamWork
set_work = record { callback = some 3; param_name = param_name; param_value = 5; extended = false }

abbrev pub one_set : Parameters
one_set = record {
  state = P.State.idle;
  set_param_queue = record { queue = set_work ∷ []; locked = false };
  get_param_queue = record { queue = []; locked = false };
  cache = [];
  timeout_cookie = 0;
  parent = system;
  calls = [];
}

abbrev pub setting : Parameters
setting = record one_set { state = P.State.set_param_busy }

abbrev pub conversions : Conversions
conversions = record { to_e7 = λ d. d; from_e7 = λ x. x; narrow = λ d. d; widen = λ f. f }

abbrev pub photo_item : MissionItem
photo_item = record new_mission_item {
  latitude_deg = 1;
  longitude_deg = 2;
  relative_altitude_m = one_f;
  camera_action = take_photo;
}

abbrev pub mission_data : MissionData
mission_data = record {
  retries = 0;
  last_current = none;
  last_reached = none;
  items = [];
  messages = [];
  indices = [];
  num_to_download = none;
  next_to_download = none;
  downloaded = [];
  result_callback = none;
  mission_items_and_result_callback = none;
  progress_callback = none;
  last_current_reported = none;
  last_total_reported = none;
}

abbrev pub mission : Mission
mission = record {
  activity = M.idle;
  mission_data = mission_data;
  timeout_cookie = 0;
  enable_rtl = true;
  absolute_yaw = true;
  flight_modes = [];
  parent = system;
}

abbrev pub waypoint_message : MissionItemInt
waypoint_message = record {
  seq = 0;
  frame = 6;
  command = 16;
  current = 1;
  autocontinue = 1;
  param1 = zero_f;
  param2 = one_f;
  param3 = zero_f;
  param4 = zero_f;
  x = 1;
  y = 2;
  z = one_f;
}

abbrev pub photo_message : MissionItemInt
photo_message = record waypoint_message {
  seq = 1;
  command = 2000;
  param1 = zero_f;
  param2 = zero_f;
  param3 = one_f;
  current = 0;
}
