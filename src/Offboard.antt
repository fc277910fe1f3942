-- ===== src/Offboard.antt =====
-- plugins/offboard/offboard_impl.h and offboard_impl.cpp: velocity setpoints that are sent again and
-- again. Each function holds the plugin's mutex where it touches the state, and is one step. The
-- periodic calls are those of core/call_every_handler.cpp.
pub mod Streaming
pub mod Setpoints
use stealth_drone_purdue.Base.{
  ℕ, zero, suc, ◌+◌, ◌/◌, ◌%◌, ◌^◌, Bool, true, false, not, ◌&&◌, List, [], ◌∷◌, ◌++◌, Option, none,
  some, ◌==◌, if◌then◌else◌,
}
use stealth_drone_purdue.StdMap.{find}
use stealth_drone_purdue.Mavlink.{
  Float32, zero_f, CommandResult, success, no_system, connection_error, busy, command_denied,
  timeout,
}
use stealth_drone_purdue.CallEvery.{CallEveryHandler, Entry, add, reset, remove}

-- `Offboard::Result`.
pub data OffboardResult : Type 0 where
  offboard_success offboard_no_system offboard_connection_error offboard_busy : OffboardResult
  offboard_command_denied offboard_timeout no_setpoint_set offboard_unknown : OffboardResult

-- `Mode`.
pub data Mode : Type 0 where
  not_active velocity_ned velocity_body : Mode

-- `VelocityNEDYaw`, and `VelocityBodyYawspeed` with its forward, right and yaw speeds.
pub record Velocity : Type 0 where
  pub first_m_s : Float32
  pub second_m_s : Float32
  pub down_m_s : Float32
  pub yaw_deg : Float32

-- The arguments of `mavlink_msg_set_position_target_local_ned_pack`.
pub record PositionTarget : Type 0 where
  pub time_boot_ms : ℕ
  pub target_system : ℕ
  pub target_component : ℕ
  pub coordinate_frame : ℕ
  pub type_mask : ℕ
  pub x : Float32
  pub y : Float32
  pub z : Float32
  pub vx : Float32
  pub vy : Float32
  pub vz : Float32
  pub afx : Float32
  pub afy : Float32
  pub afz : Float32
  pub yaw : Float32
  pub yaw_rate : Float32

-- The functions that are called every so often.
pub data Periodic : Type 0 where
  sends_velocity_ned sends_velocity_body : Periodic
  other_call : ℕ → Periodic

pub data ModeRequest : Type 0 where
  to_offboard to_hold : ModeRequest

-- `mode_requests` are the calls of `set_flight_mode_async`, with the user's callback; `calls` are
-- the calls of the user's callbacks.
pub record Offboard : Type 0 where
  pub mode : Mode
  pub velocity_ned_yaw : Velocity
  pub velocity_body_yawspeed : Velocity
  pub call_every_cookie : ℕ
  pub call_every_handler : CallEveryHandler Periodic
  pub outbox : List PositionTarget
  pub mode_requests : List (ModeRequest × Option ℕ)
  pub calls : List (ℕ × OffboardResult)
  pub system_id : ℕ
  pub autopilot_id : ℕ

-- The steady clock, the address of a new entry, the time since the start in milliseconds, and
-- whether the connections take a message.
pub record Moment : Type 0 where
  pub now : ℕ
  pub address : ℕ
  pub boot_ms : ℕ
  pub connected : Bool

-- 0.1f.
abbrev pub send_interval_s : Float32
send_interval_s = 0x3dcccccd

abbrev pub frame_local_ned : ℕ
frame_local_ned = 1

abbrev frame_body_ned : ℕ
frame_body_ned = 8

-- The bits for x, y, z, the accelerations and the yaw rate.
abbrev pub ned_mask : ℕ
ned_mask = 1 + 2 + 4 + 64 + 128 + 256 + 2048

-- The bits for x, y, z, the accelerations and the yaw.
abbrev body_mask : ℕ
body_mask = 1 + 2 + 4 + 64 + 128 + 256 + 1024

unfoldable pub send : Moment → PositionTarget → Offboard → Offboard
send e message o = if e.connected then record o { outbox = o.outbox ++ message ∷ [] } else o

pub stop_sending_setpoints : Offboard → Offboard
stop_sending_setpoints o = record o {
  call_every_handler =
      if o.call_every_cookie == 0
      then o.call_every_handler
      else remove o.call_every_cookie o.call_every_handler;
  call_every_cookie = 0;
  mode = not_active;
}

pub stop_if_active : Mode → Offboard → Offboard
stop_if_active not_active o = o
stop_if_active velocity_ned o = stop_sending_setpoints o
stop_if_active velocity_body o = stop_sending_setpoints o

unfoldable pub request_mode : ModeRequest → Option ℕ → Offboard → Offboard
request_mode request callback o = record o {
  mode_requests = o.mode_requests ++ (request, callback) ∷ [];
}

pub call_user : Option ℕ → OffboardResult → Offboard → Offboard
call_user none result o = o
call_user (some callback) result o = record o { calls = o.calls ++ (callback, result) ∷ [] }

unfoldable pub start_async : Option ℕ → Offboard → Offboard
start_async callback o = elim o.mode [
  | not_active ↦ call_user callback no_setpoint_set o
  | velocity_ned ↦ request_mode to_offboard callback o
  | velocity_body ↦ request_mode to_offboard callback o
]

pub stop_async : Option ℕ → Offboard → Offboard
stop_async callback o = request_mode to_hold callback (stop_if_active o.mode o)

unfoldable pub is_active : Offboard → Bool
is_active o = elim o.mode [ not_active ↦ false | velocity_ned ↦ true | velocity_body ↦ true ]

unfoldable pub offboard_result_from_command_result : CommandResult → OffboardResult
offboard_result_from_command_result result = elim result [
  | success ↦ offboard_success
  | no_system ↦ offboard_no_system
  | connection_error ↦ offboard_connection_error
  | busy ↦ offboard_busy
  | command_denied ↦ offboard_command_denied
  | timeout ↦ offboard_timeout
  | _ ↦ offboard_unknown
]

unfoldable pub receive_command_result : CommandResult → Option ℕ → Offboard → Offboard
receive_command_result result callback o =
    call_user callback (offboard_result_from_command_result result) o

-- The old call is taken out, if there is one, and another is added.
unfoldable pub switch_to : Moment → Periodic → Mode → Offboard → Offboard
switch_to e call mode o = record o {
  call_every_handler = add e.now e.address (some call) send_interval_s (
      if o.call_every_cookie == 0
      then o.call_every_handler
      else remove o.call_every_cookie o.call_every_handler);
  call_every_cookie = e.address;
  mode = mode;
}

pub reschedule : Moment → Offboard → Offboard
reschedule e o = record o {
  call_every_handler = reset e.now o.call_every_cookie o.call_every_handler;
}

-- Bit 0 of the base mode says that there is a custom mode, which is offboard if its main mode is 6.
unfoldable pub is_offboard_mode : (base_mode custom_mode : ℕ) → Bool
is_offboard_mode base_mode custom_mode = (base_mode % 2 == 1) && (custom_mode / 2 ^ 16 % 2 ^ 8 == 6)

unfoldable pub process_heartbeat : (base_mode custom_mode : ℕ) → Offboard → Offboard
process_heartbeat base_mode custom_mode o =
    if is_offboard_mode base_mode custom_mode then o else stop_if_active o.mode o

module _ (to_rad_from_deg : Float32 → Float32) where
  pub ned_message : Moment → Offboard → PositionTarget
  ned_message e o = record {
    time_boot_ms = e.boot_ms % 2 ^ 32;
    target_system = o.system_id;
    target_component = o.autopilot_id;
    coordinate_frame = frame_local_ned;
    type_mask = ned_mask;
    x = zero_f;
    y = zero_f;
    z = zero_f;
    vx = o.velocity_ned_yaw.first_m_s;
    vy = o.velocity_ned_yaw.second_m_s;
    vz = o.velocity_ned_yaw.down_m_s;
    afx = zero_f;
    afy = zero_f;
    afz = zero_f;
    yaw = to_rad_from_deg o.velocity_ned_yaw.yaw_deg;
    yaw_rate = zero_f;
  }

  unfoldable pub body_message : Moment → Offboard → PositionTarget
  body_message e o = record {
    time_boot_ms = e.boot_ms % 2 ^ 32;
    target_system = o.system_id;
    target_component = o.autopilot_id;
    coordinate_frame = frame_body_ned;
    type_mask = body_mask;
    x = zero_f;
    y = zero_f;
    z = zero_f;
    vx = o.velocity_body_yawspeed.first_m_s;
    vy = o.velocity_body_yawspeed.second_m_s;
    vz = o.velocity_body_yawspeed.down_m_s;
    afx = zero_f;
    afy = zero_f;
    afz = zero_f;
    yaw = zero_f;
    yaw_rate = to_rad_from_deg o.velocity_body_yawspeed.yaw_deg;
  }

  unfoldable pub send_velocity_ned : Moment → Offboard → Offboard
  send_velocity_ned e o = send e (ned_message e o) o

  unfoldable pub send_velocity_body : Moment → Offboard → Offboard
  send_velocity_body e o = send e (body_message e o) o

  unfoldable pub set_velocity_ned : Moment → Velocity → Offboard → Offboard
  set_velocity_ned e v o =
      let stored = record o { velocity_ned_yaw = v } in
      send_velocity_ned e (elim o.mode [
        | velocity_ned ↦ reschedule e stored
        | velocity_body ↦ switch_to e sends_velocity_ned velocity_ned stored
        | not_active ↦ switch_to e sends_velocity_ned velocity_ned stored
      ])

  unfoldable pub set_velocity_body : Moment → Velocity → Offboard → Offboard
  set_velocity_body e v o =
      let stored = record o { velocity_body_yawspeed = v } in
      send_velocity_body e (elim o.mode [
        | velocity_body ↦ reschedule e stored
        | velocity_ned ↦ switch_to e sends_velocity_body velocity_body stored
        | not_active ↦ switch_to e sends_velocity_body velocity_body stored
      ])

  pub periodic : Moment → Option Periodic → Offboard → Offboard
  periodic e (some sends_velocity_ned) o = send_velocity_ned e o
  periodic e (some sends_velocity_body) o = send_velocity_body e o
  periodic e (some (other_call n)) o = o
  periodic e none o = o

  -- An entry is due: `run_once` of the handler calls its callback. The time of the entry, which has
  -- no part in what is sent, stays as it is.
  pub tick : Moment → (cookie : ℕ) → Offboard → Offboard
  tick e cookie o = elim (find cookie o.call_every_handler.entries) [
    | none ↦ o
    | some entry ↦ periodic e entry.callback o
  ]
