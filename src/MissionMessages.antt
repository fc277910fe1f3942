-- ===== src/MissionMessages.antt =====
-- `MissionImpl::assemble_mavlink_messages` of plugins/mission/mission_impl.cpp: from the user's
-- mission items to the messages of an upload, with the map from message to item index.
pub mod Invariants
pub mod Numbering
use stealth_drone_purdue.Base.{
  ℕ, ◌+◌, ◌%◌, ◌^◌, Bool, List, [], ◌∷◌, ◌++◌, Option, none, some, ◌||◌, length, ◌==◌,
  if◌then◌else◌,
}
use stealth_drone_purdue.StdMap.{insert}
use stealth_drone_purdue.Mavlink.{
  MissionItemInt, Float32, nan, zero_f, one_f, minus_one_f, two_f, is_finite,
}
use stealth_drone_purdue.MissionItem.{
  MissionItem, CameraAction, take_photo, start_photo_interval, stop_photo_interval, start_video,
  stop_video, no_action, Conversions, is_position_finite, get_mavlink_frame, get_mavlink_cmd,
  get_mavlink_autocontinue, get_mavlink_param1, get_mavlink_param2,
}

-- `last_frame`, `last_x`, `last_y` and `last_z`, once they are valid.
pub record Position : Type 0 where
  pub frame : ℕ
  pub x : ℕ
  pub y : ℕ
  pub z : Float32

pub record Assembly : Type 0 where
  pub messages : List MissionItemInt
  pub indices : List (ℕ × ℕ)
  pub last_position : Option Position

-- One message: it takes its number (a `uint16_t`) and `current` from the messages before it, its entry goes into
-- the map, unless the map has one for the number, and it goes to the end of the list.
unfoldable pub push : ℕ → (ℕ → ℕ → MissionItemInt) → Assembly → Assembly
push item_i message a =
    let seq = length a.messages in
    let current : ℕ = if seq == 0 then 1 else 0 in
    record a {
      messages = a.messages ++ message (seq % 2 ^ 16) current ∷ [];
      indices = insert seq item_i a.indices;
    }

abbrev mission_frame : ℕ
mission_frame = 2

-- The arguments that differ between the commands without a position.
unfoldable pub command_message :
    (command : ℕ) (param1 param2 param3 param4 z : Float32) (seq current : ℕ) → MissionItemInt
command_message command param1 param2 param3 param4 z seq current = record {
  seq = seq;
  frame = mission_frame;
  command = command;
  current = current;
  autocontinue = 1;
  param1 = param1;
  param2 = param2;
  param3 = param3;
  param4 = param4;
  x = 0;
  y = 0;
  z = z;
}

-- `MAV_MOUNT_MODE_MAVLINK_TARGETING`, as the `float` that it becomes in a message.
abbrev mavlink_targeting_f : Float32
mavlink_targeting_f = two_f

module _ (d : Conversions) (item_i : ℕ) (item : MissionItem) where
  unfoldable pub waypoint : (seq current : ℕ) → MissionItemInt
  waypoint seq current = record {
    seq = seq;
    frame = get_mavlink_frame;
    command = get_mavlink_cmd;
    current = current;
    autocontinue = get_mavlink_autocontinue;
    param1 = get_mavlink_param1 item;
    param2 = get_mavlink_param2 item;
    param3 = zero_f;
    param4 = zero_f;
    x = d.to_e7 item.latitude_deg;
    y = d.to_e7 item.longitude_deg;
    z = item.relative_altitude_m;
  }

  unfoldable pub add_waypoint : Assembly → Assembly
  unfolding push waypoint
  add_waypoint a =
      if is_position_finite item
      then record (push item_i waypoint a) {
        last_position = some (record {
          frame = get_mavlink_frame;
          x = d.to_e7 item.latitude_deg;
          y = d.to_e7 item.longitude_deg;
          z = item.relative_altitude_m;
        });
      }
      else a

  -- `MAV_CMD_DO_CHANGE_SPEED`.
  unfoldable pub add_speed : Assembly → Assembly
  add_speed a =
      if is_finite item.speed_m_s
      then push item_i (command_message 178 one_f item.speed_m_s minus_one_f zero_f nan) a
      else a

  -- `MAV_CMD_DO_MOUNT_CONFIGURE` and `MAV_CMD_DO_MOUNT_CONTROL`.
  unfoldable pub add_gimbal : Bool → Assembly → Assembly
  add_gimbal absolute_yaw a =
      if is_finite item.gimbal_yaw_deg || is_finite item.gimbal_pitch_deg
      then push item_i
          (command_message 205 item.gimbal_pitch_deg zero_f item.gimbal_yaw_deg nan
            mavlink_targeting_f)
          (if absolute_yaw
            then push item_i (command_message 204 mavlink_targeting_f zero_f zero_f one_f two_f) a
            else a)
      else a

  -- `MAV_CMD_NAV_LOITER_TIME` at the last position.
  unfoldable pub loiter : Position → (seq current : ℕ) → MissionItemInt
  loiter p seq current = record {
    seq = seq;
    frame = p.frame;
    command = 19;
    current = current;
    autocontinue = 1;
    param1 = item.loiter_time_s;
    param2 = nan;
    param3 = zero_f;
    param4 = zero_f;
    x = p.x;
    y = p.y;
    z = p.z;
  }

  -- Without a position before it, a loiter time is ignored.
  unfoldable pub add_loiter : Assembly → Assembly
  add_loiter a =
      if is_finite item.loiter_time_s
      then elim a.last_position [ none ↦ a | some p ↦ push item_i (loiter p) a ]
      else a

  unfoldable pub camera : CameraAction → Assembly → Assembly
  camera take_photo a = push item_i (command_message 2000 zero_f zero_f one_f nan nan) a
  camera start_photo_interval a =
      push item_i
        (command_message 2000 zero_f (d.narrow item.camera_photo_interval_s) zero_f nan nan) a
  camera stop_photo_interval a = push item_i (command_message 2001 zero_f nan nan nan nan) a
  camera start_video a = push item_i (command_message 2500 zero_f nan nan nan nan) a
  camera stop_video a = push item_i (command_message 2501 zero_f nan nan nan nan) a
  camera no_action a = a

  -- The body of the loop over the mission items.
  unfoldable pub add_item : Bool → Assembly → Assembly
  add_item absolute_yaw a =
      camera item.camera_action (add_loiter (add_gimbal absolute_yaw (add_speed (add_waypoint a))))

unfoldable pub add_items : Conversions → Bool → ℕ → List MissionItem → Assembly → Assembly
add_items d absolute_yaw item_i [] a = a
add_items d absolute_yaw item_i (item ∷ items) a =
    add_items d absolute_yaw (item_i + 1) items (add_item d item_i item absolute_yaw a)

-- `MAV_CMD_NAV_RETURN_TO_LAUNCH`; its `current` is 0 and its altitude 0.
unfoldable pub rtl : (seq current : ℕ) → MissionItemInt
rtl seq current = command_message 20 nan nan nan nan zero_f seq 0

-- The upload's messages; the map `indices` is the one that earlier uploads have left.
unfoldable pub assemble_mavlink_messages :
    Conversions → Bool → Bool → List (ℕ × ℕ) → List MissionItem → Assembly
assemble_mavlink_messages d absolute_yaw rtl_after indices items =
    let a =
      add_items d absolute_yaw 0 items
        (record { messages = []; indices = indices; last_position = none }) in
    if rtl_after then push (length items) rtl a else a
