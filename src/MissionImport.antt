-- ===== src/MissionImport.antt =====
-- The loop of `MissionImpl::assemble_mission_items` of plugins/mission/mission_impl.cpp: from the
-- messages of a download back to mission items.
pub mod Reading
pub mod RoundTrip
use stealth_drone_purdue.Base.{
  Bool, true, false, not, List, [], ◌∷◌, ◌++◌, ◌&&◌, ◌||◌, ◌==◌, if◌then◌else◌,
}
use stealth_drone_purdue.Mavlink.{MissionItemInt, MissionResult, succeeded, unsupported}
use stealth_drone_purdue.MissionItem.{
  MissionItem, new_mission_item, set_position, set_gimbal_pitch_and_yaw, set_camera_photo_interval,
  take_photo, start_photo_interval, stop_photo_interval, start_video, stop_video, Conversions,
  is_positive, is_negative, int_equals, get_mavlink_frame, get_mavlink_cmd,
}

-- The variables of the loop, with the two flags of the plugin that it sets.
pub record Import : Type 0 where
  pub mission_items : List MissionItem
  pub new_mission_item : MissionItem
  pub have_set_position : Bool
  pub result : MissionResult
  pub enable_rtl : Bool
  pub absolute_yaw : Bool

-- Whether the loop goes on after a message.
pub data Flow : Type 0 where
  continue : Import → Flow
  break : Import → Flow

unfoldable pub refuse : Import → Import
refuse a = record a { result = unsupported }

pub import_waypoint : Conversions → MissionItemInt → Import → Flow
import_waypoint d it a =
    if it.frame == get_mavlink_frame
    then (let item = if a.have_set_position then new_mission_item else a.new_mission_item in
        let positioned = set_position (d.from_e7 it.x) (d.from_e7 it.y) item in
        continue (record a {
          mission_items =
              if a.have_set_position
              then a.mission_items ++ a.new_mission_item ∷ []
              else a.mission_items;
          new_mission_item = record positioned {
            relative_altitude_m = it.z;
            fly_through = not (is_positive it.param1);
          };
          have_set_position = true;
        }))
    else break (refuse a)

pub import_mount_control : MissionItemInt → Import → Flow
import_mount_control it a =
    if int_equals it.z 2
    then continue (record a {
      new_mission_item = set_gimbal_pitch_and_yaw it.param1 it.param3 a.new_mission_item;
    })
    else break (refuse a)

pub import_mount_configure : MissionItemInt → Import → Flow
import_mount_configure it a =
    if int_equals it.param1 2
    then continue (record a { absolute_yaw = int_equals it.param4 1 || int_equals it.z 2 })
    else break (refuse a)

pub import_start_capture : Conversions → MissionItemInt → Import → Flow
import_start_capture d it a =
    if is_positive it.param2 && int_equals it.param3 0
    then continue (record a {
      new_mission_item =
          set_camera_photo_interval (d.widen it.param2)
            (record (a.new_mission_item) { camera_action = start_photo_interval });
    })
    else if int_equals it.param2 0 && int_equals it.param3 1
    then continue
        (record a { new_mission_item = record (a.new_mission_item) { camera_action = take_photo } })
    else break (refuse a)

-- A speed of an unsupported kind is refused without leaving the loop.
pub import_speed : MissionItemInt → Import → Flow
import_speed it a =
    if int_equals it.param1 1 && is_negative it.param3 && int_equals it.param4 0
    then continue
        (record a { new_mission_item = record (a.new_mission_item) { speed_m_s = it.param2 } })
    else continue (refuse a)

-- The body of the loop.
pub import_message : Conversions → MissionItemInt → Import → Flow
import_message d it a =
    if it.command == get_mavlink_cmd
    then import_waypoint d it a
    else if it.command == 205
    then import_mount_control it a
    else if it.command == 204
    then import_mount_configure it a
    else if it.command == 2000
    then import_start_capture d it a
    else if it.command == 2001
    then continue (record a {
      new_mission_item = record (a.new_mission_item) { camera_action = stop_photo_interval };
    })
    else if it.command == 2500
    then continue (record a {
      new_mission_item = record (a.new_mission_item) { camera_action = start_video };
    })
    else if it.command == 2501
    then continue
        (record a { new_mission_item = record (a.new_mission_item) { camera_action = stop_video } })
    else if it.command == 178
    then import_speed it a
    else if it.command == 19
    then continue
        (record a { new_mission_item = record (a.new_mission_item) { loiter_time_s = it.param1 } })
    else if it.command == 20
    then continue (record a { enable_rtl = true })
    else break (refuse a)

pub import_messages : Conversions → List MissionItemInt → Import → Import
import_messages d [] a = a
import_messages d (it ∷ messages) a = elim (import_message d it a) [
  | continue b ↦ import_messages d messages b
  | break b ↦ b
]

abbrev pub new_import : (absolute_yaw : Bool) → Import
new_import absolute_yaw = record {
  mission_items = [];
  new_mission_item = new_mission_item;
  have_set_position = false;
  result = succeeded;
  enable_rtl = false;
  absolute_yaw = absolute_yaw;
}

-- The loop, and the last mission item that is added after it.
pub import_mission : Conversions → (absolute_yaw : Bool) → List MissionItemInt → Import
import_mission d absolute_yaw messages =
    let a = import_messages d messages (new_import absolute_yaw) in
    record a { mission_items = a.mission_items ++ a.new_mission_item ∷ [] }
