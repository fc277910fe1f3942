-- ===== src/MissionItem.antt =====
-- plugins/mission/mission_item_impl.h and mission_item_impl.cpp: one mission item of the user.
-- `double` values are their 64-bit patterns; what is computed with them is a parameter.
use stealth_drone_purdue.Base.{
  ℕ, ◌+◌, ◌-◌, ◌*◌, ◌/◌, ◌%◌, ◌^◌, Bool, false, not, ◌&&◌, ◌||◌, ltb, leb, ◌==◌, if◌then◌else◌,
}
use stealth_drone_purdue.Mavlink.{Float32, nan, zero_f, half_f, one_f, three_f, is_finite}

abbrev Float64 : Type 0
Float64 = ℕ

-- `double(NAN)` and `1.0`.
abbrev nan64 : Float64
nan64 = 0x7ff8000000000000

abbrev pub one64 : Float64
one64 = 0x3ff0000000000000

-- The machine's conversions: `int32_t(d * 1e7)`, `double(x) * 1e-7`, `double` to `float` and back.
pub record Conversions : Type 0 where
  pub to_e7 : Float64 → ℕ
  pub from_e7 : ℕ → Float64
  pub narrow : Float64 → Float32
  pub widen : Float32 → Float64

unfoldable pub is_finite64 : Float64 → Bool
is_finite64 d = not (d / 2 ^ 52 % 2048 == 2047)

-- `d > 0.0` and `f > 0`: a pattern from the least positive number up to infinity.
unfoldable pub is_positive64 : Float64 → Bool
is_positive64 d = ltb 0 d && leb d 0x7ff0000000000000

unfoldable pub is_positive : Float32 → Bool
is_positive f = ltb 0 f && leb f 0x7f800000

-- `f < 0`.
unfoldable pub is_negative : Float32 → Bool
is_negative f = ltb 0x80000000 f && leb f 0xff800000

-- The magnitude of `int(f)`, for an exponent `e` and a significand.
abbrev truncated : ℕ → ℕ → ℕ
truncated e significand =
    if ltb e 127
    then 0
    else if leb 150 e
    then significand * 2 ^ (e - 150)
    else significand / 2 ^ (150 - e)

-- `int(f) == k` for a `k` from 0 on.
unfoldable pub int_equals : Float32 → ℕ → Bool
int_equals f k =
    let magnitude = truncated (f / 2 ^ 23 % 256) (2 ^ 23 + f % 2 ^ 23) in
    magnitude == k && (f / 2 ^ 31 == 0 || k == 0)

-- `no_action` is `CameraAction::NONE`.
pub data CameraAction : Type 0 where
  take_photo start_photo_interval stop_photo_interval start_video stop_video : CameraAction
  no_action : CameraAction

pub record MissionItem : Type 0 where
  pub latitude_deg : Float64
  pub longitude_deg : Float64
  pub relative_altitude_m : Float32
  pub speed_m_s : Float32
  pub fly_through : Bool
  pub gimbal_pitch_deg : Float32
  pub gimbal_yaw_deg : Float32
  pub loiter_time_s : Float32
  pub camera_action : CameraAction
  pub camera_photo_interval_s : Float64

-- `std::make_shared<MissionItem>()`.
abbrev pub new_mission_item : MissionItem
new_mission_item = record {
  latitude_deg = nan64;
  longitude_deg = nan64;
  relative_altitude_m = nan;
  speed_m_s = nan;
  fly_through = false;
  gimbal_pitch_deg = nan;
  gimbal_yaw_deg = nan;
  loiter_time_s = nan;
  camera_action = no_action;
  camera_photo_interval_s = one64;
}

abbrev pub set_position : Float64 → Float64 → MissionItem → MissionItem
set_position latitude longitude i = record i { latitude_deg = latitude; longitude_deg = longitude }

abbrev pub set_gimbal_pitch_and_yaw : Float32 → Float32 → MissionItem → MissionItem
set_gimbal_pitch_and_yaw pitch yaw i = record i { gimbal_pitch_deg = pitch; gimbal_yaw_deg = yaw }

-- An interval that is not positive is refused.
unfoldable pub set_camera_photo_interval : Float64 → MissionItem → MissionItem
set_camera_photo_interval interval_s i =
    if is_positive64 interval_s then record i { camera_photo_interval_s = interval_s } else i

abbrev pub get_mavlink_frame : ℕ
get_mavlink_frame = 6

abbrev pub get_mavlink_cmd : ℕ
get_mavlink_cmd = 16

abbrev pub get_mavlink_autocontinue : ℕ
get_mavlink_autocontinue = 1

-- The hold time.
abbrev pub get_mavlink_param1 : MissionItem → Float32
get_mavlink_param1 i = if i.fly_through then zero_f else half_f

-- The acceptance radius.
abbrev pub get_mavlink_param2 : MissionItem → Float32
get_mavlink_param2 i = if i.fly_through then three_f else one_f

unfoldable pub is_position_finite : MissionItem → Bool
is_position_finite i =
    is_finite64 i.latitude_deg && is_finite64 i.longitude_deg && is_finite i.relative_altitude_m
