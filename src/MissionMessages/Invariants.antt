-- ===== src/MissionMessages/Invariants.antt =====
-- What an invariant of the assembly of messages needs, in plugins/mission/mission_impl.cpp: every
-- change of it is one of two kinds.
use stealth_drone_purdue.Base.{
  ℕ, ◌+◌, ◌≡◌, refl, Bool, false, List, [], ◌∷◌, Option, none, some, ◌==◌, if_both, ◌||◌,
}
use stealth_drone_purdue.Mavlink.{MissionItemInt, Float32, is_finite}
use stealth_drone_purdue.MissionItem.{
  MissionItem, CameraAction, take_photo, start_photo_interval, stop_photo_interval, start_video,
  stop_video, no_action, Conversions, is_position_finite,
}
use stealth_drone_purdue.MissionMessages.{
  Assembly, Position, push, add_waypoint, add_speed, add_gimbal, add_loiter, camera, add_item,
  add_items, waypoint, loiter, command_message,
}

-- `MAV_CMD_NAV_RETURN_TO_LAUNCH`.
abbrev pub rtl_command : ℕ
rtl_command = 20

-- A message that takes its number and `current` as they are given, and is no return to launch.
abbrev pub IsPlain : (ℕ → ℕ → MissionItemInt) → Type 0
IsPlain message =
    (seq current : ℕ)
    → ((message seq current).seq ≡ seq)
      × ((message seq current).current ≡ current)
      × (((message seq current).command == rtl_command) ≡ false)

module _ (P : Assembly → Type 0)
    (push_keeps : (item_i : ℕ) (message : ℕ → ℕ → MissionItemInt) (a : Assembly)
      → IsPlain message
      → P a
      → P (push item_i message a))
    (position_keeps : (p : Option Position) (a : Assembly)
      → P a
      → P (record a { last_position = p })) where
  module _ (d : Conversions) (item_i : ℕ) (item : MissionItem) where
    push_command :
        (command : ℕ) (param1 param2 param3 param4 z : Float32) (a : Assembly)
        → (command == rtl_command) ≡ false
        → P a
        → P (push item_i (command_message command param1 param2 param3 param4 z) a)
    unfolding command_message
    push_command command param1 param2 param3 param4 z a ne h =
        push_keeps item_i (command_message command param1 param2 param3 param4 z) a
          (λ seq current. (refl, refl, ne)) h

    waypoint_keeps : (a : Assembly) → P a → P (add_waypoint d item_i item a)
    unfolding add_waypoint waypoint
    waypoint_keeps a h =
        if_both {A = Assembly} P (is_position_finite item)
          (position_keeps
            (some (record {
              frame = 6;
              x = d.to_e7 item.latitude_deg;
              y = d.to_e7 item.longitude_deg;
              z = item.relative_altitude_m;
            }))
            (push item_i (waypoint d item_i item) a)
            (push_keeps item_i (waypoint d item_i item) a (λ seq current. (refl, refl, refl)) h))
          h

    speed_keeps : (a : Assembly) → P a → P (add_speed d item_i item a)
    unfolding add_speed
    speed_keeps a h =
        if_both {A = Assembly} P (is_finite item.speed_m_s) (push_command 178 _ _ _ _ _ a refl h) h

    gimbal_keeps : (yaw : Bool) (a : Assembly) → P a → P (add_gimbal d item_i item yaw a)
    unfolding add_gimbal
    gimbal_keeps yaw a h =
        if_both {A = Assembly} P (is_finite item.gimbal_yaw_deg || is_finite item.gimbal_pitch_deg)
          (push_command 205 _ _ _ _ _ _ refl
            (if_both {A = Assembly} P yaw (push_command 204 _ _ _ _ _ a refl h) h))
          h

    loiter_at :
        (o : Option Position) (a : Assembly)
        → P a
        → P (elim o [ none ↦ a | some p ↦ push item_i (loiter d item_i item p) a ])
    unfolding loiter
    loiter_at none a h = h
    loiter_at (some p) a h =
        push_keeps item_i (loiter d item_i item p) a (λ seq current. (refl, refl, refl)) h

    loiter_keeps : (a : Assembly) → P a → P (add_loiter d item_i item a)
    unfolding add_loiter
    loiter_keeps a h =
        if_both {A = Assembly} P (is_finite item.loiter_time_s) (loiter_at a.last_position a h) h

    camera_keeps : (c : CameraAction) (a : Assembly) → P a → P (camera d item_i item c a)
    unfolding camera
    camera_keeps take_photo a h = push_command 2000 _ _ _ _ _ a refl h
    camera_keeps start_photo_interval a h = push_command 2000 _ _ _ _ _ a refl h
    camera_keeps stop_photo_interval a h = push_command 2001 _ _ _ _ _ a refl h
    camera_keeps start_video a h = push_command 2500 _ _ _ _ _ a refl h
    camera_keeps stop_video a h = push_command 2501 _ _ _ _ _ a refl h
    camera_keeps no_action a h = h

    item_keeps : (yaw : Bool) (a : Assembly) → P a → P (add_item d item_i item yaw a)
    unfolding add_item
    item_keeps yaw a h =
        camera_keeps item.camera_action _
          (loiter_keeps _ (gimbal_keeps yaw _ (speed_keeps _ (waypoint_keeps a h))))

  pub items_keep :
      (d : Conversions) (yaw : Bool) (item_i : ℕ) (items : List MissionItem) (a : Assembly)
      → P a
      → P (add_items d yaw item_i items a)
  unfolding add_items
  items_keep d yaw item_i [] a h = h
  items_keep d yaw item_i (item ∷ items) a h =
      items_keep d yaw (item_i + 1) items (add_item d item_i item yaw a)
        (item_keeps d item_i item yaw a h)
