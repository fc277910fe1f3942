-- ===== src/MissionImport/Reading.antt =====
-- How the loop of `assemble_mission_items` reads the messages of one item that
-- `assemble_mavlink_messages` has written, both in plugins/mission/mission_impl.cpp.
use stealth_drone_purdue.Base.{
  ℕ, ◌%◌, ◌^◌, ◌≡◌, refl, sym, ap, subst, ◌⊎◌, inl, inr, Bool, true, false, ◌||◌, List, [], ◌∷◌,
  ◌++◌, Option, none, some, arith, ◌==◌, if◌then◌else◌, length,
}
use stealth_drone_purdue.Mavlink.{
  MissionItemInt, nan, zero_f, one_f, minus_one_f, two_f, is_finite, succeeded,
}
use stealth_drone_purdue.MissionItem.{
  MissionItem, new_mission_item, CameraAction, take_photo, start_photo_interval,
  stop_photo_interval, start_video, stop_video, no_action, Conversions, is_positive, is_positive64,
  is_negative, int_equals, set_camera_photo_interval, one64,
}
use stealth_drone_purdue.MissionMessages.{
  Assembly, Position, push, add_waypoint, add_speed, add_gimbal, add_loiter, camera, add_item,
  loiter, command_message,
}
use stealth_drone_purdue.MissionImport.{
  Import, Flow, continue, break, import_message, import_messages, import_mount_control,
  import_mount_configure, import_start_capture, import_speed,
}

-- The loop, `none` where it is left by `break`.
unfoldable pub flow : Conversions → List MissionItemInt → Import → Option Import
flow d [] s = some s
flow d (it ∷ its) s = elim (import_message d it s) [ continue b ↦ flow d its b | break b ↦ none ]

Flow-cases : (f : Flow) → ((b : Import) × (f ≡ continue b)) ⊎ ((b : Import) × (f ≡ break b))
Flow-cases (continue b) = inl (b, refl)
Flow-cases (break b) = inr (b, refl)

pub flow-import_messages :
    (d : Conversions) (its : List MissionItemInt) (s t : Import)
    → flow d its s ≡ some t
    → import_messages d its s ≡ t
unfolding flow import_messages
flow-import_messages d [] s t h = ground arith
flow-import_messages d (it ∷ its) s t h = elim (Flow-cases (import_message d it s)) [
  | inl (b, e) ↦ ground (arith, flow-import_messages d its b t)
  | inr (b, e) ↦ ground arith
]

pub flow-append :
    (d : Conversions) (its : List MissionItemInt) (it : MissionItemInt) (s t u : Import)
    → flow d its s ≡ some t
    → import_message d it t ≡ continue u
    → flow d (its ++ it ∷ []) s ≡ some u
unfolding flow
flow-append d [] it s t u h k = ground arith
flow-append d (x ∷ its) it s t u h k = elim (Flow-cases (import_message d x s)) [
  | inl (b, e) ↦ ground (arith, flow-append d its it b t u)
  | inr (b, e) ↦ ground arith
]

-- A camera action that the messages can carry.
abbrev pub IsCarried : Conversions → MissionItem → CameraAction → Type 0
IsCarried d item start_photo_interval =
    (is_positive (d.narrow item.camera_photo_interval_s) ≡ true)
    × (is_positive64 item.camera_photo_interval_s ≡ true)
    × (d.widen (d.narrow item.camera_photo_interval_s) ≡ item.camera_photo_interval_s)
IsCarried d item _ = item.camera_photo_interval_s ≡ one64

module _ (d : Conversions) (start : Import) (done : List MissionItem) where
  -- The items before are complete, and the current one is read up to here.
  abbrev pub IsAt : MissionItem → Import → Type 0
  IsAt i t =
      (t.mission_items ≡ done)
      × (t.new_mission_item ≡ i)
      × (t.have_set_position ≡ true)
      × (t.result ≡ succeeded)
      × (t.enable_rtl ≡ false)

  abbrev pub HasRead : MissionItem → Assembly → Type 0
  HasRead i a =
      (t : Import) × (flow d a.messages start ≡ some t)
      × IsAt i t
      × ((p : Position) × (a.last_position ≡ some p))

  -- A message takes the import from `i` to `i'`.
  abbrev Advances : MissionItem → MissionItem → MissionItemInt → Type 0
  Advances i i' it =
      (t : Import) → IsAt i t → (u : Import) × (import_message d it t ≡ continue u) × IsAt i' u

  push_reads :
      (item_i : ℕ) (message : ℕ → ℕ → MissionItemInt) (i i' : MissionItem) (a : Assembly)
      → ((seq current : ℕ) → Advances i i' (message seq current))
      → HasRead i a
      → HasRead i' (push item_i message a)
  unfolding push
  push_reads item_i message i i' a f (t, r, at, p) =
      let seq = length a.messages in
      let current : ℕ = if seq == 0 then 1 else 0 in
      let (u, e, at') = f (seq % 2 ^ 16) current t at in
      (u, flow-append d a.messages (message (seq % 2 ^ 16) current) start t u r e, at', p)

  speed_reads :
      (item_i : ℕ) (item i : MissionItem) (a : Assembly)
      → (is_finite item.speed_m_s ≡ true) ⊎ (item.speed_m_s ≡ nan)
      → i.speed_m_s ≡ nan
      → HasRead i a
      → HasRead (record i { speed_m_s = item.speed_m_s }) (add_speed d item_i item a)
  unfolding add_speed command_message import_message import_speed int_equals is_negative is_finite
  speed_reads item_i item i a (inl f) n h = rw f (
      push_reads item_i (command_message 178 one_f item.speed_m_s minus_one_f zero_f nan) i
        (record i { speed_m_s = item.speed_m_s }) a
        (λ seq current t at. (
          record t {
            new_mission_item = record (t.new_mission_item) { speed_m_s = item.speed_m_s };
          },
          refl,
          ground arith,
        ))
        h)
  speed_reads item_i item i a (inr f) n h =
      rw f (subst (λ s. HasRead (record i { speed_m_s = s }) a) n h)

  configure_reads :
      (item_i : ℕ) (i : MissionItem) (a : Assembly)
      → HasRead i a
      → HasRead i (push item_i (command_message 204 two_f zero_f zero_f one_f two_f) a)
  unfolding command_message import_message import_mount_configure int_equals
  configure_reads item_i i a h =
      push_reads item_i (command_message 204 two_f zero_f zero_f one_f two_f) i i a
        (λ seq current t at. (record t { absolute_yaw = true }, refl, at)) h

  control_reads :
      (item_i : ℕ) (item i : MissionItem) (a : Assembly)
      → HasRead i a
      → HasRead
          (record i {
            gimbal_pitch_deg = item.gimbal_pitch_deg;
            gimbal_yaw_deg = item.gimbal_yaw_deg;
          })
          (push item_i
            (command_message 205 item.gimbal_pitch_deg zero_f item.gimbal_yaw_deg nan two_f)
            a)
  unfolding command_message import_message import_mount_control int_equals
  control_reads item_i item i a h =
      push_reads item_i
        (command_message 205 item.gimbal_pitch_deg zero_f item.gimbal_yaw_deg nan two_f) i
        (record i {
          gimbal_pitch_deg = item.gimbal_pitch_deg;
          gimbal_yaw_deg = item.gimbal_yaw_deg;
        })
        a
        (λ seq current t at. (
          record t {
            new_mission_item = record (t.new_mission_item) {
              gimbal_pitch_deg = item.gimbal_pitch_deg;
              gimbal_yaw_deg = item.gimbal_yaw_deg;
            };
          },
          refl,
          ground arith,
        ))
        h

  gimbal_reads :
      (item_i : ℕ) (item i : MissionItem) (yaw : Bool) (a : Assembly)
      → ((is_finite item.gimbal_yaw_deg || is_finite item.gimbal_pitch_deg) ≡ true)
        ⊎ ((item.gimbal_pitch_deg ≡ nan) × (item.gimbal_yaw_deg ≡ nan))
      → (i.gimbal_pitch_deg ≡ nan) × (i.gimbal_yaw_deg ≡ nan)
      → HasRead i a
      → HasRead
          (record i {
            gimbal_pitch_deg = item.gimbal_pitch_deg;
            gimbal_yaw_deg = item.gimbal_yaw_deg;
          })
          (add_gimbal d item_i item yaw a)
  unfolding add_gimbal is_finite
  gimbal_reads item_i item i true a (inl f) n h =
      rw f (control_reads item_i item i _ (configure_reads item_i i a h))
  gimbal_reads item_i item i false a (inl f) n h = rw f (control_reads item_i item i a h)
  gimbal_reads item_i item i yaw a (inr (fp, fy)) (np, ny) h =
      rw (fp, fy)
        (subst (λ s. HasRead (record i { gimbal_pitch_deg = nan; gimbal_yaw_deg = s }) a) ny
          (subst (λ s. HasRead (record i { gimbal_pitch_deg = s }) a) np h))

  loiter_pushed :
      (item_i : ℕ) (item i : MissionItem) (p : Position) (a : Assembly)
      → HasRead i a
      → HasRead
          (record i { loiter_time_s = item.loiter_time_s })
          (push item_i (loiter d item_i item p) a)
  unfolding loiter import_message
  loiter_pushed item_i item i p a h =
      push_reads item_i (loiter d item_i item p) i (record i { loiter_time_s = item.loiter_time_s })
        a
        (λ seq current t at. (
          record t {
            new_mission_item = record (t.new_mission_item) { loiter_time_s = item.loiter_time_s };
          },
          refl,
          ground arith,
        ))
        h

  loiter_reads :
      (item_i : ℕ) (item i : MissionItem) (a : Assembly)
      → (is_finite item.loiter_time_s ≡ true) ⊎ (item.loiter_time_s ≡ nan)
      → i.loiter_time_s ≡ nan
      → HasRead i a
      → HasRead (record i { loiter_time_s = item.loiter_time_s }) (add_loiter d item_i item a)
  unfolding add_loiter is_finite
  loiter_reads item_i item i a (inl f) n h =
      let (t, r, at, (p, e)) = h in
      let same : add_loiter d item_i item a ≡ push item_i (loiter d item_i item p) a = rw f (
        ap
          (λ (o : Option Position). elim o as (λ x. Assembly) [
            | none ↦ a
            | some q ↦ push item_i (loiter d item_i item q) a
          ])
          e) in
      subst (HasRead (record i { loiter_time_s = item.loiter_time_s })) (sym same)
        (loiter_pushed item_i item i p a h)
  loiter_reads item_i item i a (inr f) n h =
      rw f (subst (λ s. HasRead (record i { loiter_time_s = s }) a) n h)

  photo_interval_reads :
      (item_i : ℕ) (item i : MissionItem) (a : Assembly)
      → IsCarried d item start_photo_interval
      → HasRead i a
      → HasRead
          (record i {
            camera_action = start_photo_interval;
            camera_photo_interval_s = item.camera_photo_interval_s;
          })
          (camera d item_i item start_photo_interval a)
  unfolding camera command_message import_message import_start_capture int_equals
      set_camera_photo_interval
  photo_interval_reads item_i item i a (positive, positive64, exact) h =
      push_reads item_i
        (command_message 2000 zero_f (d.narrow item.camera_photo_interval_s) zero_f nan nan) i _ a
        (λ seq current t at. (
          record t {
            new_mission_item = record (t.new_mission_item) {
              camera_action = start_photo_interval;
              camera_photo_interval_s = item.camera_photo_interval_s;
            };
          },
          rw (positive, exact, positive64) refl,
          ground arith,
        ))
        h

  camera_reads :
      (item_i : ℕ) (item i : MissionItem) (c : CameraAction) (a : Assembly)
      → IsCarried d item c
      → (i.camera_action ≡ no_action) × (i.camera_photo_interval_s ≡ one64)
      → HasRead i a
      → HasRead
          (record i { camera_action = c; camera_photo_interval_s = item.camera_photo_interval_s })
          (camera d item_i item c a)
  unfolding camera command_message import_message import_start_capture int_equals is_positive
      set_camera_photo_interval
  camera_reads item_i item i take_photo a k n h =
      push_reads item_i (command_message 2000 zero_f zero_f one_f nan nan) i _ a
        (λ seq current t at. (
          record t {
            new_mission_item = record (t.new_mission_item) { camera_action = take_photo };
          },
          refl,
          ground arith,
        ))
        h
  camera_reads item_i item i start_photo_interval a k n h = photo_interval_reads item_i item i a k h
  camera_reads item_i item i stop_photo_interval a k n h =
      push_reads item_i (command_message 2001 zero_f nan nan nan nan) i _ a
        (λ seq current t at. (
          record t {
            new_mission_item = record (t.new_mission_item) { camera_action = stop_photo_interval };
          },
          refl,
          ground arith,
        ))
        h
  camera_reads item_i item i start_video a k n h =
      push_reads item_i (command_message 2500 zero_f nan nan nan nan) i _ a
        (λ seq current t at. (
          record t {
            new_mission_item = record (t.new_mission_item) { camera_action = start_video };
          },
          refl,
          ground arith,
        ))
        h
  camera_reads item_i item i stop_video a k n h =
      push_reads item_i (command_message 2501 zero_f nan nan nan nan) i _ a
        (λ seq current t at. (
          record t {
            new_mission_item = record (t.new_mission_item) { camera_action = stop_video };
          },
          refl,
          ground arith,
        ))
        h
  camera_reads item_i item i no_action a k n h = rw k (
      subst (λ s. HasRead (record i { camera_action = no_action; camera_photo_interval_s = s }) a)
        n.1 (subst (λ s. HasRead (record i { camera_action = s }) a) n.0 h))

  -- Everything behind the position.
  pub rest_reads :
      (item_i : ℕ) (item : MissionItem) (yaw : Bool) (a : Assembly)
      → (is_finite item.speed_m_s ≡ true) ⊎ (item.speed_m_s ≡ nan)
      → ((is_finite item.gimbal_yaw_deg || is_finite item.gimbal_pitch_deg) ≡ true)
        ⊎ ((item.gimbal_pitch_deg ≡ nan) × (item.gimbal_yaw_deg ≡ nan))
      → (is_finite item.loiter_time_s ≡ true) ⊎ (item.loiter_time_s ≡ nan)
      → IsCarried d item item.camera_action
      → HasRead
          (record new_mission_item {
            latitude_deg = item.latitude_deg;
            longitude_deg = item.longitude_deg;
            relative_altitude_m = item.relative_altitude_m;
            fly_through = item.fly_through;
          })
          (add_waypoint d item_i item a)
      → HasRead item (add_item d item_i item yaw a)
  unfolding add_item
  rest_reads item_i item yaw a s g l c h =
      camera_reads item_i item _ item.camera_action _ c (refl, refl)
        (loiter_reads item_i item _ _ l refl
          (gimbal_reads item_i item _ yaw _ g (refl, refl) (speed_reads item_i item _ _ s refl h)))
