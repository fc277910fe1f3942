-- ===== src/MissionImport/RoundTrip.antt =====
-- The mission items that plugins/mission/mission_impl.cpp reads from the messages that it writes.
use stealth_drone_purdue.Base.{
  ℕ, ◌+◌, ◌≡◌, refl, sym, ◌∙◌, ◌==◌, ◌%◌, ◌^◌, ◌⊎◌, inl, inr, Bool, true, false, not, ◌||◌, List,
  [], ◌∷◌, ◌++◌, none, some, arith, if◌then◌else◌, length, All, append-nil, append_assoc,
}
use stealth_drone_purdue.Mavlink.{nan, zero_f, half_f, is_finite, MissionItemInt, succeeded}
use stealth_drone_purdue.MissionItem.{
  MissionItem, new_mission_item, Conversions, is_position_finite, is_positive,
}
use stealth_drone_purdue.MissionMessages.{
  Assembly, push, add_waypoint, waypoint, add_item, add_items, rtl, command_message,
  assemble_mavlink_messages,
}
use stealth_drone_purdue.MissionImport.{
  Import, Flow, import_message, import_waypoint, import_mission, new_import,
}
use stealth_drone_purdue.MissionImport.Reading.{
  flow, flow-append, flow-import_messages, IsAt, HasRead, IsCarried, rest_reads,
}

-- What the messages can carry: a position that the conversions keep, and each other value either
-- finite or the one of a new mission item.
abbrev IsCarriedItem : Conversions → MissionItem → Type 0
IsCarriedItem d item =
    (is_position_finite item ≡ true)
    × (d.from_e7 (d.to_e7 item.latitude_deg) ≡ item.latitude_deg)
    × (d.from_e7 (d.to_e7 item.longitude_deg) ≡ item.longitude_deg)
    × ((is_finite item.speed_m_s ≡ true) ⊎ (item.speed_m_s ≡ nan))
    × (((is_finite item.gimbal_yaw_deg || is_finite item.gimbal_pitch_deg) ≡ true)
        ⊎ ((item.gimbal_pitch_deg ≡ nan) × (item.gimbal_yaw_deg ≡ nan)))
    × ((is_finite item.loiter_time_s ≡ true) ⊎ (item.loiter_time_s ≡ nan))
    × IsCarried d item item.camera_action

-- These items are read, and no part of another.
abbrev IsDone : List MissionItem → Import → Type 0
IsDone done t =
    (t.result ≡ succeeded)
    × (t.enable_rtl ≡ false)
    × (((done ≡ [])
          × (t.mission_items ≡ [])
          × (t.new_mission_item ≡ new_mission_item)
          × (t.have_set_position ≡ false))
        ⊎ ((t.mission_items ++ t.new_mission_item ∷ [] ≡ done) × (t.have_set_position ≡ true)))

module _ (d : Conversions) (start : Import) where
  abbrev HasDone : List MissionItem → Assembly → Type 0
  HasDone done a = (t : Import) × (flow d a.messages start ≡ some t) × IsDone done t

  fly_lem : (b : Bool) → not (is_positive (if b then zero_f else half_f)) ≡ b
  unfolding is_positive
  fly_lem true = refl
  fly_lem false = refl

  waypoint_step :
      (item_i : ℕ) (item : MissionItem) (done : List MissionItem) (seq current : ℕ) (t : Import)
      → IsCarriedItem d item
      → IsDone done t
      → (u : Import) × (import_message d (waypoint d item_i item seq current) t ≡ Flow.continue u)
        × IsAt d start done
            (record new_mission_item {
              latitude_deg = item.latitude_deg;
              longitude_deg = item.longitude_deg;
              relative_altitude_m = item.relative_altitude_m;
              fly_through = item.fly_through;
            })
            u
  unfolding waypoint import_message import_waypoint
  waypoint_step item_i item done seq current t (p, lat, long, s, g, l, c) (ok, none_yet, at) =
      let fly = fly_lem item.fly_through in
      elim at [
        | inl (z, i, n, h) ↦ (
          record t {
            new_mission_item = record new_mission_item {
              latitude_deg = item.latitude_deg;
              longitude_deg = item.longitude_deg;
              relative_altitude_m = item.relative_altitude_m;
              fly_through = item.fly_through;
            };
            have_set_position = true;
          },
          rw (h, n, lat, long, fly) refl,
          (i ∙ sym z, refl, refl, ok, none_yet),
        )
        | inr (e, h) ↦ (
          record t {
            mission_items = t.mission_items ++ t.new_mission_item ∷ [];
            new_mission_item = record new_mission_item {
              latitude_deg = item.latitude_deg;
              longitude_deg = item.longitude_deg;
              relative_altitude_m = item.relative_altitude_m;
              fly_through = item.fly_through;
            };
            have_set_position = true;
          },
          rw (h, lat, long, fly) refl,
          (e, refl, refl, ok, none_yet),
        )
      ]

  waypoint_reads :
      (item_i : ℕ) (item : MissionItem) (done : List MissionItem) (a : Assembly)
      → IsCarriedItem d item
      → HasDone done a
      → HasRead d start done
          (record new_mission_item {
            latitude_deg = item.latitude_deg;
            longitude_deg = item.longitude_deg;
            relative_altitude_m = item.relative_altitude_m;
            fly_through = item.fly_through;
          })
          (add_waypoint d item_i item a)
  unfolding add_waypoint push waypoint import_message import_waypoint
  waypoint_reads item_i item done a c (t, r, at) =
      let seq = length a.messages in
      let current : ℕ = if seq == 0 then 1 else 0 in
      let (u, e, at') = waypoint_step item_i item done (seq % 2 ^ 16) current t c at in
      rw (c.0) (
        u,
        flow-append d a.messages (waypoint d item_i item (seq % 2 ^ 16) current) start t u r e,
        at',
        (_, refl),
      )

  item_done :
      (item_i : ℕ) (item : MissionItem) (yaw : Bool) (done : List MissionItem) (a : Assembly)
      → IsCarriedItem d item
      → HasDone done a
      → HasDone (done ++ item ∷ []) (add_item d item_i item yaw a)
  item_done item_i item yaw done a c h =
      let (t, r, at, p) =
        rest_reads d start done item_i item yaw a c.3 c.4 c.5 c.6
          (waypoint_reads item_i item done a c h) in
      (t, r, (at.3, at.4, inr (cc (at.0, at.1), at.2)))

  items_done :
      (yaw : Bool) (items : List MissionItem) (item_i : ℕ) (done : List MissionItem) (a : Assembly)
      → All (IsCarriedItem d) items
      → HasDone done a
      → HasDone (done ++ items) (add_items d yaw item_i items a)
  unfolding add_items
  items_done yaw [] item_i done a c h = rw (append-nil done) h
  items_done yaw (item ∷ items) item_i done a c h = rw (← append_assoc done (item ∷ []) items) (
      items_done yaw items (item_i + 1) (done ++ item ∷ []) (add_item d item_i item yaw a) c.1
        (item_done item_i item yaw done a c.0 h))

-- The import of the messages assembled from these items.
abbrev pub reimported :
    Conversions → (yaw yaw' rtl_after : Bool) → List (ℕ × ℕ) → List MissionItem → Import
reimported d yaw yaw' rtl_after indices items =
    let a = assemble_mavlink_messages d yaw rtl_after indices items in
    import_mission d yaw' a.messages

finish_lem :
    (d : Conversions) (yaw' : Bool) (messages : List MissionItemInt) (t : Import)
    (first : MissionItem) (rest : List MissionItem)
    → flow d messages (new_import yaw') ≡ some t
    → t.mission_items ++ t.new_mission_item ∷ [] ≡ first ∷ rest
    → ((import_mission d yaw' messages).mission_items ≡ first ∷ rest)
      × ((import_mission d yaw' messages).result ≡ t.result)
      × ((import_mission d yaw' messages).enable_rtl ≡ t.enable_rtl)
unfolding import_mission
finish_lem d yaw' messages t first rest r e =
    let whole = flow-import_messages d messages (new_import yaw') t r in
    (cc (whole, e), cc whole, cc whole)

rest_done :
    (d : Conversions) (yaw yaw' : Bool) (indices : List (ℕ × ℕ)) (first : MissionItem)
    (rest : List MissionItem)
    → All (IsCarriedItem d) (first ∷ rest)
    → HasDone d (new_import yaw') (first ∷ rest) (
        add_items d yaw 0
          (first ∷ rest)
          (record { messages = []; indices = indices; last_position = none }))
unfolding flow
rest_done d yaw yaw' indices first rest c =
    items_done d (new_import yaw') yaw (first ∷ rest) 0 []
      (record { messages = []; indices = indices; last_position = none }) c
      (new_import yaw', refl, (refl, refl, inl (refl, refl, refl, refl)))

not_empty :
    (first : MissionItem) (rest : List MissionItem) (t : Import)
    → IsDone (first ∷ rest) t
    → t.mission_items ++ t.new_mission_item ∷ [] ≡ first ∷ rest
not_empty first rest t (ok, none_yet, inl (z, i, n, h)) = absurd (ground (arith, z))
not_empty first rest t (ok, none_yet, inr (e, h)) = e

-- What is uploaded comes back by a download: of at least one mission item, all of which the
-- messages can carry, the import of the assembled messages gives the same items in the same
-- order, succeeds, and has the flag for the return to launch as it was. An item can be carried if
-- its position is finite and survives the conversions, its speed, its loiter time and one angle
-- of its gimbal are finite or all of that part is as in a new item, and its photo interval is as
-- in a new item or, for photos at an interval, positive and kept by the conversions.
pub import-assemble :
    (d : Conversions) (yaw yaw' rtl_after : Bool) (indices : List (ℕ × ℕ)) (first : MissionItem)
    (rest : List MissionItem)
    → All (IsCarriedItem d) (first ∷ rest)
    → ((reimported d yaw yaw' rtl_after indices (first ∷ rest)).mission_items ≡ first ∷ rest)
      × ((reimported d yaw yaw' rtl_after indices (first ∷ rest)).result ≡ succeeded)
      × ((reimported d yaw yaw' rtl_after indices (first ∷ rest)).enable_rtl ≡ rtl_after)
unfolding assemble_mavlink_messages push rtl command_message import_message
import-assemble d yaw yaw' false indices first rest c =
    let (t, r, at) = rest_done d yaw yaw' indices first rest c in
    let (items, ok, none_yet) = finish_lem d yaw' _ t first rest r (not_empty first rest t at) in
    (items, ok ∙ at.0, none_yet ∙ at.1)
import-assemble d yaw yaw' true indices first rest c =
    let (t, r, at) = rest_done d yaw yaw' indices first rest c in
    let u : Import = record t { enable_rtl = true } in
    let r' = flow-append d _ _ (new_import yaw') t u r refl in
    let (items, ok, rtl_set) = finish_lem d yaw' _ u first rest r' (not_empty first rest t at) in
    (items, ok ∙ at.0, rtl_set)
