-- ===== src/Mission/Upload.antt =====
-- The upload of a mission, in plugins/mission/mission_impl.cpp.
use stealth_drone_purdue.Base.{
  ℕ, ◌%◌, ◌^◌, List, [], ◌∷◌, Option, none, some, ◌==◌, if◌then◌else◌, length, get_elem?,
}
use stealth_drone_purdue.Mavlink.{
  MissionItemInt, Message, mission_ack, mission_count, mission_item_int, succeeded, error,
  too_many_mission_items, occupied,
}
use stealth_drone_purdue.SystemImpl.{SystemImpl, Surroundings}
use stealth_drone_purdue.MissionItem.{Conversions, MissionItem}
use stealth_drone_purdue.MissionMessages.{assemble_mavlink_messages}
use stealth_drone_purdue.Mission.State.{
  process_timeout_ms, mission_accepted, mission_unsupported, mission_no_space, is_idle, send,
  start_timeout, refresh_timeout, stop_timeout, report_mission_result, idle, set_mission, Mission,
  MissionAck, MissionRequestInt, for_others,
}

module _ (e : Surroundings) where
  -- Only missions of int items are supported: any other request is refused with an
  -- acknowledgement, by which the autopilot turns to int items.
  unfoldable pub process_mission_request : Mission → Mission
  process_mission_request m =
      let nack = mission_ack m.parent.system_id m.parent.autopilot_id mission_unsupported in
      refresh_timeout e (send e nack m)

  unfoldable pub upload_mission_item : ℕ → Mission → Mission
  upload_mission_item seq m = elim (get_elem? m.mission_data.messages seq) [
    | none ↦ m
    | some message ↦ send e message m
  ]

  unfoldable pub process_mission_request_int : MissionRequestInt → Mission → Mission
  process_mission_request_int request m =
      if for_others request.target_system request.target_component then m else elim m.activity [
        | set_mission ↦ refresh_timeout e (
            upload_mission_item request.seq
              (record m { mission_data = record (m.mission_data) { retries = 0 } }))
        | _ ↦ m
      ]

unfoldable pub acknowledge : ℕ → Mission → Mission
acknowledge type m =
    if type == mission_accepted
    then report_mission_result m.mission_data.result_callback succeeded (record m {
      activity = idle;
      mission_data = record (m.mission_data) { last_current = none; last_reached = none };
    })
    else if type == mission_no_space
    then report_mission_result m.mission_data.result_callback too_many_mission_items m
    else report_mission_result m.mission_data.result_callback error m

unfoldable pub process_mission_ack : MissionAck → Mission → Mission
process_mission_ack ack m = elim m.activity [
  | set_mission ↦
      if for_others ack.target_system ack.target_component
      then m
      else acknowledge ack.type (stop_timeout m)
  | _ ↦ m
]

unfoldable pub mission_messages : SystemImpl → List MissionItemInt → List Message
mission_messages s [] = []
mission_messages s (item ∷ items) =
    mission_item_int s.system_id s.autopilot_id item ∷ mission_messages s items

-- `copy_mission_item_vector` and `assemble_mavlink_messages`; the clearing of the old messages
-- is in the assembly.
unfoldable pub copy_and_assemble : Conversions → List MissionItem → Mission → Mission
copy_and_assemble d items m =
    let a = assemble_mavlink_messages d m.absolute_yaw m.enable_rtl m.mission_data.indices items in
    record m {
      mission_data = record (m.mission_data) {
        items = items;
        messages = mission_messages m.parent a.messages;
        indices = a.indices;
      };
    }

module _ (e : Surroundings) where
  -- The announcement of a mission that has been assembled.
  unfoldable pub announce : Option ℕ → Mission → Mission
  announce callback m =
      let count =
        mission_count m.parent.system_id m.parent.autopilot_id
          (length m.mission_data.messages % 2 ^ 16) in
      let sent = send e count m in
      if e.connected
      then (let waiting = start_timeout e process_timeout_ms sent in
          record waiting {
            activity = set_mission;
            mission_data = record (waiting.mission_data) { result_callback = callback };
          })
      else report_mission_result callback error sent

  unfoldable pub upload_mission_async :
      Conversions → List MissionItem → Option ℕ → Mission → Mission
  upload_mission_async d items callback m =
      if is_idle m.activity
      then if m.parent.supports_mission_int
        then announce callback (copy_and_assemble d items m)
        else report_mission_result callback error m
      else report_mission_result callback occupied m
