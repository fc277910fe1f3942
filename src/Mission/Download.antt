-- ===== src/Mission/Download.antt =====
-- The download of a mission and its timeouts, in plugins/mission/mission_impl.cpp.
use stealth_drone_purdue.Base.{
  ℕ, ◌+◌, ◌-◌, ◌%◌, ◌^◌, Bool, false, [], ◌∷◌, ◌++◌, Option, none, some, ltb, ◌==◌, if◌then◌else◌,
}
use stealth_drone_purdue.Mavlink.{
  MissionItemInt, mission_ack, mission_request_list, mission_request_int, error, occupied,
  timed_out,
}
use stealth_drone_purdue.SystemImpl.{Surroundings}
use stealth_drone_purdue.MissionItem.{Conversions, get_mavlink_cmd}
use stealth_drone_purdue.MissionImport.{import_mission}
use stealth_drone_purdue.Mission.State.{
  max_retries, retry_timeout_ms, mission_accepted, is_idle, send, start_timeout, refresh_timeout,
  stop_timeout, report_mission_result, report_mission_items_and_result, same, idle, set_mission,
  get_mission, Mission,
}

abbrev pub to_uint16 : Option ℕ → ℕ
to_uint16 none = 2 ^ 16 - 1
to_uint16 (some n) = n % 2 ^ 16

-- With nothing downloaded, or another message than a waypoint in front, the function returns
-- early: the items and the flag for the return to launch are cleared by then.
unfoldable pub assemble_mission_items : Conversions → Mission → Mission
assemble_mission_items d m =
    let cleared = record m {
      mission_data = record (m.mission_data) { items = [] };
      enable_rtl = false;
    } in
    elim m.mission_data.downloaded [
      | [] ↦ cleared
      | first ∷ rest ↦
          if first.command == get_mavlink_cmd
          then (let a = import_mission d m.absolute_yaw (first ∷ rest) in
              let assembled = record m {
                mission_data = record (m.mission_data) { items = a.mission_items };
                enable_rtl = a.enable_rtl;
                absolute_yaw = a.absolute_yaw;
              } in
              record (report_mission_items_and_result
                m.mission_data.mission_items_and_result_callback a.result assembled) {
                  activity = idle;
                })
          else cleared
    ]

abbrev is_last : ℕ → Option ℕ → Bool
is_last next none = false
is_last next (some num) = (next + 1) == num

module _ (e : Surroundings) where
  unfoldable pub download_next_mission_item : Mission → Mission
  download_next_mission_item m =
      let request =
        mission_request_int m.parent.system_id m.parent.autopilot_id
          (to_uint16 m.mission_data.next_to_download) in
      send e request m

  unfoldable pub download_mission_async : Option ℕ → Mission → Mission
  download_mission_async callback m =
      if is_idle m.activity
      then (let sent = send e (mission_request_list m.parent.system_id m.parent.autopilot_id) m in
          if e.connected
          then (let waiting = start_timeout e retry_timeout_ms sent in
              record waiting {
                activity = get_mission;
                mission_data = record (waiting.mission_data) {
                  downloaded = [];
                  retries = 0;
                  mission_items_and_result_callback = callback;
                };
              })
          else report_mission_items_and_result callback error sent)
      else report_mission_items_and_result callback occupied m

  unfoldable pub process_mission_count : (count : ℕ) → Mission → Mission
  process_mission_count count m = elim m.activity [
    | get_mission ↦ download_next_mission_item (
        start_timeout e retry_timeout_ms (
          stop_timeout (record m {
            mission_data = record (m.mission_data) {
              num_to_download = some count;
              next_to_download = some 0;
            };
          })))
    | _ ↦ m
  ]

  unfoldable pub take_item : Conversions → (next : ℕ) → MissionItemInt → Mission → Mission
  take_item d next item m =
      let taken = record m {
        mission_data = record (m.mission_data) {
          downloaded = m.mission_data.downloaded ++ item ∷ [];
          retries = 0;
        };
      } in
      if is_last next m.mission_data.num_to_download
      then (let ack = mission_ack m.parent.system_id m.parent.autopilot_id mission_accepted in
          assemble_mission_items d (send e ack (stop_timeout taken)))
      else download_next_mission_item (
          refresh_timeout e (record taken {
            mission_data = record (taken.mission_data) { next_to_download = some (next + 1) };
          }))

  unfoldable pub process_mission_item_int : Conversions → MissionItemInt → Mission → Mission
  process_mission_item_int d item m = elim m.activity [
    | get_mission ↦
        if same (some item.seq) m.mission_data.next_to_download
        then take_item d item.seq item m
        else download_next_mission_item (refresh_timeout e m)
    | _ ↦ m
  ]

  -- `process_timeout`, called by `run_once`, which has erased the timeout before.
  unfoldable pub process_timeout : Mission → Mission
  process_timeout m = elim m.activity [
    | set_mission ↦ record m { activity = idle }
    | get_mission ↦
        if ltb max_retries m.mission_data.retries
        then report_mission_result m.mission_data.result_callback timed_out
            (record m { activity = idle; mission_data = record (m.mission_data) { retries = 0 } })
        else download_next_mission_item (
            start_timeout e retry_timeout_ms (record m {
              mission_data = record (m.mission_data) { retries = m.mission_data.retries + 1 };
            }))
    | _ ↦ m
  ]
