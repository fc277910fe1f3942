-- ===== src/Mission/Control.antt =====
-- Start, pause, the current mission item and the progress, in plugins/mission/mission_impl.cpp.
use stealth_drone_purdue.Base.{
  ℕ, ◌+◌, ◌%◌, ◌^◌, Bool, false, not, List, [], ◌∷◌, ◌++◌, Option, none, some, ◌&&◌, ◌==◌,
  if◌then◌else◌, length,
}
use stealth_drone_purdue.StdMap.{find}
use stealth_drone_purdue.Mavlink.{
  mission_set_current, CommandResult, success, succeeded, error, occupied, invalid_argument,
  mission_progress,
}
use stealth_drone_purdue.SystemImpl.{Surroundings, call_user_callback}
use stealth_drone_purdue.Mission.State.{
  is_idle, send, stop_timeout, report_mission_result, same, idle, set_current, send_command,
  FlightMode, mission_mode, hold_mode, Mission,
}

unfoldable pub is_mission_finished : Mission → Bool
is_mission_finished m = elim m.mission_data.last_current [
  | none ↦ false
  | some _ ↦ elim m.mission_data.last_reached [
    | none ↦ false
    | some reached ↦
        (let rtl_correction : ℕ = if m.enable_rtl then 2 else 1 in
          not (length m.mission_data.messages == 0)
          && ((reached + rtl_correction) == length m.mission_data.messages))
  ]
]

unfoldable pub total_mission_items : Mission → ℕ
total_mission_items m = length m.mission_data.items

unfoldable pub current_mission_item : Mission → Option ℕ
current_mission_item m =
    if is_mission_finished m
    then some (total_mission_items m)
    else elim m.mission_data.last_current [
      | none ↦ none
      | some current ↦ find current m.mission_data.indices
    ]

unfoldable pub report_progress_to : (current : Option ℕ) → (total : ℕ) → Mission → Mission
report_progress_to current total m =
    if same m.mission_data.last_current_reported current
      && same m.mission_data.last_total_reported (some total)
    then m
    else record m {
      mission_data = record (m.mission_data) {
        last_current_reported = current;
        last_total_reported = some total;
      };
      parent = call_user_callback (mission_progress current total) m.parent;
    }

unfoldable pub report_progress : Mission → Mission
report_progress m = elim m.mission_data.progress_callback [
  | none ↦ m
  | some _ ↦ report_progress_to (current_mission_item m) (total_mission_items m) m
]

-- Start and pause, and the current item.
unfoldable pub start_or_pause : FlightMode → Option ℕ → Mission → Mission
start_or_pause mode callback m =
    if is_idle m.activity
    then record m {
      activity = send_command;
      flight_modes = m.flight_modes ++ (mode, callback) ∷ [];
    }
    else report_mission_result callback occupied m

unfoldable pub start_mission_async : Option ℕ → Mission → Mission
start_mission_async = start_or_pause mission_mode

unfoldable pub pause_mission_async : Option ℕ → Mission → Mission
pause_mission_async = start_or_pause hold_mode

unfoldable pub receive_command_result : CommandResult → Option ℕ → Mission → Mission
receive_command_result result callback m =
    let settled = record m { activity = elim m.activity [ send_command ↦ idle | other ↦ other ] } in
    report_mission_result callback (elim result [ success ↦ succeeded | _ ↦ error ])
      (stop_timeout settled)

-- The least message of a mission item; the map is in the order of the messages.
unfoldable pub first_message : (current : ℕ) → List (ℕ × ℕ) → Option ℕ
first_message current [] = none
first_message current ((seq, item_i) ∷ indices) =
    if item_i == current then some seq else first_message current indices

module _ (e : Surroundings) where
  unfoldable pub send_current : Option ℕ → Option ℕ → Mission → Mission
  send_current none callback m = report_mission_result callback invalid_argument m
  send_current (some seq) callback m =
      let message = mission_set_current m.parent.system_id m.parent.autopilot_id (seq % 2 ^ 16) in
      let sent = send e message m in
      if e.connected
      then record sent {
        activity = set_current;
        mission_data = record (sent.mission_data) { result_callback = callback };
      }
      else report_mission_result callback error sent

  unfoldable pub set_current_mission_item_async : Option ℕ → Option ℕ → Mission → Mission
  set_current_mission_item_async current callback m =
      if is_idle m.activity
      then send_current
          (elim current [ none ↦ none | some c ↦ first_message c m.mission_data.indices ]) callback
          m
      else report_mission_result callback occupied m

-- `MISSION_CURRENT`: the progress, and the end of a change of the current item.
unfoldable pub process_mission_current : (seq : ℕ) → Mission → Mission
process_mission_current seq m =
    let noted =
      report_progress
        (record m { mission_data = record (m.mission_data) { last_current = some seq } }) in
    elim noted.activity [
      | set_current ↦
          if same noted.mission_data.last_current (some seq)
          then record (stop_timeout (
              report_mission_result noted.mission_data.result_callback succeeded (record noted {
                mission_data = record (noted.mission_data) { last_current = none };
              }))) { activity = idle }
          else noted
      | _ ↦ noted
    ]

unfoldable pub process_mission_item_reached : (seq : ℕ) → Mission → Mission
process_mission_item_reached seq m =
    report_progress
      (record m { mission_data = record (m.mission_data) { last_reached = some seq } })
