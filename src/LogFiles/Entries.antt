-- ===== src/LogFiles/Entries.antt =====
-- The list of the log files, in plugins/log_files/log_files_impl.cpp.
use stealth_drone_purdue.Base.{
  ℕ, zero, suc, ◌+◌, ◌%◌, ◌^◌, List, [], ◌∷◌, Option, none, some, ltb, ◌==◌, if◌then◌else◌, length,
}
use stealth_drone_purdue.StdMap.{find, assign}
use stealth_drone_purdue.Mavlink.{
  LogEntry, LogResult, log_success, log_too_many_retries, log_request_list, log_request_end,
  log_entries, log_list_timeout,
}
use stealth_drone_purdue.SystemImpl.{
  Surroundings, register_timeout_handler, refresh_timeout_handler,
}
use stealth_drone_purdue.LogFiles.State.{LogFiles, comp_id_autopilot1, send, user_call}

-- The timeouts are 3.0 s for the list.
abbrev list_timeout_ms : ℕ
list_timeout_ms = 3000

abbrev max_list_retries : ℕ
max_list_retries = 20

-- The fields of `mavlink_log_entry_t`.
pub record LogEntryMessage : Type 0 where
  pub id : ℕ
  pub num_logs : ℕ
  pub time_utc : ℕ
  pub size : ℕ

-- `LogFiles::Entry{}`.
abbrev empty_entry : LogEntry
empty_entry = record { id = 0; time_utc = 0; size_bytes = 0 }

unfoldable pub request_end : Surroundings → LogFiles → LogFiles
request_end e l = send e (log_request_end l.parent.system_id comp_id_autopilot1) l

-- `entry_id` is `none` for -1.
unfoldable pub request_list_entry : Surroundings → (entry_id : Option ℕ) → LogFiles → LogFiles
request_list_entry e none l =
    send e (log_request_list l.parent.system_id comp_id_autopilot1 0 0xffff) l
request_list_entry e (some id) l =
    send e (log_request_list l.parent.system_id comp_id_autopilot1 (id % 2 ^ 16) (id % 2 ^ 16)) l

unfoldable pub start_list_timeout : Surroundings → LogFiles → LogFiles
start_list_timeout e l = record l {
  entries = record (l.entries) { cookie = e.address };
  parent = register_timeout_handler e log_list_timeout list_timeout_ms l.parent;
}

unfoldable pub get_entries_async : Surroundings → Option ℕ → LogFiles → LogFiles
get_entries_async e callback l = request_list_entry e none (
    start_list_timeout e (record l {
      entries = record (l.entries) {
        entry_map = [];
        callback = callback;
        max_list_id = 0;
        retries = 0;
      };
    }))

unfoldable pub process_log_entry : Surroundings → LogEntryMessage → LogFiles → LogFiles
process_log_entry e message l =
    let new_entry : LogEntry = record {
      id = message.id;
      time_utc = message.time_utc;
      size_bytes = message.size;
    } in
    record l {
      entries = record (l.entries) {
        entry_map = assign message.id new_entry l.entries.entry_map;
        max_list_id = message.num_logs;
      };
      parent = refresh_timeout_handler e l.entries.cookie l.parent;
    }

-- `entry_map[i]` for `n` indices from `i` on: an entry that is missing is inserted, empty.
unfoldable pub collect : (n i : ℕ) → List (ℕ × LogEntry) → List LogEntry × List (ℕ × LogEntry)
collect zero i m = ([], m)
collect (suc n) i m = elim (find i m) [
  | none ↦ (
    empty_entry ∷ (collect n (i + 1) (assign i empty_entry m)).0,
    (collect n (i + 1) (assign i empty_entry m)).1,
  )
  | some entry ↦ (entry ∷ (collect n (i + 1) m).0, (collect n (i + 1) m).1)
]

unfoldable pub request_missing : Surroundings → (n i : ℕ) → LogFiles → LogFiles
request_missing e zero i l = l
request_missing e (suc n) i l =
    request_missing e n (i + 1)
      (elim (find i l.entries.entry_map) [ none ↦ request_list_entry e (some i) l | some _ ↦ l ])

unfoldable pub report_entries : Option ℕ → LogResult → List LogEntry → LogFiles → LogFiles
report_entries none result list l = l
report_entries (some callback) result list l = user_call (log_entries callback result list) l

unfoldable pub list_complete : LogFiles → LogFiles
list_complete l =
    let collected = collect l.entries.max_list_id 0 l.entries.entry_map in
    report_entries l.entries.callback log_success collected.0
      (record l { entries = record (l.entries) { entry_map = collected.1 } })

unfoldable pub list_incomplete : Surroundings → LogFiles → LogFiles
list_incomplete e l =
    if ltb max_list_retries l.entries.retries
    then report_entries l.entries.callback log_too_many_retries [] l
    else (let asked = start_list_timeout e (request_missing e l.entries.max_list_id 0 l) in
        record asked { entries = record (asked.entries) { retries = asked.entries.retries + 1 } })

unfoldable pub list_timeout : Surroundings → LogFiles → LogFiles
list_timeout e l =
    if length l.entries.entry_map == 0
    then l
    else if length l.entries.entry_map == l.entries.max_list_id
    then list_complete l
    else list_incomplete e l
