-- ===== src/LogFiles/Download.antt =====
-- The download of a log file, in plugins/log_files/log_files_impl.cpp. A write outside of the array
-- `_data.bytes`, which `memcpy` does not check, is `none`; a `memcpy` of no bytes writes nothing.
use stealth_drone_purdue.Base.{
  ℕ, ◌+◌, ◌-◌, ◌*◌, ◌/◌, ◌%◌, ◌^◌, Bool, true, false, List, [], ◌∷◌, ◌++◌, Option, none, some, ltb,
  leb, ◌==◌, ◌||◌, if◌then◌else◌, length, set,
}
use stealth_drone_purdue.StdMap.{find}
use stealth_drone_purdue.Mavlink.{
  LogEntry, log_success, log_progress, Name, log_request_data, log_data_timeout,
}
use stealth_drone_purdue.SystemImpl.{
  Surroundings, register_timeout_handler, refresh_timeout_handler, unregister_timeout_handler,
}
use stealth_drone_purdue.LogFiles.State.{
  LogFiles, LogData, Percentages, chunk_size, comp_id_autopilot1, send, report_download, resize,
  copy,
}

-- 0.2 s.
abbrev data_timeout_ms : ℕ
data_timeout_ms = 200

-- The fields of `mavlink_log_data_t` that are read; the payload has 90 bytes.
pub record LogDataMessage : Type 0 where
  pub ofs : ℕ
  pub count : ℕ
  pub payload : List ℕ

unfoldable pub num_chunks : (bytes_to_get : ℕ) → ℕ
num_chunks bytes_to_get =
    bytes_to_get / chunk_size + (if bytes_to_get % chunk_size == 0 then 0 else 1)

unfoldable pub request_log_data : Surroundings → (id offset bytes_to_get : ℕ) → LogFiles → LogFiles
request_log_data e id offset bytes_to_get l =
    send e
      (log_request_data l.parent.system_id comp_id_autopilot1 (id % 2 ^ 16) offset bytes_to_get) l

unfoldable pub start_data_timeout : Surroundings → LogFiles → LogFiles
start_data_timeout e l = record l {
  log_data = record (l.log_data) { cookie = e.address };
  parent = register_timeout_handler e log_data_timeout data_timeout_ms l.parent;
}

unfoldable pub begin_download :
    Surroundings → (id : ℕ) → Name → Option ℕ → LogEntry → LogFiles → LogFiles
begin_download e id file_path callback entry l =
    let size = entry.size_bytes in
    let d = l.log_data in
    request_log_data e id 0 size (
      report_download callback log_progress 0 (
        start_data_timeout e (record l {
          log_data = record d {
            rerequesting = false;
            id = id;
            bytes = resize 0 size d.bytes;
            file_path = file_path;
            callback = callback;
            last_progress_percentage = 0;
            chunks_to_rerequest_initially = 0;
            chunks_received = resize false (num_chunks size) d.chunks_received;
          };
        })))

-- An id that is not in the list of log files is only logged.
unfoldable pub download_log_file_async :
    Surroundings → (id : ℕ) → Name → Option ℕ → LogFiles → LogFiles
download_log_file_async e id file_path callback l = elim (find id l.entries.entry_map) [
  | none ↦ l
  | some entry ↦ begin_download e id file_path callback entry l
]

-- The first missing chunk from chunk `i` on, and how many there are.
unfoldable pub missing : (i : ℕ) → List Bool → Option ℕ × ℕ
missing i [] = (none, 0)
missing i (received ∷ chunks) =
    let rest = missing (i + 1) chunks in if received then rest else (some i, rest.1 + 1)

-- How many bytes are asked for, for chunk `i`: in the `unsigned` that it is stored to.
unfoldable pub bytes_of_chunk : (i : ℕ) → LogData → ℕ
bytes_of_chunk i d =
    if (i + 1) == length d.chunks_received
    then (length d.bytes + 1 + 2 ^ 32 - length d.chunks_received * chunk_size % 2 ^ 32) % 2 ^ 32
    else chunk_size

unfoldable pub write_log_data_to_disk : LogFiles → LogFiles
write_log_data_to_disk l = record l {
  written = l.written ++ (l.log_data.file_path, l.log_data.bytes) ∷ [];
}

-- A new percentage, if it is another one, is reported.
unfoldable pub report_progress : (percent : ℕ) → LogFiles → LogFiles
report_progress percent l =
    if percent == l.log_data.last_progress_percentage
    then l
    else report_download l.log_data.callback log_progress percent
        (record l { log_data = record (l.log_data) { last_progress_percentage = percent } })

module _ (p : Percentages) (e : Surroundings) where
  unfoldable pub ask_again : (i num_missing : ℕ) → LogFiles → LogFiles
  ask_again i num_missing l =
      let initially =
        if l.log_data.chunks_to_rerequest_initially == 0
        then num_missing
        else l.log_data.chunks_to_rerequest_initially in
      let counted = record l {
        log_data = record (l.log_data) { chunks_to_rerequest_initially = initially };
      } in
      request_log_data e l.log_data.id (i * chunk_size % 2 ^ 32) (bytes_of_chunk i l.log_data)
        (elim l.log_data.callback [
          | none ↦ counted
          | some _ ↦ report_progress (p.of_missing initially num_missing) counted
        ])

  unfoldable pub finish : LogFiles → LogFiles
  finish l =
      let stopped = record l { parent = unregister_timeout_handler l.log_data.cookie l.parent } in
      report_download l.log_data.callback log_success 100 (write_log_data_to_disk stopped)

  unfoldable pub check_missing_log_data : LogFiles → LogFiles
  check_missing_log_data l =
      if l.log_data.rerequesting
      then elim (missing 0 l.log_data.chunks_received).0 [
        | none ↦ finish l
        | some i ↦ ask_again i (missing 0 l.log_data.chunks_received).1 l
      ]
      else l

  -- The part of `process_log_data` for a message that is not ignored.
  unfoldable pub take_data : LogDataMessage → LogFiles → LogFiles
  take_data message l =
      let d = l.log_data in
      let chunk = message.ofs / chunk_size in
      let stored = record l {
        log_data = record d {
          bytes = copy message.ofs message.count message.payload d.bytes;
          chunks_received = set d.chunks_received chunk true;
          bytes_received = (d.bytes_received + message.count) % 2 ^ 32;
        };
      } in
      let reported =
        if d.rerequesting
        then stored
        else report_progress (p.of_offset message.ofs (length d.bytes)) stored in
      check_missing_log_data (record reported {
        log_data = record (reported.log_data) {
          rerequesting = if (chunk + 1) == length d.chunks_received then true else d.rerequesting;
        };
      })

  unfoldable pub process_log_data : LogDataMessage → LogFiles → Option LogFiles
  process_log_data message l =
      let refreshed = record l { parent = refresh_timeout_handler e l.log_data.cookie l.parent } in
      if ltb chunk_size message.count
      then some refreshed
      else if leb (length l.log_data.chunks_received) (message.ofs / chunk_size)
      then some refreshed
      else if message.count == 0 || leb (message.ofs + message.count) (length l.log_data.bytes)
      then some (take_data message refreshed)
      else none

  unfoldable pub data_timeout : LogFiles → LogFiles
  data_timeout l = check_missing_log_data (start_data_timeout e l)
