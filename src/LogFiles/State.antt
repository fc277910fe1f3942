-- ===== src/LogFiles/State.antt =====
-- The state of plugins/log_files/log_files_impl.h. The time at which a download started is only
-- logged, and left out.
use stealth_drone_purdue.Base.{
  ℕ, zero, suc, ◌+◌, Bool, List, [], ◌∷◌, Option, none, some, get_or, set,
}
use stealth_drone_purdue.Mavlink.{LogEntry, LogResult, Name, Message, UserCall, log_download}
use stealth_drone_purdue.SystemImpl.{SystemImpl, Surroundings, send_message, call_user_callback}

-- `_entries`.
pub record Entries : Type 0 where
  pub entry_map : List (ℕ × LogEntry)
  pub callback : Option ℕ
  pub max_list_id : ℕ
  pub retries : ℕ
  pub cookie : ℕ

-- `_data`.
pub record LogData : Type 0 where
  pub id : ℕ
  pub bytes : List ℕ
  pub chunks_received : List Bool
  pub rerequesting : Bool
  pub cookie : ℕ
  pub file_path : Name
  pub callback : Option ℕ
  pub last_progress_percentage : ℕ
  pub chunks_to_rerequest_initially : ℕ
  pub bytes_received : ℕ

-- `written` has the files written to disk, oldest first.
pub record LogFiles : Type 0 where
  pub entries : Entries
  pub log_data : LogData
  pub written : List (Name × List ℕ)
  pub parent : SystemImpl

-- The percentages that are computed in `float`: `ofs` of `size` bytes in the first 90 percent, and
-- `missing` of `initially` chunks in the last 10.
pub record Percentages : Type 0 where
  pub of_offset : (ofs size : ℕ) → ℕ
  pub of_missing : (initially missing : ℕ) → ℕ

abbrev pub chunk_size : ℕ
chunk_size = 90

-- `MAV_COMP_ID_AUTOPILOT1`.
abbrev pub comp_id_autopilot1 : ℕ
comp_id_autopilot1 = 1

unfoldable pub send : Surroundings → Message → LogFiles → LogFiles
send e message l = record l { parent = send_message e message l.parent }

unfoldable pub user_call : UserCall → LogFiles → LogFiles
user_call call l = record l { parent = call_user_callback call l.parent }

-- A call of the download's callback, if there is one.
unfoldable pub report_download : Option ℕ → LogResult → (percent : ℕ) → LogFiles → LogFiles
report_download none result percent l = l
report_download (some callback) result percent l =
    user_call (log_download callback result percent) l

-- `std::vector::resize`: the front is kept, and the rest is `fill`.
abbrev pub resize : {A : Type 0} → A → ℕ → List A → List A
resize fill zero xs = []
resize fill (suc n) [] = fill ∷ resize fill n []
resize fill (suc n) (x ∷ xs) = x ∷ resize fill n xs

-- `memcpy(&bytes[ofs], payload, count)` within the bounds of both arrays.
abbrev pub copy : (ofs count : ℕ) → (payload bytes : List ℕ) → List ℕ
copy ofs zero payload bytes = bytes
copy ofs (suc n) payload bytes = set (copy ofs n payload bytes) (ofs + n) (get_or payload n 0)
