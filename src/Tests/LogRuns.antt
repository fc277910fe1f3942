-- ===== src/Tests/LogRuns.antt =====
-- The theorems on plugins/log_files, applied to a list of two files and a file of three bytes.
use stealth_drone_purdue.Base.{
  ℕ, ◌+◌, ◌-◌, ◌^◌, ◌%◌, ◌≡◌, ◌≤◌, ◌<◌, refl, suc, ap, get_or, inr, replicate, true, false, List,
  [], ◌∷◌, ◌++◌, none, some, arith, ◌==◌, if◌then◌else◌, length, Holds, ◌↔◌, ◌/◌,
}
use stealth_drone_purdue.Mavlink.{
  LogEntry, log_success, log_too_many_retries, log_entries, log_download,
}
use stealth_drone_purdue.SystemImpl.{Surroundings}
use stealth_drone_purdue.LogFiles.{
  LogFiles, LogData, LogDataMessage, Percentages, chunk_size, num_chunks, bytes_of_chunk, missing,
  process_log_data, list_timeout, download_log_file_async,
}
use stealth_drone_purdue.LogFiles.Copies.{IsChunk, IsCopy}
use stealth_drone_purdue.LogFiles.Written.{
  data_comes, data_times_out, Arrival, arrive_all, download_writes,
}
use stealth_drone_purdue.LogFiles.Chunks.{
  bytes_of_chunk_lem, overrun_iff, finished_again, left, HasChunks,
}
use stealth_drone_purdue.LogFiles.Listing.{
  list_timeout_complete, list_gives_up, time_out_all, tabulate, told, repeated, missing_requests,
}
use stealth_drone_purdue.Tests.Data.{system, up}

abbrev entry : ℕ → LogEntry
entry id = record { id = id; time_utc = 1000; size_bytes = 3 }

abbrev three_bytes : LogData
three_bytes = record {
  id = 0;
  bytes = 0 ∷ 0 ∷ 0 ∷ [];
  chunks_received = false ∷ [];
  rerequesting = false;
  cookie = 64;
  file_path = b'f' ∷ [];
  callback = some 7;
  last_progress_percentage = 0;
  chunks_to_rerequest_initially = 0;
  bytes_received = 0;
}

abbrev two_files : LogFiles
two_files = record {
  entries = record {
    entry_map = (0, entry 0) ∷ (1, entry 1) ∷ [];
    callback = some 5;
    max_list_id = 2;
    retries = 0;
    cookie = 32;
  };
  log_data = three_bytes;
  written = [];
  parent = system;
}

-- The entry 1 has not come.
abbrev one_missing : LogFiles
one_missing = record two_files {
  entries = record (two_files.entries) { entry_map = (0, entry 0) ∷ []; retries = 20 };
}

abbrev halves : Percentages
halves = record { of_offset = λ ofs size. 45; of_missing = λ initially num_missing. 95 }

abbrev chunk : LogDataMessage
chunk = record { ofs = 0; count = 3; payload = 7 ∷ 8 ∷ 9 ∷ [] }

abbrev file : List ℕ
file = 7 ∷ 8 ∷ 9 ∷ []

chunk-IsChunk : IsChunk file chunk
chunk-IsChunk = (
  refl,
  omega arith,
  omega arith,
  omega arith,
  inr refl,
  λ k h. ap (λ (i : ℕ). get_or file i 0) (omega arith),
)

-- Nothing was downloaded before.
abbrev new_plugin : LogFiles
new_plugin = record two_files {
  log_data = record three_bytes {
    bytes = [];
    chunks_received = [];
    file_path = [];
    callback = none;
  };
}

abbrev arrivals : List (Surroundings × Arrival)
arrivals = (up, data_times_out) ∷ (up, data_comes chunk) ∷ (up, data_comes chunk) ∷ []

download_writes_example :
    Holds
      (λ l'. IsCopy file l'.log_data × (n : ℕ) × (l'.written ≡ [] ++ replicate n (b'f' ∷ [], file)))
      (arrive_all halves arrivals (download_log_file_async up 1 (b'f' ∷ []) (some 7) new_plugin))
download_writes_example =
    download_writes halves up 1 (b'f' ∷ []) (some 7) (entry 1) file arrivals new_plugin refl refl
      refl (tt, (chunk-IsChunk, (chunk-IsChunk, tt)))

abbrev entries_of : ℕ → LogEntry
entries_of k = entry k

list_timeout_complete_example :
    ((list_timeout up two_files).parent.user_calls
      ≡ two_files.parent.user_calls
        ++ told (some 5) (λ c. log_entries c log_success (tabulate 2 0 entries_of)))
    × ((list_timeout up two_files).parent.outbox ≡ two_files.parent.outbox)
    × ((list_timeout up two_files).entries ≡ two_files.entries)
list_timeout_complete_example =
    list_timeout_complete up entries_of two_files (λ h. ground arith) refl (λ k h. ground arith)

list_gives_up_example :
    ((list_timeout up (time_out_all (up ∷ []) one_missing)).parent.outbox
      ≡ one_missing.parent.outbox ++ repeated 1 (missing_requests 1 2 0 ((0, entry 0) ∷ [])))
    × ((list_timeout up (time_out_all (up ∷ []) one_missing)).parent.user_calls
        ≡ one_missing.parent.user_calls
          ++ told (some 5) (λ c. log_entries c log_too_many_retries []))
list_gives_up_example =
    list_gives_up (up ∷ []) up one_missing (refl, tt) (λ h. ground arith) (λ h. ground arith) refl

three_bytes-HasChunks : HasChunks three_bytes
unfolding num_chunks
three_bytes-HasChunks = refl

bytes_of_chunk_lem_example : bytes_of_chunk 0 three_bytes ≡ (
    if (0 + 1) == length three_bytes.chunks_received
    then (left 0 (length three_bytes.bytes) + 2 ^ 32 - 89) % 2 ^ 32
    else left 0 (length three_bytes.bytes))
bytes_of_chunk_lem_example =
    bytes_of_chunk_lem 0 three_bytes three_bytes-HasChunks (omega arith) (omega arith)

-- Four bytes of a file of three.
abbrev long_chunk : LogDataMessage
long_chunk = record { ofs = 0; count = 4; payload = 7 ∷ 8 ∷ 9 ∷ 9 ∷ [] }

overrun_iff_example : (process_log_data halves up long_chunk two_files ≡ none) ↔ (
    (long_chunk.ofs / chunk_size + 1 ≡ length two_files.log_data.chunks_received)
    × (left (long_chunk.ofs / chunk_size) (length two_files.log_data.bytes) < long_chunk.count)
    × (long_chunk.count ≤ chunk_size))
overrun_iff_example = overrun_iff halves up long_chunk two_files three_bytes-HasChunks refl

-- The only chunk has come.
abbrev done : LogFiles
done = record two_files {
  log_data = record three_bytes { chunks_received = true ∷ []; rerequesting = true };
}

done-missing : (missing 0 done.log_data.chunks_received).0 ≡ none
unfolding missing
done-missing = refl

finished_again_example :
    (l : LogFiles) × (process_log_data halves up chunk done ≡ some l)
    × (l.parent.user_calls ≡ done.parent.user_calls ++ log_download 7 log_success 100 ∷ [])
    × (length l.written ≡ suc (length done.written))
finished_again_example =
    finished_again halves up chunk done 7 (omega arith) (omega arith) (omega arith) refl
      done-missing refl
