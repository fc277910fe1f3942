-- ===== src/LogFiles/Chunks.antt =====
-- The bounds of the chunks in plugins/log_files/log_files_impl.cpp: which bytes are asked for, which
-- are written, and what comes after the last chunk.
use stealth_drone_purdue.Base.{
  ℕ, zero, suc, ◌+◌, ◌-◌, ◌*◌, ◌/◌, ◌%◌, ◌^◌, ◌≤◌, ◌<◌, ◌≡◌, refl, ◌↔◌, Bool, true, List, [], ◌∷◌,
  ◌++◌, none, some, arith, leb, ◌==◌, if◌then◌else◌, length, set, length-append,
}
use stealth_drone_purdue.Mavlink.{log_success, log_download}
use stealth_drone_purdue.SystemImpl.{
  Surroundings, refresh_timeout_handler, unregister_timeout_handler, call_user_callback,
}
use stealth_drone_purdue.LogFiles.{
  LogFiles, LogData, Percentages, LogDataMessage, chunk_size, num_chunks, bytes_of_chunk, missing,
  process_log_data, take_data, check_missing_log_data, finish, report_download, user_call,
  write_log_data_to_disk, copy,
}

-- The chunks are as many as the file needs.
abbrev pub HasChunks : LogData → Type 0
HasChunks d = length d.chunks_received ≡ num_chunks (length d.bytes)

-- The bytes that are left from chunk `i` on, a whole chunk at most.
abbrev pub left : (i size : ℕ) → ℕ
left i size = if leb ((i + 1) * chunk_size) size then chunk_size else size - i * chunk_size

-- A chunk that is missing is asked for again by as many bytes as are left, a whole chunk, if it is not
-- the last. For the last, the number is one byte too small by 89: it is 1 where a whole chunk is
-- missing, and it wraps around below 2 ^ 32 where fewer than 89 bytes are, and is 0 for 89.
pub bytes_of_chunk_lem :
    (i : ℕ) (d : LogData)
    → HasChunks d
    → i < length d.chunks_received
    → length d.bytes < 2 ^ 32
    → bytes_of_chunk i d ≡ (
        if (i + 1) == length d.chunks_received
        then (left i (length d.bytes) + 2 ^ 32 - 89) % 2 ^ 32
        else left i (length d.bytes))
unfolding bytes_of_chunk num_chunks
bytes_of_chunk_lem i d c l small = ground arith

module _ (p : Percentages) (e : Surroundings) where
  -- The chunks being as many as the file needs, a message with the offset of a chunk makes `memcpy`
  -- write outside of the array in one case only: its chunk is the last one, and it has more bytes
  -- than are left of the file there, though not more than 90.
  pub overrun_iff :
      (m : LogDataMessage) (l : LogFiles)
      → HasChunks l.log_data
      → m.ofs % chunk_size ≡ 0
      → (process_log_data p e m l ≡ none) ↔ (
          (m.ofs / chunk_size + 1 ≡ length l.log_data.chunks_received)
          × (left (m.ofs / chunk_size) (length l.log_data.bytes) < m.count)
          × (m.count ≤ chunk_size))
  unfolding process_log_data num_chunks
  overrun_iff m l chunks at = ground arith

  -- Chunks that have all come in stay so.
  missing-set :
      (i k : ℕ) (chunks : List Bool)
      → (missing i chunks).0 ≡ none
      → (missing i (set chunks k true)).0 ≡ none
  unfolding missing
  missing-set i k [] h = refl
  missing-set i zero (c ∷ chunks) h = ground arith
  missing-set i (suc k) (c ∷ chunks) h = ground (arith, missing-set (i + 1) k chunks)

  finish_calls :
      (l : LogFiles) (callback : ℕ)
      → l.log_data.callback ≡ some callback
      → ((finish p e l).parent.user_calls
          ≡ l.parent.user_calls ++ log_download callback log_success 100 ∷ [])
        × (length (finish p e l).written ≡ suc (length l.written))
  unfolding finish report_download user_call write_log_data_to_disk call_user_callback
      unregister_timeout_handler
  finish_calls l callback c =
      ground (arith, length-append l.written ((l.log_data.file_path, l.log_data.bytes) ∷ []))

  -- A chunk that comes in again after the last one, while nothing new has been asked for, ends the
  -- download once more: the file is written again, and the callback is told of the success again.
  pub finished_again :
      (m : LogDataMessage) (l : LogFiles) (callback : ℕ)
      → m.count ≤ chunk_size
      → m.ofs / chunk_size < length l.log_data.chunks_received
      → m.ofs + m.count ≤ length l.log_data.bytes
      → l.log_data.rerequesting ≡ true
      → (missing 0 l.log_data.chunks_received).0 ≡ none
      → l.log_data.callback ≡ some callback
      → (l' : LogFiles) × (process_log_data p e m l ≡ some l')
        × (l'.parent.user_calls ≡ l.parent.user_calls ++ log_download callback log_success 100 ∷ [])
        × (length l'.written ≡ suc (length l.written))
  unfolding process_log_data take_data check_missing_log_data refresh_timeout_handler
  finished_again m l callback small inside fits re all c =
      let d = l.log_data in
      let final = record l {
        log_data = record d {
          bytes = copy m.ofs m.count m.payload d.bytes;
          chunks_received = set d.chunks_received (m.ofs / chunk_size) true;
          bytes_received = (d.bytes_received + m.count) % 2 ^ 32;
          rerequesting = true;
        };
        parent = refresh_timeout_handler e d.cookie l.parent;
      } in
      let (calls, wrote) = finish_calls final callback c in
      (
        finish p e final,
        ground (arith, missing-set 0 (m.ofs / chunk_size) d.chunks_received all),
        calls,
        wrote,
      )
