-- ===== src/LogFiles/Written.antt =====
-- A download of plugins/log_files/log_files_impl.cpp from its request on, and what it writes to disk.
use stealth_drone_purdue.Base.{
  ℕ, zero, suc, ◌+◌, ◌≡◌, refl, sym, ◌∙◌, Holds, ◌>>=◌, >>=-Holds, Holds-map, false, List, [], ◌∷◌,
  ◌++◌, Option, some, arith, length, get_or, replicate, replicate-add, All, append-nil,
  append_assoc, ap, ◌/◌,
}
use stealth_drone_purdue.StdMap.{find}
use stealth_drone_purdue.Mavlink.{LogEntry, Name}
use stealth_drone_purdue.SystemImpl.{Surroundings}
use stealth_drone_purdue.LogFiles.{
  LogFiles, Percentages, LogDataMessage, chunk_size, num_chunks, send, request_log_data, user_call,
  report_download, start_data_timeout, begin_download, download_log_file_async, process_log_data,
  data_timeout, resize,
}
use stealth_drone_purdue.LogFiles.Copies.{IsCopy, IsChunk, Goes}
use stealth_drone_purdue.LogFiles.Content.{process-Goes, data_timeout-Goes}

-- What happens during a download.
pub data Arrival : Type 0 where
  data_comes : LogDataMessage → Arrival
  data_times_out : Arrival

module _ (p : Percentages) where
  unfoldable pub arrive : Surroundings → Arrival → LogFiles → Option LogFiles
  arrive e (data_comes m) l = process_log_data p e m l
  arrive e data_times_out l = some (data_timeout p e l)

  unfoldable pub arrive_all : List (Surroundings × Arrival) → LogFiles → Option LogFiles
  arrive_all [] l = some l
  arrive_all ((e, a) ∷ rest) l = arrive e a l >>= arrive_all rest

  -- What comes in are chunks of the file.
  abbrev pub IsOf : List ℕ → Surroundings × Arrival → Type 0
  IsOf file (e, data_comes m) = IsChunk file m
  IsOf file (e, data_times_out) = Unit

  arrive-Goes :
      (file : List ℕ) (e : Surroundings) (a : Arrival) (l : LogFiles)
      → IsOf file (e, a)
      → IsCopy file l.log_data
      → Holds (Goes file l) (arrive e a l)
  unfolding arrive
  arrive-Goes file e (data_comes m) l chunk c = process-Goes p e file m l chunk c
  arrive-Goes file e data_times_out l chunk c = data_timeout-Goes p e file l c

  Goes-trans :
      (file : List ℕ) (l l' l'' : LogFiles) → Goes file l l' → Goes file l' l'' → Goes file l l''
  Goes-trans file l l' l'' (c, path, (n, wrote)) (c', path', (k, wrote')) = (
    c',
    path' ∙ path,
    (
      n + k,
      wrote'
          ∙ cc (
            wrote,
            path,
            append_assoc l.written (replicate n (l.log_data.file_path, file))
                (replicate k (l.log_data.file_path, file)),
            replicate-add {A = Name × List ℕ} n k (l.log_data.file_path, file),
          ),
    ),
  )

  arrive_all-Goes :
      (file : List ℕ) (events : List (Surroundings × Arrival)) (l : LogFiles)
      → All (IsOf file) events
      → IsCopy file l.log_data
      → Holds (Goes file l) (arrive_all events l)
  unfolding arrive_all
  arrive_all-Goes file [] l chunks c = (c, refl, (0, sym (append-nil l.written)))
  arrive_all-Goes file ((e, a) ∷ rest) l chunks c =
      >>=-Holds (Goes file l) (Goes file l) (arrive e a l) (arrive_all rest)
        (arrive-Goes file e a l chunks.0 c)
        (λ l' goes.
          Holds-map (Goes file l') (Goes file l) (arrive_all rest l')
            (λ l'' goes'. Goes-trans file l l' l'' goes goes')
            (arrive_all-Goes file rest l' chunks.1 goes.0))

length-resize : {A : Type 0} (fill : A) (n : ℕ) (xs : List A) → length (resize fill n xs) ≡ n
length-resize fill zero xs = refl
length-resize fill (suc n) [] = ap suc (length-resize fill n [])
length-resize fill (suc n) (x ∷ xs) = ap suc (length-resize fill n xs)

get_or-resize : (n j : ℕ) → get_or (resize false n []) j false ≡ false
get_or-resize zero j = ground arith
get_or-resize (suc n) zero = refl
get_or-resize (suc n) (suc j) = get_or-resize n j

-- What `_data` is when a download has begun.
begin_lem :
    (e : Surroundings) (id : ℕ) (path : Name) (callback : Option ℕ) (entry : LogEntry)
    (l : LogFiles)
    → find id l.entries.entry_map ≡ some entry
    → ((download_log_file_async e id path callback l).log_data.bytes
        ≡ resize 0 entry.size_bytes l.log_data.bytes)
      × ((download_log_file_async e id path callback l).log_data.chunks_received
          ≡ resize false (num_chunks entry.size_bytes) l.log_data.chunks_received)
      × ((download_log_file_async e id path callback l).log_data.file_path ≡ path)
      × ((download_log_file_async e id path callback l).written ≡ l.written)
unfolding download_log_file_async begin_download request_log_data send report_download user_call
    start_data_timeout
begin_lem e id path callback entry l found = ground arith

-- At first, no chunk has been received.
begin-IsCopy :
    (file : List ℕ) (l l' : LogFiles)
    → l.log_data.chunks_received ≡ []
    → l'.log_data.bytes ≡ resize 0 (length file) l.log_data.bytes
    → l'.log_data.chunks_received
      ≡ resize false (num_chunks (length file)) l.log_data.chunks_received
    → IsCopy file l'.log_data
begin-IsCopy file l l' first bytes chunks = (
  ap length bytes ∙ length-resize 0 (length file) l.log_data.bytes,
  ap length chunks ∙ length-resize false (num_chunks (length file)) l.log_data.chunks_received,
  λ j k received.
      let none_yet : get_or l'.log_data.chunks_received (j / chunk_size) false ≡ false =
        rw (chunks, first) (get_or-resize (num_chunks (length file)) (j / chunk_size)) in
      cc,
)

-- A first download, from its request on: `chunks_received` is empty, as in a new plugin, and the
-- autopilot has given the log file's size. Then chunks of the file may come in in any order, twice,
-- or not at all, with data timeouts in between, and each message may find other surroundings: no
-- byte is written outside of the array, the chunks received hold the bytes of the file, and
-- whatever is written to disk is the whole file, under the path that the user gave.
pub download_writes :
    (p : Percentages) (e : Surroundings) (id : ℕ) (path : Name) (callback : Option ℕ)
    (entry : LogEntry) (file : List ℕ) (events : List (Surroundings × Arrival)) (l : LogFiles)
    → find id l.entries.entry_map ≡ some entry
    → entry.size_bytes ≡ length file
    → l.log_data.chunks_received ≡ []
    → All (IsOf p file) events
    → Holds
        (λ l'.
          IsCopy file l'.log_data × (n : ℕ) × (l'.written ≡ l.written ++ replicate n (path, file)))
        (arrive_all p events (download_log_file_async e id path callback l))
download_writes p e id path callback entry file events l found size first chunks =
    let begun = download_log_file_async e id path callback l in
    let (bytes, received, path', clean) = begin_lem e id path callback entry l found in
    let copied = begin-IsCopy file l begun first (bytes ∙ rw size refl) (received ∙ rw size refl) in
    Holds-map (Goes file begun)
      (λ l'.
        IsCopy file l'.log_data × (n : ℕ) × (l'.written ≡ l.written ++ replicate n (path, file)))
      (arrive_all p events begun) (λ l' (c, same, (n, wrote)). (c, n, wrote ∙ cc (path', clean)))
      (arrive_all-Goes p file events begun chunks copied)
