-- ===== src/LogFiles/Content.antt =====
-- What one message or one data timeout of plugins/log_files/log_files_impl.cpp does to the bytes.
use stealth_drone_purdue.Base.{
  ℕ, ◌+◌, ◌/◌, ◌%◌, ◌^◌, ◌≡◌, refl, sym, ◌∙◌, ap, subst, Holds, inl, inr, Bool, true, false, List,
  [], ◌∷◌, ◌++◌, some, arith, ltb, leb, ◌==◌, ◌||◌, if◌then◌else◌, length, get_or, set, length-set,
  append-nil, Option-cases, Bool-cases, if_both,
}
use stealth_drone_purdue.SystemImpl.{Surroundings, refresh_timeout_handler}
use stealth_drone_purdue.LogFiles.{
  LogFiles, LogData, Percentages, LogDataMessage, chunk_size, copy, missing, finish, ask_again,
  report_progress, report_download, user_call, send, request_log_data, write_log_data_to_disk,
  check_missing_log_data, take_data, process_log_data, data_timeout, start_data_timeout,
}
use stealth_drone_purdue.LogFiles.Copies.{
  IsCopy, IsChunk, length-copy, complete_lem, copy-IsCopy, chunk_inside, IsSame, Goes,
}

module _ (p : Percentages) (e : Surroundings) where
  report_progress-IsSame : (percent : ℕ) (l : LogFiles) → IsSame l (report_progress percent l)
  unfolding report_progress report_download user_call
  report_progress-IsSame percent l = ground arith

  ask_again-IsSame : (i n : ℕ) (l : LogFiles) → IsSame l (ask_again p e i n l)
  unfolding ask_again request_log_data send report_progress report_download user_call
  ask_again-IsSame i n l = ground arith

  finish_lem :
      (l : LogFiles)
      → ((finish p e l).log_data ≡ l.log_data)
        × ((finish p e l).written ≡ l.written ++ (l.log_data.file_path, l.log_data.bytes) ∷ [])
  unfolding finish report_download user_call write_log_data_to_disk
  finish_lem l = ground arith

  Goes-same :
      (file : List ℕ) (l l' : LogFiles) → IsCopy file l.log_data → IsSame l l' → Goes file l l'
  Goes-same file l l' (a, b, h) (bytes, chunks, path, written) = (
    (
      ap length bytes ∙ a,
      ap length chunks ∙ b,
      λ j k r.
          cc (
            bytes,
            h j k (ap (λ (x : List Bool). get_or x (j / chunk_size) false) (sym chunks) ∙ r),
          ),
    ),
    path,
    (0, written ∙ sym (append-nil l.written)),
  )

  check_missing-Goes :
      (file : List ℕ) (l : LogFiles)
      → IsCopy file l.log_data
      → Goes file l (check_missing_log_data p e l)
  unfolding check_missing_log_data
  check_missing-Goes file l c = elim (Bool-cases l.log_data.rerequesting) [
    | inl r ↦ elim (Option-cases (missing 0 l.log_data.chunks_received).0) [
      | inl m ↦
          let (same, wrote) = finish_lem l in
          let whole = complete_lem file l.log_data c m in
          let is : check_missing_log_data p e l ≡ finish p e l = ground arith in
          subst (Goes file l) (sym is) (
            subst (IsCopy file) (sym same) c,
            ap (λ (d : LogData). d.file_path) same,
            (1, wrote ∙ ap (λ (b : List ℕ). l.written ++ (l.log_data.file_path, b) ∷ []) whole),
          )
      | inr (i, m) ↦
          let n = (missing 0 l.log_data.chunks_received).1 in
          let is : check_missing_log_data p e l ≡ ask_again p e i n l = ground arith in
          subst (Goes file l) (sym is)
            (Goes-same file l (ask_again p e i n l) c (ask_again-IsSame i n l))
    ]
    | inr r ↦
        let is : check_missing_log_data p e l ≡ l = ground arith in
        subst (Goes file l) (sym is) (Goes-same file l l c (refl, refl, refl, refl))
  ]

  take_data-Goes :
      (file : List ℕ) (m : LogDataMessage) (l : LogFiles)
      → IsChunk file m
      → IsCopy file l.log_data
      → Goes file l (take_data p e m l)
  unfolding take_data
  take_data-Goes file m l chunk c =
      let d = l.log_data in
      let stored = record l {
        log_data = record d {
          bytes = copy m.ofs m.count m.payload d.bytes;
          chunks_received = set d.chunks_received (m.ofs / chunk_size) true;
          bytes_received = (d.bytes_received + m.count) % 2 ^ 32;
        };
      } in
      let percent = p.of_offset m.ofs (length d.bytes) in
      let reported = if d.rerequesting then stored else report_progress percent stored in
      let same : IsSame stored reported =
        if_both {A = LogFiles} (IsSame stored) d.rerequesting (refl, refl, refl, refl)
          (report_progress-IsSame percent stored) in
      let stored_copy : IsCopy file stored.log_data = (
        length-copy m.ofs m.count m.payload d.bytes ∙ c.0,
        length-set d.chunks_received (m.ofs / chunk_size) true ∙ c.1,
        copy-IsCopy file m d chunk c,
      ) in
      let reported_goes = Goes-same file stored reported stored_copy same in
      let final = record reported {
        log_data = record (reported.log_data) {
          rerequesting =
              if (m.ofs / chunk_size + 1) == length d.chunks_received then true else d.rerequesting;
        };
      } in
      let (copied, path, (n, wrote)) = check_missing-Goes file final reported_goes.0 in
      (copied, path ∙ same.2, (n, wrote ∙ cc (same.2, same.3)))

  pub process-Goes :
      (file : List ℕ) (m : LogDataMessage) (l : LogFiles)
      → IsChunk file m
      → IsCopy file l.log_data
      → Holds (Goes file l) (process_log_data p e m l)
  unfolding process_log_data
  process-Goes file m l chunk c =
      let refreshed = record l { parent = refresh_timeout_handler e l.log_data.cookie l.parent } in
      let small : ltb chunk_size m.count ≡ false = ground (arith, chunk.1) in
      let inside : leb (length l.log_data.chunks_received) (m.ofs / chunk_size) ≡ false =
        chunk_inside file m l.log_data chunk c in
      let fits : (m.count == 0 || leb (m.ofs + m.count) (length l.log_data.bytes)) ≡ true =
        ground (arith, chunk.3, c.0) in
      let is : process_log_data p e m l ≡ some (take_data p e m refreshed) =
        rw (small, inside, fits) refl in
      subst (Holds (Goes file l)) (sym is) (take_data-Goes file m refreshed chunk c)

  pub data_timeout-Goes :
      (file : List ℕ) (l : LogFiles) → IsCopy file l.log_data → Goes file l (data_timeout p e l)
  unfolding data_timeout start_data_timeout
  data_timeout-Goes file l c = check_missing-Goes file (start_data_timeout e l) c
