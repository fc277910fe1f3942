-- ===== src/LogFiles/Listing.antt =====
-- How the list of log files ends, in plugins/log_files/log_files_impl.cpp.
use stealth_drone_purdue.Base.{
  ℕ, zero, suc, ◌+◌, ◌%◌, ◌^◌, ◌≤◌, ◌<◌, ◌≡◌, refl, sym, ◌∙◌, subst, ◌≢◌, true, List, [], ◌∷◌, ◌++◌,
  Option, none, some, arith, length, append-nil, append_assoc, Option-cases, inl, inr, ap, All,
}
use stealth_drone_purdue.StdMap.{find}
use stealth_drone_purdue.Mavlink.{
  LogEntry, log_success, log_too_many_retries, Message, log_request_list, UserCall, log_entries,
}
use stealth_drone_purdue.SystemImpl.{
  Surroundings, send_message, register_timeout_handler, call_user_callback,
}
use stealth_drone_purdue.LogFiles.{
  LogFiles, comp_id_autopilot1, send, user_call, request_list_entry, start_list_timeout, collect,
  request_missing, report_entries, list_complete, list_incomplete, list_timeout,
}
use stealth_drone_purdue.LogFiles.State.{Entries}

-- `f i`, `f (i + 1)` and so on, `n` values.
abbrev pub tabulate : (n i : ℕ) → (ℕ → LogEntry) → List LogEntry
tabulate zero i f = []
tabulate (suc n) i f = f i ∷ tabulate n (i + 1) f

abbrev pub told : Option ℕ → (ℕ → UserCall) → List UserCall
told none call = []
told (some callback) call = call callback ∷ []

collect_lem :
    (n i : ℕ) (f : ℕ → LogEntry) (m : List (ℕ × LogEntry))
    → ((k : ℕ) → i ≤ k → k < i + n → find k m ≡ some (f k))
    → collect n i m ≡ (tabulate n i f, m)
unfolding collect
collect_lem zero i f m h = refl
collect_lem (suc n) i f m h = ground (
  arith,
  h i (omega arith) (omega arith),
  collect_lem n (i + 1) f m (λ k lo hi. h k (omega arith) (omega arith)),
)

report_entries_lem :
    (callback : Option ℕ) (l : LogFiles) (list : List LogEntry)
    → (report_entries callback log_success list l).parent.user_calls
      ≡ l.parent.user_calls ++ told callback (λ c. log_entries c log_success list)
unfolding report_entries user_call call_user_callback
report_entries_lem none l list = sym (append-nil l.parent.user_calls)
report_entries_lem (some c) l list = refl

-- Once the list has as many entries as the autopilot has log files, and they are numbered from 0,
-- the next timeout reports them, in the order of their numbers, and keeps the list.
pub list_timeout_complete :
    (e : Surroundings) (f : ℕ → LogEntry) (l : LogFiles)
    → length l.entries.entry_map ≢ 0
    → length l.entries.entry_map ≡ l.entries.max_list_id
    → ((k : ℕ) → k < l.entries.max_list_id → find k l.entries.entry_map ≡ some (f k))
    → ((list_timeout e l).parent.user_calls
        ≡ l.parent.user_calls
          ++ told l.entries.callback
              (λ c. log_entries c log_success (tabulate l.entries.max_list_id 0 f)))
      × ((list_timeout e l).parent.outbox ≡ l.parent.outbox)
      × ((list_timeout e l).entries ≡ l.entries)
unfolding list_timeout list_complete report_entries user_call call_user_callback
list_timeout_complete e f l some_entries all h =
    let collected =
      collect_lem l.entries.max_list_id 0 f l.entries.entry_map (λ k lo hi. h k (omega arith)) in
    ground (arith, collected, append-nil l.parent.user_calls)

-- The requests for the numbers without an entry, `n` numbers from `i` on.
abbrev pub missing_requests : (system_id n i : ℕ) → List (ℕ × LogEntry) → List Message
missing_requests id zero i m = []
missing_requests id (suc n) i m =
    (elim (find i m) [
      | none ↦ log_request_list id comp_id_autopilot1 (i % 2 ^ 16) (i % 2 ^ 16) ∷ []
      | some _ ↦ []
    ])
    ++ missing_requests id n (i + 1) m

-- The requests were sent, and nothing else was done.
abbrev HasAsked : LogFiles → List Message → LogFiles → Type 0
HasAsked l messages l' =
    (l'.parent.outbox ≡ l.parent.outbox ++ messages)
    × (l'.parent.user_calls ≡ l.parent.user_calls)
    × (l'.parent.system_id ≡ l.parent.system_id)
    × (l'.entries ≡ l.entries)

asked_none :
    (e : Surroundings) (n i : ℕ) (l : LogFiles)
    → e.connected ≡ true
    → find i l.entries.entry_map ≡ none
    → request_missing e (suc n) i l
      ≡ request_missing e n (i + 1) (record l {
        parent = record (l.parent) {
          outbox =
              l.parent.outbox
              ++ log_request_list l.parent.system_id comp_id_autopilot1 (i % 2 ^ 16) (i % 2 ^ 16)
                ∷ [];
        };
      })
unfolding request_missing request_list_entry send send_message
asked_none e n i l on f = ground arith

asked_some :
    (e : Surroundings) (n i : ℕ) (l : LogFiles) (entry : LogEntry)
    → find i l.entries.entry_map ≡ some entry
    → request_missing e (suc n) i l ≡ request_missing e n (i + 1) l
unfolding request_missing
asked_some e n i l entry f = ground arith

request_missing_lem :
    (e : Surroundings) (n i : ℕ) (l : LogFiles)
    → e.connected ≡ true
    → HasAsked l
        (missing_requests l.parent.system_id n i l.entries.entry_map)
        (request_missing e n i l)
unfolding request_missing
request_missing_lem e zero i l on = (sym (append-nil l.parent.outbox), refl, refl, refl)
request_missing_lem e (suc n) i l on = elim (Option-cases (find i l.entries.entry_map)) [
  | inl f ↦
      let message =
        log_request_list l.parent.system_id comp_id_autopilot1 (i % 2 ^ 16) (i % 2 ^ 16) in
      let l' = record l {
        parent = record (l.parent) { outbox = l.parent.outbox ++ message ∷ [] };
      } in
      let rest = missing_requests l.parent.system_id n (i + 1) l.entries.entry_map in
      let opened : missing_requests l.parent.system_id (suc n) i l.entries.entry_map
          ≡ message ∷ rest =
        rw f refl in
      let (sent, calls, id, entries) = request_missing_lem e n (i + 1) l' on in
      subst (HasAsked l (missing_requests l.parent.system_id (suc n) i l.entries.entry_map))
        (sym (asked_none e n i l on f))
        (
          sent
              ∙ append_assoc l.parent.outbox (message ∷ []) rest
              ∙ ap (λ (asked : List Message). l.parent.outbox ++ asked) (sym opened),
          calls,
          id,
          entries,
        )
  | inr (entry, f) ↦
      subst (HasAsked l (missing_requests l.parent.system_id (suc n) i l.entries.entry_map))
        (sym (asked_some e n i l entry f)) (rw f (request_missing_lem e n (i + 1) l on))
]

-- While entries are missing and the retries are not used up, a timeout asks again for exactly the
-- numbers below that of the log files that have no entry, in order, counts the retry, and starts
-- the next timeout; the user is told nothing.
list_timeout_incomplete :
    (e : Surroundings) (l : LogFiles)
    → e.connected ≡ true
    → length l.entries.entry_map ≢ 0
    → length l.entries.entry_map ≢ l.entries.max_list_id
    → l.entries.retries ≤ 20
    → ((list_timeout e l).parent.outbox
        ≡ l.parent.outbox
          ++ missing_requests l.parent.system_id l.entries.max_list_id 0 l.entries.entry_map)
      × ((list_timeout e l).parent.user_calls ≡ l.parent.user_calls)
      × ((list_timeout e l).parent.system_id ≡ l.parent.system_id)
      × ((list_timeout e l).entries
          ≡ record (l.entries) { retries = l.entries.retries + 1; cookie = e.address })
unfolding list_timeout list_incomplete start_list_timeout register_timeout_handler
list_timeout_incomplete e l on some_entries some_missing few =
    ground (arith, request_missing_lem e l.entries.max_list_id 0 l on)

-- The timeouts of a list that no further entry comes to.
unfoldable pub time_out_all : List Surroundings → LogFiles → LogFiles
time_out_all [] l = l
time_out_all (e ∷ es) l = time_out_all es (list_timeout e l)

give_up_lem :
    (e : Surroundings) (l : LogFiles)
    → length l.entries.entry_map ≢ 0
    → length l.entries.entry_map ≢ l.entries.max_list_id
    → l.entries.retries ≡ 21
    → ((list_timeout e l).parent.outbox ≡ l.parent.outbox)
      × ((list_timeout e l).parent.user_calls
          ≡ l.parent.user_calls
            ++ told l.entries.callback (λ c. log_entries c log_too_many_retries []))
unfolding list_timeout list_incomplete report_entries user_call call_user_callback
give_up_lem e l some_entries some_missing many = ground (arith, append-nil l.parent.user_calls)

-- The same messages, `n` times.
abbrev pub repeated : ℕ → List Message → List Message
repeated zero messages = []
repeated (suc n) messages = messages ++ repeated n messages

-- A list is given up: `n` times the same requests, and then one report.
abbrev IsGivenUp : ℕ → LogFiles → LogFiles → Type 0
IsGivenUp n l l' =
    (l'.parent.outbox
      ≡ l.parent.outbox
        ++ repeated n
            (missing_requests l.parent.system_id l.entries.max_list_id 0 l.entries.entry_map))
    × (l'.parent.user_calls
        ≡ l.parent.user_calls
          ++ told l.entries.callback (λ c. log_entries c log_too_many_retries []))

IsGivenUp-suc :
    (e : Surroundings) (n : ℕ) (l later l' : LogFiles)
    → later.parent.outbox
      ≡ l.parent.outbox
        ++ missing_requests l.parent.system_id l.entries.max_list_id 0 l.entries.entry_map
    → later.parent.user_calls ≡ l.parent.user_calls
    → later.parent.system_id ≡ l.parent.system_id
    → later.entries ≡ record (l.entries) { retries = l.entries.retries + 1; cookie = e.address }
    → IsGivenUp n later l'
    → IsGivenUp (suc n) l l'
IsGivenUp-suc e n l later l' sent calls id entries (outbox, reported) =
    let asked = missing_requests l.parent.system_id l.entries.max_list_id 0 l.entries.entry_map in
    (
      outbox ∙ rw (sent, id, entries) (append_assoc l.parent.outbox asked (repeated n asked)),
      reported ∙ rw (calls, entries) refl,
    )

-- A list to which no further entry comes is given up: after `r` retries, with connections that take
-- every message, each of the next `21 - r` timeouts asks once more for exactly the numbers that have
-- no entry, in order; the one after them sends nothing, and reports too many retries, and no entry.
-- There is no other message and no other report.
pub list_gives_up :
    (es : List Surroundings) (last : Surroundings) (l : LogFiles)
    → All (λ e. e.connected ≡ true) es
    → length l.entries.entry_map ≢ 0
    → length l.entries.entry_map ≢ l.entries.max_list_id
    → l.entries.retries + length es ≡ 21
    → IsGivenUp (length es) l (list_timeout last (time_out_all es l))
unfolding time_out_all
list_gives_up [] last l on some_entries some_missing n =
    let (sent, calls) = give_up_lem last l some_entries some_missing (omega arith) in
    (sent ∙ sym (append-nil l.parent.outbox), calls)
list_gives_up (e ∷ es) last l on some_entries some_missing n =
    let (sent, calls, id, entries) =
      list_timeout_incomplete e l on.0 some_entries some_missing (omega arith) in
    let later = list_timeout e l in
    let map = ap (λ (x : Entries). x.entry_map) entries in
    let of = ap (λ (x : Entries). x.max_list_id) entries in
    let retries = ap (λ (x : Entries). x.retries) entries in
    IsGivenUp-suc e (length es) l later (list_timeout last (time_out_all es later)) sent calls id
      entries
      (list_gives_up es last later on.1 (λ h. some_entries (sym (ap length map) ∙ h))
        (λ h. some_missing (sym (ap length map) ∙ h ∙ of)) (omega arith))
