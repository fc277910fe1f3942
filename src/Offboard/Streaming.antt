-- ===== src/Offboard/Streaming.antt =====
-- plugins/offboard/offboard_impl.cpp sends the setpoints of its mode, and no others.
use stealth_drone_purdue.Base.{
  ℕ, ◌≡◌, ◌≢◌, refl, ◌∙◌, List, [], ◌∷◌, Option, none, some, ◌==◌, if◌then◌else◌, arith,
  Option-cases, Bool-cases, inl, inr, if_both,
}
use stealth_drone_purdue.StdMap.{find, find-erase, find-assign, find-insert}
use stealth_drone_purdue.Mavlink.{Float32, CommandResult}
use stealth_drone_purdue.CallEvery.{CallEveryHandler, Entry, add, reset, remove}
use stealth_drone_purdue.Offboard.{
  Offboard, Mode, not_active, velocity_ned, velocity_body, Velocity, PositionTarget, Periodic,
  sends_velocity_ned, sends_velocity_body, other_call, Moment, send, stop_sending_setpoints,
  stop_if_active, request_mode, to_offboard, no_setpoint_set, OffboardResult, call_user,
  start_async, stop_async, receive_command_result, switch_to, reschedule, is_offboard_mode,
  process_heartbeat, ned_message, body_message, send_velocity_ned, send_velocity_body,
  set_velocity_ned, set_velocity_body, periodic, tick, send_interval_s,
}

abbrev pub mode_of : Option Periodic → Mode
mode_of none = not_active
mode_of (some sends_velocity_ned) = velocity_ned
mode_of (some sends_velocity_body) = velocity_body
mode_of (some (other_call n)) = not_active

-- The mode that an entry of the handler sends setpoints for.
abbrev pub entry_mode : Option (Entry Periodic) → Mode
entry_mode none = not_active
entry_mode (some entry) = mode_of entry.callback

-- The mode is active exactly with a cookie; the entry under the cookie sends the setpoints of the
-- mode, and no other entry sends any.
abbrev pub IsStreaming : Offboard → Type 0
IsStreaming o =
    ((k : ℕ)
      → entry_mode (find k o.call_every_handler.entries)
        ≡ (if k == o.call_every_cookie then o.mode else not_active))
    × (o.mode ≡ not_active → o.call_every_cookie ≡ 0)
    × (o.call_every_cookie ≡ 0 → o.mode ≡ not_active)

-- A new entry is not the null pointer, and not where another is.
abbrev pub IsFresh : Moment → Offboard → Type 0
IsFresh e o = (find e.address o.call_every_handler.entries ≡ none) × (e.address ≢ 0)

pub data Event : Type 0 where
  ned_is_set body_is_set : Velocity → Event
  start_is_asked stop_is_asked : (callback : Option ℕ) → Event
  result_comes : CommandResult → (callback : Option ℕ) → Event
  heartbeat_comes : (base_mode custom_mode : ℕ) → Event
  entry_is_due : (cookie : ℕ) → Event

entry_mode-remove :
    (k j : ℕ) (h : CallEveryHandler Periodic)
    → entry_mode (find j (remove k h).entries)
      ≡ (if k == j then not_active else entry_mode (find j h.entries))
unfolding remove
entry_mode-remove k j h = ground (arith, find-erase k j h.entries)

entry_mode-reset :
    (now k j : ℕ) (h : CallEveryHandler Periodic)
    → entry_mode (find j (reset now k h).entries) ≡ entry_mode (find j h.entries)
unfolding reset
entry_mode-reset now k j h = elim (Option-cases (find k h.entries)) [
  | inl gone ↦ rw (reset, gone) refl
  | inr (entry, found) ↦
      rw (reset, found)
        (ground (arith, find-assign k j (record entry { last_time = now }) h.entries))
]

entry_mode-add :
    (now address : ℕ) (call : Periodic) (j : ℕ) (h : CallEveryHandler Periodic)
    → find address h.entries ≡ none
    → entry_mode (find j (add now address (some call) send_interval_s h).entries)
      ≡ (if address == j then mode_of (some call) else entry_mode (find j h.entries))
unfolding add
entry_mode-add now address call j h fresh = ground (
  arith,
  find-insert address j
      (record { callback = some call; last_time = now; interval_s = send_interval_s }) h.entries
      fresh,
)

-- The handler without the entry under the cookie.
stopped :
    (o : Offboard) (k : ℕ)
    → IsStreaming o
    → entry_mode (
        find k
          (if o.call_every_cookie == 0
            then o.call_every_handler
            else remove o.call_every_cookie o.call_every_handler).entries)
      ≡ not_active
stopped o k (entries, off, on) = elim (Bool-cases (o.call_every_cookie == 0)) [
  | inl null ↦ rw null (ground (arith, entries k, on))
  | inr set ↦
      rw set
        (ground (arith, entries k, entry_mode-remove o.call_every_cookie k o.call_every_handler))
]

stopped_fresh :
    (o : Offboard) (k : ℕ)
    → find k o.call_every_handler.entries ≡ none
    → find k
        (if o.call_every_cookie == 0
          then o.call_every_handler
          else remove o.call_every_cookie o.call_every_handler).entries
      ≡ none
unfolding remove
stopped_fresh o k fresh =
    ground (arith, find-erase o.call_every_cookie k o.call_every_handler.entries)

stop_sending-IsStreaming : (o : Offboard) → IsStreaming o → IsStreaming (stop_sending_setpoints o)
unfolding stop_sending_setpoints
stop_sending-IsStreaming o streaming =
    ((λ k. stopped o k streaming ∙ ground arith), (λ _. refl), λ _. refl)

switch_to-IsStreaming :
    (e : Moment) (call : Periodic) (o : Offboard)
    → IsFresh e o
    → mode_of (some call) ≢ not_active
    → IsStreaming o
    → IsStreaming (switch_to e call (mode_of (some call)) o)
unfolding switch_to
switch_to-IsStreaming e call o (fresh, nonzero) active streaming = (
  λ k.
      entry_mode-add e.now e.address call k
        (if o.call_every_cookie == 0
          then o.call_every_handler
          else remove o.call_every_cookie o.call_every_handler)
        (stopped_fresh o e.address fresh)
      ∙ ground (arith, stopped o k streaming),
  (λ h. absurd (active h)),
  λ h. absurd (nonzero h),
)

reschedule-IsStreaming : (e : Moment) (o : Offboard) → IsStreaming o → IsStreaming (reschedule e o)
unfolding reschedule
reschedule-IsStreaming e o (entries, off, on) =
    (λ k. entry_mode-reset e.now o.call_every_cookie k o.call_every_handler ∙ entries k, off, on)

send-IsStreaming :
    (e : Moment) (message : PositionTarget) (o : Offboard)
    → IsStreaming o
    → IsStreaming (send e message o)
unfolding send
send-IsStreaming e message o streaming = if_both IsStreaming e.connected streaming streaming

module _ (to_rad_from_deg : Float32 → Float32) where
  abbrev pub happen : Moment → Event → Offboard → Offboard
  happen e (ned_is_set v) o = set_velocity_ned to_rad_from_deg e v o
  happen e (body_is_set v) o = set_velocity_body to_rad_from_deg e v o
  happen e (start_is_asked callback) o = start_async callback o
  happen e (stop_is_asked callback) o = stop_async callback o
  happen e (result_comes result callback) o = receive_command_result result callback o
  happen e (heartbeat_comes base_mode custom_mode) o = process_heartbeat base_mode custom_mode o
  happen e (entry_is_due cookie) o = tick to_rad_from_deg e cookie o

  abbrev pub happen_all : List (Moment × Event) → Offboard → Offboard
  happen_all [] o = o
  happen_all ((e, event) ∷ events) o = happen_all events (happen e event o)

  abbrev pub AllFresh : List (Moment × Event) → Offboard → Type 0
  AllFresh [] o = Unit
  AllFresh ((e, event) ∷ events) o = IsFresh e o × AllFresh events (happen e event o)

  call_user-IsStreaming :
      (callback : Option ℕ) (result : OffboardResult) (o : Offboard)
      → IsStreaming o
      → IsStreaming (call_user callback result o)
  unfolding call_user
  call_user-IsStreaming none result o streaming = streaming
  call_user-IsStreaming (some callback) result o streaming = streaming

  stop_if_active-IsStreaming :
      (mode : Mode) (o : Offboard) → IsStreaming o → IsStreaming (stop_if_active mode o)
  unfolding stop_if_active
  stop_if_active-IsStreaming not_active o streaming = streaming
  stop_if_active-IsStreaming velocity_ned o streaming = stop_sending-IsStreaming o streaming
  stop_if_active-IsStreaming velocity_body o streaming = stop_sending-IsStreaming o streaming

  periodic-IsStreaming :
      (e : Moment) (callback : Option Periodic) (o : Offboard)
      → IsStreaming o
      → IsStreaming (periodic to_rad_from_deg e callback o)
  unfolding periodic send_velocity_ned send_velocity_body
  periodic-IsStreaming e none o streaming = streaming
  periodic-IsStreaming e (some sends_velocity_ned) o streaming =
      send-IsStreaming e (ned_message to_rad_from_deg e o) o streaming
  periodic-IsStreaming e (some sends_velocity_body) o streaming =
      send-IsStreaming e (body_message to_rad_from_deg e o) o streaming
  periodic-IsStreaming e (some (other_call n)) o streaming = streaming

  -- What all three cases of the mode meet.
  each_mode :
      (m : Mode) (a b c : Offboard)
      → IsStreaming a
      → IsStreaming b
      → IsStreaming c
      → IsStreaming (elim m [ not_active ↦ a | velocity_ned ↦ b | velocity_body ↦ c ])
  each_mode not_active a b c ha hb hc = ha
  each_mode velocity_ned a b c ha hb hc = hb
  each_mode velocity_body a b c ha hb hc = hc

  pub set_velocity_ned-IsStreaming :
      (e : Moment) (v : Velocity) (o : Offboard)
      → IsFresh e o
      → IsStreaming o
      → IsStreaming (set_velocity_ned to_rad_from_deg e v o)
  unfolding set_velocity_ned send_velocity_ned
  set_velocity_ned-IsStreaming e v o fresh streaming =
      let stored = record o { velocity_ned_yaw = v } in
      let switched = switch_to e sends_velocity_ned velocity_ned stored in
      let switched-IsStreaming =
        switch_to-IsStreaming e sends_velocity_ned stored fresh (λ h. ground arith) streaming in
      let chosen : Offboard = elim o.mode [
        | velocity_ned ↦ reschedule e stored
        | velocity_body ↦ switched
        | not_active ↦ switched
      ] in
      send-IsStreaming e (ned_message to_rad_from_deg e chosen) chosen (
        each_mode o.mode switched (reschedule e stored) switched switched-IsStreaming
          (reschedule-IsStreaming e stored streaming) switched-IsStreaming)

  set_velocity_body-IsStreaming :
      (e : Moment) (v : Velocity) (o : Offboard)
      → IsFresh e o
      → IsStreaming o
      → IsStreaming (set_velocity_body to_rad_from_deg e v o)
  unfolding set_velocity_body send_velocity_body
  set_velocity_body-IsStreaming e v o fresh streaming =
      let stored = record o { velocity_body_yawspeed = v } in
      let switched = switch_to e sends_velocity_body velocity_body stored in
      let switched-IsStreaming =
        switch_to-IsStreaming e sends_velocity_body stored fresh (λ h. ground arith) streaming in
      let chosen : Offboard = elim o.mode [
        | velocity_body ↦ reschedule e stored
        | velocity_ned ↦ switched
        | not_active ↦ switched
      ] in
      send-IsStreaming e (body_message to_rad_from_deg e chosen) chosen (
        each_mode o.mode switched switched (reschedule e stored) switched-IsStreaming
          switched-IsStreaming (reschedule-IsStreaming e stored streaming))

  start-IsStreaming :
      (callback : Option ℕ) (o : Offboard) → IsStreaming o → IsStreaming (start_async callback o)
  unfolding start_async request_mode
  start-IsStreaming callback o streaming =
      each_mode o.mode (call_user callback no_setpoint_set o) (request_mode to_offboard callback o)
        (request_mode to_offboard callback o)
        (call_user-IsStreaming callback no_setpoint_set o streaming) streaming streaming

  happen-IsStreaming :
      (e : Moment) (event : Event) (o : Offboard)
      → IsFresh e o
      → IsStreaming o
      → IsStreaming (happen e event o)
  unfolding stop_async request_mode receive_command_result process_heartbeat tick
  happen-IsStreaming e (ned_is_set v) o fresh streaming =
      set_velocity_ned-IsStreaming e v o fresh streaming
  happen-IsStreaming e (body_is_set v) o fresh streaming =
      set_velocity_body-IsStreaming e v o fresh streaming
  happen-IsStreaming e (start_is_asked callback) o fresh streaming =
      start-IsStreaming callback o streaming
  happen-IsStreaming e (stop_is_asked callback) o fresh streaming =
      stop_if_active-IsStreaming o.mode o streaming
  happen-IsStreaming e (result_comes result callback) o fresh streaming =
      call_user-IsStreaming callback _ o streaming
  happen-IsStreaming e (heartbeat_comes base_mode custom_mode) o fresh streaming =
      if_both IsStreaming (is_offboard_mode base_mode custom_mode) streaming
        (stop_if_active-IsStreaming o.mode o streaming)
  happen-IsStreaming e (entry_is_due cookie) o fresh streaming =
      elim (Option-cases (find cookie o.call_every_handler.entries)) [
        | inl gone ↦ rw (tick, gone) streaming
        | inr (entry, found) ↦ rw (tick, found) (periodic-IsStreaming e entry.callback o streaming)
      ]

  -- From a state in which this holds, and whatever the user asks for, whatever heartbeats come and whichever entries are due, in any
  -- order, if the allocator gives new entries addresses that are not 0 and not in use: exactly one
  -- entry of the periodic calls sends setpoints while the mode is active, those of the mode, under
  -- the cookie of the plugin, and none does while it is not.
  pub happen_all-IsStreaming :
      (events : List (Moment × Event)) (o : Offboard)
      → AllFresh events o
      → IsStreaming o
      → IsStreaming (happen_all events o)
  happen_all-IsStreaming [] o fresh streaming = streaming
  happen_all-IsStreaming ((e, event) ∷ events) o (fresh, rest) streaming =
      happen_all-IsStreaming events (happen e event o) rest
        (happen-IsStreaming e event o fresh streaming)
