-- ===== src/Mission/Uploads.antt =====
-- An upload from its announcement to its end, in plugins/mission/mission_impl.cpp.
use stealth_drone_purdue.Base.{
  ℕ, zero, suc, ◌+◌, ◌%◌, ◌^◌, ◌≡◌, refl, sym, true, false, List, [], ◌∷◌, ◌++◌, Option, none, some,
  arith, if◌then◌else◌, length, get_elem?, append-nil, append_assoc,
}
use stealth_drone_purdue.Mavlink.{Message, mission_count, UserCall, mission_result, succeeded}
use stealth_drone_purdue.SystemImpl.{
  Surroundings, send_message, refresh_timeout_handler, register_timeout_handler,
  unregister_timeout_handler, call_user_callback,
}
use stealth_drone_purdue.MissionItem.{Conversions, MissionItem}
use stealth_drone_purdue.MissionMessages.{assemble_mavlink_messages}
use stealth_drone_purdue.Mission.{
  Mission, idle, set_mission, MissionRequestInt, MissionAck, for_others,
  process_mission_request_int, upload_mission_item, refresh_timeout, send, upload_mission_async,
  announce, copy_and_assemble, mission_messages, start_timeout, process_mission_ack, acknowledge,
  stop_timeout, report_mission_result, gcs_system_id, gcs_component_id,
}

abbrev to_list {ℓ} : {A : Type ℓ} → Option A → List A
to_list none = []
to_list (some a) = a ∷ []

abbrev pub Requests : Type 0
Requests = List (Surroundings × MissionRequestInt)

-- The handling of a sequence of requests.
pub answer_all : Requests → Mission → Mission
answer_all [] m = m
answer_all ((e, request) ∷ requests) m =
    answer_all requests (process_mission_request_int e request m)

-- What one request is owed: its message, if it is for this station, in the mission, and a
-- connection takes it.
abbrev owed : List Message → Surroundings → MissionRequestInt → List Message
owed messages e request =
    if for_others request.target_system request.target_component
    then []
    else if e.connected
    then to_list (get_elem? messages request.seq)
    else []

abbrev pub owed_all : List Message → Requests → List Message
owed_all messages [] = []
owed_all messages ((e, request) ∷ requests) = owed messages e request ++ owed_all messages requests

-- An upload is under way with these messages, and this was sent and reported.
abbrev IsServing : List Message → List Message → List UserCall → Option ℕ → Mission → Type 0
IsServing messages outbox calls callback m =
    (m.activity ≡ set_mission)
    × (m.mission_data.messages ≡ messages)
    × (m.parent.outbox ≡ outbox)
    × (m.parent.user_calls ≡ calls)
    × (m.mission_data.result_callback ≡ callback)

module _ (messages : List Message) (calls : List UserCall) (callback : Option ℕ) where
  answer_lem :
      (e : Surroundings) (request : MissionRequestInt) (outbox : List Message) (m : Mission)
      → IsServing messages outbox calls callback m
      → IsServing messages
          (outbox ++ owed messages e request)
          calls
          callback
          (process_mission_request_int e request m)
  unfolding process_mission_request_int upload_mission_item refresh_timeout send send_message
      refresh_timeout_handler
  answer_lem e request outbox m h = ground (arith, append-nil outbox)

  answers_lem :
      (requests : Requests) (outbox : List Message) (m : Mission)
      → IsServing messages outbox calls callback m
      → IsServing messages
          (outbox ++ owed_all messages requests)
          calls
          callback
          (answer_all requests m)
  unfolding answer_all
  answers_lem [] outbox m h = ground (arith, append-nil outbox)
  answers_lem ((e, request) ∷ requests) outbox m h =
      rw (← append_assoc outbox (owed messages e request) (owed_all messages requests)) (
        answers_lem requests (outbox ++ owed messages e request)
          (process_mission_request_int e request m) (answer_lem e request outbox m h))

-- While an upload is under way, the requests of the autopilot are answered one by one, in any
-- order and any number of times: what is sent is exactly the message asked for by each request
-- that is for this station and names a message of the mission, while a connection takes it. The
-- upload goes on, its messages and callback stay, and the user is told nothing.
pub answer_all_lem :
    (requests : Requests) (m : Mission)
    → m.activity ≡ set_mission
    → IsServing m.mission_data.messages
        (m.parent.outbox ++ owed_all m.mission_data.messages requests)
        m.parent.user_calls
        m.mission_data.result_callback
        (answer_all requests m)
answer_all_lem requests m busy =
    answers_lem m.mission_data.messages m.parent.user_calls m.mission_data.result_callback requests
      m.parent.outbox m (busy, refl, refl, refl, refl)

-- The requests of an autopilot that pulls `n` messages from number `k` on.
abbrev in_order : Surroundings → (k n : ℕ) → Requests
in_order e k zero = []
in_order e k (suc n) =
    (e, record { target_system = gcs_system_id; target_component = gcs_component_id; seq = k })
    ∷ in_order e (suc k) n

abbrev drop : ℕ → List Message → List Message
drop zero xs = xs
drop (suc k) [] = []
drop (suc k) (x ∷ xs) = drop k xs

drop_front :
    (k n : ℕ) (xs : List Message)
    → k + suc n ≡ length xs
    → (x : Message) × (get_elem? xs k ≡ some x) × (drop k xs ≡ x ∷ drop (suc k) xs)
drop_front zero n (x ∷ xs) h = (x, refl, refl)
drop_front (suc k) n (x ∷ xs) h = drop_front k n xs (omega arith)
drop_front zero n [] h = absurd (omega (arith, h))
drop_front (suc k) n [] h = absurd (omega (arith, h))

drop_all : (k : ℕ) (xs : List Message) → k ≡ length xs → drop k xs ≡ []
drop_all zero [] h = refl
drop_all zero (x ∷ xs) h = absurd (omega (arith, h))
drop_all (suc k) [] h = refl
drop_all (suc k) (x ∷ xs) h = drop_all k xs (omega arith)

owed_all-in_order :
    (e : Surroundings) (k n : ℕ) (xs : List Message)
    → e.connected ≡ true
    → k + n ≡ length xs
    → owed_all xs (in_order e k n) ≡ drop k xs
owed_all-in_order e k zero xs on h = sym (drop_all k xs (omega arith))
owed_all-in_order e k (suc n) xs on h =
    let front = drop_front k n xs h in
    let rest = owed_all-in_order e (suc k) n xs on (omega arith) in ground arith

-- The upload of these items, each message pulled once, and the final acknowledgement.
abbrev pub upload_and_serve :
    Conversions
    → List MissionItem
    → Option ℕ
    → (start serve : Surroundings) → MissionAck
    → Mission
    → Mission
upload_and_serve d items callback start serve ack m =
    let started = upload_mission_async start d items callback m in
    process_mission_ack ack
      (answer_all (in_order serve 0 (length started.mission_data.messages)) started)

abbrev pub assembled : Conversions → List MissionItem → Mission → List Message
assembled d items m =
    let a = assemble_mavlink_messages d m.absolute_yaw m.enable_rtl m.mission_data.indices items in
    mission_messages m.parent a.messages

announce_lem :
    (d : Conversions) (items : List MissionItem) (callback : Option ℕ) (start : Surroundings)
    (m : Mission)
    → m.activity ≡ idle
    → m.parent.supports_mission_int ≡ true
    → start.connected ≡ true
    → IsServing
        (assembled d items m)
        (m.parent.outbox
          ++ mission_count m.parent.system_id m.parent.autopilot_id
              (length (assembled d items m) % 2 ^ 16)
            ∷ [])
        m.parent.user_calls
        callback
        (upload_mission_async start d items callback m)
unfolding upload_mission_async announce copy_and_assemble start_timeout send send_message
    register_timeout_handler
announce_lem d items callback start m free int on = ground arith

finish_lem :
    (messages outbox : List Message) (calls : List UserCall) (callback : ℕ) (ack : MissionAck)
    (m : Mission)
    → for_others ack.target_system ack.target_component ≡ false
    → ack.type ≡ 0
    → IsServing messages outbox calls (some callback) m
    → ((process_mission_ack ack m).activity ≡ idle)
      × ((process_mission_ack ack m).parent.outbox ≡ outbox)
      × ((process_mission_ack ack m).parent.user_calls
          ≡ calls ++ mission_result callback succeeded ∷ [])
unfolding process_mission_ack acknowledge stop_timeout report_mission_result
    unregister_timeout_handler call_user_callback
finish_lem messages outbox calls callback ack m ours accepted h = ground arith

-- An upload that meets no trouble: from the idle plugin, with an autopilot that supports int
-- items, connections that take every message, and an autopilot that pulls every message once, in
-- order, and accepts the mission with an acknowledgement for this station. Then exactly the count
-- and the messages that are assembled from the items are sent, in order, the user gets one call,
-- of this callback with the success, and the plugin is idle again.
pub upload_transfers :
    (d : Conversions) (items : List MissionItem) (callback : ℕ) (start serve : Surroundings)
    (ack : MissionAck) (m : Mission)
    → m.activity ≡ idle
    → m.parent.supports_mission_int ≡ true
    → start.connected ≡ true
    → serve.connected ≡ true
    → for_others ack.target_system ack.target_component ≡ false
    → ack.type ≡ 0
    → ((upload_and_serve d items (some callback) start serve ack m).activity ≡ idle)
      × ((upload_and_serve d items (some callback) start serve ack m).parent.outbox
          ≡ m.parent.outbox
            ++ mission_count m.parent.system_id m.parent.autopilot_id
                (length (assembled d items m) % 2 ^ 16)
              ∷ assembled d items m)
      × ((upload_and_serve d items (some callback) start serve ack m).parent.user_calls
          ≡ m.parent.user_calls ++ mission_result callback succeeded ∷ [])
upload_transfers d items callback start serve ack m free int on on' ours accepted =
    let started = upload_mission_async start d items (some callback) m in
    let announced = announce_lem d items (some callback) start m free int on in
    let count =
      mission_count m.parent.system_id m.parent.autopilot_id
        (length (assembled d items m) % 2 ^ 16) in
    let requests = in_order serve 0 (length started.mission_data.messages) in
    let served =
      answers_lem (assembled d items m) m.parent.user_calls (some callback) requests
        (m.parent.outbox ++ count ∷ []) started announced in
    let all : owed_all (assembled d items m) requests ≡ assembled d items m = rw announced.1 (
      owed_all-in_order serve 0 (length (assembled d items m)) (assembled d items m) on'
        (omega arith)) in
    let finished =
      finish_lem (assembled d items m)
        ((m.parent.outbox ++ count ∷ []) ++ owed_all (assembled d items m) requests)
        m.parent.user_calls callback ack (answer_all requests started) ours accepted served in
    (
      finished.0,
      rw (finished.1, all) (append_assoc m.parent.outbox (count ∷ []) (assembled d items m)),
      finished.2,
    )
