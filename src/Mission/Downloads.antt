-- ===== src/Mission/Downloads.antt =====
-- A download from its request to its end, in plugins/mission/mission_impl.cpp.
use stealth_drone_purdue.Base.{
  ℕ, zero, suc, ◌+◌, ◌%◌, ◌^◌, ◌<◌, ◌≡◌, refl, subst, Bool, true, List, [], ◌∷◌, ◌++◌, Option, none,
  some, arith, ◌==◌, if◌then◌else◌, length, append_assoc, append-nil, ◌∙◌,
}
use stealth_drone_purdue.Mavlink.{
  MissionItemInt, Message, mission_request_list, mission_request_int, mission_ack, UserCall,
  mission_items,
}
use stealth_drone_purdue.TimeoutHandler.Laws.{registered, registered-remove}
use stealth_drone_purdue.SystemImpl.{
  Surroundings, send_message, register_timeout_handler, refresh_timeout_handler,
  unregister_timeout_handler, call_user_callback,
}
use stealth_drone_purdue.MissionItem.{Conversions, MissionItem}
use stealth_drone_purdue.MissionImport.{import_mission}
use stealth_drone_purdue.Mission.{
  Mission, idle, get_mission, is_succeeded, mission_accepted, download_mission_async,
  process_mission_count, process_mission_item_int, take_item, assemble_mission_items,
  download_next_mission_item, report_mission_items_and_result, refresh_timeout, start_timeout,
  stop_timeout, send,
}

-- The arrival of a sequence of items.
pub receive_all : Conversions → Surroundings → List MissionItemInt → Mission → Mission
receive_all d e [] m = m
receive_all d e (item ∷ items) m = receive_all d e items (process_mission_item_int e d item m)

-- Numbered one after the other from `k` on.
abbrev pub IsNumbered : ℕ → List MissionItemInt → Type 0
IsNumbered k [] = Unit
IsNumbered k (item ∷ items) = (item.seq ≡ k) × IsNumbered (suc k) items

-- The requests for `n` items from number `k` on.
abbrev pub requests_from : (system component k n : ℕ) → List Message
requests_from system component k zero = []
requests_from system component k (suc n) =
    mission_request_int system component (k % 2 ^ 16) ∷ requests_from system component (suc k) n

-- What the downloaded messages come to.
module _ (d : Conversions) (absolute_yaw : Bool) (first : MissionItemInt)
    (tail : List MissionItemInt) where
  abbrev pub whole : List MissionItemInt
  whole = first ∷ tail

  abbrev pub imported_items : List MissionItem
  imported_items =
      if is_succeeded (import_mission d absolute_yaw whole).result
      then (import_mission d absolute_yaw whole).mission_items
      else []

module _ (d : Conversions) (e : Surroundings) (system component : ℕ) (yaw : Bool) (callback : ℕ)
    (calls : List UserCall) (first : MissionItemInt) (tail : List MissionItemInt)
    (on : e.connected ≡ true) where
  abbrev IsReceiving : (next : ℕ) → List MissionItemInt → List Message → Mission → Type 0
  IsReceiving next done outbox m =
      (m.activity ≡ get_mission)
      × (m.mission_data.num_to_download ≡ some (length (first ∷ tail)))
      × (m.mission_data.next_to_download ≡ some next)
      × (m.mission_data.downloaded ≡ done)
      × (m.mission_data.mission_items_and_result_callback ≡ some callback)
      × (m.absolute_yaw ≡ yaw)
      × (m.parent.outbox ≡ outbox)
      × (m.parent.user_calls ≡ calls)
      × (m.parent.system_id ≡ system)
      × (m.parent.autopilot_id ≡ component)

  abbrev IsComplete : List Message → Mission → Type 0
  IsComplete outbox m =
      (m.parent.outbox ≡ outbox ++ mission_ack system component mission_accepted ∷ [])
      × (m.mission_data.downloaded ≡ first ∷ tail)
      × (m.activity ≡ (if first.command == 16 then idle else get_mission))
      × (m.parent.user_calls
          ≡ calls
            ++ (if first.command == 16
                then mission_items callback (import_mission d yaw (first ∷ tail)).result ∷ []
                else []))
      × (m.mission_data.items
          ≡ (if first.command == 16 then imported_items d yaw first tail else []))
      × (registered m.timeout_cookie m.parent.timeout_handler ≡ none)

  last_lem :
      (next : ℕ) (done : List MissionItemInt) (item : MissionItemInt) (outbox : List Message)
      (m : Mission)
      → item.seq ≡ next
      → suc next ≡ length (first ∷ tail)
      → done ++ item ∷ [] ≡ first ∷ tail
      → IsReceiving next done outbox m
      → IsComplete outbox (process_mission_item_int e d item m)
  unfolding process_mission_item_int take_item assemble_mission_items stop_timeout send send_message
      unregister_timeout_handler report_mission_items_and_result call_user_callback
  last_lem next done item outbox m s l w h = ground (
    arith,
    append-nil calls,
    registered-remove m.timeout_cookie m.parent.timeout_handler m.timeout_cookie,
  )

  more_lem :
      (next : ℕ) (done : List MissionItemInt) (item : MissionItemInt) (outbox : List Message)
      (m : Mission)
      → item.seq ≡ next
      → suc next < length (first ∷ tail)
      → IsReceiving next done outbox m
      → IsReceiving
          (suc next)
          (done ++ item ∷ [])
          (outbox ++ mission_request_int system component (suc next % 2 ^ 16) ∷ [])
          (process_mission_item_int e d item m)
  unfolding process_mission_item_int take_item download_next_mission_item refresh_timeout send
      send_message refresh_timeout_handler
  more_lem next done item outbox m s l h = ground arith

  all_lem :
      (rest : List MissionItemInt) (next : ℕ) (done : List MissionItemInt) (item : MissionItemInt)
      (outbox : List Message) (m : Mission)
      → IsNumbered next (item ∷ rest)
      → next + suc (length rest) ≡ length (first ∷ tail)
      → done ++ item ∷ rest ≡ first ∷ tail
      → IsReceiving next done outbox m
      → IsComplete
          (outbox ++ requests_from system component (suc next) (length rest))
          (receive_all d e (item ∷ rest) m)
  unfolding receive_all
  all_lem [] next done item outbox m s l w h =
      rw (append-nil outbox) (last_lem next done item outbox m s.0 (omega arith) w h)
  all_lem (item' ∷ rest) next done item outbox m s l w h =
      rw
        (← append_assoc outbox (mission_request_int system component (suc next % 2 ^ 16) ∷ [])
          (requests_from system component (suc (suc next)) (length rest)))
        (all_lem rest (suc next) (done ++ item ∷ []) item'
          (outbox ++ mission_request_int system component (suc next % 2 ^ 16) ∷ [])
          (process_mission_item_int e d item m) s.1 (omega arith)
          (append_assoc done (item ∷ []) (item' ∷ rest) ∙ w)
          (more_lem next done item outbox m s.0 (omega arith) h))

-- The download, the count that the autopilot announces, and the items.
abbrev pub download_and_receive :
    Conversions → Surroundings → Option ℕ → List MissionItemInt → Mission → Mission
download_and_receive d e callback items m =
    receive_all d e items
      (process_mission_count e (length items) (download_mission_async e callback m))

start_lem :
    (d : Conversions) (e : Surroundings) (callback : ℕ) (first : MissionItemInt)
    (tail : List MissionItemInt) (m : Mission) (on : e.connected ≡ true)
    → m.activity ≡ idle
    → IsReceiving d e m.parent.system_id m.parent.autopilot_id m.absolute_yaw callback
        m.parent.user_calls first tail on 0 []
        ((m.parent.outbox ++ mission_request_list m.parent.system_id m.parent.autopilot_id ∷ [])
          ++ mission_request_int m.parent.system_id m.parent.autopilot_id 0 ∷ [])
        (process_mission_count e (suc (length tail)) (download_mission_async e (some callback) m))
unfolding download_mission_async process_mission_count download_next_mission_item start_timeout
    stop_timeout send send_message register_timeout_handler unregister_timeout_handler
start_lem d e callback first tail m on free = ground arith

-- A download that meets no trouble: from the idle plugin, with connections that take every
-- message, and an autopilot that announces its items and sends each once, in order. Exactly the
-- request of the list, one request for each item, in order, and the final acknowledgement are
-- sent, the items are stored as they came, and no timeout is registered under the plugin's cookie
-- any more. If the first is a waypoint, the callback is told
-- once, with the result of the import, the mission items are the imported ones (none after a
-- failure), and the plugin is idle again. If not, the callback is told nothing, there are no
-- mission items, and the plugin stays in `GET_MISSION`.
pub download_transfers :
    (d : Conversions) (e : Surroundings) (callback : ℕ) (first : MissionItemInt)
    (tail : List MissionItemInt) (m : Mission) (on : e.connected ≡ true)
    → m.activity ≡ idle
    → IsNumbered 0 (first ∷ tail)
    → IsComplete d e m.parent.system_id m.parent.autopilot_id m.absolute_yaw callback
        m.parent.user_calls first tail on
        (m.parent.outbox
          ++ mission_request_list m.parent.system_id m.parent.autopilot_id
            ∷ requests_from m.parent.system_id m.parent.autopilot_id 0 (length (first ∷ tail)))
        (download_and_receive d e (some callback) (first ∷ tail) m)
download_transfers d e callback first tail m on free numbered =
    let system = m.parent.system_id in
    let component = m.parent.autopilot_id in
    let started =
      process_mission_count e (length (first ∷ tail))
        (download_mission_async e (some callback) m) in
    let all =
      all_lem d e system component m.absolute_yaw callback m.parent.user_calls first tail on tail 0
        [] first
        ((m.parent.outbox ++ mission_request_list system component ∷ [])
          ++ mission_request_int system component 0 ∷ [])
        started numbered (omega arith) refl (start_lem d e callback first tail m on free) in
    subst
      (λ outbox.
        IsComplete d e system component m.absolute_yaw callback m.parent.user_calls first tail on
          outbox (receive_all d e (first ∷ tail) started))
      (append_assoc (m.parent.outbox ++ mission_request_list system component ∷ [])
          (mission_request_int system component 0 ∷ [])
          (requests_from system component 1 (length tail))
        ∙ append_assoc m.parent.outbox (mission_request_list system component ∷ []) (
            mission_request_int system component 0
            ∷ requests_from system component 1 (length tail)))
      all
