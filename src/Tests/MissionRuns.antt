-- ===== src/Tests/MissionRuns.antt =====
-- The theorems on plugins/mission/mission_impl.cpp, applied to a mission of one waypoint with a
-- photo.
use stealth_drone_purdue.Base.{
  false, inr, ℕ, ◌%◌, ◌^◌, ◌≡◌, refl, true, List, [], ◌∷◌, ◌++◌, none, some, arith, length,
}
use stealth_drone_purdue.StdMap.{find}
use stealth_drone_purdue.MissionItem.{is_position_finite, is_finite64}
use stealth_drone_purdue.Mavlink.{
  is_finite, Message, mission_count, mission_result, succeeded, mission_request_list, mission_ack,
  mission_items,
}
use stealth_drone_purdue.SystemImpl.{Surroundings}
use stealth_drone_purdue.TimeoutHandler.Laws.{registered}
use stealth_drone_purdue.MissionMessages.{assemble_mavlink_messages}
use stealth_drone_purdue.MissionMessages.Numbering.{
  IsNumbered, assemble-IsNumbered, assemble_indices,
}
use stealth_drone_purdue.MissionImport.{import_mission}
use stealth_drone_purdue.MissionImport.RoundTrip.{import-assemble, reimported}
use stealth_drone_purdue.Mission.{
  Mission, idle, set_mission, get_mission, MissionAck, MissionRequestInt, process_mission_ack,
}
use stealth_drone_purdue.Mission.Uploads.{
  upload_transfers, upload_and_serve, assembled, answer_all, answer_all_lem, owed_all, Requests,
}
use stealth_drone_purdue.Mission.Downloads.{
  download_transfers, download_and_receive, requests_from, imported_items,
}
use stealth_drone_purdue.Mission.Steps.{Event, run}
use stealth_drone_purdue.Mission.Refused.{nack_blocks}
use stealth_drone_purdue.Tests.Data.{
  up, later, conversions, photo_item, mission_data, mission, waypoint_message, photo_message,
}

abbrev answer : ℕ → MissionAck
answer type = record { target_system = 0; target_component = 251; type = type }

upload_transfers_example :
    ((upload_and_serve conversions (photo_item ∷ []) (some 5) up later (answer 0) mission).activity
      ≡ idle)
    × ((upload_and_serve conversions
          (photo_item ∷ [])
          (some 5)
          up
          later
          (answer 0)
          mission).parent.outbox
        ≡ []
          ++ mission_count 1 1 (length (assembled conversions (photo_item ∷ []) mission) % 2 ^ 16)
            ∷ assembled conversions (photo_item ∷ []) mission)
    × ((upload_and_serve conversions
          (photo_item ∷ [])
          (some 5)
          up
          later
          (answer 0)
          mission).parent.user_calls
        ≡ [] ++ mission_result 5 succeeded ∷ [])
upload_transfers_example =
    upload_transfers conversions (photo_item ∷ []) 5 up later (answer 0) mission refl refl refl refl
      refl refl

abbrev stored : List Message
stored =
    Message.mission_item_int 1 1 waypoint_message ∷ Message.mission_item_int 1 1 photo_message ∷ []

abbrev uploading : Mission
uploading = record mission {
  activity = set_mission;
  mission_data = record mission_data { messages = stored; result_callback = some 5 };
}

abbrev asked : ℕ → MissionRequestInt
asked seq = record { target_system = 0; target_component = 251; seq = seq }

abbrev requests : Requests
requests = (up, asked 1) ∷ (up, asked 1) ∷ (later, asked 9) ∷ (later, asked 0) ∷ []

answer_all_lem_example :
    ((answer_all requests uploading).activity ≡ set_mission)
    × ((answer_all requests uploading).mission_data.messages ≡ stored)
    × ((answer_all requests uploading).parent.outbox ≡ [] ++ owed_all stored requests)
    × ((answer_all requests uploading).parent.user_calls ≡ [])
    × ((answer_all requests uploading).mission_data.result_callback ≡ some 5)
answer_all_lem_example = answer_all_lem requests uploading refl

assemble-IsNumbered_example :
    IsNumbered 0
      (assemble_mavlink_messages conversions true true [] (photo_item ∷ photo_item ∷ [])).messages
assemble-IsNumbered_example =
    assemble-IsNumbered conversions true true [] (photo_item ∷ photo_item ∷ [])

assemble_indices_example :
    find 1 (assemble_mavlink_messages conversions true true ((1, 6) ∷ []) (photo_item ∷ [])).indices
    ≡ some 6
assemble_indices_example =
    assemble_indices conversions true true ((1, 6) ∷ []) (photo_item ∷ []) 1 6 refl

abbrev received : Mission
received =
    download_and_receive conversions up (some 5) (waypoint_message ∷ photo_message ∷ []) mission

download_transfers_example :
    (received.parent.outbox
      ≡ ([] ++ mission_request_list 1 1 ∷ requests_from 1 1 0 2) ++ mission_ack 1 1 0 ∷ [])
    × (received.mission_data.downloaded ≡ waypoint_message ∷ photo_message ∷ [])
    × (received.activity ≡ idle)
    × (received.parent.user_calls
        ≡ []
          ++ mission_items 5
              (import_mission conversions true (waypoint_message ∷ photo_message ∷ [])).result
            ∷ [])
    × (received.mission_data.items
        ≡ imported_items conversions true waypoint_message (photo_message ∷ []))
    × (registered received.timeout_cookie received.parent.timeout_handler ≡ none)
download_transfers_example =
    download_transfers conversions up 5 waypoint_message (photo_message ∷ []) mission refl refl
      (refl, (refl, tt))

abbrev downloading : Mission
downloading = record mission {
  activity = get_mission;
  mission_data = record mission_data {
    next_to_download = some 0;
    num_to_download = some 2;
    result_callback = some 5;
    mission_items_and_result_callback = some 6;
  };
}

abbrev timeouts : List Surroundings
timeouts = up ∷ later ∷ up ∷ later ∷ []

abbrev after_refusal : List (Surroundings × Event)
after_refusal =
    (later, Event.upload (photo_item ∷ []) (some 6))
    ∷ (later, Event.ack (answer 4))
    ∷ (later, Event.start (some 8))
    ∷ []

nack_blocks_example :
    (run conversions after_refusal (process_mission_ack (answer 4) uploading)).activity
    ≡ set_mission
nack_blocks_example =
    nack_blocks conversions (answer 4) after_refusal uploading refl (λ cookie h. refl) refl
      (λ h. ground arith) (refl, (refl, (refl, tt)))

import-assemble_example :
    ((reimported conversions true false true [] (photo_item ∷ photo_item ∷ [])).mission_items
      ≡ photo_item ∷ photo_item ∷ [])
    × ((reimported conversions true false true [] (photo_item ∷ photo_item ∷ [])).result
        ≡ succeeded)
    × ((reimported conversions true false true [] (photo_item ∷ photo_item ∷ [])).enable_rtl ≡ true)
unfolding is_position_finite is_finite64 is_finite
import-assemble_example =
    import-assemble conversions true false true [] photo_item (photo_item ∷ []) (
      (refl, refl, refl, inr refl, inr (refl, refl), inr refl, refl),
      ((refl, refl, refl, inr refl, inr (refl, refl), inr refl, refl), tt),
    )
