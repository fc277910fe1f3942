-- ===== src/Mission/Timeouts.antt =====
-- A download that the autopilot does not answer, in plugins/mission/mission_impl.cpp.
use stealth_drone_purdue.Base.{ℕ, ◌≡◌, List, [], ◌∷◌, ◌++◌, Option, none, some, if◌then◌else◌}
use stealth_drone_purdue.Mavlink.{Message, mission_request_int, UserCall, mission_result, timed_out}
use stealth_drone_purdue.SystemImpl.{Surroundings}
use stealth_drone_purdue.Mission.{Mission, idle, process_timeout, to_uint16}

-- A sequence of expired timeouts.
unfoldable pub time_out_all : List Surroundings → Mission → Mission
time_out_all [] m = m
time_out_all (e ∷ es) m = time_out_all es (process_timeout e m)

-- The request for the item that is waited for, once for each timeout at which a connection takes
-- it.
abbrev pub repeated : Message → List Surroundings → List Message
repeated message [] = []
repeated message (e ∷ es) = (if e.connected then message ∷ [] else []) ++ repeated message es

abbrev pub told : Option ℕ → List UserCall
told none = []
told (some callback) = mission_result callback timed_out ∷ []

abbrev pub pending_request : Mission → Message
pending_request m =
    mission_request_int m.parent.system_id m.parent.autopilot_id
      (to_uint16 m.mission_data.next_to_download)

-- The download has come to its end.
abbrev HasGivenUp : List Message → List UserCall → Mission → Type 0
HasGivenUp outbox calls m =
    (m.activity ≡ idle) × (m.parent.outbox ≡ outbox) × (m.parent.user_calls ≡ calls)
