-- ===== src/Tests/OffboardRuns.antt =====
-- The theorems on plugins/offboard/offboard_impl.cpp, applied to a vehicle that is sent north.
use stealth_drone_purdue.Base.{
  ℕ, ◌≡◌, refl, true, false, List, [], ◌∷◌, ◌++◌, some, arith, if◌then◌else◌,
}
use stealth_drone_purdue.Mavlink.{Float32, zero_f, one_f}
use stealth_drone_purdue.CallEvery.{add, remove}
use stealth_drone_purdue.Offboard.{
  Offboard, not_active, Velocity, Moment, send, switch_to, set_velocity_ned, set_velocity_body,
  send_velocity_ned, send_velocity_body, start_async, request_mode,
}
use stealth_drone_purdue.Offboard.Streaming.{
  Event, ned_is_set, body_is_set, start_is_asked, heartbeat_comes, IsStreaming, AllFresh,
  happen_all, happen_all-IsStreaming,
}
use stealth_drone_purdue.Offboard.Setpoints.{
  setpoint, setpoints, tick_all, set_velocity_ned_streams,
}

abbrev north : Velocity
north = record { first_m_s = one_f; second_m_s = zero_f; down_m_s = zero_f; yaw_deg = zero_f }

abbrev resting : Offboard
resting = record {
  mode = not_active;
  velocity_ned_yaw = north;
  velocity_body_yawspeed = north;
  call_every_cookie = 0;
  call_every_handler = record { entries = []; iterator_invalidated = false };
  outbox = [];
  mode_requests = [];
  calls = [];
  system_id = 1;
  autopilot_id = 1;
}

abbrev moment : (address : ℕ) → Moment
moment address = record { now = 1000; address = address; boot_ms = 5; connected = true }

abbrev same : Float32 → Float32
same f = f

resting-IsStreaming : IsStreaming resting
resting-IsStreaming = ((λ k. ground arith), (λ h. refl), λ h. refl)

abbrev flight : List (Moment × Event)
flight =
    (moment 4096, ned_is_set north)
    ∷ (moment 8192, start_is_asked (some 3))
    ∷ (moment 8192, body_is_set north)
    ∷ (moment 12288, heartbeat_comes 1 0)
    ∷ []

flight-AllFresh : AllFresh same flight resting
unfolding set_velocity_ned send_velocity_ned send switch_to add remove start_async request_mode
    set_velocity_body send_velocity_body
flight-AllFresh = (
  (refl, λ h. ground arith),
  ((refl, λ h. ground arith), ((refl, λ h. ground arith), ((refl, λ h. ground arith), tt))),
)

happen_all-IsStreaming_example : IsStreaming (happen_all same flight resting)
happen_all-IsStreaming_example =
    happen_all-IsStreaming same flight resting flight-AllFresh resting-IsStreaming

abbrev ticks : List (Moment × ℕ)
ticks = (moment 0, 4096) ∷ (moment 0, 64) ∷ (moment 0, 4096) ∷ []

set_velocity_ned_streams_example :
    (tick_all same ticks (set_velocity_ned same (moment 4096) north resting)).outbox
    ≡ resting.outbox
      ++ (if (moment 4096).connected then setpoint same 1 1 north (moment 4096) ∷ [] else [])
      ++ setpoints same
          (set_velocity_ned same (moment 4096) north resting).call_every_cookie
          (setpoint same 1 1 north)
          ticks
set_velocity_ned_streams_example =
    set_velocity_ned_streams same (moment 4096) north ticks resting (refl, λ h. ground arith)
      resting-IsStreaming
