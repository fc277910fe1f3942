-- ===== src/SystemImpl/Watched.antt =====
-- The timeout for the heartbeats of a system of core/system_impl.cpp, and what the SDK object is told
-- of its discovery and its loss.
use stealth_drone_purdue.Base.{ℕ, ◌≡◌, true, false, none, some, arith}
use stealth_drone_purdue.StdMap.{erase}
use stealth_drone_purdue.TimeoutHandler.{add}
use stealth_drone_purdue.TimeoutHandler.Laws.{registered, registered-add, registered-remove}
use stealth_drone_purdue.SystemImpl.{Surroundings}
use stealth_drone_purdue.SystemImpl.Discovery.{
  System, heartbeats_timed_out, AutopilotVersion, comp_id_autopilot1, heartbeat_timeout_ms,
  set_connected, process_autopilot_version,
}
use stealth_drone_purdue.SystemImpl.Events.{is_heartbeat_timeout, IsAlone}

-- `run_once` has taken the timeout out.
abbrev erased : (cookie : ℕ) → System → System
erased cookie s = record s {
  timeout_handler = record (s.timeout_handler) {
    timeouts = erase cookie s.timeout_handler.timeouts;
  };
}

-- If the two cookies are the same, the loss of the system may go unnoticed: the autopilot's version
-- comes after its timeout, the allocator gives the heartbeat timeout the old address, and the handler
-- of the version, which still has the old cookie, takes the new timeout out. The system is connected,
-- and no timeout waits for its heartbeats.
pub late_version :
    (e : Surroundings) (m : AutopilotVersion) (s : System)
    → m.compid ≡ comp_id_autopilot1
    → s.connected ≡ false
    → IsAlone s
    → registered e.address s.timeout_handler ≡ none
    → e.address ≡ s.autopilot_version_timed_out_cookie
    → ((process_autopilot_version e m s).connected ≡ true)
      × ((k : ℕ)
          → is_heartbeat_timeout (registered k (process_autopilot_version e m s).timeout_handler)
            ≡ false)
unfolding process_autopilot_version set_connected
late_version e m s from off timeout free same = (
  ground arith,
  λ k. ground (
    arith,
    registered-remove s.autopilot_version_timed_out_cookie
        (add e.now e.address (some heartbeats_timed_out) heartbeat_timeout_ms s.timeout_handler) k,
    registered-add e.now e.address (some heartbeats_timed_out) heartbeat_timeout_ms
        s.timeout_handler k free,
    timeout k,
  ),
)
