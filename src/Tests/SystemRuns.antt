-- ===== src/Tests/SystemRuns.antt =====
-- The theorems on core/system_impl.cpp, applied to a system with an autopilot and a camera.
use stealth_drone_purdue.Base.{
  ℕ, ◌≡◌, refl, true, false, List, [], ◌∷◌, ◌++◌, map, none, some, arith, if◌then◌else◌, count_of,
  All, if_both, ◌==◌,
}
use stealth_drone_purdue.SystemImpl.{Surroundings}
use stealth_drone_purdue.TimeoutHandler.{empty, add, refresh, remove, steady_time_in_future}
use stealth_drone_purdue.TimeoutHandler.Laws.{registered}
use stealth_drone_purdue.SystemImpl.Discovery.{
  System, Heartbeat, AutopilotVersion, component_type, has_component, is_autopilot, have_uuid,
  get_autopilot_id, has_flag, send_command_async, capabilities_command, request_autopilot_version,
  set_connected, find_uuid, process_heartbeat, version_uuid, process_autopilot_version,
  register_plugin,
}
use stealth_drone_purdue.SystemImpl.Events.{
  Event, heartbeat_comes, version_comes, timeout_comes, plugin_comes, plugin_goes, happen,
  happen_all, is_heartbeat_timeout,
}
use stealth_drone_purdue.SystemImpl.Watched.{late_version}
use stealth_drone_purdue.SystemImpl.Plugins.{happen_all-IsEnabledRight, IsEnabledRight, AllNew}
use stealth_drone_purdue.SystemImpl.Components.{announced_once, callback_between}
use stealth_drone_purdue.SystemImpl.HandlerTable.{
  HandlerTable, Action, unregisters, process_mavlink_message, finished, has_cookie, without,
  unregister_all_mavlink_message_handlers,
}
use stealth_drone_purdue.SystemImpl.Deliveries.{
  process_mavlink_message_ends, first_called_twice, IsDelivered,
}
use stealth_drone_purdue.SystemImpl.Shrinking.{IsUnregister}

abbrev new_system : System
new_system = record {
  system_id = 1;
  components = [];
  component_discovered_callback = none;
  uuid = 0;
  uuid_initialized = false;
  non_autopilot_heartbeats = 0;
  armed = false;
  hitl_enabled = false;
  supports_mission_int = false;
  connected = false;
  heartbeat_timeout_cookie = 0;
  autopilot_version_pending = false;
  autopilot_version_timed_out_cookie = 0;
  plugins = [];
  timeout_handler = empty;
  commands = [];
  notices = [];
  discovered_components = [];
}

abbrev at : (now address : ℕ) → Surroundings
at now address = record { now = now; address = address; connected = true }

abbrev heartbeat : Heartbeat
heartbeat = record { sysid = 1; compid = 1; base_mode = 128 }

abbrev version : AutopilotVersion
version = record { compid = 1; capabilities = 4; uid = 42 }

-- Found, lost, and found again.
abbrev found_and_lost : List (Surroundings × Event)
found_and_lost =
    (at 1_000_000 4096, heartbeat_comes heartbeat)
    ∷ (at 2_000_000 8192, version_comes version)
    ∷ (at 9_000_000 12288, timeout_comes 8192)
    ∷ []

-- The version was asked for with a timeout at 4096, which is over.
abbrev waiting_system : System
waiting_system = record new_system { autopilot_version_timed_out_cookie = 4096 }

late_version_example :
    ((process_autopilot_version (at 2_000_000 4096) version waiting_system).connected ≡ true)
    × ((k : ℕ)
        → is_heartbeat_timeout (
            registered k
              (process_autopilot_version
                (at 2_000_000 4096)
                version
                waiting_system).timeout_handler)
          ≡ false)
late_version_example =
    late_version (at 2_000_000 4096) version waiting_system refl refl (λ k waits. ground arith) refl
      refl

abbrev with_plugins : List (Surroundings × Event)
with_plugins =
    (at 1_000_000 4096, plugin_comes 7)
    ∷ (at 1_000_000 4096, heartbeat_comes heartbeat)
    ∷ (at 2_000_000 8192, version_comes version)
    ∷ (at 2_000_000 4096, plugin_comes 8)
    ∷ (at 2_000_000 4096, plugin_goes 7)
    ∷ (at 9_000_000 4096, timeout_comes 8192)
    ∷ []

with_plugins-AllNew : AllNew with_plugins new_system
unfolding happen process_heartbeat find_uuid is_autopilot have_uuid request_autopilot_version
    send_command_async capabilities_command get_autopilot_id has_component has_flag set_connected
    process_autopilot_version version_uuid add remove refresh steady_time_in_future register_plugin
with_plugins-AllNew = (refl, (tt, (tt, (refl, (tt, (tt, tt))))))

happen_all-IsEnabledRight_example : IsEnabledRight (happen_all with_plugins new_system)
happen_all-IsEnabledRight_example =
    happen_all-IsEnabledRight with_plugins new_system with_plugins-AllNew (λ p. (omega arith, refl))

announced_once_example :
    ((id : ℕ)
      → count_of id (callback_between (1 ∷ 1 ∷ []) (100 ∷ 1 ∷ []) 5 new_system).components
        ≡ (if has_component id ((1 ∷ 1 ∷ []) ++ 100 ∷ 1 ∷ []) then 1 else 0))
    × ((callback_between (1 ∷ 1 ∷ []) (100 ∷ 1 ∷ []) 5 new_system).component_discovered_callback
        ≡ some 5)
    × ((callback_between (1 ∷ 1 ∷ []) (100 ∷ 1 ∷ []) 5 new_system).discovered_components
        ≡ map component_type (callback_between (1 ∷ 1 ∷ []) (100 ∷ 1 ∷ []) 5 new_system).components)
announced_once_example = announced_once (1 ∷ 1 ∷ []) (100 ∷ 1 ∷ []) 5 new_system refl refl refl

abbrev three_handlers : HandlerTable
three_handlers = record {
  handlers =
      record { msg_id = 0; callback = 1; cookie = 64 }
      ∷ record { msg_id = 0; callback = 2; cookie = 64 }
      ∷ record { msg_id = 0; callback = 3; cookie = 128 }
      ∷ [];
  iterator_invalidated = false;
  moved = false;
}

-- The first callback takes its own plugin's handlers out.
abbrev takes_out : ℕ → List Action
takes_out callback = if callback == 1 then unregisters 64 ∷ [] else []

takes_out-IsUnregister : (callback : ℕ) → All IsUnregister (takes_out callback)
takes_out-IsUnregister callback = if_both (All IsUnregister) (callback == 1) (tt, tt) tt

process_mavlink_message_ends_example :
    IsDelivered 0 (process_mavlink_message takes_out 0 11 three_handlers)
process_mavlink_message_ends_example =
    process_mavlink_message_ends takes_out 0 takes_out-IsUnregister 11 three_handlers (omega arith)

-- Plugin 128 has gone.
first_called_twice_example :
    process_mavlink_message
      (λ _. [])
      0
      10
      (unregister_all_mavlink_message_handlers 128 three_handlers)
    ≡ finished
        (record {
          handlers =
              record { msg_id = 0; callback = 1; cookie = 64 }
              ∷ record { msg_id = 0; callback = 2; cookie = 64 }
              ∷ [];
          iterator_invalidated = false;
          moved = false;
        })
        (1 ∷ 1 ∷ 2 ∷ [])
unfolding has_cookie without
first_called_twice_example =
    first_called_twice 0 128 10 (record { msg_id = 0; callback = 1; cookie = 64 })
      (record { msg_id = 0; callback = 2; cookie = 64 } ∷ []) three_handlers refl refl refl
      (omega arith)
