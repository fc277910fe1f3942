-- ===== src/SystemImpl/Discovery.antt =====
-- core/system_impl.h and core/system_impl.cpp: how a system is discovered, connected and lost. Each
-- function is one step. What is handed to `_commands`, to the SDK object, to the plugins and to the
-- thread pool is recorded, oldest first. `_components` is in the order of insertion, which stands
-- for the order, which C++ leaves open, in which `std::unordered_set` is walked.
-- ENABLE_FALLBACK_TO_SYSTEM_ID and MESSAGE_DEBUGGING are not defined in the source.
use stealth_drone_purdue.Base.{
  ℕ, ◌+◌, ◌-◌, ◌/◌, ◌%◌, ◌^◌, Bool, true, false, not, ◌&&◌, ◌||◌, List, [], ◌∷◌, ◌++◌, map, Option,
  none, some, ltb, leb, ◌==◌, if◌then◌else◌, length,
}
use stealth_drone_purdue.Mavlink.{CommandLong, nan, one_f}
use stealth_drone_purdue.SystemImpl.{Surroundings}
use stealth_drone_purdue.StdMap.{find, erase}
use stealth_drone_purdue.TimeoutHandler.{TimeoutHandler, add, refresh, remove}

-- `ComponentType`.
pub data ComponentType : Type 0 where
  unknown_component autopilot camera gimbal : ComponentType

-- The two timeouts of a system, and those of its plugins.
pub data SystemTimeout : Type 0 where
  heartbeats_timed_out : SystemTimeout
  version_no_longer_pending : SystemTimeout
  plugin_timeout : ℕ → SystemTimeout

-- What the SDK object and the plugins are told.
pub data Notice : Type 0 where
  on_discover : (uuid : ℕ) → Notice
  on_timeout : (uuid : ℕ) → Notice
  init enable disable deinit : (plugin : ℕ) → Notice

pub record System : Type 0 where
  pub system_id : ℕ
  pub components : List ℕ
  pub component_discovered_callback : Option ℕ
  pub uuid : ℕ
  pub uuid_initialized : Bool
  pub non_autopilot_heartbeats : ℕ
  pub armed : Bool
  pub hitl_enabled : Bool
  pub supports_mission_int : Bool
  pub connected : Bool
  pub heartbeat_timeout_cookie : ℕ
  pub autopilot_version_pending : Bool
  pub autopilot_version_timed_out_cookie : ℕ
  pub plugins : List ℕ
  pub timeout_handler : TimeoutHandler SystemTimeout
  pub commands : List CommandLong
  pub notices : List Notice
  -- The calls queued on the thread pool of the callback that is set when they run, by their argument.
  pub discovered_components : List ComponentType

-- The fields of `mavlink_message_t` and of the two payloads that are read.
pub record Heartbeat : Type 0 where
  pub sysid : ℕ
  pub compid : ℕ
  pub base_mode : ℕ

pub record AutopilotVersion : Type 0 where
  pub compid : ℕ
  pub capabilities : ℕ
  pub uid : ℕ

abbrev pub comp_id_autopilot1 : ℕ
comp_id_autopilot1 = 1

abbrev comp_id_camera : ℕ
comp_id_camera = 100

abbrev comp_id_camera6 : ℕ
comp_id_camera6 = 105

abbrev comp_id_gimbal : ℕ
comp_id_gimbal = 154

abbrev pub heartbeat_timeout_ms : ℕ
heartbeat_timeout_ms = 3000

abbrev pub version_timeout_ms : ℕ
version_timeout_ms = 500

-- A flag of a bit mask, `2 ^ bit`.
unfoldable pub has_flag : (bit mask : ℕ) → Bool
has_flag bit mask = mask / 2 ^ bit % 2 == 1

unfoldable pub has_component : ℕ → List ℕ → Bool
has_component id [] = false
has_component id (c ∷ cs) = (c == id) || has_component id cs

unfoldable pub is_autopilot : ℕ → Bool
is_autopilot id = id == comp_id_autopilot1

unfoldable pub is_camera : ℕ → Bool
is_camera id = leb comp_id_camera id && leb id comp_id_camera6

unfoldable pub component_type : ℕ → ComponentType
component_type id =
    if id == comp_id_autopilot1
    then autopilot
    else if is_camera id
    then camera
    else if id == comp_id_gimbal
    then gimbal
    else unknown_component

unfoldable pub get_autopilot_id : System → ℕ
get_autopilot_id s = if has_component comp_id_autopilot1 s.components then comp_id_autopilot1 else 0

unfoldable pub have_uuid : System → Bool
have_uuid s = not (s.uuid == 0) && s.uuid_initialized

unfoldable pub discovered : Option ℕ → List ℕ → List ComponentType
discovered none components = []
discovered (some _) components = map component_type components

unfoldable pub add_new_component : (component_id : ℕ) → System → System
add_new_component id s = if has_component id s.components then s else record s {
  components = s.components ++ id ∷ [];
  discovered_components =
      s.discovered_components ++ discovered s.component_discovered_callback (id ∷ []);
}

-- An empty callback is not looked for here.
unfoldable pub register_component_discovered_callback : Option ℕ → System → System
register_component_discovered_callback callback s = record s {
  component_discovered_callback = callback;
  discovered_components = s.discovered_components ++ map component_type s.components;
}

-- An `int`: `negsuc n` is -(n + 1).
pub data ℤ : Type 0 where
  pos negsuc : ℕ → ℤ

unfoldable pub has_any_camera : List ℕ → Bool
has_any_camera [] = false
has_any_camera (c ∷ cs) = is_camera c || has_any_camera cs

-- Any camera is looked for where the id, or its sum with that of the first camera, is -1; a component
-- has no other negative id.
unfoldable pub has_camera : (camera_id : ℤ) → System → Bool
has_camera (pos n) s = has_component (comp_id_camera + n) s.components
has_camera (negsuc n) s =
    if n == 0
    then has_any_camera s.components
    else if ltb n comp_id_camera
    then has_component (comp_id_camera - (n + 1)) s.components
    else if n == comp_id_camera
    then has_any_camera s.components
    else false

-- `send_command_async` of a `CommandLong` without a callback.
unfoldable pub send_command_async : CommandLong → System → System
send_command_async command s =
    if (s.system_id == 0) && (length s.components == 0) then s else record s {
      commands = s.commands ++ record command { target_system_id = s.system_id } ∷ [];
    }

-- MAV_CMD_REQUEST_AUTOPILOT_CAPABILITIES.
unfoldable pub capabilities_command : System → CommandLong
capabilities_command s = record {
  target_system_id = 0;
  target_component_id = get_autopilot_id s;
  command = 520;
  confirmation = 0;
  param1 = one_f;
  param2 = nan;
  param3 = nan;
  param4 = nan;
  param5 = nan;
  param6 = nan;
  param7 = nan;
}

unfoldable pub request_autopilot_version : Surroundings → System → System
request_autopilot_version e s =
    if s.uuid_initialized
    then s
    else (let asked =
          send_command_async (capabilities_command s)
            (record s { autopilot_version_pending = true }) in
        record asked {
          timeout_handler =
              add e.now e.address (some version_no_longer_pending) version_timeout_ms
                asked.timeout_handler;
          autopilot_version_timed_out_cookie = e.address;
        })

unfoldable pub set_connected : Surroundings → System → System
set_connected e s =
    if not s.connected && s.uuid_initialized
    then record s {
      connected = true;
      timeout_handler =
          add e.now e.address (some heartbeats_timed_out) heartbeat_timeout_ms s.timeout_handler;
      heartbeat_timeout_cookie = e.address;
      notices = s.notices ++ on_discover s.uuid ∷ map enable s.plugins;
    }
    else if s.connected
    then record s { timeout_handler = refresh e.now s.heartbeat_timeout_cookie s.timeout_handler }
    else s

unfoldable pub set_disconnected : System → System
set_disconnected s = record s {
  connected = false;
  notices = s.notices ++ on_timeout s.uuid ∷ map disable s.plugins;
}

-- The part of `process_heartbeat` on the UUID. Ten heartbeats of other components do without one.
unfoldable pub find_uuid : Surroundings → Heartbeat → System → System
find_uuid e m s =
    if is_autopilot m.compid && not (have_uuid s)
    then request_autopilot_version e s
    else if not (is_autopilot m.compid) && not (have_uuid s)
    then (let count = (s.non_autopilot_heartbeats + 1) % 2 ^ 8 in
        let counted = record s { non_autopilot_heartbeats = count } in
        if leb 10 count
        then record counted { uuid = m.sysid; uuid_initialized = true }
        else counted)
    else s

unfoldable pub process_heartbeat : Surroundings → Heartbeat → System → System
process_heartbeat e m s = set_connected e (
    find_uuid e m (
      if m.compid == comp_id_autopilot1
      then record s { armed = has_flag 7 m.base_mode; hitl_enabled = has_flag 5 m.base_mode }
      else s))

unfoldable pub version_uuid : AutopilotVersion → System → ℕ
version_uuid m s = if s.uuid == 0 then (if m.uid == 0 then s.system_id else m.uid) else s.uuid

unfoldable pub process_autopilot_version : Surroundings → AutopilotVersion → System → System
process_autopilot_version e m s =
    if m.compid == comp_id_autopilot1
    then (let found = set_connected e (record s {
      supports_mission_int = has_flag 2 m.capabilities;
      uuid = version_uuid m s;
      uuid_initialized = true;
    }) in
        record found {
          autopilot_version_pending = false;
          timeout_handler = remove found.autopilot_version_timed_out_cookie found.timeout_handler;
        })
    else s

-- The callback of a timeout.
unfoldable pub call : Option SystemTimeout → System → System
call (some heartbeats_timed_out) s = set_disconnected s
call (some version_no_longer_pending) s = record s { autopilot_version_pending = false }
call (some (plugin_timeout n)) s = s
call none s = s

-- A timeout has come due: `TimeoutHandler::run_once` takes it out and calls its callback.
unfoldable pub time_out : (cookie : ℕ) → System → System
time_out cookie s = elim (find cookie s.timeout_handler.timeouts) [
  | none ↦ s
  | some t ↦ call t.callback (record s {
    timeout_handler = record (s.timeout_handler) {
      timeouts = erase cookie s.timeout_handler.timeouts;
    };
  })
]

unfoldable pub register_plugin : (plugin : ℕ) → System → System
register_plugin p s = record s {
  plugins = s.plugins ++ p ∷ [];
  notices = s.notices ++ init p ∷ (if s.connected then enable p ∷ [] else []);
}

-- `std::find` and `erase`: the first one.
unfoldable pub erase_first : ℕ → List ℕ → List ℕ
erase_first p [] = []
erase_first p (q ∷ qs) = let rest = erase_first p qs in if q == p then qs else q ∷ rest

unfoldable pub unregister_plugin : (plugin : ℕ) → System → System
unregister_plugin p s = record s {
  plugins = erase_first p s.plugins;
  notices = s.notices ++ disable p ∷ deinit p ∷ [];
}
