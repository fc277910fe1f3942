-- ===== src/SystemImpl/Plugins.antt =====
-- The plugins of a system in core/system_impl.cpp are enabled while it is connected.
use stealth_drone_purdue.Base.{
  ℕ, ◌+◌, ◌≤◌, ◌^◌, ◌%◌, ◌≡◌, refl, Bool, true, false, not, ◌&&◌, List, [], ◌∷◌, ◌++◌, map, Option,
  none, some, ◌==◌, leb, if◌then◌else◌, length, arith, Option-cases, inl, inr, count_of,
  count_of-append, if_both,
}
use stealth_drone_purdue.StdMap.{find, erase}
use stealth_drone_purdue.SystemImpl.{Surroundings}
use stealth_drone_purdue.SystemImpl.Discovery.{
  System, SystemTimeout, heartbeats_timed_out, version_no_longer_pending, plugin_timeout, Notice,
  on_discover, on_timeout, init, enable, disable, deinit, Heartbeat, comp_id_autopilot1,
  is_autopilot, have_uuid, add_new_component, register_component_discovered_callback,
  send_command_async, request_autopilot_version, set_connected, set_disconnected, find_uuid,
  process_heartbeat, version_uuid, process_autopilot_version, call, time_out, register_plugin,
  unregister_plugin, has_flag, has_component, erase_first, capabilities_command,
}
use stealth_drone_purdue.Mavlink.{CommandLong}
use stealth_drone_purdue.SystemImpl.Events.{
  Event, heartbeat_comes, version_comes, timeout_comes, component_comes, callback_is_set,
  plugin_comes, plugin_goes, happen, happen_all,
}

-- Whether a plugin is enabled after the notices, from whether it was before.
abbrev enabled_after : (plugin : ℕ) → Bool → List Notice → Bool
enabled_after p b [] = b
enabled_after p b (enable q ∷ notices) = enabled_after p (if q == p then true else b) notices
enabled_after p b (disable q ∷ notices) = enabled_after p (if q == p then false else b) notices
enabled_after p b (on_discover uuid ∷ notices) = enabled_after p b notices
enabled_after p b (on_timeout uuid ∷ notices) = enabled_after p b notices
enabled_after p b (init q ∷ notices) = enabled_after p b notices
enabled_after p b (deinit q ∷ notices) = enabled_after p b notices

-- A plugin is registered once at most, and enabled exactly if it is registered and the system is
-- connected.
abbrev pub IsEnabledRight : System → Type 0
IsEnabledRight s =
    (p : ℕ)
    → (count_of p s.plugins ≤ 1)
      × (enabled_after p false s.notices ≡ (s.connected && not (count_of p s.plugins == 0)))

-- A plugin that is registered is not registered already.
abbrev IsNew : Event → System → Type 0
IsNew (plugin_comes p) s = count_of p s.plugins ≡ 0
IsNew (plugin_goes p) s = Unit
IsNew (heartbeat_comes m) s = Unit
IsNew (version_comes m) s = Unit
IsNew (timeout_comes cookie) s = Unit
IsNew (component_comes id) s = Unit
IsNew (callback_is_set callback) s = Unit

abbrev pub AllNew : List (Surroundings × Event) → System → Type 0
AllNew [] s = Unit
AllNew ((e, event) ∷ events) s = IsNew event s × AllNew events (happen e event s)

enabled_after-append :
    (p : ℕ) (xs ys : List Notice) (b : Bool)
    → enabled_after p b (xs ++ ys) ≡ enabled_after p (enabled_after p b xs) ys
enabled_after-append p [] ys b = refl
enabled_after-append p (enable q ∷ xs) ys b =
    enabled_after-append p xs ys (if q == p then true else b)
enabled_after-append p (disable q ∷ xs) ys b =
    enabled_after-append p xs ys (if q == p then false else b)
enabled_after-append p (on_discover uuid ∷ xs) ys b = enabled_after-append p xs ys b
enabled_after-append p (on_timeout uuid ∷ xs) ys b = enabled_after-append p xs ys b
enabled_after-append p (init q ∷ xs) ys b = enabled_after-append p xs ys b
enabled_after-append p (deinit q ∷ xs) ys b = enabled_after-append p xs ys b

enabled_after-enable :
    (p : ℕ) (qs : List ℕ) (b : Bool)
    → enabled_after p b (map enable qs) ≡ (if count_of p qs == 0 then b else true)
enabled_after-enable p [] b = ground arith
enabled_after-enable p (q ∷ qs) b =
    ground (arith, enabled_after-enable p qs (if q == p then true else b))

enabled_after-disable :
    (p : ℕ) (qs : List ℕ) (b : Bool)
    → enabled_after p b (map disable qs) ≡ (if count_of p qs == 0 then b else false)
enabled_after-disable p [] b = ground arith
enabled_after-disable p (q ∷ qs) b =
    ground (arith, enabled_after-disable p qs (if q == p then false else b))

erase_first-count :
    (p q : ℕ) (qs : List ℕ)
    → count_of q qs ≤ 1
    → count_of q (erase_first p qs) ≡ (if p == q then 0 else count_of q qs)
unfolding erase_first
erase_first-count p q [] h = ground arith
erase_first-count p q (x ∷ qs) h = ground (arith, erase_first-count p q qs)

set_connected-IsEnabledRight :
    (e : Surroundings) (s : System) → IsEnabledRight s → IsEnabledRight (set_connected e s)
unfolding set_connected
set_connected-IsEnabledRight e s h p = ground (
  arith,
  h p,
  enabled_after-append p s.notices (on_discover s.uuid ∷ map enable s.plugins) false,
  enabled_after-enable p s.plugins (enabled_after p false s.notices),
)

set_disconnected-IsEnabledRight :
    (s : System) → IsEnabledRight s → IsEnabledRight (set_disconnected s)
unfolding set_disconnected
set_disconnected-IsEnabledRight s h p = ground (
  arith,
  h p,
  enabled_after-append p s.notices (on_timeout s.uuid ∷ map disable s.plugins) false,
  enabled_after-disable p s.plugins (enabled_after p false s.notices),
)

-- A step that neither connects the system nor changes its plugins keeps this.
abbrev Agrees : (s s' : System) → Type 0
Agrees s s' = (s'.plugins ≡ s.plugins) × (s'.connected ≡ s.connected) × (s'.notices ≡ s.notices)

Agrees-IsEnabledRight : (s s' : System) → Agrees s s' → IsEnabledRight s → IsEnabledRight s'
Agrees-IsEnabledRight s s' (plugins, connected, notices) h p =
    rw (plugins, connected, notices) (h p)

send-Agrees : (c : CommandLong) (s : System) → Agrees s (send_command_async c s)
unfolding send_command_async
send-Agrees c s =
    if_both (Agrees s) ((s.system_id == 0) && (length s.components == 0)) (refl, refl, refl)
      (refl, refl, refl)

request-Agrees : (e : Surroundings) (s : System) → Agrees s (request_autopilot_version e s)
unfolding request_autopilot_version
request-Agrees e s =
    if_both (Agrees s) s.uuid_initialized (refl, refl, refl)
      (send-Agrees (capabilities_command s) (record s { autopilot_version_pending = true }))

find_uuid-Agrees : (e : Surroundings) (m : Heartbeat) (s : System) → Agrees s (find_uuid e m s)
unfolding find_uuid
find_uuid-Agrees e m s =
    if_both (Agrees s) (is_autopilot m.compid && not (have_uuid s)) (request-Agrees e s) (
      if_both (Agrees s) (not (is_autopilot m.compid) && not (have_uuid s))
        (if_both (Agrees s) (leb 10 ((s.non_autopilot_heartbeats + 1) % 2 ^ 8)) (refl, refl, refl)
          (refl, refl, refl))
        (refl, refl, refl))

call-IsEnabledRight :
    (o : Option SystemTimeout) (s : System) → IsEnabledRight s → IsEnabledRight (call o s)
unfolding call
call-IsEnabledRight (some heartbeats_timed_out) s h = set_disconnected-IsEnabledRight s h
call-IsEnabledRight (some version_no_longer_pending) s h = h
call-IsEnabledRight (some (plugin_timeout n)) s h = h
call-IsEnabledRight none s h = h

happen-IsEnabledRight :
    (e : Surroundings) (event : Event) (s : System)
    → IsNew event s
    → IsEnabledRight s
    → IsEnabledRight (happen e event s)
unfolding happen process_heartbeat process_autopilot_version time_out add_new_component
    register_component_discovered_callback register_plugin unregister_plugin
happen-IsEnabledRight e (heartbeat_comes m) s new h =
    let seen =
      if m.compid == comp_id_autopilot1
      then record s { armed = has_flag 7 m.base_mode; hitl_enabled = has_flag 5 m.base_mode }
      else s in
    set_connected-IsEnabledRight e (find_uuid e m seen) (
      Agrees-IsEnabledRight seen (find_uuid e m seen) (find_uuid-Agrees e m seen)
        (if_both IsEnabledRight (m.compid == comp_id_autopilot1) h h))
happen-IsEnabledRight e (version_comes m) s new h =
    if_both IsEnabledRight (m.compid == comp_id_autopilot1)
      (set_connected-IsEnabledRight e
        (record s {
          supports_mission_int = has_flag 2 m.capabilities;
          uuid = version_uuid m s;
          uuid_initialized = true;
        })
        h)
      h
happen-IsEnabledRight e (timeout_comes cookie) s new h =
    elim (Option-cases (find cookie s.timeout_handler.timeouts)) [
      | inl gone ↦ rw (time_out, gone) h
      | inr (t, found) ↦
          rw (time_out, found)
            (call-IsEnabledRight t.callback
              (record s {
                timeout_handler = record (s.timeout_handler) {
                  timeouts = erase cookie s.timeout_handler.timeouts;
                };
              })
              h)
    ]
happen-IsEnabledRight e (component_comes id) s new h =
    if_both IsEnabledRight (has_component id s.components) h h
happen-IsEnabledRight e (callback_is_set callback) s new h = h
happen-IsEnabledRight e (plugin_comes q) s new h = λ p. ground (
  arith,
  h p,
  count_of-append p q s.plugins,
  enabled_after-append p s.notices (init q ∷ (if s.connected then enable q ∷ [] else [])) false,
)
happen-IsEnabledRight e (plugin_goes q) s new h = λ p. ground (
  arith,
  h p,
  erase_first-count q p s.plugins,
  enabled_after-append p s.notices (disable q ∷ deinit q ∷ []) false,
)

-- From a state in which this holds, and whatever happens to a system, in whatever order, if no
-- plugin is registered while it is already: a plugin is registered once at most, and is enabled, by
-- the last that it was told, exactly while it is registered and the system is connected.
pub happen_all-IsEnabledRight :
    (events : List (Surroundings × Event)) (s : System)
    → AllNew events s
    → IsEnabledRight s
    → IsEnabledRight (happen_all events s)
unfolding happen_all
happen_all-IsEnabledRight [] s new h = h
happen_all-IsEnabledRight ((e, event) ∷ events) s (new, rest) h =
    happen_all-IsEnabledRight events (happen e event s) rest (happen-IsEnabledRight e event s new h)
