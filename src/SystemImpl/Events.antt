-- ===== src/SystemImpl/Events.antt =====
-- What happens to a system of core/system_impl.cpp, and what holds of it all the while.
use stealth_drone_purdue.Base.{
  ℕ, ◌≡◌, refl, Bool, true, false, ◌&&◌, List, [], ◌∷◌, ◌++◌, map, Option, none, some, ◌==◌, arith,
  ◌>>=◌,
}
use stealth_drone_purdue.TimeoutHandler.{Timeout}
use stealth_drone_purdue.TimeoutHandler.Laws.{registered}
use stealth_drone_purdue.SystemImpl.{Surroundings}
use stealth_drone_purdue.SystemImpl.Discovery.{
  System, SystemTimeout, heartbeats_timed_out, Notice, on_discover, on_timeout, init, enable,
  disable, deinit, Heartbeat, AutopilotVersion, add_new_component,
  register_component_discovered_callback, process_heartbeat, process_autopilot_version, time_out,
  register_plugin, unregister_plugin,
}

-- What happens to a system.
pub data Event : Type 0 where
  heartbeat_comes : Heartbeat → Event
  version_comes : AutopilotVersion → Event
  timeout_comes : (cookie : ℕ) → Event
  component_comes : (component_id : ℕ) → Event
  callback_is_set : Option ℕ → Event
  plugin_comes plugin_goes : (plugin : ℕ) → Event

unfoldable pub happen : Surroundings → Event → System → System
happen e (heartbeat_comes m) s = process_heartbeat e m s
happen e (version_comes m) s = process_autopilot_version e m s
happen e (timeout_comes cookie) s = time_out cookie s
happen e (component_comes id) s = add_new_component id s
happen e (callback_is_set callback) s = register_component_discovered_callback callback s
happen e (plugin_comes p) s = register_plugin p s
happen e (plugin_goes p) s = unregister_plugin p s

unfoldable pub happen_all : List (Surroundings × Event) → System → System
happen_all [] s = s
happen_all ((e, event) ∷ events) s = happen_all events (happen e event s)

-- The allocator gives a new timeout an address that no timeout has.
abbrev pub IsFresh : Surroundings → System → Type 0
IsFresh e s = registered e.address s.timeout_handler ≡ none

abbrev pub AllFresh : List (Surroundings × Event) → System → Type 0
AllFresh [] s = Unit
AllFresh ((e, event) ∷ events) s = IsFresh e s × AllFresh events (happen e event s)

abbrev pub is_heartbeat_timeout : Option (Timeout SystemTimeout) → Bool
is_heartbeat_timeout none = false
is_heartbeat_timeout (some t) = elim t.callback [ some heartbeats_timed_out ↦ true | _ ↦ false ]

-- Discovery and loss in turn, from a system that is connected or not: whether it is at the end.
abbrev pub follow : (connected : Bool) → List Notice → Option Bool
follow c [] = some c
follow false (on_discover uuid ∷ notices) = follow true notices
follow true (on_discover uuid ∷ notices) = none
follow true (on_timeout uuid ∷ notices) = follow false notices
follow false (on_timeout uuid ∷ notices) = none
follow c (init p ∷ notices) = follow c notices
follow c (enable p ∷ notices) = follow c notices
follow c (disable p ∷ notices) = follow c notices
follow c (deinit p ∷ notices) = follow c notices

-- A timeout that waits for heartbeats is the one under the heartbeat cookie, and the system is
-- connected.
abbrev pub IsAlone : System → Type 0
IsAlone s =
    (k : ℕ)
    → is_heartbeat_timeout (registered k s.timeout_handler) ≡ true
    → (s.connected && (k == s.heartbeat_timeout_cookie)) ≡ true

-- While the system is connected, its UUID is known, and the timeout under the heartbeat cookie waits
-- for heartbeats, unless this cookie is also the one remembered of the last version timeout.
abbrev pub IsHeard : System → Type 0
IsHeard s =
    s.connected ≡ true
    → (s.uuid_initialized ≡ true)
      × ((s.heartbeat_timeout_cookie == s.autopilot_version_timed_out_cookie) ≡ false
          → is_heartbeat_timeout (registered s.heartbeat_timeout_cookie s.timeout_handler) ≡ true)

abbrev pub IsInStep : System → Type 0
IsInStep s = IsAlone s × IsHeard s × (follow false s.notices ≡ some s.connected)

pub follow-append :
    (c : Bool) (xs ys : List Notice) → follow c (xs ++ ys) ≡ (follow c xs >>= λ c'. follow c' ys)
follow-append c [] ys = refl
follow-append false (on_discover uuid ∷ xs) ys = follow-append true xs ys
follow-append true (on_discover uuid ∷ xs) ys = refl
follow-append true (on_timeout uuid ∷ xs) ys = follow-append false xs ys
follow-append false (on_timeout uuid ∷ xs) ys = refl
follow-append c (init p ∷ xs) ys = follow-append c xs ys
follow-append c (enable p ∷ xs) ys = follow-append c xs ys
follow-append c (disable p ∷ xs) ys = follow-append c xs ys
follow-append c (deinit p ∷ xs) ys = follow-append c xs ys

pub follow-enable : (c : Bool) (ps : List ℕ) → follow c (map enable ps) ≡ some c
follow-enable c [] = ground arith
follow-enable c (p ∷ ps) = ground (arith, follow-enable c ps)

pub follow-disable : (c : Bool) (ps : List ℕ) → follow c (map disable ps) ≡ some c
follow-disable c [] = ground arith
follow-disable c (p ∷ ps) = ground (arith, follow-disable c ps)
