-- ===== src/SystemImpl/Handlers.antt =====
-- The handlers of the messages in core/system_impl.cpp keep the timeout for heartbeats.
use stealth_drone_purdue.Base.{
  ℕ, ◌+◌, ◌%◌, ◌^◌, ◌≡◌, refl, sym, subst, ◌∙◌, inl, inr, true, false, not, ◌&&◌, ◌∷◌, ◌++◌, map,
  none, some, leb, ◌==◌, length, arith, Bool-cases,
}
use stealth_drone_purdue.TimeoutHandler.{add, refresh, remove}
use stealth_drone_purdue.TimeoutHandler.Laws.{
  registered, registered-add, registered-refresh, registered-remove,
}
use stealth_drone_purdue.SystemImpl.{Surroundings}
use stealth_drone_purdue.SystemImpl.Discovery.{
  System, heartbeats_timed_out, version_no_longer_pending, on_discover, enable, Heartbeat,
  AutopilotVersion, comp_id_autopilot1, heartbeat_timeout_ms, version_timeout_ms, is_autopilot,
  have_uuid, send_command_async, request_autopilot_version, set_connected, find_uuid, version_uuid,
  process_autopilot_version, has_flag,
}
use stealth_drone_purdue.SystemImpl.Events.{
  IsFresh, is_heartbeat_timeout, IsAlone, IsHeard, IsInStep, follow-append, follow-enable,
}

-- A new timeout that does not wait for heartbeats.
add_version-IsAlone :
    (e : Surroundings) (s : System) (k : ℕ)
    → registered e.address s.timeout_handler ≡ none
    → IsAlone s
    → is_heartbeat_timeout (
        registered k (
          add e.now e.address
            (some version_no_longer_pending)
            version_timeout_ms
            s.timeout_handler))
      ≡ true
    → (s.connected && (k == s.heartbeat_timeout_cookie)) ≡ true
add_version-IsAlone e s k free timeout waits = ground (
  arith,
  registered-add e.now e.address (some version_no_longer_pending) version_timeout_ms
      s.timeout_handler k free,
  timeout k,
  timeout s.heartbeat_timeout_cookie,
)

-- The version is asked for only while the system is not connected.
unknown :
    {A : Type 0} (e : Surroundings) (s : System)
    → IsHeard s
    → s.uuid_initialized ≡ false
    → s.connected ≡ true
    → A
unknown e s heard not_yet on = let known = (heard on).0 in absurd (ground arith)

request_autopilot_version-IsInStep :
    (e : Surroundings) (s : System)
    → IsFresh e s
    → IsInStep s
    → IsInStep (request_autopilot_version e s)
unfolding request_autopilot_version send_command_async
request_autopilot_version-IsInStep e s free (timeout, heard, turn) =
    elim (Bool-cases s.uuid_initialized) [
      | inl there ↦
          let same : request_autopilot_version e s ≡ s =
            rw (request_autopilot_version, there) refl in
          subst IsInStep (sym same) (timeout, heard, turn)
      | inr not_yet ↦ elim (Bool-cases ((s.system_id == 0) && (length s.components == 0))) [
        | inl nobody ↦
            rw (not_yet, nobody)
              ((λ k. add_version-IsAlone e s k free timeout), unknown e s heard not_yet, turn)
        | inr sent ↦
            rw (not_yet, sent)
              ((λ k. add_version-IsAlone e s k free timeout), unknown e s heard not_yet, turn)
      ]
    ]

set_connected_on :
    (e : Surroundings) (s : System)
    → s.connected ≡ true
    → set_connected e s
      ≡ record s { timeout_handler = refresh e.now s.heartbeat_timeout_cookie s.timeout_handler }
unfolding set_connected
set_connected_on e s on = rw (set_connected, on) refl

set_connected_new :
    (e : Surroundings) (s : System)
    → s.connected ≡ false
    → s.uuid_initialized ≡ true
    → set_connected e s ≡ record s {
      connected = true;
      timeout_handler =
          add e.now e.address (some heartbeats_timed_out) heartbeat_timeout_ms s.timeout_handler;
      heartbeat_timeout_cookie = e.address;
      notices = s.notices ++ on_discover s.uuid ∷ map enable s.plugins;
    }
unfolding set_connected
set_connected_new e s off there = rw (set_connected, off, there) refl

pub set_connected-IsInStep :
    (e : Surroundings) (s : System)
    → (s.uuid_initialized ≡ true → IsFresh e s)
    → IsInStep s
    → IsInStep (set_connected e s)
unfolding set_connected
set_connected-IsInStep e s fresh (timeout, heard, turn) = elim (Bool-cases s.connected) [
  | inl on ↦ subst IsInStep (sym (set_connected_on e s on)) (
    λ k waits. ground (
      arith,
      registered-refresh e.now s.heartbeat_timeout_cookie s.timeout_handler k,
      timeout k,
      timeout s.heartbeat_timeout_cookie,
    ),
    λ still. (
      (heard on).0,
      λ apart. ground (
        arith,
        registered-refresh e.now s.heartbeat_timeout_cookie s.timeout_handler
            s.heartbeat_timeout_cookie,
        (heard on).1 apart,
      ),
    ),
    turn,
  )
  | inr off ↦ elim (Bool-cases s.uuid_initialized) [
    | inl there ↦ subst IsInStep (sym (set_connected_new e s off there)) (
      λ k waits. ground (
        arith,
        registered-add e.now e.address (some heartbeats_timed_out) heartbeat_timeout_ms
            s.timeout_handler k (fresh there),
        timeout k,
      ),
      λ on. (
        there,
        λ apart. ground (
          arith,
          registered-add e.now e.address (some heartbeats_timed_out) heartbeat_timeout_ms
              s.timeout_handler e.address (fresh there),
        ),
      ),
      ground (
        arith,
        follow-append false s.notices (on_discover s.uuid ∷ map enable s.plugins),
        follow-enable true s.plugins,
      ),
    )
    | inr not_yet ↦ ground arith
  ]
]

IsInStep-remove :
    (s : System)
    → IsInStep s
    → IsInStep (record s {
      autopilot_version_pending = false;
      timeout_handler = remove s.autopilot_version_timed_out_cookie s.timeout_handler;
    })
IsInStep-remove s (timeout, heard, turn) = (
  λ k waits. ground (
    arith,
    registered-remove s.autopilot_version_timed_out_cookie s.timeout_handler k,
    timeout k,
  ),
  λ on. (
    (heard on).0,
    λ apart. ground (
      arith,
      registered-remove s.autopilot_version_timed_out_cookie s.timeout_handler
          s.heartbeat_timeout_cookie,
      (heard on).1 apart,
    ),
  ),
  turn,
)

pub process_autopilot_version-IsInStep :
    (e : Surroundings) (m : AutopilotVersion) (s : System)
    → IsFresh e s
    → IsInStep s
    → IsInStep (process_autopilot_version e m s)
unfolding process_autopilot_version
process_autopilot_version-IsInStep e m s fresh watched =
    elim (Bool-cases (m.compid == comp_id_autopilot1)) [
      | inr not_autopilot ↦ rw not_autopilot watched
      | inl from_autopilot ↦
          let known = record s {
            supports_mission_int = has_flag 2 m.capabilities;
            uuid = version_uuid m s;
            uuid_initialized = true;
          } in
          rw from_autopilot (
            IsInStep-remove (set_connected e known) (
              set_connected-IsInStep e known (λ there. fresh)
                (watched.0, (λ on. (refl, (watched.1 on).1)), watched.2)))
    ]

pub find_uuid-IsInStep :
    (e : Surroundings) (m : Heartbeat) (s : System)
    → IsFresh e s
    → IsInStep s
    → IsInStep (find_uuid e m s)
unfolding find_uuid
find_uuid-IsInStep e m s fresh watched =
    elim (Bool-cases (is_autopilot m.compid && not (have_uuid s))) [
      | inl a ↦ rw a (request_autopilot_version-IsInStep e s fresh watched)
      | inr a ↦ elim (Bool-cases (not (is_autopilot m.compid) && not (have_uuid s))) [
        | inr b ↦ rw (a, b) watched
        | inl b ↦ elim (Bool-cases (leb 10 ((s.non_autopilot_heartbeats + 1) % 2 ^ 8))) [
          | inl c ↦ rw (a, b, c) (watched.0, (λ on. (refl, (watched.1 on).1)), watched.2)
          | inr c ↦ rw (a, b, c) watched
        ]
      ]
    ]

request_initialized :
    (e : Surroundings) (s : System)
    → (request_autopilot_version e s).uuid_initialized ≡ s.uuid_initialized
unfolding request_autopilot_version send_command_async
request_initialized e s = elim (Bool-cases ((s.system_id == 0) && (length s.components == 0))) [
  | inl nobody ↦ ground arith
  | inr sent ↦ ground arith
]

request-IsFresh :
    (e : Surroundings) (s : System)
    → IsFresh e s
    → (request_autopilot_version e s).uuid_initialized ≡ true
    → IsFresh e (request_autopilot_version e s)
unfolding request_autopilot_version
request-IsFresh e s fresh there =
    let known : s.uuid_initialized ≡ true = sym (request_initialized e s) ∙ there in
    rw (request_autopilot_version, known) fresh

-- A heartbeat after which a UUID is known has not used the address.
pub find_uuid-IsFresh :
    (e : Surroundings) (m : Heartbeat) (s : System)
    → IsFresh e s
    → (find_uuid e m s).uuid_initialized ≡ true
    → IsFresh e (find_uuid e m s)
unfolding find_uuid
find_uuid-IsFresh e m s fresh there =
    elim (Bool-cases (is_autopilot m.compid && not (have_uuid s))) [
      | inl a ↦ rw (find_uuid, a) (request-IsFresh e s fresh (rw (find_uuid, a) at there))
      | inr a ↦ elim (Bool-cases (not (is_autopilot m.compid) && not (have_uuid s))) [
        | inr b ↦ rw (find_uuid, a, b) fresh
        | inl b ↦ elim (Bool-cases (leb 10 ((s.non_autopilot_heartbeats + 1) % 2 ^ 8))) [
          | inl c ↦ rw (find_uuid, a, b, c) fresh
          | inr c ↦ rw (find_uuid, a, b, c) fresh
        ]
      ]
    ]
