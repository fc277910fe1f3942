-- ===== src/SystemImpl.antt =====
-- What the plugins see of `SystemImpl` (core/system_impl.cpp): the timeout handler, the
-- connection, the thread pool for user callbacks, and what is known of the autopilot.
pub mod Discovery
pub mod Events
pub mod Handlers
pub mod Watched
pub mod HandlerTable
pub mod Shrinking
pub mod Deliveries
pub mod Components
pub mod Plugins
use stealth_drone_purdue.Base.{ℕ, ◌≡◌, arith, Bool, List, [], ◌∷◌, ◌++◌, some, if◌then◌else◌}
use stealth_drone_purdue.Mavlink.{Message, UserCall, TimeoutCallback}
use stealth_drone_purdue.TimeoutHandler.{TimeoutHandler, add, refresh, remove}

pub record SystemImpl : Type 0 where
  pub timeout_handler : TimeoutHandler TimeoutCallback
  -- The messages that a connection has taken, oldest first.
  pub outbox : List Message
  -- The calls queued on the thread pool, oldest first.
  pub user_calls : List UserCall
  pub system_id : ℕ
  pub autopilot_id : ℕ
  pub supports_mission_int : Bool

-- What the surroundings decide while one handler runs: the steady clock, the address that the
-- allocator gives to a new timeout, and whether the connections take a message.
pub record Surroundings : Type 0 where
  pub now : ℕ
  pub address : ℕ
  pub connected : Bool

-- `send_message`; its result is `e.connected`.
unfoldable pub send_message : Surroundings → Message → SystemImpl → SystemImpl
send_message e message s = if e.connected then record s { outbox = s.outbox ++ message ∷ [] } else s

pub send_message-timeout_handler :
    (e : Surroundings) (message : Message) (s : SystemImpl)
    → (send_message e message s).timeout_handler ≡ s.timeout_handler
unfolding send_message
send_message-timeout_handler e message s = ground arith

send_message-user_calls :
    (e : Surroundings) (message : Message) (s : SystemImpl)
    → (send_message e message s).user_calls ≡ s.user_calls
unfolding send_message
send_message-user_calls e message s = ground arith

unfoldable pub register_timeout_handler :
    Surroundings → TimeoutCallback → ℕ → SystemImpl → SystemImpl
register_timeout_handler e callback duration_ms s = record s {
  timeout_handler = add e.now e.address (some callback) duration_ms s.timeout_handler;
}

unfoldable pub refresh_timeout_handler : Surroundings → (cookie : ℕ) → SystemImpl → SystemImpl
refresh_timeout_handler e cookie s = record s {
  timeout_handler = refresh e.now cookie s.timeout_handler;
}

unfoldable pub unregister_timeout_handler : (cookie : ℕ) → SystemImpl → SystemImpl
unregister_timeout_handler cookie s = record s { timeout_handler = remove cookie s.timeout_handler }

unfoldable pub call_user_callback : UserCall → SystemImpl → SystemImpl
call_user_callback call s = record s { user_calls = s.user_calls ++ call ∷ [] }
