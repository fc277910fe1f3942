-- ===== src/Commands/Steps.antt =====
-- The events that drive core/mavlink_commands.cpp, each handled in one step: a command is queued,
-- an acknowledgement comes in, the loop of `SystemImpl` calls `do_work`, or `run_once` of
-- core/timeout_handler.cpp takes a timeout of this object out of its map and calls it back.
use stealth_drone_purdue.Base.{ℕ, Bool, List, [], ◌∷◌, Option, none, some, ◌>>=◌}
use stealth_drone_purdue.Mavlink.{
  CommandInt, CommandLong, TimeoutCallback, commands_receive_timeout,
}
use stealth_drone_purdue.StdMap.{find, erase}
use stealth_drone_purdue.SystemImpl.{Surroundings}
use stealth_drone_purdue.TimeoutHandler.{Timeout}
use stealth_drone_purdue.Commands.{
  Commands, CommandAck, queue_command_int_async, queue_command_long_async, receive_command_ack,
  receive_timeout, do_work,
}

pub data Event : Type 0 where
  queue_int : CommandInt → Option ℕ → Event
  queue_long : CommandLong → Option ℕ → Event
  ack : CommandAck → Event
  expire : (cookie : ℕ) → Event
  work : Event

-- `run_once` erases the entry of an expired timeout before it calls back.
abbrev pub erase_timeout : ℕ → Commands → Commands
erase_timeout cookie c = record c {
  parent = record (c.parent) {
    timeout_handler = record (c.parent.timeout_handler) {
      timeouts = erase cookie c.parent.timeout_handler.timeouts;
    };
  };
}

-- Whether a timeout is one of this object's.
abbrev pub calls_back : Option (Timeout TimeoutCallback) → Bool
calls_back none = Bool.false
calls_back (some t) = elim t.callback [
  | none ↦ Bool.false
  | some c ↦ elim c [ commands_receive_timeout ↦ Bool.true | _ ↦ Bool.false ]
]

abbrev pub has_timeout : ℕ → Commands → Bool
has_timeout cookie c = calls_back (find cookie c.parent.timeout_handler.timeouts)

abbrev pub on_expire : Bool → Surroundings → ℕ → Commands → Option Commands
on_expire Bool.false e cookie c = some c
on_expire Bool.true e cookie c = receive_timeout e (erase_timeout cookie c)

unfoldable pub step : Surroundings → Event → Commands → Option Commands
step e (queue_int command callback) c = queue_command_int_async command callback c
step e (queue_long command callback) c = queue_command_long_async command callback c
step e (ack a) c = receive_command_ack e a c
step e (expire cookie) c = on_expire (has_timeout cookie c) e cookie c
step e work c = do_work e c

unfoldable pub run : List (Surroundings × Event) → Commands → Option Commands
run [] c = some c
run ((e, event) ∷ events) c = step e event c >>= run events
