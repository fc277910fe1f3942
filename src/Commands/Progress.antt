-- ===== src/Commands/Progress.antt =====
-- What becomes of a command whose progress was acknowledged, in core/mavlink_commands.cpp.
use stealth_drone_purdue.Base.{
  ℕ, ◌≡◌, Bool, false, [], ◌∷◌, List, Option, none, some, arith, ◌==◌, All, Holds, >>=-Holds,
}
use stealth_drone_purdue.SystemImpl.{Surroundings}
use stealth_drone_purdue.LockedQueue.{push_back, borrow_front, return_front}
use stealth_drone_purdue.Commands.{
  Commands, State, Work, start_work, receive_timeout, do_work, time_out, release,
  receive_command_ack, queue_command_int_async, queue_command_long_async,
}
use stealth_drone_purdue.Commands.Locking.{IsFree}
use stealth_drone_purdue.Commands.Steps.{Event, step, run}

-- Whether an event is an acknowledgement of the command with this number.
abbrev answers : ℕ → Event → Bool
answers command (Event.ack a) = command == a.command
answers command _ = false

abbrev pub front : List Work → Option Work
front [] = none
front (work ∷ _) = some work

-- The command at the front is in progress; the user was called and the connection used as before.
abbrev pub IsStuck : Work → Commands → Commands → Type 0
IsStuck work before c =
    IsFree c
    × (c.state ≡ State.in_progress)
    × (front c.work_queue.queue ≡ some work)
    × (c.parent.user_calls ≡ before.parent.user_calls)
    × (c.parent.outbox ≡ before.parent.outbox)

module _ (work : Work) (before : Commands) where
  step-IsStuck :
      (e : Surroundings) (event : Event) (c : Commands)
      → answers work.mavlink_command event ≡ false
      → IsStuck work before c
      → Holds (IsStuck work before) (step e event c)
  unfolding step queue_command_int_async queue_command_long_async push_back receive_timeout time_out
      borrow_front receive_command_ack release return_front do_work start_work
  step-IsStuck e (Event.queue_int command callback) c no_answer h = ground arith
  step-IsStuck e (Event.queue_long command callback) c no_answer h = ground arith
  step-IsStuck e (Event.ack a) c no_answer h = ground arith
  step-IsStuck e (Event.expire cookie) c no_answer h = ground arith
  step-IsStuck e Event.work c no_answer h = ground arith

  -- Once progress has been acknowledged, only an acknowledgement can end the command: through any
  -- sequence of events with none of this command, expired timeouts included, it stays at the
  -- front in `State::IN_PROGRESS`, the user hears of no result and nothing is sent, neither for
  -- it nor for the commands behind it.
  pub run_in_progress :
      (events : List (Surroundings × Event)) (c : Commands)
      → All (λ p. answers work.mavlink_command p.1 ≡ false) events
      → IsStuck work before c
      → Holds (IsStuck work before) (run events c)
  unfolding run
  run_in_progress [] c none_answers h = h
  run_in_progress ((e, event) ∷ events) c none_answers h =
      >>=-Holds (IsStuck work before) (IsStuck work before) (step e event c) (run events)
        (step-IsStuck e event c none_answers.0 h) (λ c'. run_in_progress events c' none_answers.1)
