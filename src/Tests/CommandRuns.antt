-- ===== src/Tests/CommandRuns.antt =====
-- The theorems on core/mavlink_commands.cpp, applied to the command that arms the vehicle.
use stealth_drone_purdue.Base.{
  ◌≡◌, refl, inl, List, [], ◌∷◌, ◌++◌, some, arith, replicate, Holds, ◌>>=◌,
}
use stealth_drone_purdue.Mavlink.{CommandResult}
use stealth_drone_purdue.SystemImpl.{Surroundings}
use stealth_drone_purdue.Commands.{Commands, State, do_work}
use stealth_drone_purdue.Commands.Steps.{Event, step, run}
use stealth_drone_purdue.Commands.Locking.{IsFree}
use stealth_drone_purdue.Commands.Fifo.{run_fifo, accounted, submissions}
use stealth_drone_purdue.Commands.Timeouts.{Timed}
use stealth_drone_purdue.Commands.Timer.{step-Timed}
use stealth_drone_purdue.Commands.Retries.{do_work_unanswered, receive_timeouts, report}
use stealth_drone_purdue.Commands.Progress.{run_in_progress, IsStuck}
use stealth_drone_purdue.Tests.Data.{up, later, arm, arm_work, no_commands, one_command, arming}

abbrev two_commands : List (Surroundings × Event)
two_commands =
    (up, Event.queue_long arm (some 7))
    ∷ (up, Event.work)
    ∷ (later, Event.ack (record { command = 400; result = 0; progress = 0 }))
    ∷ (later, Event.queue_long arm (some 8))
    ∷ (later, Event.work)
    ∷ []

run_fifo_example :
    (c : Commands) × (run two_commands no_commands ≡ some c)
    × IsFree c
    × (accounted c ≡ accounted no_commands ++ submissions two_commands)
run_fifo_example = run_fifo two_commands no_commands refl

no_commands-Timed : Timed no_commands
no_commands-Timed = record {
  busy = inl refl;
  armed = λ h. ground arith;
  only = λ k h. ground arith;
}

step-Timed_example : Holds Timed (step up (Event.queue_long arm (some 7)) no_commands)
step-Timed_example =
    step-Timed up (Event.queue_long arm (some 7)) no_commands refl refl no_commands-Timed

do_work_unanswered_example :
    (c : Commands) × ((do_work up one_command
        >>= receive_timeouts ((later ∷ later ∷ later ∷ []) ++ up ∷ []))
      ≡ some c)
    × (c.state ≡ State.idle)
    × (c.work_queue.queue ≡ [])
    × (c.parent.outbox ≡ [] ++ replicate 4 arm_work.mavlink_message)
    × (c.parent.user_calls ≡ [] ++ report arm_work CommandResult.timeout)
do_work_unanswered_example =
    do_work_unanswered arm_work [] up (later ∷ later ∷ later ∷ []) up one_command refl refl refl
      refl refl (refl, (refl, (refl, tt)))

abbrev other_events : List (Surroundings × Event)
other_events =
    (later, Event.expire 4096)
    ∷ (later, Event.work)
    ∷ (later, Event.ack (record { command = 22; result = 0; progress = 0 }))
    ∷ []

run_in_progress_example : Holds (IsStuck arm_work arming) (run other_events arming)
run_in_progress_example =
    run_in_progress arm_work arming other_events arming (refl, (refl, (refl, tt)))
      (refl, refl, refl, refl, refl)
