-- ===== src/Commands/Locking.antt =====
-- No handler of core/mavlink_commands.cpp waits for the work queue or keeps it.
use stealth_drone_purdue.Base.{◌≡◌, false, List, [], ◌∷◌, Option, arith, Holds, >>=-Holds}
use stealth_drone_purdue.SystemImpl.{Surroundings}
use stealth_drone_purdue.LockedQueue.{push_back, borrow_front, return_front, pop_front}
use stealth_drone_purdue.Commands.{
  Commands, State, Work, acknowledge, retransmit, start_work, receive_command_ack, receive_timeout,
  do_work, time_out, time_out_waiting, queue_command_int_async, queue_command_long_async,
  CommandAck, complete, release, start_timeout, stop_timeout,
}
use stealth_drone_purdue.Commands.Steps.{Event, step, run, erase_timeout}

abbrev pub IsFree : Commands → Type 0
IsFree c = c.work_queue.locked ≡ false

-- The handler returns, with the mutex of the queue free.
abbrev pub Returns : Option Commands → Type 0
Returns = Holds IsFree

acknowledge-IsFree :
    (e : Surroundings) (ack : CommandAck) (work : Work) (c : Commands)
    → IsFree (acknowledge e ack work c)
unfolding acknowledge complete release return_front pop_front start_timeout stop_timeout
acknowledge-IsFree e ack work c = ground arith

retransmit-IsFree : (e : Surroundings) (work : Work) (c : Commands) → IsFree (retransmit e work c)
unfolding retransmit complete release return_front pop_front start_timeout stop_timeout
retransmit-IsFree e work c = ground arith

start_work-IsFree :
    (e : Surroundings) (s : State) (work : Work) (c : Commands) → IsFree (start_work e s work c)
unfolding start_work complete release return_front pop_front start_timeout stop_timeout
start_work-IsFree e s work c = ground arith

receive_command_ack-Returns :
    (e : Surroundings) (ack : CommandAck) (c : Commands)
    → IsFree c
    → Returns (receive_command_ack e ack c)
unfolding receive_command_ack borrow_front release return_front
receive_command_ack-Returns e ack c free = grind (arith, acknowledge-IsFree)

time_out-Returns :
    (e : Surroundings) (s : State) (c : Commands) → IsFree c → Returns (time_out e s c)
unfolding time_out time_out_waiting borrow_front
time_out-Returns e State.waiting c free = grind (arith, retransmit-IsFree)
time_out-Returns e State.idle c free = free
time_out-Returns e State.in_progress c free = free

do_work-Returns : (e : Surroundings) (c : Commands) → IsFree c → Returns (do_work e c)
unfolding do_work borrow_front
do_work-Returns e c free = grind (arith, start_work-IsFree)

-- Every step returns.
pub step-Returns :
    (e : Surroundings) (event : Event) (c : Commands) → IsFree c → Returns (step e event c)
unfolding step receive_timeout queue_command_int_async queue_command_long_async push_back
step-Returns e (Event.queue_int command callback) c free = ground arith
step-Returns e (Event.queue_long command callback) c free = ground arith
step-Returns e (Event.ack a) c free = receive_command_ack-Returns e a c free
step-Returns e (Event.expire cookie) c free =
    ground (arith, time_out-Returns e c.state (erase_timeout cookie c))
step-Returns e Event.work c free = do_work-Returns e c free

run-Returns :
    (events : List (Surroundings × Event)) (c : Commands) → IsFree c → Returns (run events c)
unfolding run
run-Returns [] c free = free
run-Returns ((e, event) ∷ events) c free =
    >>=-Holds IsFree IsFree (step e event c) (run events) (step-Returns e event c free)
      (run-Returns events)
