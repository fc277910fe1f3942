-- ===== src/Commands.antt =====
-- core/mavlink_commands.h and core/mavlink_commands.cpp: one command at a time, retransmitted on
-- timeouts. A handler is a function of the whole object; `none` means that it waits for the mutex
-- of the work queue. `_state_mutex` is left out: it is free whenever a handler starts and when it
-- returns, and a handler runs alone (in two threads, `receive_timeout` and `receive_command_ack` take
-- it and the mutex of the queue in opposite orders).
pub mod Steps
pub mod Locking
pub mod Fifo
pub mod Timeouts
pub mod Timer
pub mod Retries
pub mod Progress
use stealth_drone_purdue.Base.{
  ℕ, zero, suc, ◌*◌, Bool, true, false, List, Option, none, some, ltb, ◌==◌, if◌then◌else◌, ◌>>=◌,
  ◌-◌,
}
use stealth_drone_purdue.Mavlink.{
  Message, command_int, command_long, CommandInt, CommandLong, CommandResult, success,
  connection_error, command_denied, timeout, UserCall, command_result, Float32, nan, one_f,
  commands_receive_timeout,
}
use stealth_drone_purdue.SystemImpl.{
  SystemImpl, Surroundings, send_message, register_timeout_handler, unregister_timeout_handler,
  call_user_callback,
}
use stealth_drone_purdue.LockedQueue.{
  LockedQueue, push_back, borrow_front, return_front, pop_front, write_front,
}

-- `idle` is `State::NONE`.
pub data State : Type 0 where
  idle waiting in_progress : State

pub record Work : Type 0 where
  pub retries_to_do : ℕ
  pub timeout_ms : ℕ
  pub mavlink_command : ℕ
  pub mavlink_message : Message
  pub callback : Option ℕ

pub record Commands : Type 0 where
  pub state : State
  pub work_queue : LockedQueue Work
  pub timeout_cookie : ℕ
  pub parent : SystemImpl

-- The fields of `mavlink_command_ack_t` that are read.
pub record CommandAck : Type 0 where
  pub command : ℕ
  pub result : ℕ
  pub progress : ℕ

abbrev new_work : Message → ℕ → Option ℕ → Work
new_work message command callback = record {
  retries_to_do = 3;
  timeout_ms = 500;
  mavlink_command = command;
  mavlink_message = message;
  callback = callback;
}

pub queue_command_int_async : CommandInt → Option ℕ → Commands → Option Commands
queue_command_int_async command callback c = do
  queue ← push_back (new_work (command_int command) command.command callback) c.work_queue
  some (record c { work_queue = queue })

pub queue_command_long_async : CommandLong → Option ℕ → Commands → Option Commands
queue_command_long_async command callback c = do
  queue ← push_back (new_work (command_long command) command.command callback) c.work_queue
  some (record c { work_queue = queue })

call_callback : Option ℕ → CommandResult → Float32 → SystemImpl → SystemImpl
call_callback none result progress s = s
call_callback (some callback) result progress s =
    call_user_callback (command_result callback result progress) s

-- The end of a command: back to `State::NONE`, the work popped, its callback called.
pub complete : Work → CommandResult → Float32 → Commands → Commands
complete work result progress c = record c {
  state = idle;
  work_queue = pop_front c.work_queue;
  parent = call_callback work.callback result progress c.parent;
}

pub release : Commands → Commands
release c = record c { work_queue = return_front c.work_queue }

-- `register_timeout_handler` with `&_timeout_cookie`.
pub start_timeout : Surroundings → ℕ → Commands → Commands
start_timeout e duration_ms c = record c {
  timeout_cookie = e.address;
  parent = register_timeout_handler e commands_receive_timeout duration_ms c.parent;
}

pub stop_timeout : Commands → Commands
stop_timeout c = record c { parent = unregister_timeout_handler c.timeout_cookie c.parent }

abbrev mav_result_accepted : ℕ
mav_result_accepted = 0

abbrev mav_result_temporarily_rejected : ℕ
mav_result_temporarily_rejected = 1

abbrev mav_result_denied : ℕ
mav_result_denied = 2

abbrev mav_result_unsupported : ℕ
mav_result_unsupported = 3

abbrev mav_result_failed : ℕ
mav_result_failed = 4

abbrev mav_result_in_progress : ℕ
mav_result_in_progress = 5

-- The `switch` over the result of an acknowledgement of the command at the front.
pub acknowledge : Surroundings → CommandAck → Work → Commands → Commands
acknowledge e ack work c =
    if ack.result == mav_result_accepted
    then complete work success one_f (stop_timeout c)
    else if ack.result == mav_result_denied
    then complete work command_denied nan (stop_timeout c)
    else if ack.result == mav_result_unsupported
    then complete work command_denied nan (stop_timeout c)
    else if ack.result == mav_result_temporarily_rejected
    then complete work command_denied nan (stop_timeout c)
    else if ack.result == mav_result_failed
    then complete work command_denied nan (stop_timeout c)
    else if ack.result == mav_result_in_progress
    then release (
        start_timeout e (work.retries_to_do * work.timeout_ms)
          (stop_timeout (record c { state = in_progress })))
    else release c

pub receive_command_ack : Surroundings → CommandAck → Commands → Option Commands
receive_command_ack e ack c = do
  (front, queue) ← borrow_front c.work_queue
  let c' = record c { work_queue = queue }
  some (elim front [
    | none ↦ c'
    | some work ↦
        if work.mavlink_command == ack.command then acknowledge e ack work c' else release c'
  ])

-- The part of `receive_timeout` for the borrowed front, in `State::WAITING`.
pub retransmit : Surroundings → Work → Commands → Commands
retransmit e work c =
    if ltb 0 work.retries_to_do
    then (let sent = record c { parent = send_message e work.mavlink_message c.parent } in
        if e.connected
        then release (
            start_timeout e work.timeout_ms (record sent {
              work_queue =
                  write_front (record work { retries_to_do = work.retries_to_do - 1 })
                    sent.work_queue;
            }))
        else complete work connection_error nan sent)
    else complete work timeout nan c

time_out_waiting : Surroundings → Commands → Option Commands
time_out_waiting e c = do
  (front, queue) ← borrow_front c.work_queue
  let c' = record c { work_queue = queue }
  some (elim front [ none ↦ record c' { state = idle } | some work ↦ retransmit e work c' ])

time_out : Surroundings → State → Commands → Option Commands
time_out e waiting c = time_out_waiting e c
time_out e idle c = some c
time_out e in_progress c = some c

pub receive_timeout : Surroundings → Commands → Option Commands
receive_timeout e c = time_out e c.state c

-- The `switch` of `do_work` for the borrowed front.
pub start_work : Surroundings → State → Work → Commands → Commands
start_work e idle work c =
    let sent = record c { parent = send_message e work.mavlink_message c.parent } in
    if e.connected
    then release (start_timeout e work.timeout_ms (record sent { state = waiting }))
    else complete work connection_error nan sent
start_work e waiting work c = release c
start_work e in_progress work c = release c

pub do_work : Surroundings → Commands → Option Commands
do_work e c = do
  (front, queue) ← borrow_front c.work_queue
  let c' = record c { work_queue = queue }
  some (elim front [ none ↦ c' | some work ↦ start_work e c'.state work c' ])
