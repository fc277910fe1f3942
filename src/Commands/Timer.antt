-- ===== src/Commands/Timer.antt =====
-- The timeout of core/mavlink_commands.cpp: when one is registered, and under which cookie.
use stealth_drone_purdue.Base.{
  ℕ, ◌≡◌, refl, ◌≢◌, ◌⊎◌, inl, inr, Bool, [], arith, Holds, ◌==◌, Bool-cases, if_both,
}
use stealth_drone_purdue.SystemImpl.{Surroundings}
use stealth_drone_purdue.StdMap.{find-erase}
use stealth_drone_purdue.LockedQueue.{push_back, borrow_front-cases, hold}
use stealth_drone_purdue.Commands.{
  Commands, State, receive_command_ack, receive_timeout, do_work, time_out, time_out_waiting,
  queue_command_int_async, queue_command_long_async, CommandAck,
}
use stealth_drone_purdue.Commands.Locking.{IsFree}
use stealth_drone_purdue.Commands.Steps.{Event, step, erase_timeout, has_timeout, on_expire}
use stealth_drone_purdue.Commands.Timeouts.{
  Timed, IsFresh, IsQuiet, has_timeout-erase, release-Timed, acknowledge-Timed, retransmit-Timed,
  start_work-Timed,
}

receive_command_ack-Timed :
    (e : Surroundings) (ack : CommandAck) (c : Commands)
    → IsFree c
    → IsFresh e c
    → Timed c
    → Holds Timed (receive_command_ack e ack c)
unfolding receive_command_ack
receive_command_ack-Timed e ack c free fresh t = elim (borrow_front-cases c.work_queue free) [
  | inl (_, p) ↦ rw p t
  | inr (work, queue, h, p) ↦
      let lent = record c { work_queue = hold c.work_queue } in
      let t' : Timed lent = record { busy = t.busy; armed = t.armed; only = t.only } in
      rw p (
        if_both Timed (work.mavlink_command == ack.command)
          (acknowledge-Timed e ack work lent fresh t' (λ q. ground arith)) (release-Timed lent t'))
]

quiet-Timed :
    (c : Commands)
    → IsQuiet c
    → c.state ≢ State.waiting
    → (c.state ≡ State.idle) ⊎ (c.work_queue.queue ≢ [])
    → Timed c
quiet-Timed c quiet not_waiting busy = record {
  busy = busy;
  armed = λ h. absurd (not_waiting h);
  only = λ k h. cc (quiet k);
}

-- A timeout that has been taken out of the map finds the object with no other.
time_out-Timed :
    (e : Surroundings) (s : State) (c : Commands)
    → c.state ≡ s
    → IsFree c
    → IsFresh e c
    → IsQuiet c
    → (c.state ≡ State.idle) ⊎ (c.work_queue.queue ≢ [])
    → Holds Timed (time_out e s c)
unfolding time_out time_out_waiting
time_out-Timed e State.idle c h free fresh quiet busy = quiet-Timed c quiet (λ w. cc) busy
time_out-Timed e State.in_progress c h free fresh quiet busy = quiet-Timed c quiet (λ w. cc) busy
time_out-Timed e State.waiting c h free fresh quiet busy =
    elim (borrow_front-cases c.work_queue free) [
      | inl (_, p) ↦ rw p (quiet-Timed (record c { state = State.idle }) quiet (λ w. cc) (inl refl))
      | inr (work, queue, q, p) ↦ rw p (
          retransmit-Timed e work (record c { work_queue = hold c.work_queue }) fresh quiet
            (λ w. cc) (λ w. cc))
    ]

do_work-Timed :
    (e : Surroundings) (c : Commands) → IsFree c → IsFresh e c → Timed c → Holds Timed (do_work e c)
unfolding do_work
do_work-Timed e c free fresh t = elim (borrow_front-cases c.work_queue free) [
  | inl (_, p) ↦ rw p t
  | inr (work, queue, h, p) ↦
      let lent = record c { work_queue = hold c.work_queue } in
      let t' : Timed lent = record { busy = t.busy; armed = t.armed; only = t.only } in
      rw p (start_work-Timed e c.state work lent refl fresh t' (λ q. ground arith))
]

on_expire-Timed :
    (b : Bool) (e : Surroundings) (cookie : ℕ) (c : Commands)
    → IsFree c
    → IsFresh e c
    → Timed c
    → has_timeout cookie c ≡ b
    → Holds Timed (on_expire b e cookie c)
unfolding receive_timeout
on_expire-Timed Bool.false e cookie c free fresh t h = t
on_expire-Timed Bool.true e cookie c free fresh t h =
    time_out-Timed e c.state (erase_timeout cookie c) refl free
      (ground (arith, find-erase cookie e.address c.parent.timeout_handler.timeouts)) quiet t.busy
  where
    quiet : IsQuiet (erase_timeout cookie c)
    quiet k = elim (Bool-cases (has_timeout k c)) [
      | inl g ↦ ground (arith, has_timeout-erase cookie c k, t.only k g, t.only cookie h)
      | inr g ↦ ground (arith, has_timeout-erase cookie c k)
    ]

-- While the work queue is free, every event returns and keeps the timeout in step with the state,
-- as long as the allocator gives new timeouts new addresses: in `State::WAITING` the one registered timeout of
-- this object is that of its cookie, in `State::NONE` there is none, and the queue is not empty
-- while a command is under way.
pub step-Timed :
    (e : Surroundings) (event : Event) (c : Commands)
    → IsFree c
    → IsFresh e c
    → Timed c
    → Holds Timed (step e event c)
unfolding step queue_command_int_async queue_command_long_async push_back receive_timeout
step-Timed e (Event.queue_int command callback) c free fresh t =
    rw free (record { busy = ground arith; armed = t.armed; only = t.only })
step-Timed e (Event.queue_long command callback) c free fresh t =
    rw free (record { busy = ground arith; armed = t.armed; only = t.only })
step-Timed e (Event.ack a) c free fresh t = receive_command_ack-Timed e a c free fresh t
step-Timed e (Event.expire cookie) c free fresh t =
    on_expire-Timed (has_timeout cookie c) e cookie c free fresh t refl
step-Timed e Event.work c free fresh t = do_work-Timed e c free fresh t
