-- ===== src/Commands/Timeouts.antt =====
-- When a timeout of core/mavlink_commands.cpp is registered, and under which cookie.
use stealth_drone_purdue.Base.{
  ℕ, ◌≡◌, refl, ◌≢◌, ◌⊎◌, inl, inr, true, false, [], none, some, arith, ◌==◌, if◌then◌else◌,
  Bool-cases, if_both, ltb, ◌-◌, ◌*◌,
}
use stealth_drone_purdue.Mavlink.{CommandResult, Float32, nan, one_f, commands_receive_timeout}
use stealth_drone_purdue.SystemImpl.{
  Surroundings, send_message, send_message-timeout_handler, register_timeout_handler,
  unregister_timeout_handler, call_user_callback,
}
use stealth_drone_purdue.StdMap.{find, find-erase}
use stealth_drone_purdue.TimeoutHandler.Laws.{registered-add, registered-remove}
use stealth_drone_purdue.LockedQueue.{return_front, write_front}
use stealth_drone_purdue.Commands.{
  Commands, State, Work, acknowledge, retransmit, start_work, CommandAck, call_callback,
  start_timeout, stop_timeout, complete, release,
}
use stealth_drone_purdue.Commands.Steps.{erase_timeout, has_timeout}

-- The allocator's address for a new timeout is not that of a registered one.
abbrev pub IsFresh : Surroundings → Commands → Type 0
IsFresh e c = find e.address c.parent.timeout_handler.timeouts ≡ none

pub record Timed (c : Commands) : Type 0 where
  -- A command is under way only with one in the queue.
  pub busy : (c.state ≡ State.idle) ⊎ (c.work_queue.queue ≢ [])
  -- In `State::WAITING` the timeout under the cookie is registered.
  pub armed : c.state ≡ State.waiting → has_timeout c.timeout_cookie c ≡ true
  -- No other timeout calls this object back, and none does in `State::NONE`.
  pub only : (k : ℕ) → has_timeout k c ≡ true → (k ≡ c.timeout_cookie) × (c.state ≢ State.idle)

-- No timeout calls this object back.
abbrev pub IsQuiet : Commands → Type 0
IsQuiet c = (k : ℕ) → has_timeout k c ≡ false

has_timeout-start :
    (e : Surroundings) (duration_ms : ℕ) (c : Commands) (k : ℕ)
    → IsFresh e c
    → has_timeout k (start_timeout e duration_ms c)
      ≡ (if e.address == k then true else has_timeout k c)
unfolding start_timeout register_timeout_handler
has_timeout-start e duration_ms c k fresh = ground (
  arith,
  registered-add e.now e.address (some commands_receive_timeout) duration_ms
      c.parent.timeout_handler k fresh,
)

has_timeout-stop :
    (c : Commands) (k : ℕ)
    → has_timeout k (stop_timeout c) ≡ (if c.timeout_cookie == k then false else has_timeout k c)
unfolding stop_timeout unregister_timeout_handler
has_timeout-stop c k = ground (arith, registered-remove c.timeout_cookie c.parent.timeout_handler k)

pub has_timeout-erase :
    (cookie : ℕ) (c : Commands) (k : ℕ)
    → has_timeout k (erase_timeout cookie c) ≡ (if cookie == k then false else has_timeout k c)
has_timeout-erase cookie c k = ground (arith, find-erase cookie k c.parent.timeout_handler.timeouts)

stop-IsQuiet :
    (c : Commands)
    → ((k : ℕ) → has_timeout k c ≡ true → k ≡ c.timeout_cookie)
    → IsQuiet (stop_timeout c)
stop-IsQuiet c only k = elim (Bool-cases (has_timeout k c)) [
  | inl h ↦ ground (arith, has_timeout-stop c k, only k h)
  | inr h ↦ ground (arith, has_timeout-stop c k)
]

complete-Timed :
    (work : Work) (r : CommandResult) (p : Float32) (c : Commands)
    → IsQuiet c
    → Timed (complete work r p c)
unfolding complete call_callback call_user_callback
complete-Timed work r p c quiet = record {
  busy = inl refl;
  armed = λ h. cc;
  only = λ k h. ground (arith, quiet k);
}

-- A timeout started while none is registered is the only one.
start-Timed :
    (e : Surroundings) (duration_ms : ℕ) (c : Commands)
    → IsFresh e c
    → IsQuiet c
    → c.state ≢ State.idle
    → c.work_queue.queue ≢ []
    → Timed (start_timeout e duration_ms c)
unfolding start_timeout
start-Timed e duration_ms c fresh quiet busy front = record {
  busy = inr front;
  armed = λ h. ground (arith, has_timeout-start e duration_ms c e.address fresh);
  only = λ k h. (ground (arith, has_timeout-start e duration_ms c k fresh, quiet k), busy);
}

-- The facts of a free or borrowed queue do not show in the invariant.
pub release-Timed : (c : Commands) → Timed c → Timed (release c)
unfolding release return_front
release-Timed c t = record { busy = t.busy; armed = t.armed; only = t.only }

stop-IsFresh : (e : Surroundings) (c : Commands) → IsFresh e c → IsFresh e (stop_timeout c)
unfolding stop_timeout unregister_timeout_handler
stop-IsFresh e c fresh =
    ground (arith, registered-remove c.timeout_cookie c.parent.timeout_handler e.address)

-- The three outcomes of an acknowledgement, and the one that changes nothing.
acknowledge_cases :
    (P : Commands → Type 0) (e : Surroundings) (ack : CommandAck) (work : Work) (c : Commands)
    → P (complete work CommandResult.success one_f (stop_timeout c))
    → P (complete work CommandResult.command_denied nan (stop_timeout c))
    → P (
        release (
          start_timeout e
            (work.retries_to_do * work.timeout_ms)
            (stop_timeout (record c { state = State.in_progress }))))
    → P (release c)
    → P (acknowledge e ack work c)
unfolding acknowledge
acknowledge_cases P e ack work c accepted denied progress other =
    if_both P (ack.result == 0) accepted (
      if_both P (ack.result == 2) denied (
        if_both P (ack.result == 3) denied (
          if_both P (ack.result == 1) denied
            (if_both P (ack.result == 4) denied (if_both P (ack.result == 5) progress other)))))

pub acknowledge-Timed :
    (e : Surroundings) (ack : CommandAck) (work : Work) (c : Commands)
    → IsFresh e c
    → Timed c
    → c.work_queue.queue ≢ []
    → Timed (acknowledge e ack work c)
acknowledge-Timed e ack work c fresh t front =
    let sole : (k : ℕ) → has_timeout k c ≡ true → k ≡ c.timeout_cookie = λ k h. (t.only k h).0 in
    let begun = record c { state = State.in_progress } in
    acknowledge_cases Timed e ack work c
      (complete-Timed work _ _ (stop_timeout c) (stop-IsQuiet c sole))
      (complete-Timed work _ _ (stop_timeout c) (stop-IsQuiet c sole))
      (release-Timed _ (
        start-Timed e (work.retries_to_do * work.timeout_ms) (stop_timeout begun)
          (stop-IsFresh e begun fresh) (stop-IsQuiet begun sole) (unfold stop_timeout in λ h. cc)
          (unfold stop_timeout in front)))
      (release-Timed c t)

pub retransmit-Timed :
    (e : Surroundings) (work : Work) (c : Commands)
    → IsFresh e c
    → IsQuiet c
    → c.state ≢ State.idle
    → c.work_queue.queue ≢ []
    → Timed (retransmit e work c)
unfolding retransmit
retransmit-Timed e work c fresh quiet busy front =
    let sending = send_message-timeout_handler e work.mavlink_message c.parent in
    let sent = record c { parent = send_message e work.mavlink_message c.parent } in
    let rewritten = record sent {
      work_queue =
          write_front (record work { retries_to_do = work.retries_to_do - 1 }) sent.work_queue;
    } in
    if_both Timed (ltb 0 work.retries_to_do)
      (if_both Timed e.connected
        (release-Timed _ (
          start-Timed e work.timeout_ms rewritten (rw sending fresh) (λ k. rw sending (quiet k))
            busy (λ h. ground arith)))
        (complete-Timed work _ _ sent (λ k. rw sending (quiet k))))
      (complete-Timed work _ _ c quiet)

idle-IsQuiet : (c : Commands) → Timed c → c.state ≡ State.idle → IsQuiet c
idle-IsQuiet c t idle k = elim (Bool-cases (has_timeout k c)) [
  | inl h ↦ absurd ((t.only k h).1 idle)
  | inr h ↦ h
]

pub start_work-Timed :
    (e : Surroundings) (s : State) (work : Work) (c : Commands)
    → c.state ≡ s
    → IsFresh e c
    → Timed c
    → c.work_queue.queue ≢ []
    → Timed (start_work e s work c)
unfolding start_work
start_work-Timed e State.idle work c idle fresh t front =
    let sending = send_message-timeout_handler e work.mavlink_message c.parent in
    let quiet = idle-IsQuiet c t idle in
    let sent = record c { parent = send_message e work.mavlink_message c.parent } in
    if_both Timed e.connected
      (release-Timed _ (
        start-Timed e work.timeout_ms (record sent { state = State.waiting }) (rw sending fresh)
          (λ k. rw sending (quiet k)) (λ h. cc) front))
      (complete-Timed work _ _ sent (λ k. rw sending (quiet k)))
start_work-Timed e State.waiting work c _ fresh t front = release-Timed c t
start_work-Timed e State.in_progress work c _ fresh t front = release-Timed c t
