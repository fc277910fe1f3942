-- ===== src/Commands/Retries.antt =====
-- How often core/mavlink_commands.cpp sends a command that nobody answers, and what becomes of one
-- whose progress was acknowledged.
use stealth_drone_purdue.Base.{
  ℕ, suc, ◌≡◌, refl, sym, ◌∙◌, true, false, [], ◌∷◌, ◌++◌, List, Option, none, some, arith, ◌>>=◌,
  length, replicate, All, append_assoc, append-nil,
}
use stealth_drone_purdue.Mavlink.{CommandResult, nan, commands_receive_timeout, UserCall}
use stealth_drone_purdue.SystemImpl.{
  Surroundings, send_message, register_timeout_handler, call_user_callback,
}
use stealth_drone_purdue.LockedQueue.{borrow_front, return_front, pop_front}
use stealth_drone_purdue.Commands.{
  Commands, State, Work, retransmit, start_work, receive_timeout, do_work, time_out,
  time_out_waiting, call_callback, start_timeout, complete, release,
}
use stealth_drone_purdue.Commands.Locking.{IsFree}

-- The timeouts of one command, one after the other.
abbrev pub receive_timeouts : List Surroundings → Commands → Option Commands
receive_timeouts [] c = some c
receive_timeouts (e ∷ es) c = receive_timeout e c >>= receive_timeouts es

abbrev IsConnected : Surroundings → Type 0
IsConnected e = e.connected ≡ true

-- What the thread pool gets when `work` ends with `result`.
abbrev pub report : Work → CommandResult → List UserCall
report work result = elim work.callback [
  | none ↦ []
  | some callback ↦ UserCall.command_result callback result nan ∷ []
]

module _ (work : Work) (rest : List Work) where
  -- `work` was sent and waits for an answer, with `n` retransmissions to go.
  abbrev IsWaiting : ℕ → Commands → Type 0
  IsWaiting n c =
      IsFree c
      × (c.state ≡ State.waiting)
      × (c.work_queue.queue ≡ record work { retries_to_do = n } ∷ rest)

  retry :
      (n : ℕ) (e : Surroundings) (c : Commands)
      → IsWaiting (suc n) c
      → IsConnected e
      → (c' : Commands) × (receive_timeout e c ≡ some c')
        × IsWaiting n c'
        × (c'.parent.outbox ≡ c.parent.outbox ++ work.mavlink_message ∷ [])
        × (c'.parent.user_calls ≡ c.parent.user_calls)
  unfolding receive_timeout time_out time_out_waiting retransmit borrow_front release return_front
      start_timeout register_timeout_handler send_message
  retry n e c (free, waits, q) up = (
    record c {
      work_queue = record (c.work_queue) {
        queue = record work { retries_to_do = n } ∷ rest;
        locked = false;
      };
      timeout_cookie = e.address;
      parent =
          register_timeout_handler e commands_receive_timeout work.timeout_ms
            (send_message e work.mavlink_message c.parent);
    },
    rw (waits, time_out) (ground arith),
    (refl, waits, refl),
    ground arith,
    ground arith,
  )

  give_up :
      (e : Surroundings) (c : Commands)
      → IsWaiting 0 c
      → (c' : Commands) × (receive_timeout e c ≡ some c')
        × (c'.state ≡ State.idle)
        × (c'.work_queue.queue ≡ rest)
        × (c'.parent.outbox ≡ c.parent.outbox)
        × (c'.parent.user_calls ≡ c.parent.user_calls ++ report work CommandResult.timeout)
  unfolding receive_timeout time_out time_out_waiting retransmit borrow_front complete pop_front
      return_front call_callback call_user_callback
  give_up e c (free, waits, q) = (
    record c {
      state = State.idle;
      work_queue = record (c.work_queue) { queue = rest; locked = false };
      parent = call_callback work.callback CommandResult.timeout nan c.parent;
    },
    rw (waits, time_out) (ground arith),
    refl,
    refl,
    ground arith,
    ground (arith, append-nil c.parent.user_calls),
  )

  exhaust :
      (es : List Surroundings) (last : Surroundings) (c : Commands)
      → IsWaiting (length es) c
      → All IsConnected es
      → (c' : Commands) × (receive_timeouts (es ++ last ∷ []) c ≡ some c')
        × (c'.state ≡ State.idle)
        × (c'.work_queue.queue ≡ rest)
        × (c'.parent.outbox ≡ c.parent.outbox ++ replicate (length es) work.mavlink_message)
        × (c'.parent.user_calls ≡ c.parent.user_calls ++ report work CommandResult.timeout)
  exhaust [] last c w up =
      let (c', p, idle, q, sent, calls) = give_up last c w in
      (c', rw p, idle, q, sent ∙ sym (append-nil c.parent.outbox), calls)
  exhaust (e ∷ es) last c w up =
      let (c1, p1, w1, sent1, calls1) = retry (length es) e c w up.0 in
      let (c', p, idle, q, sent, calls) = exhaust es last c1 w1 up.1 in
      (
        c',
        rw p1 p,
        idle,
        q,
        sent ∙ rw sent1 (append_assoc c.parent.outbox (work.mavlink_message ∷ []) _),
        rw calls1 at calls,
      )

  -- A command that is never answered while the connections take every message: `do_work` sends
  -- it, each of the first `retries_to_do` timeouts sends it once more, and the next one gives up.
  -- It has then been sent `retries_to_do + 1` times and nothing else was sent, its callback is
  -- called with `TIMEOUT`, the state is `NONE`, and the queue holds the commands behind it.
  pub do_work_unanswered :
      (first : Surroundings) (es : List Surroundings) (last : Surroundings) (c : Commands)
      → IsFree c
      → c.state ≡ State.idle
      → c.work_queue.queue ≡ work ∷ rest
      → work.retries_to_do ≡ length es
      → IsConnected first
      → All IsConnected es
      → (c' : Commands) × ((do_work first c >>= receive_timeouts (es ++ last ∷ [])) ≡ some c')
        × (c'.state ≡ State.idle)
        × (c'.work_queue.queue ≡ rest)
        × (c'.parent.outbox
            ≡ c.parent.outbox ++ replicate (suc work.retries_to_do) work.mavlink_message)
        × (c'.parent.user_calls ≡ c.parent.user_calls ++ report work CommandResult.timeout)
  unfolding do_work borrow_front start_work release return_front start_timeout
      register_timeout_handler send_message
  do_work_unanswered first es last c free idle q n up ups =
      let c1 = record c {
        state = State.waiting;
        work_queue = record (c.work_queue) { locked = false };
        timeout_cookie = first.address;
        parent =
            register_timeout_handler first commands_receive_timeout work.timeout_ms
              (send_message first work.mavlink_message c.parent);
      } in
      let started : do_work first c ≡ some c1 = ground arith in
      let sent1 : c1.parent.outbox ≡ c.parent.outbox ++ work.mavlink_message ∷ [] = ground arith in
      let calls1 : c1.parent.user_calls ≡ c.parent.user_calls = ground arith in
      let (c', p, idle', q', sent, calls) = exhaust es last c1 (refl, refl, q ∙ ground arith) ups in
      (
        c',
        rw started p,
        idle',
        q',
        sent ∙ rw (sent1, n) (append_assoc c.parent.outbox (work.mavlink_message ∷ []) _),
        calls ∙ rw calls1,
      )
