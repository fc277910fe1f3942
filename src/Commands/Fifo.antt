-- ===== src/Commands/Fifo.antt =====
-- Which callbacks core/mavlink_commands.cpp calls, and in what order.
use stealth_drone_purdue.Base.{
  ℕ, ◌≡◌, refl, sym, ap, ◌∙◌, List, [], ◌∷◌, ◌++◌, Option, none, some, arith, inl, inr,
  Option-cases, subst, append-nil, append_assoc, Holds,
}
use stealth_drone_purdue.Mavlink.{UserCall, command_result, CommandResult, Float32}
use stealth_drone_purdue.SystemImpl.{
  SystemImpl, Surroundings, send_message, register_timeout_handler, unregister_timeout_handler,
  call_user_callback,
}
use stealth_drone_purdue.LockedQueue.{push_back, borrow_front-cases, hold, return_front, pop_front}
use stealth_drone_purdue.Commands.{
  Commands, State, Work, acknowledge, retransmit, start_work, receive_command_ack, receive_timeout,
  do_work, time_out, time_out_waiting, queue_command_int_async, queue_command_long_async,
  CommandAck, call_callback, start_timeout, stop_timeout, complete, release,
}
use stealth_drone_purdue.Commands.Locking.{IsFree, Returns, step-Returns}
use stealth_drone_purdue.Commands.Steps.{Event, step, run, erase_timeout}

-- The callback of one work item or event, if it has one.
abbrev listed : Option ℕ → List ℕ
listed none = []
listed (some callback) = callback ∷ []

-- The commands whose result is on the thread pool, oldest first.
abbrev pub reported : List UserCall → List ℕ
reported [] = []
reported (command_result callback _ _ ∷ calls) = callback ∷ reported calls
reported (_ ∷ calls) = reported calls

-- The commands that wait for a result, oldest first.
abbrev pending : List Work → List ℕ
pending [] = []
pending (work ∷ queue) = listed work.callback ++ pending queue

abbrev pub accounted : Commands → List ℕ
accounted c = reported c.parent.user_calls ++ pending c.work_queue.queue

-- The commands that an event, and a list of events, hands in.
abbrev pub submitted : Event → List ℕ
submitted (Event.queue_int _ callback) = listed callback
submitted (Event.queue_long _ callback) = listed callback
submitted _ = []

abbrev pub submissions : List (Surroundings × Event) → List ℕ
submissions [] = []
submissions ((_, event) ∷ events) = submitted event ++ submissions events

reported-append : (xs ys : List UserCall) → reported (xs ++ ys) ≡ reported xs ++ reported ys
reported-append [] ys = refl
reported-append (command_result callback _ _ ∷ xs) ys = ap (◌∷◌ callback) (reported-append xs ys)
reported-append (_ ∷ xs) ys = reported-append xs ys

pending-append : (xs ys : List Work) → pending (xs ++ ys) ≡ pending xs ++ pending ys
pending-append [] ys = refl
pending-append (work ∷ xs) ys =
    rw (pending-append xs ys) (sym (append_assoc (listed work.callback) (pending xs) (pending ys)))

reported-call_callback :
    (callback : Option ℕ) (result : CommandResult) (progress : Float32) (s : SystemImpl)
    → reported (call_callback callback result progress s).user_calls
      ≡ reported s.user_calls ++ listed callback
unfolding call_callback call_user_callback
reported-call_callback none result progress s = sym (append-nil (reported s.user_calls))
reported-call_callback (some callback) result progress s =
    reported-append s.user_calls (command_result callback result progress ∷ [])

-- Completing the front command moves its callback from the queue to the reports.
accounted-complete :
    (work : Work) (queue : List Work) (result : CommandResult) (progress : Float32) (c : Commands)
    → c.work_queue.queue ≡ work ∷ queue
    → accounted (complete work result progress c) ≡ accounted c
unfolding complete pop_front return_front
accounted-complete work queue result progress c h =
    rw (h, reported-call_callback)
      (append_assoc (reported c.parent.user_calls) (listed work.callback) (pending queue))

acknowledge-accounted :
    (e : Surroundings) (ack : CommandAck) (work : Work) (queue : List Work) (c : Commands)
    → c.work_queue.queue ≡ work ∷ queue
    → accounted (acknowledge e ack work c) ≡ accounted c
unfolding acknowledge release return_front start_timeout stop_timeout register_timeout_handler
    unregister_timeout_handler
acknowledge-accounted e ack work queue c h = ground (
  arith,
  accounted-complete work queue CommandResult.success 0x3f800000 (stop_timeout c),
  accounted-complete work queue CommandResult.command_denied 0x7fc00000 (stop_timeout c),
)

retransmit-accounted :
    (e : Surroundings) (work : Work) (queue : List Work) (c : Commands)
    → c.work_queue.queue ≡ work ∷ queue
    → accounted (retransmit e work c) ≡ accounted c
unfolding retransmit release return_front start_timeout register_timeout_handler send_message
retransmit-accounted e work queue c h =
    let sent = record c { parent = send_message e work.mavlink_message c.parent } in
    ground (
      arith,
      accounted-complete work queue CommandResult.connection_error 0x7fc00000 sent,
      accounted-complete work queue CommandResult.timeout 0x7fc00000 c,
    )

start_work-accounted :
    (e : Surroundings) (s : State) (work : Work) (queue : List Work) (c : Commands)
    → c.work_queue.queue ≡ work ∷ queue
    → accounted (start_work e s work c) ≡ accounted c
unfolding start_work release return_front start_timeout register_timeout_handler send_message
start_work-accounted e s work queue c h =
    let sent = record c { parent = send_message e work.mavlink_message c.parent } in
    ground (arith, accounted-complete work queue CommandResult.connection_error 0x7fc00000 sent)

-- The step changes nothing in the account but to add `more`.
abbrev Accounts : List ℕ → Commands → Option Commands → Type 0
Accounts more c = Holds λ c'. accounted c' ≡ accounted c ++ more

receive_command_ack-Accounts :
    (e : Surroundings) (ack : CommandAck) (c : Commands)
    → IsFree c
    → Accounts [] c (receive_command_ack e ack c)
unfolding receive_command_ack release return_front
receive_command_ack-Accounts e ack c free =
    rw append-nil (elim (borrow_front-cases c.work_queue free) [
      | inl (_, p) ↦ rw p
      | inr (work, queue, h, p) ↦
          let lent = record c { work_queue = hold c.work_queue } in
          rw p (ground (arith, acknowledge-accounted e ack work queue lent))
    ])

time_out-Accounts :
    (e : Surroundings) (s : State) (c : Commands) → IsFree c → Accounts [] c (time_out e s c)
unfolding time_out time_out_waiting
time_out-Accounts e State.idle c free = sym (append-nil (accounted c))
time_out-Accounts e State.in_progress c free = sym (append-nil (accounted c))
time_out-Accounts e State.waiting c free =
    rw append-nil (elim (borrow_front-cases c.work_queue free) [
      | inl (_, p) ↦ rw p
      | inr (work, queue, h, p) ↦
          rw p (retransmit-accounted e work queue (record c { work_queue = hold c.work_queue }) h)
    ])

do_work-Accounts : (e : Surroundings) (c : Commands) → IsFree c → Accounts [] c (do_work e c)
unfolding do_work
do_work-Accounts e c free = rw append-nil (elim (borrow_front-cases c.work_queue free) [
  | inl (_, p) ↦ rw p
  | inr (work, queue, h, p) ↦
      rw p
        (start_work-accounted e c.state work queue (record c { work_queue = hold c.work_queue }) h)
])

push_back-Accounts :
    (work : Work) (c : Commands)
    → accounted (record c {
      work_queue = record (c.work_queue) { queue = c.work_queue.queue ++ work ∷ [] };
    })
      ≡ accounted c ++ listed work.callback
push_back-Accounts work c =
    rw (pending-append c.work_queue.queue (work ∷ []), append-nil)
      (sym (append_assoc (reported c.parent.user_calls) (pending c.work_queue.queue) _))

step-Accounts :
    (e : Surroundings) (event : Event) (c : Commands)
    → IsFree c
    → Accounts (submitted event) c (step e event c)
unfolding step queue_command_int_async queue_command_long_async push_back receive_timeout
step-Accounts e (Event.queue_int command callback) c free = rw free (push_back-Accounts _ c)
step-Accounts e (Event.queue_long command callback) c free = rw free (push_back-Accounts _ c)
step-Accounts e (Event.ack a) c free = receive_command_ack-Accounts e a c free
step-Accounts e (Event.expire cookie) c free =
    ground (arith, time_out-Accounts e c.state (erase_timeout cookie c), append-nil (accounted c))
step-Accounts e Event.work c free = do_work-Accounts e c free

-- From any state with the work queue free, any sequence of queued commands, acknowledgements,
-- expired timeouts and calls of `do_work` runs to its end, leaves the queue free again, and
-- keeps the account: the commands reported to the user, followed by those still queued, are those
-- of the start followed by the commands handed in meanwhile, in that order. So no callback is
-- lost, called twice or called out of turn.
pub run_fifo :
    (events : List (Surroundings × Event)) (c : Commands)
    → IsFree c
    → (c' : Commands) × (run events c ≡ some c')
      × IsFree c'
      × (accounted c' ≡ accounted c ++ submissions events)
unfolding run
run_fifo [] c free = (c, refl, free, sym (append-nil (accounted c)))
run_fifo ((e, event) ∷ events) c free = elim (Option-cases (step e event c)) [
  | inl p ↦ absurd (subst Returns p (step-Returns e event c free))
  | inr (next, p) ↦
      let next_free : IsFree next = subst Returns p (step-Returns e event c free) in
      let kept : accounted next ≡ accounted c ++ submitted event =
        subst (Accounts (submitted event) c) p (step-Accounts e event c free) in
      let (last, q, last_free, rest) = run_fifo events next next_free in
      (
        last,
        rw p q,
        last_free,
        rest ∙ rw kept (append_assoc (accounted c) (submitted event) (submissions events)),
      )
]
