-- ===== src/Parameters/Handlers.antt =====
-- Each handler of core/mavlink_parameters.cpp returns with the queues free and keeps the account.
use stealth_drone_purdue.Base.{
  ℕ, ◌≡◌, refl, inl, inr, Bool, true, false, List, [], ◌∷◌, Option, none, some, arith, Holds, ◌==◌,
  if_both, ltb, length,
}
use stealth_drone_purdue.Mavlink.{Name, ParamValue}
use stealth_drone_purdue.SystemImpl.{Surroundings}
use stealth_drone_purdue.LockedQueue.{
  push_back, borrow_front-cases, hold, return_front, pop_front, size, size-free,
}
use stealth_drone_purdue.Parameters.{
  matches, Parameters, State, SetParamWork, GetParamWork, ParamAnswer, ParamExtAck, call_set,
  call_get, set_param_async, get_param_async, get_known, queue_get, start_timeout, stop_timeout,
  send, begin_work, work_in, confirm_set, confirm_get, answer_get, answer_set, value_in,
  ext_value_in, acknowledge, ack_in, time_out,
}
use stealth_drone_purdue.Parameters.Names.{cache_find}
use stealth_drone_purdue.Parameters.Account.{
  same, IsFree, Keeps, waiting_set-append, waiting_get-append, call_set_lem, call_get_lem,
  call_set_rest, call_get_rest,
}

module _ (k : ℕ) where
  pub fail_set-Keeps :
      (work : SetParamWork) (queue : List SetParamWork) (success : Bool) (p : Parameters)
      → p.set_param_queue.queue ≡ work ∷ queue
      → p.get_param_queue.locked ≡ false
      → Keeps k 0 p (
          let q = call_set work.callback success p in
          record q { state = State.idle; set_param_queue = pop_front q.set_param_queue })
  unfolding pop_front return_front
  fail_set-Keeps work queue success p h free =
      ground (arith, call_set_lem k work.callback success p, call_set_rest work.callback success p)

  pub fail_get-Keeps :
      (work : GetParamWork) (queue : List GetParamWork) (success : Bool) (value : Option ParamValue)
      (p : Parameters)
      → p.get_param_queue.queue ≡ work ∷ queue
      → p.set_param_queue.locked ≡ false
      → Keeps k 0 p (
          let q = call_get work.callback success value p in
          record q { state = State.idle; get_param_queue = pop_front q.get_param_queue })
  unfolding pop_front return_front
  fail_get-Keeps work queue success value p h free = ground (
    arith,
    call_get_lem k work.callback success value p,
    call_get_rest work.callback success value p,
  )

  pub confirm_set-Keeps :
      (work : SetParamWork) (queue : List SetParamWork) (p : Parameters)
      → p.set_param_queue.queue ≡ work ∷ queue
      → p.get_param_queue.locked ≡ false
      → Keeps k 0 p (confirm_set work p)
  unfolding confirm_set stop_timeout
  confirm_set-Keeps work queue p h free =
      fail_set-Keeps work queue true (record p { cache = _ }) h free

  pub confirm_get-Keeps :
      (work : GetParamWork) (queue : List GetParamWork) (value : ParamValue) (p : Parameters)
      → p.get_param_queue.queue ≡ work ∷ queue
      → p.set_param_queue.locked ≡ false
      → Keeps k 0 p (confirm_get work value p)
  unfolding confirm_get stop_timeout
  confirm_get-Keeps work queue value p h free =
      fail_get-Keeps work queue true (some value) (record p { cache = _ }) h free

  pub answer_get-Keeps :
      (answer : ParamAnswer) (p : Parameters) → IsFree p → Holds (Keeps k 0 p) (answer_get answer p)
  unfolding answer_get return_front
  answer_get-Keeps answer p (free_set, free_get) =
      elim (borrow_front-cases p.get_param_queue free_get) [
        | inl (_, q) ↦ rw q ((free_set, free_get), omega arith)
        | inr (work, queue, h, q) ↦
            let lent = record p { get_param_queue = hold p.get_param_queue } in
            rw q (
              if_both (Keeps k 0 p) (matches work.param_name answer.param_id)
                (confirm_get-Keeps work queue answer.value lent h free_set)
                ((free_set, refl), omega arith))
      ]

  pub answer_set-Keeps :
      (answer : ParamAnswer) (p : Parameters) → IsFree p → Holds (Keeps k 0 p) (answer_set answer p)
  unfolding answer_set return_front
  answer_set-Keeps answer p (free_set, free_get) =
      elim (borrow_front-cases p.set_param_queue free_set) [
        | inl (_, q) ↦ rw q ((free_set, free_get), omega arith)
        | inr (work, queue, h, q) ↦
            let lent = record p { set_param_queue = hold p.set_param_queue } in
            rw q (
              if_both (Keeps k 0 p) (matches work.param_name answer.param_id)
                (confirm_set-Keeps work queue lent h free_get) ((refl, free_get), omega arith))
      ]

  pub acknowledge-Keeps :
      (e : Surroundings) (ack : ParamExtAck) (work : SetParamWork) (queue : List SetParamWork)
      (p : Parameters)
      → p.set_param_queue.queue ≡ work ∷ queue
      → p.get_param_queue.locked ≡ false
      → Keeps k 0 p (acknowledge e ack work p)
  unfolding acknowledge return_front stop_timeout
  acknowledge-Keeps e ack work queue p h free =
      if_both (Keeps k 0 p) (ack.param_result == 0) (confirm_set-Keeps work queue p h free) (
        if_both (Keeps k 0 p) (ack.param_result == 3) ((refl, free), omega arith)
          (fail_set-Keeps work queue false p h free))

  pub ack_in-Keeps :
      (e : Surroundings) (s : State) (ack : ParamExtAck) (p : Parameters)
      → IsFree p
      → Holds (Keeps k 0 p) (ack_in e s ack p)
  unfolding ack_in return_front
  ack_in-Keeps e State.idle ack p free = (free, omega arith)
  ack_in-Keeps e State.get_param_busy ack p free = (free, omega arith)
  ack_in-Keeps e State.set_param_busy ack p (free_set, free_get) =
      elim (borrow_front-cases p.set_param_queue free_set) [
        | inl (_, q) ↦ rw q ((free_set, free_get), omega arith)
        | inr (work, queue, h, q) ↦
            let lent = record p { set_param_queue = hold p.set_param_queue } in
            rw q (
              if_both (Keeps k 0 p) (matches work.param_name ack.param_id)
                (acknowledge-Keeps e ack work queue lent h free_get)
                ((refl, free_get), omega arith))
      ]

  pub time_out-Keeps : (s : State) (p : Parameters) → IsFree p → Holds (Keeps k 0 p) (time_out s p)
  unfolding time_out size
  time_out-Keeps State.idle p free = (free, omega arith)
  time_out-Keeps State.get_param_busy p (free_set, free_get) =
      elim (borrow_front-cases p.get_param_queue free_get) [
        | inl (_, q) ↦ rw q ((free_set, free_get), omega arith)
        | inr (work, queue, h, q) ↦
            let lent = record p { get_param_queue = hold p.get_param_queue } in
            rw q (fail_get-Keeps work queue false none lent h free_set)
      ]
  time_out-Keeps State.set_param_busy p (free_set, free_get) =
      rw (size-free p.set_param_queue free_set) (
        if_both (Holds (Keeps k 0 p)) (ltb 0 (length p.set_param_queue.queue))
          (elim (borrow_front-cases p.set_param_queue free_set) [
            | inl (_, q) ↦ rw q ((free_set, free_get), omega arith)
            | inr (work, queue, h, q) ↦
                let lent = record p { set_param_queue = hold p.set_param_queue } in
                rw q (fail_set-Keeps work queue false lent h free_get)
          ])
          ((free_set, free_get), omega arith))

  pub begin_set-Keeps :
      (e : Surroundings) (work : SetParamWork) (queue : List SetParamWork)
      (other : Option GetParamWork) (p : Parameters)
      → p.set_param_queue.queue ≡ work ∷ queue
      → Keeps k 0 p (begin_work e (some work) other p)
  unfolding begin_work return_front start_timeout send
  begin_set-Keeps e work queue other p h =
      if_both (Keeps k 0 p) e.connected ((refl, refl), omega arith)
        (fail_set-Keeps work queue false
          (record p {
            state = State.set_param_busy;
            get_param_queue = record (p.get_param_queue) { locked = false };
            parent = _;
          })
          h refl)

  pub begin_get-Keeps :
      (e : Surroundings) (work : GetParamWork) (queue : List GetParamWork) (p : Parameters)
      → p.get_param_queue.queue ≡ work ∷ queue
      → Keeps k 0 p (begin_work e none (some work) p)
  unfolding begin_work return_front start_timeout send
  begin_get-Keeps e work queue p h =
      if_both (Keeps k 0 p) e.connected ((refl, refl), omega arith)
        (fail_get-Keeps work queue false none
          (record p {
            state = State.get_param_busy;
            set_param_queue = record (p.set_param_queue) { locked = false };
            parent = _;
          })
          h refl)

  pub work_in-Keeps :
      (e : Surroundings) (s : State) (p : Parameters)
      → IsFree p
      → Holds (Keeps k 0 p) (work_in e s p)
  unfolding work_in
  work_in-Keeps e State.set_param_busy p free = (free, omega arith)
  work_in-Keeps e State.get_param_busy p free = (free, omega arith)
  work_in-Keeps e State.idle p (free_set, free_get) =
      let set_front = borrow_front-cases p.set_param_queue free_set in
      let get_front = borrow_front-cases p.get_param_queue free_get in
      elim set_front [
        | inl (_, q) ↦ rw q (elim get_front [
          | inl (_, r) ↦ rw r (unfold begin_work in ((free_set, free_get), omega arith))
          | inr (work, queue, h, r) ↦ rw r (
              begin_get-Keeps e work queue (record p { get_param_queue = hold p.get_param_queue })
                h)
        ])
        | inr (work, queue, h, q) ↦ rw q (elim get_front [
          | inl (_, r) ↦ rw r (
              begin_set-Keeps e work queue none
                (record p { set_param_queue = hold p.set_param_queue }) h)
          | inr (other, _, _, r) ↦ rw r (
              begin_set-Keeps e work queue (some other)
                (record p {
                  set_param_queue = hold p.set_param_queue;
                  get_param_queue = hold p.get_param_queue;
                })
                h)
        ])
      ]

  pub set_param_async-Keeps :
      (name : Name) (value : ParamValue) (callback : Option ℕ) (extended : Bool) (p : Parameters)
      → IsFree p
      → Holds (Keeps k (same k callback) p) (set_param_async name value callback extended p)
  unfolding set_param_async push_back
  set_param_async-Keeps name value callback extended p (free_set, free_get) = ground (
    arith,
    call_set_lem k callback false p,
    call_set_rest callback false p,
    waiting_set-append k p.set_param_queue.queue (
        record { callback = callback; param_name = name; param_value = value; extended = extended }
        ∷ []),
  )

  pub get_known-Keeps :
      (known : Option ParamValue) (name : Name) (callback : Option ℕ) (extended : Bool)
      (p : Parameters)
      → IsFree p
      → Holds (Keeps k (same k callback) p) (get_known known name callback extended p)
  unfolding get_known queue_get push_back
  get_known-Keeps (some value) name callback extended p free = ground (
    arith,
    call_get_lem k callback true (some value) p,
    call_get_rest callback true (some value) p,
  )
  get_known-Keeps none name callback extended p free = ground (
    arith,
    waiting_get-append k p.get_param_queue.queue
        (record { callback = callback; param_name = name; extended = extended } ∷ []),
  )

  pub get_param_async-Keeps :
      (name : Name) (callback : Option ℕ) (extended : Bool) (p : Parameters)
      → IsFree p
      → Holds (Keeps k (same k callback) p) (get_param_async name callback extended p)
  unfolding get_param_async
  get_param_async-Keeps name callback extended p free =
      if_both (Holds (Keeps k (same k callback) p)) (ltb 17 (length name))
        (ground (arith, call_get_lem k callback false none p, call_get_rest callback false none p))
        (get_known-Keeps (cache_find name p.cache) name callback extended p free)

  pub value_in-Keeps :
      (s : State) (answer : ParamAnswer) (p : Parameters)
      → IsFree p
      → Holds (Keeps k 0 p) (value_in s answer p)
  unfolding value_in
  value_in-Keeps State.idle answer p free = (free, omega arith)
  value_in-Keeps State.get_param_busy answer p free = answer_get-Keeps answer p free
  value_in-Keeps State.set_param_busy answer p free = answer_set-Keeps answer p free

  pub ext_value_in-Keeps :
      (s : State) (answer : ParamAnswer) (p : Parameters)
      → IsFree p
      → Holds (Keeps k 0 p) (ext_value_in s answer p)
  unfolding ext_value_in
  ext_value_in-Keeps State.idle answer p free = (free, omega arith)
  ext_value_in-Keeps State.get_param_busy answer p free = answer_get-Keeps answer p free
  ext_value_in-Keeps State.set_param_busy answer p free = (free, omega arith)
