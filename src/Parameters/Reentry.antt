-- ===== src/Parameters/Reentry.antt =====
-- The callbacks of core/mavlink_parameters.cpp where the code calls them: before the request is
-- popped, with the mutex of its queue held. Here a callback may call back into the class.
use stealth_drone_purdue.Base.{
  ℕ, ◌≤◌, ◌≡◌, refl, Bool, true, false, List, [], ◌∷◌, ◌++◌, Option, none, some, ltb, arith, length,
  inl, inr, ap, suc, ◌∙◌, if◌then◌else◌, ◌>>=◌,
}
use stealth_drone_purdue.Mavlink.{Name, ParamValue}
use stealth_drone_purdue.LockedQueue.{
  push_back, borrow_front, borrow_front-cases, hold, size, size-free,
}
use stealth_drone_purdue.Parameters.{
  Parameters, State, Call, set_result, get_result, SetParamWork, GetParamWork, ParamAnswer,
  set_param_async, stop_timeout, confirm_set, confirm_get, call_set, call_get, answer_set,
  answer_get, value_in, time_out, process_param_value, receive_timeout, matches, pop_set, pop_get,
  release_set, release_get,
}
use stealth_drone_purdue.Parameters.Names.{cache_assign}
use stealth_drone_purdue.Parameters.Account.{IsFree}

-- `respond` is what a callback does with the class; `none`: it waits.
module _ (respond : Call → Parameters → Option Parameters) where
  unfoldable pub make_call : Call → Parameters → Option Parameters
  make_call call p = respond call (record p { calls = p.calls ++ call ∷ [] })

  unfoldable pub run_set_callback : SetParamWork → Bool → Parameters → Option Parameters
  run_set_callback work success p = elim work.callback [
    | none ↦ some p
    | some callback ↦ make_call (set_result callback success) p
  ]

  unfoldable pub run_get_callback :
      GetParamWork → Bool → Option ParamValue → Parameters → Option Parameters
  run_get_callback work success value p = elim work.callback [
    | none ↦ some p
    | some callback ↦ make_call (get_result callback success value) p
  ]

  unfoldable pub confirm_set_with : SetParamWork → Parameters → Option Parameters
  confirm_set_with work p = do
    called ←
        run_set_callback work true
          (record p { cache = cache_assign work.param_name work.param_value p.cache })
    some (pop_set (stop_timeout called))

  unfoldable pub confirm_get_with : GetParamWork → ParamValue → Parameters → Option Parameters
  confirm_get_with work value p = do
    called ←
        run_get_callback work true (some value)
          (record p { cache = cache_assign work.param_name value p.cache })
    some (pop_get (stop_timeout called))

  unfoldable pub answer_set_with : ParamAnswer → Parameters → Option Parameters
  answer_set_with answer p = do
    (front, queue) ← borrow_front p.set_param_queue
    let p' = record p { set_param_queue = queue }
    elim front [
      | none ↦ some p'
      | some work ↦
          if matches work.param_name answer.param_id
          then confirm_set_with work p'
          else some (release_set p')
    ]

  unfoldable pub answer_get_with : ParamAnswer → Parameters → Option Parameters
  answer_get_with answer p = do
    (front, queue) ← borrow_front p.get_param_queue
    let p' = record p { get_param_queue = queue }
    elim front [
      | none ↦ some p'
      | some work ↦
          if matches work.param_name answer.param_id
          then confirm_get_with work answer.value p'
          else some (release_get p')
    ]

  unfoldable pub value_in_with : State → ParamAnswer → Parameters → Option Parameters
  value_in_with State.idle answer p = some p
  value_in_with State.get_param_busy answer p = answer_get_with answer p
  value_in_with State.set_param_busy answer p = answer_set_with answer p

  unfoldable pub process_param_value_with : ParamAnswer → Parameters → Option Parameters
  process_param_value_with answer p = value_in_with p.state answer p

  unfoldable pub time_out_with : State → Parameters → Option Parameters
  time_out_with State.idle p = some p
  time_out_with State.get_param_busy p = do
    (front, queue) ← borrow_front p.get_param_queue
    let p' = record p { get_param_queue = queue }
    elim front [
      | none ↦ some p'
      | some work ↦ run_get_callback work false none p' >>= λ called. some (pop_get called)
    ]
  time_out_with State.set_param_busy p = do
    n ← size p.set_param_queue
    if ltb 0 n
        then (do
          (front, queue) ← borrow_front p.set_param_queue
          let p' = record p { set_param_queue = queue }
          elim front [
            | none ↦ some p'
            | some work ↦ run_set_callback work false p' >>= λ called. some (pop_set called)
          ])
        else some p

  unfoldable pub receive_timeout_with : Parameters → Option Parameters
  receive_timeout_with p = time_out_with p.state p

-- A callback that leaves the class alone.
abbrev pub quiet : Call → Parameters → Option Parameters
quiet call p = some p

run_set_quiet :
    (work : SetParamWork) (success : Bool) (p : Parameters)
    → run_set_callback quiet work success p ≡ some (call_set work.callback success p)
unfolding run_set_callback make_call call_set
run_set_quiet work success p = ground arith

run_get_quiet :
    (work : GetParamWork) (success : Bool) (value : Option ParamValue) (p : Parameters)
    → run_get_callback quiet work success value p ≡ some (call_get work.callback success value p)
unfolding run_get_callback make_call call_get
run_get_quiet work success value p = ground arith

confirm_set-quiet :
    (work : SetParamWork) (p : Parameters)
    → confirm_set_with quiet work p ≡ some (confirm_set work p)
unfolding confirm_set_with confirm_set
confirm_set-quiet work p =
    let stored = record p { cache = cache_assign work.param_name work.param_value p.cache } in
    ap (λ (o : Option Parameters). o >>= λ q. some (pop_set (stop_timeout q)))
      (run_set_quiet work true stored)

confirm_get-quiet :
    (work : GetParamWork) (value : ParamValue) (p : Parameters)
    → confirm_get_with quiet work value p ≡ some (confirm_get work value p)
unfolding confirm_get_with confirm_get
confirm_get-quiet work value p =
    let stored = record p { cache = cache_assign work.param_name value p.cache } in
    ap (λ (o : Option Parameters). o >>= λ q. some (pop_get (stop_timeout q)))
      (run_get_quiet work true (some value) stored)

choose : (b : Bool) (x y : Parameters) → (if b then some x else some y) ≡ some (if b then x else y)
choose true x y = refl
choose false x y = refl

answers_quiet :
    (state : State) (answer : ParamAnswer) (p : Parameters)
    → IsFree p
    → value_in_with quiet state answer p ≡ value_in state answer p
unfolding value_in_with answer_set_with answer_get_with value_in answer_set answer_get
answers_quiet State.idle answer p free = refl
answers_quiet State.set_param_busy answer p (free, free_get) =
    elim (borrow_front-cases p.set_param_queue free) [
      | inl (none_waits, lent) ↦ rw (answer_set_with, answer_set, lent) refl
      | inr (work, rest, waits, lent) ↦
          let p' = record p { set_param_queue = hold p.set_param_queue } in
          rw (answer_set_with, answer_set, lent, confirm_set-quiet work p')
            (choose (matches work.param_name answer.param_id) (confirm_set work p')
              (release_set p'))
    ]
answers_quiet State.get_param_busy answer p (free, free_get) =
    elim (borrow_front-cases p.get_param_queue free_get) [
      | inl (none_waits, lent) ↦ rw (answer_get_with, answer_get, lent) refl
      | inr (work, rest, waits, lent) ↦
          let p' = record p { get_param_queue = hold p.get_param_queue } in
          rw (answer_get_with, answer_get, lent, confirm_get-quiet work answer.value p')
            (choose (matches work.param_name answer.param_id) (confirm_get work answer.value p')
              (release_get p'))
    ]

timeouts_quiet :
    (state : State) (p : Parameters) → IsFree p → time_out_with quiet state p ≡ time_out state p
unfolding time_out_with time_out
timeouts_quiet State.idle p free = refl
timeouts_quiet State.set_param_busy p (free, free_get) =
    elim (borrow_front-cases p.set_param_queue free) [
      | inl (none_waits, lent) ↦ rw (size-free p.set_param_queue free, none_waits) refl
      | inr (work, rest, waits, lent) ↦
          let sized : size p.set_param_queue ≡ some (suc (length rest)) =
            size-free p.set_param_queue free
            ∙ ap (λ (q : List SetParamWork). some (length q)) waits in
          rw
            (
              sized,
              lent,
              run_set_quiet work false (record p { set_param_queue = hold p.set_param_queue }),
            )
            refl
    ]
timeouts_quiet State.get_param_busy p (free, free_get) =
    elim (borrow_front-cases p.get_param_queue free_get) [
      | inl (none_waits, lent) ↦ rw lent refl
      | inr (work, rest, waits, lent) ↦
          rw
            (
              lent,
              run_get_quiet work false none (record p { get_param_queue = hold p.get_param_queue }),
            )
            refl
    ]

-- With both queues free, when the callbacks leave the class alone, an answer and a timeout are
-- handled as if the calls were only recorded.
handlers_quiet :
    (answer : ParamAnswer) (p : Parameters)
    → IsFree p
    → (process_param_value_with quiet answer p ≡ process_param_value answer p)
      × (receive_timeout_with quiet p ≡ receive_timeout p)
unfolding process_param_value_with process_param_value receive_timeout_with receive_timeout
handlers_quiet answer p free = (answers_quiet p.state answer p free, timeouts_quiet p.state p free)

-- A callback of a set that sets another parameter waits for the mutex of the queue that its own
-- request is borrowed from, which is held until it returns: neither the answer that confirms the
-- set nor the timeout that gives it up is ever done with.
pub set_in_callback_waits :
    (name : Name) (value : ParamValue) (inner : Option ℕ) (extended : Bool) (answer : ParamAnswer)
    (work : SetParamWork) (rest : List SetParamWork) (callback : ℕ) (p : Parameters)
    → length name ≤ 17
    → IsFree p
    → p.state ≡ State.set_param_busy
    → p.set_param_queue.queue ≡ work ∷ rest
    → work.callback ≡ some callback
    → matches work.param_name answer.param_id ≡ true
    → (process_param_value_with (λ call. set_param_async name value inner extended) answer p ≡ none)
      × (receive_timeout_with (λ call. set_param_async name value inner extended) p ≡ none)
unfolding process_param_value_with value_in_with answer_set_with confirm_set_with run_set_callback
    make_call set_param_async borrow_front push_back receive_timeout_with time_out_with size
set_in_callback_waits name value inner extended answer work rest callback p short (free, free_get)
      busy queue there match_ =
    (rw (busy, value_in_with) (ground arith), rw (busy, time_out_with) (ground arith))
