-- ===== src/Parameters/Answers.antt =====
-- What core/mavlink_parameters.cpp does with one request: sent, answered, or timed out.
use stealth_drone_purdue.Base.{
  ℕ, ◌≤◌, ◌≡◌, refl, Bool, true, false, List, [], ◌∷◌, ◌++◌, none, some, arith, length, append-nil,
}
use stealth_drone_purdue.SystemImpl.{unregister_timeout_handler}
use stealth_drone_purdue.TimeoutHandler.Laws.{registered, registered-remove}
use stealth_drone_purdue.LockedQueue.{borrow_front, return_front, pop_front, size}
use stealth_drone_purdue.Parameters.{
  Parameters, State, Call, set_result, get_result, SetParamWork, ParamAnswer, call_set, call_get,
  get_param_async, get_known, stop_timeout, confirm_set, answer_set, value_in, process_param_value,
  time_out, receive_timeout, matches,
}
use stealth_drone_purdue.Parameters.Names.{cache_find-assign, name_eq_self}
use stealth_drone_purdue.Parameters.Account.{IsFree}

-- The call of a set's callback, if it has one.
abbrev pub told : SetParamWork → Bool → List Call
told work success = elim work.callback [
  | none ↦ []
  | some callback ↦ set_result callback success ∷ []
]

module _ (work : SetParamWork) (rest : List SetParamWork) (p : Parameters) where
  -- `work` was sent, and its answer is awaited.
  abbrev IsSetting : Type 0
  IsSetting = IsFree p × (p.state ≡ State.set_param_busy) × (p.set_param_queue.queue ≡ work ∷ rest)

  -- A set is confirmed by an answer with its name: the request leaves the queue, the state is
  -- `NONE`, no timeout is left under the cookie, the callback is told of the success, and a get of
  -- the same name (at most 17 bytes) is answered at once, from the cache, with the value set.
  pub set_then_get :
      (answer : ParamAnswer) (callback : ℕ) (extended : Bool)
      → IsSetting
      → matches work.param_name answer.param_id ≡ true
      → length work.param_name ≤ 17
      → (q : Parameters) × (process_param_value answer p ≡ some q)
        × IsFree q
        × (q.state ≡ State.idle)
        × (q.set_param_queue.queue ≡ rest)
        × (registered q.timeout_cookie q.parent.timeout_handler ≡ none)
        × (q.calls ≡ p.calls ++ told work true)
        × (get_param_async work.param_name (some callback) extended q
            ≡ some (record q {
              calls = q.calls ++ get_result callback true (some work.param_value) ∷ [];
            }))
  unfolding process_param_value value_in answer_set borrow_front confirm_set stop_timeout call_set
      pop_front return_front unregister_timeout_handler get_param_async get_known call_get
  set_then_get answer callback extended ((free, free_get), busy, h) m short = (
    confirm_set work p,
    rw (busy, value_in) (ground arith),
    ground arith,
    ground arith,
    ground arith,
    ground (arith, registered-remove p.timeout_cookie p.parent.timeout_handler p.timeout_cookie),
    ground (arith, append-nil p.calls),
    ground (
      arith,
      cache_find-assign work.param_name work.param_name work.param_value p.cache,
      name_eq_self work.param_name,
    ),
  )

  -- A set whose answer does not come in time is given up: the request leaves the queue, the state
  -- is `NONE`, the callback is told of the failure, and the cache and the connection are as before.
  pub set_timeout :
      IsSetting
      → (q : Parameters) × (receive_timeout p ≡ some q)
        × IsFree q
        × (q.state ≡ State.idle)
        × (q.set_param_queue.queue ≡ rest)
        × (q.get_param_queue ≡ p.get_param_queue)
        × (q.calls ≡ p.calls ++ told work false)
        × (q.cache ≡ p.cache)
        × (q.parent ≡ p.parent)
  unfolding receive_timeout time_out size borrow_front call_set pop_front return_front
  set_timeout ((free, free_get), busy, h) = (
    record p {
      state = State.idle;
      set_param_queue = record (p.set_param_queue) { queue = rest; locked = false };
      calls = (call_set work.callback false p).calls;
    },
    rw (busy, time_out) (ground arith),
    (refl, free_get),
    refl,
    refl,
    refl,
    ground (arith, append-nil p.calls),
    refl,
    refl,
  )
