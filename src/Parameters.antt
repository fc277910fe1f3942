-- ===== src/Parameters.antt =====
-- core/mavlink_parameters.h and core/mavlink_parameters.cpp: parameters are set and read one at a
-- time, sets first. `none` means that a handler waits for the mutex of a queue. A `ParamValue` is
-- carried about as a whole; the answers come with their value decoded. `calls` records the calls
-- of the user's callbacks, which this class makes itself, with its mutexes held, and does not queue
-- on the thread pool: here they do not call back into the class, but in Reentry they may.
pub mod Names
pub mod Steps
pub mod Account
pub mod Handlers
pub mod Locking
pub mod Answers
pub mod Strays
pub mod Reentry
pub mod Echo
use stealth_drone_purdue.Base.{
  ℕ, suc, Bool, true, false, List, [], ◌∷◌, ◌++◌, Option, none, some, ltb, ◌==◌, if◌then◌else◌,
  ◌>>=◌, length,
}
use stealth_drone_purdue.Mavlink.{
  Message, param_set, param_ext_set, param_request_read, param_ext_request_read, Name, ParamValue,
  parameters_receive_timeout,
}
use stealth_drone_purdue.SystemImpl.{
  SystemImpl, Surroundings, send_message, register_timeout_handler, refresh_timeout_handler,
  unregister_timeout_handler,
}
use stealth_drone_purdue.LockedQueue.{
  LockedQueue, push_back, borrow_front, return_front, pop_front, size,
}
use Names.{strncmp_eq, strncpy, cache_find, cache_assign}

-- `idle` is `State::NONE`.
pub data State : Type 0 where
  idle set_param_busy get_param_busy : State

pub record SetParamWork : Type 0 where
  pub callback : Option ℕ
  pub param_name : Name
  pub param_value : ParamValue
  pub extended : Bool

pub record GetParamWork : Type 0 where
  pub callback : Option ℕ
  pub param_name : Name
  pub extended : Bool

-- A call of a user's callback; the value of a failed get is the default one, `none`.
pub data Call : Type 0 where
  set_result : (callback : ℕ) → (success : Bool) → Call
  get_result : (callback : ℕ) → (success : Bool) → Option ParamValue → Call

pub record Parameters : Type 0 where
  pub state : State
  pub set_param_queue : LockedQueue SetParamWork
  pub get_param_queue : LockedQueue GetParamWork
  pub cache : List (Name × ParamValue)
  pub timeout_cookie : ℕ
  pub parent : SystemImpl
  pub calls : List Call

-- What is read of `PARAM_VALUE`, `PARAM_EXT_VALUE` and `PARAM_EXT_ACK`: the memory from `param_id`
-- on (its 16 bytes and the byte behind them), and the value or the result.
pub record ParamAnswer : Type 0 where
  pub param_id : List ℕ
  pub value : ParamValue

pub record ParamExtAck : Type 0 where
  pub param_id : List ℕ
  pub param_result : ℕ

abbrev param_id_len : ℕ
param_id_len = 17

abbrev mav_comp_id_camera : ℕ
mav_comp_id_camera = 100

abbrev param_ack_accepted : ℕ
param_ack_accepted = 0

abbrev param_ack_in_progress : ℕ
param_ack_in_progress = 3

pub call_set : Option ℕ → Bool → Parameters → Parameters
call_set none success p = p
call_set (some callback) success p = record p {
  calls = p.calls ++ set_result callback success ∷ [];
}

pub call_get : Option ℕ → Bool → Option ParamValue → Parameters → Parameters
call_get none success value p = p
call_get (some callback) success value p = record p {
  calls = p.calls ++ get_result callback success value ∷ [];
}

pub set_param_async : Name → ParamValue → Option ℕ → Bool → Parameters → Option Parameters
set_param_async name value callback extended p =
    if ltb param_id_len (length name) then some (call_set callback false p) else do
      queue ←
          push_back
            (record {
              callback = callback;
              param_name = name;
              param_value = value;
              extended = extended;
            })
            p.set_param_queue
      some (record p { set_param_queue = queue })

pub queue_get : Name → Option ℕ → Bool → Parameters → Option Parameters
queue_get name callback extended p = do
  queue ←
      push_back (record { callback = callback; param_name = name; extended = extended })
        p.get_param_queue
  some (record p { get_param_queue = queue })

-- With the value of the cache, if it has one.
pub get_known : Option ParamValue → Name → Option ℕ → Bool → Parameters → Option Parameters
get_known (some value) name callback extended p = some (call_get callback true (some value) p)
get_known none name callback extended p = queue_get name callback extended p

pub get_param_async : Name → Option ℕ → Bool → Parameters → Option Parameters
get_param_async name callback extended p =
    if ltb param_id_len (length name)
    then some (call_get callback false none p)
    else get_known (cache_find name p.cache) name callback extended p

-- `register_timeout_handler(…, 0.5, &_timeout_cookie)`.
pub start_timeout : Surroundings → Parameters → Parameters
start_timeout e p = record p {
  timeout_cookie = e.address;
  parent = register_timeout_handler e parameters_receive_timeout 500 p.parent;
}

pub stop_timeout : Parameters → Parameters
stop_timeout p = record p { parent = unregister_timeout_handler p.timeout_cookie p.parent }

pub send : Surroundings → Message → Parameters → Parameters
send e message p = record p { parent = send_message e message p.parent }

abbrev pop_set : Parameters → Parameters
pop_set p = record p { state = idle; set_param_queue = pop_front p.set_param_queue }

abbrev pop_get : Parameters → Parameters
pop_get p = record p { state = idle; get_param_queue = pop_front p.get_param_queue }

abbrev release_set : Parameters → Parameters
release_set p = record p { set_param_queue = return_front p.set_param_queue }

abbrev release_get : Parameters → Parameters
release_get p = record p { get_param_queue = return_front p.get_param_queue }

pub set_message : SetParamWork → SystemImpl → Message
set_message work s =
    let param_id = strncpy 16 work.param_name in
    if work.extended
    then param_ext_set s.system_id mav_comp_id_camera param_id work.param_value
    else param_set s.system_id s.autopilot_id param_id work.param_value

get_message : GetParamWork → SystemImpl → Message
get_message work s =
    let param_id = strncpy 16 work.param_name in
    if work.extended
    then param_ext_request_read s.system_id mav_comp_id_camera param_id
    else param_request_read s.system_id s.autopilot_id param_id

-- The two branches of `do_work` with the borrowed fronts.
pub begin_work : Surroundings → Option SetParamWork → Option GetParamWork → Parameters → Parameters
begin_work e none none p = p
begin_work e (some work) _ p =
    let sent =
      send e (set_message work p.parent) (record (release_get p) { state = set_param_busy }) in
    if e.connected
    then release_set (start_timeout e sent)
    else pop_set (call_set work.callback false sent)
begin_work e none (some work) p =
    let sent =
      send e (get_message work p.parent) (record (release_set p) { state = get_param_busy }) in
    if e.connected
    then release_get (start_timeout e sent)
    else pop_get (call_get work.callback false none sent)

pub work_in : Surroundings → State → Parameters → Option Parameters
work_in e set_param_busy p = some p
work_in e get_param_busy p = some p
work_in e idle p = do
  (set_param_work, set_queue) ← borrow_front p.set_param_queue
  (get_param_work, get_queue) ← borrow_front p.get_param_queue
  some (
      begin_work e set_param_work get_param_work
        (record p { set_param_queue = set_queue; get_param_queue = get_queue }))

pub do_work : Surroundings → Parameters → Option Parameters
do_work e p = work_in e p.state p

pub reset_cache : Parameters → Parameters
reset_cache p = record p { cache = [] }

-- `strncmp(work->param_name.c_str(), param_id, PARAM_ID_LEN) == 0`.
abbrev pub matches : Name → List ℕ → Bool
matches name param_id = strncmp_eq param_id_len (name ++ 0 ∷ []) param_id

-- The end of a set or get that succeeds.
pub confirm_set : SetParamWork → Parameters → Parameters
confirm_set work p = pop_set (
    stop_timeout (
      call_set work.callback true
        (record p { cache = cache_assign work.param_name work.param_value p.cache })))

pub confirm_get : GetParamWork → ParamValue → Parameters → Parameters
confirm_get work value p = pop_get (
    stop_timeout (
      call_get work.callback true (some value)
        (record p { cache = cache_assign work.param_name value p.cache })))

-- An answer while a get is under way; both kinds of value are handled alike.
pub answer_get : ParamAnswer → Parameters → Option Parameters
answer_get answer p = do
  (front, queue) ← borrow_front p.get_param_queue
  let p' = record p { get_param_queue = queue }
  some (elim front [
    | none ↦ p'
    | some work ↦
        if matches work.param_name answer.param_id
        then confirm_get work answer.value p'
        else release_get p'
  ])

pub answer_set : ParamAnswer → Parameters → Option Parameters
answer_set answer p = do
  (front, queue) ← borrow_front p.set_param_queue
  let p' = record p { set_param_queue = queue }
  some (elim front [
    | none ↦ p'
    | some work ↦
        if matches work.param_name answer.param_id then confirm_set work p' else release_set p'
  ])

pub value_in : State → ParamAnswer → Parameters → Option Parameters
value_in idle answer p = some p
value_in get_param_busy answer p = answer_get answer p
value_in set_param_busy answer p = answer_set answer p

pub process_param_value : ParamAnswer → Parameters → Option Parameters
process_param_value answer p = value_in p.state answer p

pub ext_value_in : State → ParamAnswer → Parameters → Option Parameters
ext_value_in idle answer p = some p
ext_value_in get_param_busy answer p = answer_get answer p
ext_value_in set_param_busy answer p = some p

pub process_param_ext_value : ParamAnswer → Parameters → Option Parameters
process_param_ext_value answer p = ext_value_in p.state answer p

pub acknowledge : Surroundings → ParamExtAck → SetParamWork → Parameters → Parameters
acknowledge e ack work p =
    if ack.param_result == param_ack_accepted
    then confirm_set work p
    else if ack.param_result == param_ack_in_progress
    then release_set (record p { parent = refresh_timeout_handler e p.timeout_cookie p.parent })
    else pop_set (stop_timeout (call_set work.callback false p))

pub ack_in : Surroundings → State → ParamExtAck → Parameters → Option Parameters
ack_in e idle ack p = some p
ack_in e get_param_busy ack p = some p
ack_in e set_param_busy ack p = do
  (front, queue) ← borrow_front p.set_param_queue
  let p' = record p { set_param_queue = queue }
  some (elim front [
    | none ↦ p'
    | some work ↦
        if matches work.param_name ack.param_id then acknowledge e ack work p' else release_set p'
  ])

pub process_param_ext_ack : Surroundings → ParamExtAck → Parameters → Option Parameters
process_param_ext_ack e ack p = ack_in e p.state ack p

pub time_out : State → Parameters → Option Parameters
time_out idle p = some p
time_out get_param_busy p = do
  (front, queue) ← borrow_front p.get_param_queue
  let p' = record p { get_param_queue = queue }
  some (elim front [ none ↦ p' | some work ↦ pop_get (call_get work.callback false none p') ])
time_out set_param_busy p = do
  n ← size p.set_param_queue
  if ltb 0 n
      then (do
        (front, queue) ← borrow_front p.set_param_queue
        let p' = record p { set_param_queue = queue }
        elim front [
          | none ↦ some p'
          | some work ↦ some (pop_set (call_set work.callback false p'))
        ])
      else some p

pub receive_timeout : Parameters → Option Parameters
receive_timeout p = time_out p.state p
