-- ===== src/Parameters/Strays.antt =====
-- Answers that core/mavlink_parameters.cpp has not asked for.
use stealth_drone_purdue.Base.{ℕ, ◌≡◌, refl, false, List, [], ◌∷◌, Option, none, some, arith}
use stealth_drone_purdue.Mavlink.{Name}
use stealth_drone_purdue.SystemImpl.{Surroundings}
use stealth_drone_purdue.LockedQueue.{borrow_front, return_front}
use stealth_drone_purdue.Parameters.{
  Parameters, State, SetParamWork, GetParamWork, ParamAnswer, ParamExtAck, answer_get, answer_set,
  value_in, ext_value_in, ack_in, process_param_value, process_param_ext_value,
  process_param_ext_ack, matches,
}
use stealth_drone_purdue.Parameters.Account.{IsFree}

-- The name of the request under way: the front of the queue that the state points to.
abbrev pub name_in : State → List SetParamWork → List GetParamWork → Option Name
name_in State.idle sets gets = none
name_in State.set_param_busy [] gets = none
name_in State.set_param_busy (work ∷ _) gets = some work.param_name
name_in State.get_param_busy sets [] = none
name_in State.get_param_busy sets (work ∷ _) = some work.param_name

abbrev pub IsUnmatched : List ℕ → Option Name → Type 0
IsUnmatched param_id none = Unit
IsUnmatched param_id (some name) = matches name param_id ≡ false

-- If a request is under way, its name does not match.
abbrev pub IsStray : State → List ℕ → Parameters → Type 0
IsStray state param_id p =
    IsUnmatched param_id (name_in state p.set_param_queue.queue p.get_param_queue.queue)

answer_set_stray :
    (sets : List SetParamWork) (answer : ParamAnswer) (p : Parameters)
    → p.set_param_queue.queue ≡ sets
    → IsFree p
    → IsStray State.set_param_busy answer.param_id p
    → answer_set answer p ≡ some p
unfolding answer_set borrow_front return_front
answer_set_stray [] answer p q (free, free_get) stray = ground arith
answer_set_stray (work ∷ sets) answer p q (free, free_get) stray =
    let differs : matches work.param_name answer.param_id ≡ false = rw q at stray in ground arith

answer_get_stray :
    (gets : List GetParamWork) (answer : ParamAnswer) (p : Parameters)
    → p.get_param_queue.queue ≡ gets
    → IsFree p
    → IsStray State.get_param_busy answer.param_id p
    → answer_get answer p ≡ some p
unfolding answer_get borrow_front return_front
answer_get_stray [] answer p q (free, free_get) stray = ground arith
answer_get_stray (work ∷ gets) answer p q (free, free_get) stray =
    let differs : matches work.param_name answer.param_id ≡ false = rw q at stray in ground arith

ack_stray :
    (e : Surroundings) (sets : List SetParamWork) (ack : ParamExtAck) (p : Parameters)
    → p.set_param_queue.queue ≡ sets
    → IsFree p
    → IsStray State.set_param_busy ack.param_id p
    → ack_in e State.set_param_busy ack p ≡ some p
unfolding ack_in borrow_front return_front
ack_stray e [] ack p q (free, free_get) stray = ground arith
ack_stray e (work ∷ sets) ack p q (free, free_get) stray =
    let differs : matches work.param_name ack.param_id ≡ false = rw q at stray in ground arith

stray_lem :
    (e : Surroundings) (state : State) (answer : ParamAnswer) (param_result : ℕ) (p : Parameters)
    → IsFree p
    → IsStray state answer.param_id p
    → (value_in state answer p ≡ some p)
      × (ext_value_in state answer p ≡ some p)
      × (ack_in e state (record { param_id = answer.param_id; param_result = param_result }) p
          ≡ some p)
unfolding value_in ext_value_in ack_in
stray_lem e State.idle answer param_result p free stray = (refl, refl, refl)
stray_lem e State.set_param_busy answer param_result p free stray = (
  answer_set_stray p.set_param_queue.queue answer p refl free stray,
  refl,
  ack_stray e p.set_param_queue.queue
      (record { param_id = answer.param_id; param_result = param_result }) p refl free stray,
)
stray_lem e State.get_param_busy answer param_result p free stray =
    let same = answer_get_stray p.get_param_queue.queue answer p refl free stray in
    (same, same, refl)

-- With both queues free, an answer whose name is not that of the request under way, if there is one
-- at all, changes nothing: whether a set or a get is under way or none is, and whether it is a
-- value, an extended value, or an extended acknowledgement with any result.
pub stray_ignored :
    (e : Surroundings) (answer : ParamAnswer) (param_result : ℕ) (p : Parameters)
    → IsFree p
    → IsStray p.state answer.param_id p
    → (process_param_value answer p ≡ some p)
      × (process_param_ext_value answer p ≡ some p)
      × (process_param_ext_ack e
            (record { param_id = answer.param_id; param_result = param_result })
            p
          ≡ some p)
unfolding process_param_value process_param_ext_value process_param_ext_ack
stray_ignored e answer param_result p free stray =
    stray_lem e p.state answer param_result p free stray
