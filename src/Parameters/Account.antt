-- ===== src/Parameters/Account.antt =====
-- The account of the callbacks of core/mavlink_parameters.cpp: how often each has been called, and
-- how many of its requests wait in the queues.
use stealth_drone_purdue.Base.{
  ℕ, ◌+◌, ◌≡◌, refl, Bool, false, List, [], ◌∷◌, ◌++◌, Option, none, some, arith, ◌==◌,
  if◌then◌else◌,
}
use stealth_drone_purdue.Mavlink.{ParamValue}
use stealth_drone_purdue.SystemImpl.{Surroundings}
use stealth_drone_purdue.Parameters.{
  Parameters, Call, set_result, get_result, SetParamWork, GetParamWork, call_set, call_get,
}
use stealth_drone_purdue.Parameters.Steps.{Event}

abbrev pub same : ℕ → Option ℕ → ℕ
same k none = 0
same k (some callback) = if callback == k then 1 else 0

-- How often callback `k` has been called, and is waiting in the queues.
abbrev pub called : ℕ → List Call → ℕ
called k [] = 0
called k (set_result callback _ ∷ calls) = (if callback == k then 1 else 0) + called k calls
called k (get_result callback _ _ ∷ calls) = (if callback == k then 1 else 0) + called k calls

abbrev waiting_set : ℕ → List SetParamWork → ℕ
waiting_set k [] = 0
waiting_set k (work ∷ queue) = same k work.callback + waiting_set k queue

abbrev waiting_get : ℕ → List GetParamWork → ℕ
waiting_get k [] = 0
waiting_get k (work ∷ queue) = same k work.callback + waiting_get k queue

abbrev pub accounted : ℕ → Parameters → ℕ
accounted k p =
    called k p.calls + waiting_set k p.set_param_queue.queue + waiting_get k p.get_param_queue.queue

-- How often an event, and a list of events, hands in callback `k`.
abbrev pub submitted : ℕ → Event → ℕ
submitted k (Event.set_param _ _ callback _) = same k callback
submitted k (Event.get_param _ callback _) = same k callback
submitted k _ = 0

abbrev pub submissions : ℕ → List (Surroundings × Event) → ℕ
submissions k [] = 0
submissions k ((_, event) ∷ events) = submitted k event + submissions k events

-- Both queues are free.
abbrev pub IsFree : Parameters → Type 0
IsFree p = (p.set_param_queue.locked ≡ false) × (p.get_param_queue.locked ≡ false)

-- The queues are free, and `n` more of callback `k` are accounted for than in `before`.
abbrev pub Keeps : ℕ → ℕ → Parameters → Parameters → Type 0
Keeps k n before p = IsFree p × (accounted k p ≡ accounted k before + n)

called-append : (k : ℕ) (xs ys : List Call) → called k (xs ++ ys) ≡ called k xs + called k ys
called-append k [] ys = omega arith
called-append k (set_result callback _ ∷ xs) ys = omega (arith, called-append k xs ys)
called-append k (get_result callback _ _ ∷ xs) ys = omega (arith, called-append k xs ys)

pub waiting_set-append :
    (k : ℕ) (xs ys : List SetParamWork)
    → waiting_set k (xs ++ ys) ≡ waiting_set k xs + waiting_set k ys
waiting_set-append k [] ys = omega arith
waiting_set-append k (work ∷ xs) ys = omega (arith, waiting_set-append k xs ys)

pub waiting_get-append :
    (k : ℕ) (xs ys : List GetParamWork)
    → waiting_get k (xs ++ ys) ≡ waiting_get k xs + waiting_get k ys
waiting_get-append k [] ys = omega arith
waiting_get-append k (work ∷ xs) ys = omega (arith, waiting_get-append k xs ys)

pub call_set_lem :
    (k : ℕ) (callback : Option ℕ) (success : Bool) (p : Parameters)
    → called k (call_set callback success p).calls ≡ called k p.calls + same k callback
unfolding call_set
call_set_lem k none success p = omega arith
call_set_lem k (some callback) success p =
    omega (arith, called-append k p.calls (set_result callback success ∷ []))

pub call_get_lem :
    (k : ℕ) (callback : Option ℕ) (success : Bool) (value : Option ParamValue) (p : Parameters)
    → called k (call_get callback success value p).calls ≡ called k p.calls + same k callback
unfolding call_get
call_get_lem k none success value p = omega arith
call_get_lem k (some callback) success value p =
    omega (arith, called-append k p.calls (get_result callback success value ∷ []))

-- A call of a callback changes the record of calls alone.
pub call_set_rest :
    (callback : Option ℕ) (success : Bool) (p : Parameters)
    → call_set callback success p ≡ record p { calls = (call_set callback success p).calls }
unfolding call_set
call_set_rest none success p = refl
call_set_rest (some callback) success p = refl

pub call_get_rest :
    (callback : Option ℕ) (success : Bool) (value : Option ParamValue) (p : Parameters)
    → call_get callback success value p
      ≡ record p { calls = (call_get callback success value p).calls }
unfolding call_get
call_get_rest none success value p = refl
call_get_rest (some callback) success value p = refl
