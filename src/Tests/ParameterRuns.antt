-- ===== src/Tests/ParameterRuns.antt =====
-- The theorems on core/mavlink_parameters.cpp, applied to a set of the parameter "AB".
use stealth_drone_purdue.Base.{
  ◌+◌, ◌≡◌, refl, true, false, List, [], ◌∷◌, ◌++◌, some, none, arith, Holds, if◌then◌else◌, ◌==◌,
  ltb, length, get_or,
}
use stealth_drone_purdue.SystemImpl.{Surroundings}
use stealth_drone_purdue.TimeoutHandler.Laws.{registered}
use stealth_drone_purdue.Parameters.{
  Parameters, State, ParamAnswer, get_result, process_param_value, process_param_ext_value,
  process_param_ext_ack, receive_timeout, set_param_async, get_param_async, matches,
}
use stealth_drone_purdue.Parameters.Names.{strncpy}
use stealth_drone_purdue.Parameters.Steps.{Event, run}
use stealth_drone_purdue.Parameters.Account.{IsFree, accounted, submissions}
use stealth_drone_purdue.Parameters.Locking.{run_accounts}
use stealth_drone_purdue.Parameters.Answers.{set_then_get, set_timeout, told}
use stealth_drone_purdue.Parameters.Strays.{stray_ignored}
use stealth_drone_purdue.Parameters.Reentry.{
  process_param_value_with, receive_timeout_with, set_in_callback_waits,
}
use stealth_drone_purdue.Parameters.Echo.{matches_echo}
use stealth_drone_purdue.Tests.Data.{up, later, param_name, set_work, one_set, setting}

abbrev own_answer : ParamAnswer
own_answer = record { param_id = strncpy 16 param_name ++ 9 ∷ []; value = 5 }

abbrev other_answer : ParamAnswer
other_answer = record { param_id = strncpy 16 (67 ∷ []) ++ 9 ∷ []; value = 5 }

abbrev set_events : List (Surroundings × Event)
set_events =
    (up, Event.set_param param_name 6 (some 4) false)
    ∷ (up, Event.work)
    ∷ (later, Event.param_value own_answer)
    ∷ (later, Event.work)
    ∷ (later, Event.time_passed)
    ∷ []

run_accounts_example :
    Holds
      (λ q. IsFree q × (accounted 4 q ≡ accounted 4 one_set + submissions 4 set_events))
      (run set_events one_set)
run_accounts_example = run_accounts 4 set_events one_set (refl, refl)

set_then_get_example :
    (q : Parameters) × (process_param_value own_answer setting ≡ some q)
    × IsFree q
    × (q.state ≡ State.idle)
    × (q.set_param_queue.queue ≡ [])
    × (registered q.timeout_cookie q.parent.timeout_handler ≡ none)
    × (q.calls ≡ [] ++ told set_work true)
    × (get_param_async param_name (some 9) false q
        ≡ some (record q { calls = q.calls ++ get_result 9 true (some 5) ∷ [] }))
set_then_get_example =
    set_then_get set_work [] setting own_answer 9 false ((refl, refl), refl, refl) refl
      (ground arith)

set_timeout_example :
    (q : Parameters) × (receive_timeout setting ≡ some q)
    × IsFree q
    × (q.state ≡ State.idle)
    × (q.set_param_queue.queue ≡ [])
    × (q.get_param_queue ≡ setting.get_param_queue)
    × (q.calls ≡ [] ++ told set_work false)
    × (q.cache ≡ [])
    × (q.parent ≡ setting.parent)
set_timeout_example = set_timeout set_work [] setting ((refl, refl), refl, refl)

stray_ignored_example :
    (process_param_value other_answer setting ≡ some setting)
    × (process_param_ext_value other_answer setting ≡ some setting)
    × (process_param_ext_ack up
          (record { param_id = other_answer.param_id; param_result = 0 })
          setting
        ≡ some setting)
stray_ignored_example = stray_ignored up other_answer 0 setting (refl, refl) refl

set_in_callback_waits_example :
    (process_param_value_with (λ call. set_param_async param_name 6 none false) own_answer setting
      ≡ none)
    × (receive_timeout_with (λ call. set_param_async param_name 6 none false) setting ≡ none)
set_in_callback_waits_example =
    set_in_callback_waits param_name 6 none false own_answer set_work [] 3 setting (ground arith)
      (refl, refl) refl refl refl refl

matches_echo_example :
    matches param_name (strncpy 16 param_name ++ 9 ∷ [])
    ≡ (if ltb (length param_name) 16 then true else 9 == get_or param_name 16 0)
matches_echo_example = matches_echo param_name 9 ((λ h. ground arith), ((λ h. ground arith), tt))
