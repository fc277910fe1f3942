-- ===== src/Parameters/Steps.antt =====
-- The events that drive core/mavlink_parameters.cpp, each handled in one step.
use stealth_drone_purdue.Base.{ℕ, Bool, List, [], ◌∷◌, Option, some, ◌>>=◌}
use stealth_drone_purdue.Mavlink.{Name, ParamValue}
use stealth_drone_purdue.SystemImpl.{Surroundings}
use stealth_drone_purdue.Parameters.{
  Parameters, ParamAnswer, ParamExtAck, set_param_async, get_param_async, do_work, reset_cache,
  process_param_value, process_param_ext_value, process_param_ext_ack, receive_timeout,
}

pub data Event : Type 0 where
  set_param : Name → ParamValue → Option ℕ → Bool → Event
  get_param : Name → Option ℕ → Bool → Event
  param_value : ParamAnswer → Event
  param_ext_value : ParamAnswer → Event
  param_ext_ack : ParamExtAck → Event
  time_passed : Event
  work : Event
  cache_reset : Event

unfoldable pub step : Surroundings → Event → Parameters → Option Parameters
step e (set_param name value callback extended) p = set_param_async name value callback extended p
step e (get_param name callback extended) p = get_param_async name callback extended p
step e (param_value answer) p = process_param_value answer p
step e (param_ext_value answer) p = process_param_ext_value answer p
step e (param_ext_ack ack) p = process_param_ext_ack e ack p
step e time_passed p = receive_timeout p
step e work p = do_work e p
step e cache_reset p = some (reset_cache p)

unfoldable pub run : List (Surroundings × Event) → Parameters → Option Parameters
run [] p = some p
run ((e, event) ∷ events) p = step e event p >>= run events
