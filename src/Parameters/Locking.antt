-- ===== src/Parameters/Locking.antt =====
-- The queues of core/mavlink_parameters.cpp, and how often each callback is called, for callbacks
-- that do not call back into the class.
use stealth_drone_purdue.Base.{
  ℕ, ◌+◌, ◌≡◌, List, [], ◌∷◌, Option, none, some, arith, Holds, >>=-Holds,
}
use stealth_drone_purdue.SystemImpl.{Surroundings}
use stealth_drone_purdue.Parameters.{
  Parameters, do_work, reset_cache, process_param_value, process_param_ext_value,
  process_param_ext_ack, receive_timeout,
}
use stealth_drone_purdue.Parameters.Steps.{Event, step, run}
use stealth_drone_purdue.Parameters.Account.{accounted, submitted, submissions, IsFree, Keeps}
use stealth_drone_purdue.Parameters.Handlers.{
  ack_in-Keeps, time_out-Keeps, work_in-Keeps, set_param_async-Keeps, get_param_async-Keeps,
  value_in-Keeps, ext_value_in-Keeps,
}

module _ (k : ℕ) where
  step-Keeps :
      (e : Surroundings) (event : Event) (p : Parameters)
      → IsFree p
      → Holds (Keeps k (submitted k event) p) (step e event p)
  unfolding step process_param_value process_param_ext_value process_param_ext_ack receive_timeout
      do_work reset_cache
  step-Keeps e (Event.set_param name value callback extended) p free =
      set_param_async-Keeps k name value callback extended p free
  step-Keeps e (Event.get_param name callback extended) p free =
      get_param_async-Keeps k name callback extended p free
  step-Keeps e (Event.param_value answer) p free = value_in-Keeps k p.state answer p free
  step-Keeps e (Event.param_ext_value answer) p free = ext_value_in-Keeps k p.state answer p free
  step-Keeps e (Event.param_ext_ack ack) p free = ack_in-Keeps k e p.state ack p free
  step-Keeps e Event.time_passed p free = time_out-Keeps k p.state p free
  step-Keeps e Event.work p free = work_in-Keeps k e p.state p free
  step-Keeps e Event.cache_reset p free = (free, omega arith)

  -- For callbacks that do not call back into the class (one that does may wait for ever for the queue
  -- that its request is borrowed from): from any state with both queues free, any sequence of
  -- requests, answers, timeouts and calls of `do_work`, each handled by itself, runs to its end and
  -- leaves both queues free. The calls made of each callback
  -- and its requests that wait are together those of the start and the ones handed in meanwhile:
  -- no request is dropped and none is answered twice.
  pub run_accounts :
      (events : List (Surroundings × Event)) (p : Parameters)
      → IsFree p
      → Holds
          (λ q. IsFree q × (accounted k q ≡ accounted k p + submissions k events))
          (run events p)
  unfolding run
  run_accounts [] p free = (free, omega arith)
  run_accounts ((e, event) ∷ events) p free =
      >>=-Holds (Keeps k (submitted k event) p) _ (step e event p) (run events)
        (step-Keeps e event p free) λ q h. rest q h (run events q) (run_accounts events q h.0)
    where
      rest :
          (q : Parameters)
          → Keeps k (submitted k event) p q
          → (r : Option Parameters)
          → Holds (λ q'. IsFree q' × (accounted k q' ≡ accounted k q + submissions k events)) r
          → Holds
              (λ q'.
                IsFree q'
                × (accounted k q' ≡ accounted k p + (submitted k event + submissions k events)))
              r
      rest q h none g = g
      rest q h (some r) g = (g.0, omega (arith, g.1, h.1))
