-- ===== src/Tests/HandlerRuns.antt =====
-- The theorems on core/timeout_handler.cpp, core/call_every_handler.cpp and
-- core/mavlink_channels.cpp, applied to handlers with two entries and to the pool that is empty.
use stealth_drone_purdue.Base.{
  ℕ, ◌≡◌, refl, false, List, [], ◌∷◌, some, arith, All, ◌==◌, if◌then◌else◌, if_both,
}
use stealth_drone_purdue.TimeoutHandler.{Timeout}
use stealth_drone_purdue.TimeoutHandler.RunOnce.{Action, adds, removes, Run, IsLater, run_once}
use stealth_drone_purdue.TimeoutHandler.Actions.{IsQuiet}
use stealth_drone_purdue.TimeoutHandler.Termination.{run_once_ends}
use stealth_drone_purdue.CallEvery.{Entry, CallEveryHandler, scaled}
use stealth_drone_purdue.Mavlink.{Float32}
use stealth_drone_purdue.CallEvery as E
use stealth_drone_purdue.CallEvery.RunAll.{
  has_passed, moved_on, walk_calls, walk_entries, run_once_lem, run_once_first,
}
use stealth_drone_purdue.Channels.{new}
use stealth_drone_purdue.Channels.Refinement.{Request, Specs, in_use, serve_all, serve_all_refines}

abbrev due : ℕ → Timeout ℕ
due callback = record { callback = some callback; time = 10; duration_ms = 5 }

abbrev two_due : Run ℕ
two_due = record {
  handler = record { timeouts = (64, due 1) ∷ (128, due 2) ∷ []; iterator_invalidated = false };
  called = [];
}

-- The first callback removes the other timeout and adds one.
abbrev reacts : ℕ → Run ℕ → List (Action ℕ)
reacts c r = if c == 1 then removes 128 ∷ adds 30 32 (some 3) 5 ∷ [] else []

reacts-IsLater : (c : ℕ) (r : Run ℕ) → All (IsLater 20) (reacts c r)
reacts-IsLater c r =
    if_both (All (IsLater 20)) (c == 1) (tt, ((omega arith, λ h. ground arith), tt)) tt

run_once_ends_example :
    (fuel : ℕ) × (r' : Run ℕ) × (run_once 20 reacts fuel two_due ≡ some r')
    × All (λ p. IsQuiet 20 p.1) r'.handler.timeouts
run_once_ends_example =
    run_once_ends 20 reacts reacts-IsLater two_due ((omega arith, tt), (tt, tt))
      ((λ h. ground arith), ((λ h. ground arith), tt))

abbrev requests : List Request
requests = Request.checkout ∷ Request.checkin 0 ∷ Request.checkin 40 ∷ []

serve_all_refines_example :
    Specs (in_use new) (serve_all requests new).0 (in_use (serve_all requests new).1)
serve_all_refines_example = serve_all_refines requests new refl

-- A tenth of a second, the interval of the setpoints.
abbrev tenth : Float32
tenth = 0x3dcccccd

-- As a `float`, it is a little more than that.
scaled-tenth : (scaled 1000 tenth ≡ 100) × (scaled 1_000_000_000 tenth ≡ 100_000_001)
unfolding scaled
scaled-tenth = (refl, refl)

abbrev every : (callback last_time : ℕ) → Entry ℕ
every callback last_time = record {
  callback = some callback;
  last_time = last_time;
  interval_s = tenth;
}

abbrev two_entries : CallEveryHandler ℕ
two_entries = record {
  entries = (64, every 1 10) ∷ (128, every 2 150_000_000) ∷ [];
  iterator_invalidated = false;
}

-- The first entry is due, and the second is not.
abbrev clock : ℕ → ℕ
clock n = 200_000_000

run_once_lem_example :
    E.run_once clock (λ _. []) 2 two_entries
    ≡ some (
      walk_calls clock 0 two_entries.entries,
      record two_entries { entries = walk_entries clock 0 two_entries.entries },
    )
run_once_lem_example =
    run_once_lem clock 2 two_entries ((omega arith, tt), (tt, tt)) refl (omega arith)

walked : walk_calls clock 0 two_entries.entries ≡ 1 ∷ []
unfolding scaled
walked = refl

run_once_first_example :
    E.run_once clock (λ _. []) 1 (E.remove 64 two_entries)
    ≡ some (
      if has_passed clock 0 (every 2 150_000_000) then 2 ∷ [] else [],
      record {
        entries =
            (
              128,
              if has_passed clock 0 (every 2 150_000_000)
                  then moved_on clock (every 2 150_000_000)
                  else every 2 150_000_000,
            )
            ∷ [];
        iterator_invalidated = false;
      },
    )
run_once_first_example =
    run_once_first clock 0 64 128 (every 1 10) (every 2 150_000_000) [] two_entries refl refl
