-- ===== src/TimeoutHandler/RunOnce.antt =====
-- `TimeoutHandler::run_once` of core/timeout_handler.cpp. What a callback does to the handler is a
-- sequence of its methods, with the steady clock at each of them; what it does otherwise stays
-- outside. An iterator is the key that it points to, `none` for `end()`.
use stealth_drone_purdue.Base.{
  ℕ, zero, suc, ◌≤◌, ◌≢◌, false, List, [], ◌∷◌, ◌++◌, Option, none, some, ltb, if◌then◌else◌,
}
use stealth_drone_purdue.StdMap.{find, erase, next_key, first_key}
use stealth_drone_purdue.TimeoutHandler.{Timeout, TimeoutHandler, add, refresh, remove}

pub data Action (C : Type 0) : Type 0 where
  adds : (clock address : ℕ) → Option C → (duration_ms : ℕ) → Action C
  refreshes : (clock cookie : ℕ) → Action C
  removes : (cookie : ℕ) → Action C

-- The handler, and the callbacks called so far, oldest first.
pub record Run (C : Type 0) : Type 0 where
  pub handler : TimeoutHandler C
  pub called : List C

module _ {C : Type 0} where
  unfoldable pub act : Action C → TimeoutHandler C → TimeoutHandler C
  act (adds clock address callback duration_ms) h = add clock address callback duration_ms h
  act (refreshes clock cookie) h = refresh clock cookie h
  act (removes cookie) h = remove cookie h

  unfoldable pub act_all : List (Action C) → TimeoutHandler C → TimeoutHandler C
  act_all [] h = h
  act_all (action ∷ actions) h = act_all actions (act action h)

  -- A callback that is set, at a clock that has not gone back behind `now`.
  abbrev pub IsLater : ℕ → Action C → Type 0
  IsLater now (adds clock address callback duration_ms) = (now ≤ clock) × (callback ≢ none)
  IsLater now (refreshes clock cookie) = now ≤ clock
  IsLater now (removes cookie) = Unit

module _ {C : Type 0} (now : ℕ) (respond : C → Run C → List (Action C)) where
  unfoldable pub erase_expired : ℕ → Run C → Run C
  erase_expired k r = record r {
    handler = record (r.handler) { timeouts = erase k r.handler.timeouts };
  }

  -- A callback is called, without the mutex.
  unfoldable pub call : C → Run C → Run C
  call c r = record { handler = act_all (respond c r) r.handler; called = r.called ++ c ∷ [] }

  -- The body of the loop before the test of `_iterator_invalidated`.
  unfoldable pub visit : (k : ℕ) → Timeout C → Run C → Option ℕ × Run C
  visit k t r =
      if ltb t.time now
      then elim t.callback [
        | none ↦ (some k, r)
        | some c ↦ (next_key k r.handler.timeouts, call c (erase_expired k r))
      ]
      else (next_key k r.handler.timeouts, r)

  -- The test of `_iterator_invalidated`.
  unfoldable pub start_over : Option ℕ × Run C → Option ℕ × Run C
  start_over (it, r) =
      if r.handler.iterator_invalidated
      then (
        first_key r.handler.timeouts,
        record r { handler = record (r.handler) { iterator_invalidated = false } },
      )
      else (it, r)

  -- `none`: the iterator points nowhere, or the loop has not ended after `fuel` rounds.
  unfoldable pub run_from : (fuel : ℕ) → Option ℕ → Run C → Option (Run C)
  run_from fuel none r = some r
  run_from zero (some k) r = none
  run_from (suc fuel) (some k) r = elim (find k r.handler.timeouts) [
    | none ↦ none
    | some t ↦ run_from fuel (start_over (visit k t r)).0 (start_over (visit k t r)).1
  ]

  unfoldable pub run_once : (fuel : ℕ) → Run C → Option (Run C)
  run_once fuel r = run_from fuel (first_key r.handler.timeouts) r
