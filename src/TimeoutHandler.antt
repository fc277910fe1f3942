-- ===== src/TimeoutHandler.antt =====
-- core/timeout_handler.h and core/timeout_handler.cpp. Times are counted in nanoseconds of the
-- steady clock, durations in whole milliseconds. The address of a new `Timeout`, which is its
-- cookie, is the allocator's choice and an argument of `add`; 0 is the null pointer.
pub mod Laws
pub mod RunOnce
pub mod Actions
pub mod Termination
use stealth_drone_purdue.Base.{ℕ, ◌+◌, ◌*◌, ◌≡◌, Bool, true, false, List, [], Option, none, some}
use stealth_drone_purdue.StdMap.{find, insert, assign, erase}

module _ (C : Type 0) where
  pub record Timeout : Type 0 where
    pub callback : Option C
    pub time : ℕ
    pub duration_ms : ℕ

  pub record TimeoutHandler : Type 0 where
    pub timeouts : List (ℕ × Timeout)
    pub iterator_invalidated : Bool

-- `Time::steady_time_in_future`.
unfoldable pub steady_time_in_future : ℕ → ℕ → ℕ
steady_time_in_future now duration_ms = now + duration_ms * 1_000_000

module _ {C : Type 0} where
  abbrev pub empty : TimeoutHandler C
  empty = record { timeouts = []; iterator_invalidated = false }

  -- The new timeout and its cookie, which is its address.
  unfoldable pub add : (now address : ℕ) → Option C → ℕ → TimeoutHandler C → TimeoutHandler C
  unfolding steady_time_in_future
  add now address callback duration_ms h =
      let new_timeout : Timeout C = record {
        callback = callback;
        time = steady_time_in_future now duration_ms;
        duration_ms = duration_ms;
      } in
      record h { timeouts = insert address new_timeout h.timeouts }

  unfoldable pub refresh : (now cookie : ℕ) → TimeoutHandler C → TimeoutHandler C
  unfolding steady_time_in_future
  refresh now cookie h = elim (find cookie h.timeouts) [
    | none ↦ h
    | some t ↦ record h {
      timeouts =
          assign cookie (record t { time = steady_time_in_future now t.duration_ms }) h.timeouts;
    }
  ]

  unfoldable pub remove : (cookie : ℕ) → TimeoutHandler C → TimeoutHandler C
  remove cookie h = elim (find cookie h.timeouts) [
    | none ↦ h
    | some t ↦ record h { timeouts = erase cookie h.timeouts; iterator_invalidated = true }
  ]
