-- ===== src/TimeoutHandler/Laws.antt =====
-- Which timeouts are registered after `add`, `refresh` and `remove` of core/timeout_handler.cpp.
use stealth_drone_purdue.Base.{
  ℕ, ◌≡◌, Option, none, some, arith, ◌==◌, if◌then◌else◌, inl, inr, Option-cases,
}
use stealth_drone_purdue.StdMap.{find, find-assign, find-erase, find-insert}
use stealth_drone_purdue.TimeoutHandler.{
  Timeout, TimeoutHandler, add, refresh, remove, steady_time_in_future,
}

-- The timeout under `cookie`, if one is registered.
abbrev pub registered : {C : Type 0} → ℕ → TimeoutHandler C → Option (Timeout C)
registered cookie h = find cookie h.timeouts

module _ {C : Type 0} where
  pub registered-add :
      (now address : ℕ) (callback : Option C) (duration_ms : ℕ) (h : TimeoutHandler C) (k : ℕ)
      → registered address h ≡ none
      → registered k (add now address callback duration_ms h) ≡ (
          if address == k
          then some (record {
            callback = callback;
            time = steady_time_in_future now duration_ms;
            duration_ms = duration_ms;
          })
          else registered k h)
  unfolding add
  registered-add now address callback duration_ms h k fresh =
      find-insert address k _ h.timeouts fresh

  pub registered-remove :
      (cookie : ℕ) (h : TimeoutHandler C) (k : ℕ)
      → registered k (remove cookie h) ≡ (if cookie == k then none else registered k h)
  unfolding remove
  registered-remove cookie h k = ground (arith, find-erase cookie k h.timeouts)

  pub registered-refresh :
      (now cookie : ℕ) (h : TimeoutHandler C) (k : ℕ)
      → registered k (refresh now cookie h) ≡ (
          if cookie == k
          then elim (registered k h) [
            | none ↦ none
            | some t ↦ some (record t { time = steady_time_in_future now t.duration_ms })
          ]
          else registered k h)
  unfolding refresh
  registered-refresh now cookie h k = elim (Option-cases (find cookie h.timeouts)) [
    | inl e ↦ ground arith
    | inr (t, e) ↦ ground (
      arith,
      find-assign cookie k (record t { time = steady_time_in_future now t.duration_ms }) h.timeouts,
    )
  ]
