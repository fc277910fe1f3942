-- ===== src/TimeoutHandler/Actions.antt =====
-- What the methods of core/timeout_handler.cpp leave as it is while `run_once` calls back: called
-- from a callback, they make no timeout due.
use stealth_drone_purdue.Base.{
  ℕ, ◌+◌, ◌*◌, ◌≤◌, ◌<◌, ◌≡◌, ◌≢◌, false, List, [], ◌∷◌, Option, none, some, arith, ltb,
  if◌then◌else◌, All, Option-cases, inl, inr,
}
use stealth_drone_purdue.StdMap.{find, assign, insert, erase, find-assign}
use stealth_drone_purdue.StdMap.Order.{
  IsSorted, assign-IsSorted, erase-IsSorted, All-assign, All-erase, Before, Before-assign,
  Before-erase, All-find,
}
use stealth_drone_purdue.TimeoutHandler.{
  Timeout, TimeoutHandler, add, refresh, remove, steady_time_in_future,
}
use stealth_drone_purdue.TimeoutHandler.RunOnce.{
  Action, adds, refreshes, removes, act, act_all, IsLater,
}

module _ {C : Type 0} (now : ℕ) where
  abbrev pub IsQuiet : Timeout C → Type 0
  IsQuiet t = now ≤ t.time

  abbrev pub HasCallback : Timeout C → Type 0
  HasCallback t = t.callback ≢ none

  -- How many timeouts are due.
  abbrev pub count_due : List (ℕ × Timeout C) → ℕ
  count_due [] = 0
  count_due ((k, t) ∷ m) = (if ltb t.time now then 1 else 0) + count_due m

  -- What a change of the handler keeps.
  pub record Keeps (h h' : TimeoutHandler C) : Type 0 where
    pub sorted : IsSorted h.timeouts → IsSorted h'.timeouts
    pub callbacks : All (λ p. HasCallback p.1) h.timeouts → All (λ p. HasCallback p.1) h'.timeouts
    pub due : count_due h'.timeouts ≤ count_due h.timeouts
    pub before : (it : Option ℕ) → Before IsQuiet it h.timeouts → Before IsQuiet it h'.timeouts
    -- Where the flag is not set, every key is still there.
    pub keys :
        h'.iterator_invalidated ≡ false
        → (h.iterator_invalidated ≡ false)
          × ((j : ℕ) → find j h.timeouts ≢ none → find j h'.timeouts ≢ none)

  Keeps-refl : (h : TimeoutHandler C) → Keeps h h
  Keeps-refl h = record {
    sorted = λ s. s;
    callbacks = λ s. s;
    due = omega arith;
    before = λ it s. s;
    keys = λ e. (e, λ j f. f);
  }

  Keeps-trans : (h h' h'' : TimeoutHandler C) → Keeps h h' → Keeps h' h'' → Keeps h h''
  Keeps-trans h h' h'' a b = record {
    sorted = λ s. b.sorted (a.sorted s);
    callbacks = λ s. b.callbacks (a.callbacks s);
    due = omega (arith, a.due, b.due);
    before = λ it s. b.before it (a.before it s);
    keys = λ e. let (e', f') = b.keys e in let (e'', f) = a.keys e' in (e'', λ j s. f' j (f j s));
  }

  count_due-assign :
      (k : ℕ) (t : Timeout C) (m : List (ℕ × Timeout C))
      → IsQuiet t
      → count_due (assign k t m) ≤ count_due m
  count_due-assign k t [] q = ground arith
  count_due-assign k t ((j, u) ∷ m) q = ground (arith, count_due-assign k t m)

  pub count_due-erase : (k : ℕ) (m : List (ℕ × Timeout C)) → count_due (erase k m) ≤ count_due m
  count_due-erase k [] = omega arith
  count_due-erase k ((j, u) ∷ m) = ground (arith, count_due-erase k m)

  pub count_due-erase_due :
      (k : ℕ) (t : Timeout C) (m : List (ℕ × Timeout C))
      → find k m ≡ some t
      → t.time < now
      → count_due (erase k m) < count_due m
  count_due-erase_due k t [] f l = ground arith
  count_due-erase_due k t ((j, u) ∷ m) f l =
      ground (arith, count_due-erase_due k t m, count_due-erase k m)

  assign-Keeps :
      (k : ℕ) (t : Timeout C) (h : TimeoutHandler C)
      → IsQuiet t
      → (All (λ p. HasCallback p.1) h.timeouts → HasCallback t)
      → Keeps h (record h { timeouts = assign k t h.timeouts })
  assign-Keeps k t h q c = record {
    sorted = assign-IsSorted k t h.timeouts;
    callbacks = λ a. All-assign (λ p. HasCallback p.1) k t h.timeouts (c a) a;
    due = count_due-assign k t h.timeouts q;
    before = λ it. Before-assign IsQuiet it k t h.timeouts q;
    keys = λ e. (e, λ j f. ground (arith, find-assign k j t h.timeouts));
  }

  add-Keeps :
      (clock address duration_ms : ℕ) (c : Option C) (h : TimeoutHandler C)
      → now ≤ clock
      → c ≢ none
      → Keeps h (add clock address c duration_ms h)
  unfolding add steady_time_in_future
  add-Keeps clock address duration_ms c h l n = elim (Option-cases (find address h.timeouts)) [
    | inl e ↦
        rw (e, insert)
          (assign-Keeps address
            (record {
              callback = c;
              time = clock + duration_ms * 1_000_000;
              duration_ms = duration_ms;
            })
            h (omega arith) (λ _. n))
    | inr (t, e) ↦ rw (e, insert) (Keeps-refl h)
  ]

  refresh-Keeps :
      (clock cookie : ℕ) (h : TimeoutHandler C) → now ≤ clock → Keeps h (refresh clock cookie h)
  unfolding refresh steady_time_in_future
  refresh-Keeps clock cookie h l = elim (Option-cases (find cookie h.timeouts)) [
    | inl e ↦ rw (e, refresh) (Keeps-refl h)
    | inr (t, e) ↦
        rw (e, refresh)
          (assign-Keeps cookie (record t { time = clock + t.duration_ms * 1_000_000 }) h
            (omega arith) (λ a. All-find HasCallback cookie t h.timeouts a e))
  ]

  remove-Keeps : (cookie : ℕ) (h : TimeoutHandler C) → Keeps h (remove cookie h)
  unfolding remove
  remove-Keeps cookie h = elim (Option-cases (find cookie h.timeouts)) [
    | inl e ↦ rw (e, remove) (Keeps-refl h)
    | inr (t, e) ↦
        rw (e, remove)
          (record {
            sorted = erase-IsSorted cookie h.timeouts;
            callbacks = All-erase (λ p. HasCallback p.1) cookie h.timeouts;
            due = count_due-erase cookie h.timeouts;
            before = λ it. Before-erase IsQuiet it cookie h.timeouts;
            keys = λ e. absurd (ground (arith, e));
          })
  ]

  act-Keeps :
      (action : Action C) (h : TimeoutHandler C) → IsLater now action → Keeps h (act action h)
  unfolding act
  act-Keeps (adds clock address callback duration_ms) h l =
      add-Keeps clock address duration_ms callback h l.0 l.1
  act-Keeps (refreshes clock cookie) h l = refresh-Keeps clock cookie h l
  act-Keeps (removes cookie) h l = remove-Keeps cookie h

  pub act_all-Keeps :
      (actions : List (Action C)) (h : TimeoutHandler C)
      → All (IsLater now) actions
      → Keeps h (act_all actions h)
  unfolding act_all
  act_all-Keeps [] h l = Keeps-refl h
  act_all-Keeps (action ∷ actions) h l =
      Keeps-trans h (act action h) (act_all actions (act action h)) (act-Keeps action h l.0)
        (act_all-Keeps actions (act action h) l.1)
