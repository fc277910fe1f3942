-- ===== src/TimeoutHandler/Termination.antt =====
-- `run_once` of core/timeout_handler.cpp ends, and leaves no timeout that is due.
use stealth_drone_purdue.Base.{
  ℕ, zero, suc, ◌≤◌, ◌<◌, ◌≡◌, refl, sym, ◌≢◌, subst, true, false, List, Option, none, some, arith,
  ltb, ltb→lt, All, Option-cases, Bool-cases, inl, inr,
}
use stealth_drone_purdue.StdMap.{find, next_key, first_key, find-erase}
use stealth_drone_purdue.StdMap.Order.{
  IsSorted, erase-IsSorted, All-erase, All-find, Before, Before-first, Before-next,
  Before-erase_next, remaining, remaining-next, find-first_key, next_key_lem,
}
use stealth_drone_purdue.TimeoutHandler.{Timeout}
use stealth_drone_purdue.TimeoutHandler.RunOnce.{
  Action, Run, IsLater, erase_expired, call, visit, start_over, run_from, run_once,
}
use stealth_drone_purdue.TimeoutHandler.Actions.{
  IsQuiet, HasCallback, count_due, count_due-erase_due, act_all-Keeps,
}

module _ {C : Type 0} (now : ℕ) (respond : C → Run C → List (Action C))
    (later : (c : C) (r : Run C) → All (IsLater now) (respond c r)) where
  abbrev HasCallbacks : Run C → Type 0
  HasCallbacks r = All (λ p. HasCallback now p.1) r.handler.timeouts

  -- The loop comes to an end, and then every timeout lies ahead.
  abbrev Ends : Option ℕ → Run C → Type 0
  Ends it r =
      (fuel : ℕ) × (r' : Run C) × (run_from now respond fuel it r ≡ some r')
      × All (λ p. IsQuiet now p.1) r'.handler.timeouts

  -- What holds at the head of the loop.
  record IsFine (it : Option ℕ) (r : Run C) : Type 0 where
    pub sorted : IsSorted r.handler.timeouts
    pub callbacks : HasCallbacks r
    pub before : Before (IsQuiet now) it r.handler.timeouts
    pub found :
        r.handler.iterator_invalidated ≡ false
        → (k : ℕ) → it ≡ some k
        → find k r.handler.timeouts ≢ none

  round :
      (k : ℕ) (t : Timeout C) (r : Run C)
      → find k r.handler.timeouts ≡ some t
      → Ends
          (start_over now respond (visit now respond k t r)).0
          (start_over now respond (visit now respond k t r)).1
      → Ends (some k) r
  unfolding run_from
  round k t r f (fuel, r', e, quiet) = (suc fuel, r', rw (f, run_from) e, quiet)

  visit-quiet :
      (k : ℕ) (t : Timeout C) (r : Run C)
      → find k r.handler.timeouts ≡ some t
      → now ≤ t.time
      → IsFine (some k) r
      → IsFine (next_key k r.handler.timeouts) r
  visit-quiet k t r f q i = record {
    sorted = i.sorted;
    callbacks = i.callbacks;
    before = Before-next (IsQuiet now) k t r.handler.timeouts i.sorted f q i.before;
    found = λ e j n. (next_key_lem k j r.handler.timeouts n).1;
  }

  visit-due :
      (k : ℕ) (t : Timeout C) (c : C) (r : Run C)
      → find k r.handler.timeouts ≡ some t
      → t.time < now
      → IsFine (some k) r
      → IsFine (next_key k r.handler.timeouts) (call now respond c (erase_expired now respond k r))
        × (count_due now (call now respond c (erase_expired now respond k r)).handler.timeouts
            < count_due now r.handler.timeouts)
  unfolding call erase_expired
  visit-due k t c r f l i =
      let erased = erase_expired now respond k r in
      let kept = act_all-Keeps now (respond c erased) erased.handler (later c erased) in
      (
        record {
          sorted = kept.sorted (erase-IsSorted k r.handler.timeouts i.sorted);
          callbacks =
              kept.callbacks
                (All-erase (λ p. HasCallback now p.1) k r.handler.timeouts i.callbacks);
          before =
              kept.before (next_key k r.handler.timeouts)
                (Before-erase_next (IsQuiet now) k t r.handler.timeouts i.sorted f i.before);
          found = λ e j n. (kept.keys e).1 j (
              let (ahead, there) = next_key_lem k j r.handler.timeouts n in
              ground (arith, find-erase k j r.handler.timeouts));
        },
        omega (arith, kept.due, count_due-erase_due now k t r.handler.timeouts f l),
      )

  start_over_set :
      (it : Option ℕ) (r : Run C)
      → r.handler.iterator_invalidated ≡ true
      → start_over now respond (it, r) ≡ (
        first_key r.handler.timeouts,
        record r { handler = record (r.handler) { iterator_invalidated = false } },
      )
  unfolding start_over
  start_over_set it r e = ground arith

  start_over_clear :
      (it : Option ℕ) (r : Run C)
      → r.handler.iterator_invalidated ≡ false
      → start_over now respond (it, r) ≡ (it, r)
  unfolding start_over
  start_over_clear it r e = ground arith

  start_over-IsFine :
      (it : Option ℕ) (r : Run C)
      → IsFine it r
      → IsFine (start_over now respond (it, r)).0 (start_over now respond (it, r)).1
        × ((start_over now respond (it, r)).1.handler.iterator_invalidated ≡ false)
        × ((start_over now respond (it, r)).1.handler.timeouts ≡ r.handler.timeouts)
  start_over-IsFine it r i = elim (Bool-cases r.handler.iterator_invalidated) [
    | inl e ↦ subst goal (sym (start_over_set it r e)) (
      record {
        sorted = i.sorted;
        callbacks = i.callbacks;
        before = Before-first (IsQuiet now) r.handler.timeouts i.sorted;
        found = λ _ k. find-first_key k r.handler.timeouts;
      },
      refl,
      refl,
    )
    | inr e ↦ subst goal (sym (start_over_clear it r e)) (i, e, refl)
  ]
    where
      goal : Option ℕ × Run C → Type 0
      goal x =
          IsFine x.0 x.1
          × (x.1.handler.iterator_invalidated ≡ false)
          × (x.1.handler.timeouts ≡ r.handler.timeouts)

  -- The loop goes on from what `start_over` gives.
  abbrev EndsOver : Option ℕ × Run C → Type 0
  EndsOver x = Ends (start_over now respond x).0 (start_over now respond x).1

  visit_quiet_lem :
      (k : ℕ) (t : Timeout C) (r : Run C)
      → now ≤ t.time
      → visit now respond k t r ≡ (next_key k r.handler.timeouts, r)
  unfolding visit
  visit_quiet_lem k t r q = ground arith

  visit_due_lem :
      (k : ℕ) (t : Timeout C) (c : C) (r : Run C)
      → t.time < now
      → t.callback ≡ some c
      → visit now respond k t r
        ≡ (next_key k r.handler.timeouts, call now respond c (erase_expired now respond k r))
  unfolding visit
  visit_due_lem k t c r l e = ground arith

  -- After a call: nothing is known of the flag, so the loop may have started over.
  due-Ends :
      (k : ℕ) (t : Timeout C) (r : Run C)
      → IsFine (some k) r
      → find k r.handler.timeouts ≡ some t
      → t.time < now
      → ((it : Option ℕ) (r' : Run C)
          → IsFine it r'
          → r'.handler.iterator_invalidated ≡ false
          → count_due now r'.handler.timeouts < count_due now r.handler.timeouts
          → Ends it r')
      → Ends (some k) r
  due-Ends k t r i f l go = elim (Option-cases t.callback) [
    | inl e ↦ absurd (All-find (HasCallback now) k t r.handler.timeouts i.callbacks f e)
    | inr (c, e) ↦
        let next = next_key k r.handler.timeouts in
        let r1 = call now respond c (erase_expired now respond k r) in
        let (fine, fewer) = visit-due k t c r f l i in
        let (fine', clear, same) = start_over-IsFine next r1 fine in
        round k t r f (
          subst EndsOver (sym (visit_due_lem k t c r l e)) (
            go (start_over now respond (next, r1)).0 (start_over now respond (next, r1)).1 fine'
              clear (rw same fewer)))
  ]

  step-Ends :
      (k : ℕ) (r : Run C)
      → IsFine (some k) r
      → r.handler.iterator_invalidated ≡ false
      → ((it : Option ℕ) (r' : Run C)
          → IsFine it r'
          → r'.handler.iterator_invalidated ≡ false
          → count_due now r'.handler.timeouts < count_due now r.handler.timeouts
          → Ends it r')
      → (IsFine (next_key k r.handler.timeouts) r
          → remaining (next_key k r.handler.timeouts) r.handler.timeouts
            < remaining (some k) r.handler.timeouts
          → Ends (next_key k r.handler.timeouts) r)
      → Ends (some k) r
  step-Ends k r i clear due ahead = elim (Option-cases (find k r.handler.timeouts)) [
    | inl f ↦ absurd (i.found clear k refl f)
    | inr (t, f) ↦ elim (Bool-cases (ltb t.time now)) [
      | inl l ↦ due-Ends k t r i f (ltb→lt t.time now l) due
      | inr l ↦
          let quiet : now ≤ t.time = ground arith in
          let next = next_key k r.handler.timeouts in
          round k t r f (
            subst EndsOver (sym (visit_quiet_lem k t r quiet)) (
              subst (λ (x : Option ℕ × Run C). Ends x.0 x.1) (sym (start_over_clear next r clear))
                (ahead (visit-quiet k t r f quiet i)
                  (remaining-next k r.handler.timeouts (i.found clear k refl)))))
    ]
  ]

  -- The loop, from where the flag is not set: by the number of timeouts that are due, and then by
  -- the number of keys ahead.
  loop-Ends :
      (due rounds : ℕ) (it : Option ℕ) (r : Run C)
      → IsFine it r
      → r.handler.iterator_invalidated ≡ false
      → count_due now r.handler.timeouts ≤ due
      → remaining it r.handler.timeouts ≤ rounds
      → Ends it r
  unfolding run_from
  loop-Ends due rounds none r i clear d n = (0, r, refl, i.before)
  loop-Ends zero zero (some k) r i clear d n =
      step-Ends k r i clear (λ it r' i' c l. absurd (omega (arith, l)))
        (λ i' l. absurd (omega (arith, l)))
  loop-Ends zero (suc rounds) (some k) r i clear d n =
      step-Ends k r i clear (λ it r' i' c l. absurd (omega (arith, l)))
        (λ i' l.
          loop-Ends zero rounds (next_key k r.handler.timeouts) r i' clear d (omega (arith, l)))
  loop-Ends (suc due) zero (some k) r i clear d n =
      step-Ends k r i clear
        (λ it r' i' c l.
          loop-Ends due (remaining it r'.handler.timeouts) it r' i' c (omega (arith, l))
            (omega arith))
        (λ i' l. absurd (omega (arith, l)))
  loop-Ends (suc due) (suc rounds) (some k) r i clear d n =
      step-Ends k r i clear
        (λ it r' i' c l.
          loop-Ends due (remaining it r'.handler.timeouts) it r' i' c (omega (arith, l))
            (omega arith))
        (λ i' l.
          loop-Ends (suc due) rounds (next_key k r.handler.timeouts) r i' clear d
            (omega (arith, l)))

  settled :
      (it : Option ℕ) (r : Run C) → IsFine it r → r.handler.iterator_invalidated ≡ false → Ends it r
  settled it r i c =
      loop-Ends (count_due now r.handler.timeouts) (remaining it r.handler.timeouts) it r i c
        (omega arith) (omega arith)

  -- From the first key, whatever the flag is.
  first-Ends :
      (it : Option ℕ) (r : Run C) → first_key r.handler.timeouts ≡ it → IsFine it r → Ends it r
  unfolding run_from
  first-Ends none r e i = (0, r, refl, i.before)
  first-Ends (some k) r e i = elim (Option-cases (find k r.handler.timeouts)) [
    | inl f ↦ absurd (find-first_key k r.handler.timeouts e f)
    | inr (t, f) ↦ elim (Bool-cases (ltb t.time now)) [
      | inl l ↦ due-Ends k t r i f (ltb→lt t.time now l) (λ it r' i' c _. settled it r' i' c)
      | inr l ↦
          let quiet : now ≤ t.time = ground arith in
          let next = next_key k r.handler.timeouts in
          let (i', c, same) = start_over-IsFine next r (visit-quiet k t r f quiet i) in
          round k t r f (
            subst EndsOver (sym (visit_quiet_lem k t r quiet)) (
              settled (start_over now respond (next, r)).0 (start_over now respond (next, r)).1 i'
                c))
    ]
  ]

  -- `run_once` ends, whatever the callbacks do with the handler, and no timeout is due any more
  -- when it does: it is enough that the keys are in order, as in any `std::map`, that no callback
  -- is empty, and that the clock does not go back.
  pub run_once_ends :
      (r : Run C)
      → IsSorted r.handler.timeouts
      → HasCallbacks r
      → (fuel : ℕ) × (r' : Run C) × (run_once now respond fuel r ≡ some r')
        × All (λ p. IsQuiet now p.1) r'.handler.timeouts
  unfolding run_once
  run_once_ends r sorted callbacks = first-Ends (first_key r.handler.timeouts) r refl (record {
    sorted = sorted;
    callbacks = callbacks;
    before = Before-first (IsQuiet now) r.handler.timeouts sorted;
    found = λ _ k. find-first_key k r.handler.timeouts;
  })
