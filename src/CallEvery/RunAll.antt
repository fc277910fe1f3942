-- ===== src/CallEvery/RunAll.antt =====
-- `run_once` of core/call_every_handler.cpp, against a plain walk through the entries.
use stealth_drone_purdue.Base.{
  ℕ, zero, suc, ◌+◌, ◌≤◌, ◌<◌, ◌≡◌, refl, ◌∙◌, Bool, true, false, List, [], ◌∷◌, ◌++◌, Option, none,
  some, ◌*◌, ltb, if◌then◌else◌, ==_self, arith, All, All-append, length, append-nil, append_assoc,
  Bool-cases, inl, inr, ap,
}
use stealth_drone_purdue.StdMap.{find, assign, erase, next_key, first_key}
use stealth_drone_purdue.StdMap.Order.{IsAbove, IsSorted}
use stealth_drone_purdue.CallEvery.{
  Entry, CallEveryHandler, scaled, remove, is_due, shift, call_back, called, visit, run_from,
  run_once, apply_all,
}

module _ {V : Type 0} where
  -- Every key is less than `k`.
  abbrev IsBelow : ℕ → List (ℕ × V) → Type 0
  IsBelow k = All (λ p. p.0 < k)

  IsBelow-le : (k j : ℕ) (m : List (ℕ × V)) → k ≤ j → IsBelow k m → IsBelow j m
  IsBelow-le k j [] h below = tt
  IsBelow-le k j ((i, v) ∷ m) h below = (omega (arith, below.0), IsBelow-le k j m h below.1)

  find-middle :
      (k : ℕ) (v : V) (front back : List (ℕ × V))
      → IsBelow k front
      → find k (front ++ (k, v) ∷ back) ≡ some v
  find-middle k v [] back below = ground arith
  find-middle k v ((j, w) ∷ front) back below =
      ground (arith, find-middle k v front back below.1, below.0)

  assign-middle :
      (k : ℕ) (v v' : V) (front back : List (ℕ × V))
      → IsBelow k front
      → assign k v' (front ++ (k, v) ∷ back) ≡ front ++ (k, v') ∷ back
  assign-middle k v v' [] back below = ground arith
  assign-middle k v v' ((j, w) ∷ front) back below =
      ground (arith, assign-middle k v v' front back below.1, below.0)

  next-back : (k : ℕ) (back : List (ℕ × V)) → IsAbove k back → next_key k back ≡ first_key back
  next-back k [] above = refl
  next-back k ((j, w) ∷ back) above = ground (arith, above.0)

  next-middle :
      (k : ℕ) (v : V) (front back : List (ℕ × V))
      → IsBelow k front
      → IsAbove k back
      → next_key k (front ++ (k, v) ∷ back) ≡ first_key back
  next-middle k v [] back below above = ground (arith, next-back k back above)
  next-middle k v ((j, w) ∷ front) back below above =
      ground (arith, next-middle k v front back below.1 above, below.0)

module _ {C : Type 0} (clock : ℕ → ℕ) where
  -- More than the interval, in nanoseconds, has passed at the visit of entry number `n`.
  abbrev pub has_passed : (n : ℕ) → Entry C → Bool
  has_passed n entry = ltb (entry.last_time + scaled 1_000_000_000 entry.interval_s) (clock n)

  -- One interval later, in whole milliseconds.
  abbrev pub moved_on : Entry C → Entry C
  moved_on entry = record {
    callback = entry.callback;
    last_time = scaled 1000 entry.interval_s * 1_000_000 + entry.last_time;
    interval_s = entry.interval_s;
  }

  -- The entries and the callbacks of a walk that calls each callback whose interval has passed.
  abbrev pub walk_entries : (n : ℕ) → List (ℕ × Entry C) → List (ℕ × Entry C)
  walk_entries n [] = []
  walk_entries n ((k, entry) ∷ entries) =
      (k, if has_passed n entry then moved_on entry else entry) ∷ walk_entries (n + 1) entries

  abbrev pub walk_calls : (n : ℕ) → List (ℕ × Entry C) → List C
  walk_calls n [] = []
  walk_calls n ((k, entry) ∷ entries) =
      (if has_passed n entry then called entry.callback else []) ++ walk_calls (n + 1) entries

  is_due_lem : (n : ℕ) (entry : Entry C) → is_due clock n entry ≡ has_passed n entry
  unfolding is_due
  is_due_lem n entry = ground arith

  shift_lem : (entry : Entry C) → shift entry ≡ moved_on entry
  unfolding shift
  shift_lem entry = ground arith

  -- The entries behind the iterator.
  abbrev Fits : (front back : List (ℕ × Entry C)) → Type 0
  Fits front [] = Unit
  Fits front ((k, entry) ∷ back) = IsBelow k front

  call_back_quiet :
      (callback : Option C) (h : CallEveryHandler C) → call_back clock (λ _. []) callback h ≡ h
  unfolding call_back apply_all
  call_back_quiet none h = refl
  call_back_quiet (some c) h = refl

  visit_lem :
      (n k : ℕ) (entry : Entry C) (front back : List (ℕ × Entry C)) (flag : Bool)
      → IsBelow k front
      → visit clock
          (λ _. [])
          n
          k
          entry
          (record { entries = front ++ (k, entry) ∷ back; iterator_invalidated = flag })
        ≡ (
          if has_passed n entry then called entry.callback else [],
          record {
            entries = front ++ (k, if has_passed n entry then moved_on entry else entry) ∷ back;
            iterator_invalidated = flag;
          },
        )
  unfolding visit
  visit_lem n k entry front back flag below = elim (Bool-cases (has_passed n entry)) [
    | inl due ↦
        rw
          (
            is_due_lem n entry,
            due,
            shift_lem entry,
            assign-middle k entry (moved_on entry) front back below,
          )
          (ap (λ (h : CallEveryHandler C). (called entry.callback, h))
            (call_back_quiet entry.callback (record {
              entries = front ++ (k, moved_on entry) ∷ back;
              iterator_invalidated = flag;
            })))
    | inr not_due ↦ rw (is_due_lem n entry, not_due) refl
  ]

  -- One turn of the loop.
  turn :
      (n fuel k : ℕ) (entry : Entry C) (front back : List (ℕ × Entry C)) (calls : List C)
      → IsBelow k front
      → IsAbove k back
      → run_from clock
          (λ _. [])
          (suc fuel)
          n
          (some k)
          calls
          (record { entries = front ++ (k, entry) ∷ back; iterator_invalidated = false })
        ≡ run_from clock
            (λ _. [])
            fuel
            (n + 1)
            (first_key back)
            (calls ++ (if has_passed n entry then called entry.callback else []))
            (record {
              entries = front ++ (k, if has_passed n entry then moved_on entry else entry) ∷ back;
              iterator_invalidated = false;
            })
  unfolding run_from
  turn n fuel k entry front back calls below above =
      let entry' = if has_passed n entry then moved_on entry else entry in
      rw
        (
          run_from,
          find-middle k entry front back below,
          visit_lem n k entry front back false below,
          next-middle k entry' front back below above,
        )
        refl

  Fits-next :
      (k : ℕ) (entry : Entry C) (front back : List (ℕ × Entry C))
      → IsBelow k front
      → IsAbove k back
      → Fits (front ++ (k, entry) ∷ []) back
  Fits-next k entry front [] below above = tt
  Fits-next k entry front ((j, other) ∷ back) below above =
      All-append (λ p. p.0 < j) front ((k, entry) ∷ [])
        (IsBelow-le k j front (omega (arith, above.0)) below) (above.0, tt)

  run_from_lem :
      (back : List (ℕ × Entry C)) (fuel n : ℕ) (front : List (ℕ × Entry C)) (calls : List C)
      → length back ≤ fuel
      → IsSorted back
      → Fits front back
      → run_from clock
          (λ _. [])
          fuel
          n
          (first_key back)
          calls
          (record { entries = front ++ back; iterator_invalidated = false })
        ≡ some (
          calls ++ walk_calls n back,
          record { entries = front ++ walk_entries n back; iterator_invalidated = false },
        )
  unfolding run_from
  run_from_lem [] fuel n front calls enough sorted fits = rw (append-nil calls) refl
  run_from_lem ((k, entry) ∷ back) zero n front calls enough sorted fits = absurd (omega arith)
  run_from_lem ((k, entry) ∷ back) (suc fuel) n front calls enough sorted fits =
      let call = if has_passed n entry then called entry.callback else [] in
      let entry' = if has_passed n entry then moved_on entry else entry in
      let rest =
        run_from_lem back fuel (n + 1) (front ++ (k, entry') ∷ []) (calls ++ call) (omega arith)
          sorted.1 (Fits-next k entry' front back fits sorted.0) in
      turn n fuel k entry front back calls fits sorted.0
      ∙ rw
          (
            append_assoc front ((k, entry') ∷ []) back,
            append_assoc front ((k, entry') ∷ []) (walk_entries (n + 1) back),
            append_assoc calls call (walk_calls (n + 1) back),
          )
          at rest

  Fits-empty : (back : List (ℕ × Entry C)) → Fits [] back
  Fits-empty [] = tt
  Fits-empty (p ∷ back) = tt

  -- When callbacks leave the handler alone, and nothing was removed since the last run, one run
  -- ends with fuel for every entry: it calls the callback of each entry whose interval has passed,
  -- once, in the order of the entries, and moves the time of each of these on by its interval.
  pub run_once_lem :
      (fuel : ℕ) (h : CallEveryHandler C)
      → IsSorted h.entries
      → h.iterator_invalidated ≡ false
      → length h.entries ≤ fuel
      → run_once clock (λ _. []) fuel h
        ≡ some (walk_calls 0 h.entries, record h { entries = walk_entries 0 h.entries })
  unfolding run_once
  run_once_lem fuel h sorted valid enough =
      rw valid (run_from_lem h.entries fuel 0 [] [] enough sorted (Fits-empty h.entries))

  first_only :
      (fuel k : ℕ) (entry : Entry C) (back : List (ℕ × Entry C))
      → run_from clock
          (λ _. [])
          (suc fuel)
          0
          (some k)
          []
          (record { entries = (k, entry) ∷ back; iterator_invalidated = true })
        ≡ some (
          if has_passed 0 entry then called entry.callback else [],
          record {
            entries = (k, if has_passed 0 entry then moved_on entry else entry) ∷ back;
            iterator_invalidated = false;
          },
        )
  unfolding run_from
  first_only fuel k entry back =
      let seen = visit_lem 0 k entry [] back true tt in rw (run_from, ==_self k, seen) refl

  remove_lem :
      (gone : ℕ) (removed : Entry C) (h : CallEveryHandler C)
      → find gone h.entries ≡ some removed
      → remove gone h ≡ record { entries = erase gone h.entries; iterator_invalidated = true }
  unfolding remove
  remove_lem gone removed h there = ground arith

  -- After an entry was removed while no run was under way, the next run visits the first entry that
  -- is left, and no other, however many are due: callbacks that leave the handler alone.
  pub run_once_first :
      (fuel gone k : ℕ) (removed entry : Entry C) (back : List (ℕ × Entry C))
      (h : CallEveryHandler C)
      → find gone h.entries ≡ some removed
      → erase gone h.entries ≡ (k, entry) ∷ back
      → run_once clock (λ _. []) (suc fuel) (remove gone h)
        ≡ some (
          if has_passed 0 entry then called entry.callback else [],
          record {
            entries = (k, if has_passed 0 entry then moved_on entry else entry) ∷ back;
            iterator_invalidated = false;
          },
        )
  unfolding run_once
  run_once_first fuel gone k removed entry back h there left =
      rw (run_once, remove_lem gone removed h there, left) (first_only fuel k entry back)
