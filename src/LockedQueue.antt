-- ===== src/LockedQueue.antt =====
-- core/locked_queue.h. A queue and the state of its mutex. `none` stands for a call that waits for
-- the mutex: in one thread it does not return.
use stealth_drone_purdue.Base.{
  ℕ, ◌≡◌, refl, ◌⊎◌, inl, inr, Bool, true, false, List, [], ◌∷◌, ◌++◌, Option, none, some, arith,
  length, if◌then◌else◌,
}

pub record LockedQueue (T : Type 0) : Type 0 where
  pub queue : List T
  pub locked : Bool

module _ {T : Type 0} where
  abbrev pub empty : LockedQueue T
  empty = record { queue = []; locked = false }

  unfoldable pub push_back : T → LockedQueue T → Option (LockedQueue T)
  push_back item q = if q.locked then none else some (record q { queue = q.queue ++ item ∷ [] })

  -- The front stays in the queue; the mutex is kept if there is one.
  unfoldable pub borrow_front : LockedQueue T → Option (Option T × LockedQueue T)
  borrow_front q =
      if q.locked
      then none
      else elim q.queue [ [] ↦ some (none, q) | x ∷ _ ↦ some (some x, record q { locked = true }) ]

  unfoldable pub return_front : LockedQueue T → LockedQueue T
  return_front q = record q { locked = false }

  abbrev behind : List T → List T
  behind [] = []
  behind (_ ∷ xs) = xs

  -- Gives the front back if it is borrowed, so it never waits.
  unfoldable pub pop_front : LockedQueue T → LockedQueue T
  unfolding return_front
  pop_front q = let free = return_front q in record free { queue = behind free.queue }

  unfoldable pub size : LockedQueue T → Option ℕ
  size q = if q.locked then none else some (length q.queue)

  -- A write through the borrowed pointer: the item at the front is shared with the queue.
  abbrev pub write_front : T → LockedQueue T → LockedQueue T
  write_front item q = elim q.queue [ [] ↦ q | _ ∷ xs ↦ record q { queue = item ∷ xs } ]

  pub size-free : (q : LockedQueue T) → q.locked ≡ false → size q ≡ some (length q.queue)
  unfolding size
  size-free q free = ground arith

  abbrev pub hold : LockedQueue T → LockedQueue T
  hold q = record q { locked = true }

  -- A free queue lends its front and is then locked, or is empty and stays free.
  pub borrow_front-cases :
      (q : LockedQueue T)
      → q.locked ≡ false
      → ((q.queue ≡ []) × (borrow_front q ≡ some (none, q)))
        ⊎ ((x : T) × (xs : List T) × (q.queue ≡ x ∷ xs) × (borrow_front q ≡ some (some x, hold q)))
  unfolding borrow_front
  borrow_front-cases q free = lent q.queue refl
    where
      lent :
          (xs : List T)
          → q.queue ≡ xs
          → ((q.queue ≡ []) × (borrow_front q ≡ some (none, q)))
            ⊎ ((x : T) × (xs : List T) × (q.queue ≡ x ∷ xs)
                × (borrow_front q ≡ some (some x, hold q)))
      lent [] e = inl (e, ground arith)
      lent (x ∷ xs) e = inr (x, xs, e, ground arith)
