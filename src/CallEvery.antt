-- ===== src/CallEvery.antt =====
-- core/call_every_handler.h and core/call_every_handler.cpp. The address of a new entry, which is
-- its cookie, is the allocator's choice; an iterator is the key that it points to. Each method
-- holds the mutex from end to end, but for `run_once`, which gives it up for a callback.
pub mod RunAll
use stealth_drone_purdue.Base.{
  ℕ, zero, suc, ◌+◌, ◌-◌, ◌*◌, ◌/◌, ◌%◌, ◌^◌, Bool, true, false, List, [], ◌∷◌, ◌++◌, Option, none,
  some, ltb, ◌==◌, if◌then◌else◌,
}
use stealth_drone_purdue.StdMap.{find, insert, assign, erase, next_key, first_key}
use stealth_drone_purdue.Mavlink.{Float32}

pub record Entry (C : Type 0) : Type 0 where
  pub callback : Option C
  pub last_time : ℕ
  pub interval_s : Float32

pub record CallEveryHandler (C : Type 0) : Type 0 where
  pub entries : List (ℕ × Entry C)
  pub iterator_invalidated : Bool

-- The whole part of `scale` times a float that is finite and not negative, as every interval of the
-- SDK is.
unfoldable pub scaled : (scale : ℕ) → Float32 → ℕ
scaled scale f =
    let fraction = f % 2 ^ 23 in
    let exponent = f / 2 ^ 23 % 256 in
    if exponent == 0
    then scale * fraction / 2 ^ 149
    else scale * (fraction + 2 ^ 23) * 2 ^ exponent / 2 ^ 150

-- What a callback does with the handler.
pub data Change (C : Type 0) : Type 0 where
  adds : (now address : ℕ) → Option C → Float32 → Change C
  changes : Float32 → (cookie : ℕ) → Change C
  resets : (now cookie : ℕ) → Change C
  removes : (cookie : ℕ) → Change C

module _ {C : Type 0} where
  unfoldable pub add :
      (now address : ℕ) → Option C → Float32 → CallEveryHandler C → CallEveryHandler C
  add now address callback interval_s h = record h {
    entries =
        insert address (record { callback = callback; last_time = now; interval_s = interval_s })
          h.entries;
  }

  unfoldable pub change : Float32 → (cookie : ℕ) → CallEveryHandler C → CallEveryHandler C
  change interval_s cookie h = elim (find cookie h.entries) [
    | none ↦ h
    | some entry ↦ record h {
      entries = assign cookie (record entry { interval_s = interval_s }) h.entries;
    }
  ]

  unfoldable pub reset : (now cookie : ℕ) → CallEveryHandler C → CallEveryHandler C
  reset now cookie h = elim (find cookie h.entries) [
    | none ↦ h
    | some entry ↦ record h { entries = assign cookie (record entry { last_time = now }) h.entries }
  ]

  unfoldable pub remove : (cookie : ℕ) → CallEveryHandler C → CallEveryHandler C
  remove cookie h = elim (find cookie h.entries) [
    | none ↦ h
    | some entry ↦ record h { entries = erase cookie h.entries; iterator_invalidated = true }
  ]

  unfoldable pub apply : Change C → CallEveryHandler C → CallEveryHandler C
  apply (adds now address callback interval_s) h = add now address callback interval_s h
  apply (changes interval_s cookie) h = change interval_s cookie h
  apply (resets now cookie) h = reset now cookie h
  apply (removes cookie) h = remove cookie h

  pub apply_all : List (Change C) → CallEveryHandler C → CallEveryHandler C
  apply_all [] h = h
  apply_all (c ∷ rest) h = apply_all rest (apply c h)

-- `clock n` is the steady clock at the visit of entry number `n`, counted from 0, in nanoseconds; it
-- is not behind `last_time`. `elapsed_since_s` divides their difference by 10^9, which is compared
-- here without the rounding of `double`.
module _ {C : Type 0} where
  unfoldable pub is_due : (clock : ℕ → ℕ) (n : ℕ) → Entry C → Bool
  is_due clock n entry = ltb (scaled 1_000_000_000 entry.interval_s) (clock n - entry.last_time)

  -- By whole milliseconds.
  unfoldable pub shift : Entry C → Entry C
  shift entry = record entry {
    last_time = entry.last_time + scaled 1000 entry.interval_s * 1_000_000;
  }

abbrev pub called : {C : Type 0} → Option C → List C
called none = []
called (some c) = c ∷ []

module _ {C : Type 0} (clock : ℕ → ℕ) (respond : C → List (Change C)) where
  pub call_back : Option C → CallEveryHandler C → CallEveryHandler C
  call_back none h = h
  call_back (some c) h = apply_all (respond c) h

  -- The body of the loop before the test of `_iterator_invalidated`, with the callback called.
  unfoldable pub visit : (n k : ℕ) → Entry C → CallEveryHandler C → List C × CallEveryHandler C
  visit n k entry h =
      if is_due clock n entry
      then (
        called entry.callback,
        call_back entry.callback (record h { entries = assign k (shift entry) h.entries }),
      )
      else ([], h)

  -- The loop from the iterator on, with the callbacks called before; `none`: the iterator points
  -- nowhere, or the loop has not ended after `fuel` rounds.
  unfoldable pub run_from :
      (fuel n : ℕ) → Option ℕ → List C → CallEveryHandler C → Option (List C × CallEveryHandler C)
  run_from fuel n none calls h = some (calls, h)
  run_from zero n (some k) calls h = none
  run_from (suc fuel) n (some k) calls h = elim (find k h.entries) [
    | none ↦ none
    | some entry ↦
        let (call, after) = visit n k entry h in
        let rest = run_from fuel (n + 1) (next_key k after.entries) (calls ++ call) after in
        if after.iterator_invalidated
        then some (calls ++ call, record after { iterator_invalidated = false })
        else rest
  ]

  unfoldable pub run_once : (fuel : ℕ) → CallEveryHandler C → Option (List C × CallEveryHandler C)
  run_once fuel h = run_from fuel 0 (first_key h.entries) [] h
