-- ===== src/StdMap.antt =====
-- `std::map` over numeric keys (addresses, unsigned ids), in the order of the keys.
pub mod Order
use stealth_drone_purdue.Base.{
  ℕ, ◌≡◌, refl, List, [], ◌∷◌, Option, none, some, arith, ltb, ◌==◌, if◌then◌else◌,
}

module _ {ℓ} {V : Type ℓ} where
  -- `find` and `at`.
  abbrev pub find : ℕ → List (ℕ × V) → Option V
  find k [] = none
  find k ((j, v) ∷ m) = if j == k then some v else find k m

  -- `m[k] = v`.
  abbrev pub assign : ℕ → V → List (ℕ × V) → List (ℕ × V)
  assign k v [] = (k, v) ∷ []
  assign k v ((j, w) ∷ m) =
      if j == k then (k, v) ∷ m else if ltb k j then (k, v) ∷ (j, w) ∷ m else (j, w) ∷ assign k v m

  -- `insert` keeps the entry of a key that is there.
  abbrev pub insert : ℕ → V → List (ℕ × V) → List (ℕ × V)
  insert k v m = elim (find k m) [ none ↦ assign k v m | some _ ↦ m ]

  abbrev pub erase : ℕ → List (ℕ × V) → List (ℕ × V)
  erase k [] = []
  erase k ((j, v) ∷ m) = let rest = erase k m in if j == k then rest else (j, v) ∷ rest

  -- Where an iterator at `k` goes by `++it`: the next key, or `none` for `end()`.
  abbrev pub next_key : ℕ → List (ℕ × V) → Option ℕ
  next_key k [] = none
  next_key k ((j, v) ∷ m) = if ltb k j then some j else next_key k m

  -- `begin()`.
  abbrev pub first_key : List (ℕ × V) → Option ℕ
  first_key [] = none
  first_key ((j, v) ∷ m) = some j

  pub find-assign :
      (k j : ℕ) (v : V) (m : List (ℕ × V))
      → find j (assign k v m) ≡ (if k == j then some v else find j m)
  find-assign k j v [] = refl
  find-assign k j v ((i, w) ∷ m) = ground (arith, find-assign k j v m)

  pub find-erase :
      (k j : ℕ) (m : List (ℕ × V)) → find j (erase k m) ≡ (if k == j then none else find j m)
  find-erase k j [] = ground arith
  find-erase k j ((i, w) ∷ m) = ground (arith, find-erase k j m)

  pub find-insert :
      (k j : ℕ) (v : V) (m : List (ℕ × V))
      → find k m ≡ none
      → find j (insert k v m) ≡ (if k == j then some v else find j m)
  find-insert k j v m h = ground (arith, find-assign k j v m)
