-- ===== src/StdMap/Order.antt =====
-- The order of the keys of a `std::map`, and the iterators over them.
use stealth_drone_purdue.Base.{
  ℕ, ◌+◌, ◌≤◌, ◌<◌, ◌≡◌, refl, ◌≢◌, List, [], ◌∷◌, Option, none, some, arith, ltb, ◌==◌,
  if◌then◌else◌, All, lt→ltb, ltb→lt, Bool-cases, sym, subst, Option-cases, inl, inr,
}
use stealth_drone_purdue.StdMap.{find, assign, erase, next_key, first_key}

module _ {V : Type 0} where
  -- Every key is greater than `k`.
  abbrev pub IsAbove : ℕ → List (ℕ × V) → Type 0
  IsAbove k = All (λ p. k < p.0)

  abbrev pub IsSorted : List (ℕ × V) → Type 0
  IsSorted [] = Unit
  IsSorted ((k, v) ∷ m) = IsAbove k m × IsSorted m

  -- How many keys an iterator at `k` has before it, its own included.
  abbrev keys_from : ℕ → List (ℕ × V) → ℕ
  keys_from k [] = 0
  keys_from k ((j, v) ∷ m) = (if ltb j k then 0 else 1) + keys_from k m

  pub All-assign :
      (P : ℕ × V → Type 0) (k : ℕ) (v : V) (m : List (ℕ × V))
      → P (k, v)
      → All P m
      → All P (assign k v m)
  All-assign P k v [] p h = (p, tt)
  All-assign P k v ((j, w) ∷ m) p h = ground (arith, All-assign P k v m p)

  pub All-erase : (P : ℕ × V → Type 0) (k : ℕ) (m : List (ℕ × V)) → All P m → All P (erase k m)
  All-erase P k [] h = tt
  All-erase P k ((j, w) ∷ m) h = ground (arith, All-erase P k m)

  pub IsAbove-le : (i k : ℕ) (m : List (ℕ × V)) → i ≤ k → IsAbove k m → IsAbove i m
  IsAbove-le i k [] le h = tt
  IsAbove-le i k ((j, v) ∷ m) le h = (omega (arith, h.0), IsAbove-le i k m le h.1)

  pub assign-IsSorted : (k : ℕ) (v : V) (m : List (ℕ × V)) → IsSorted m → IsSorted (assign k v m)
  assign-IsSorted k v [] h = (tt, tt)
  assign-IsSorted k v ((j, w) ∷ m) h = ground (
    arith,
    assign-IsSorted k v m,
    IsAbove-le k j m,
    λ (l : j < k). All-assign (λ p. j < p.0) k v m l,
  )

  pub erase-IsSorted : (k : ℕ) (m : List (ℕ × V)) → IsSorted m → IsSorted (erase k m)
  erase-IsSorted k [] h = tt
  erase-IsSorted k ((j, w) ∷ m) h = ground (arith, erase-IsSorted k m, All-erase (λ p. j < p.0) k m)

  pub find-IsAbove : (k : ℕ) (m : List (ℕ × V)) → IsAbove k m → find k m ≡ none
  find-IsAbove k [] h = refl
  find-IsAbove k ((j, v) ∷ m) h = ground (arith, find-IsAbove k m)

  -- What an iterator moves to is a key behind it.
  pub next_key_lem :
      (k j : ℕ) (m : List (ℕ × V)) → next_key k m ≡ some j → (k < j) × (find j m ≢ none)
  next_key_lem k j [] h = ground arith
  next_key_lem k j ((i, v) ∷ m) h = ground (arith, next_key_lem k j m)

  pub keys_from_anti : (k j : ℕ) (m : List (ℕ × V)) → k ≤ j → keys_from j m ≤ keys_from k m
  keys_from_anti k j [] l = omega arith
  keys_from_anti k j ((i, v) ∷ m) l = ground (arith, keys_from_anti k j m)

  pub keys_from-next :
      (k j : ℕ) (m : List (ℕ × V)) → k < j → find k m ≢ none → keys_from j m < keys_from k m
  keys_from-next k j [] l h = ground arith
  keys_from-next k j ((i, v) ∷ m) l h = ground (arith, keys_from-next k j m, keys_from_anti k j m)

  -- A predicate on the entries before an iterator.
  abbrev pub Before : (P : V → Type 0) → Option ℕ → List (ℕ × V) → Type 0
  Before P none = All (λ p. P p.1)
  Before P (some k) = All (λ p. p.0 < k → P p.1)

  Above-Before : (P : V → Type 0) (k : ℕ) (m : List (ℕ × V)) → IsAbove k m → Before P (some k) m
  Above-Before P k [] h = tt
  Above-Before P k ((j, v) ∷ m) h = (λ l. absurd (omega (arith, h.0)), Above-Before P k m h.1)

  pub Before-first : (P : V → Type 0) (m : List (ℕ × V)) → IsSorted m → Before P (first_key m) m
  Before-first P [] h = tt
  Before-first P ((j, v) ∷ m) h = (λ l. absurd (omega arith), Above-Before P j m h.0)

  -- Behind `k`, the iterator from `k` moves to the first entry.
  Before-rest :
      (P : V → Type 0) (k : ℕ) (m : List (ℕ × V))
      → IsSorted m
      → IsAbove k m
      → Before P (next_key k m) m
  Before-rest P k [] s a = tt
  Before-rest P k ((j, v) ∷ m) s a =
      rw (lt→ltb k j a.0) (λ l. absurd (omega arith), Above-Before P j m s.0)

  Before-cons :
      (P : V → Type 0) (it : Option ℕ) (i : ℕ) (v : V) (m : List (ℕ × V))
      → P v
      → Before P it m
      → Before P it ((i, v) ∷ m)
  Before-cons P none i v m p h = (p, h)
  Before-cons P (some k) i v m p h = (λ _. p, h)

  -- `++it`, where the entry passed over meets the predicate.
  pub Before-next :
      (P : V → Type 0) (k : ℕ) (t : V) (m : List (ℕ × V))
      → IsSorted m
      → find k m ≡ some t
      → P t
      → Before P (some k) m
      → Before P (next_key k m) m
  Before-next P k t [] s f p h = tt
  Before-next P k t ((i, v) ∷ m) (above, s) f p h = elim (Bool-cases (ltb k i)) [
    | inl l ↦
        absurd
          (ground (arith, find-IsAbove k m (IsAbove-le k i m (omega (arith, ltb→lt k i)) above)))
    | inr l ↦
        let skip : next_key k ((i, v) ∷ m) ≡ next_key k m = ground arith in
        elim (Bool-cases (i == k)) [
          | inl e ↦
              let same : i ≡ k = ground arith in
              let here : v ≡ t = ground arith in
              rw skip (
                Before-cons P (next_key k m) i v m (subst P (sym here) p)
                  (Before-rest P k m s (subst (λ x. IsAbove x m) same above)))
          | inr e ↦ rw skip (
              Before-cons P (next_key k m) i v m (h.0 (ground arith))
                (Before-next P k t m s (ground arith) p h.1))
        ]
  ]

  pub Before-erase :
      (P : V → Type 0) (it : Option ℕ) (k : ℕ) (m : List (ℕ × V))
      → Before P it m
      → Before P it (erase k m)
  Before-erase P none k m h = All-erase (λ q. P q.1) k m h
  Before-erase P (some j) k m h = All-erase (λ q. q.0 < j → P q.1) k m h

  -- `erase(it++)`: nothing is asked of the entry erased.
  pub Before-erase_next :
      (P : V → Type 0) (k : ℕ) (t : V) (m : List (ℕ × V))
      → IsSorted m
      → find k m ≡ some t
      → Before P (some k) m
      → Before P (next_key k m) (erase k m)
  Before-erase_next P k t [] s f h = tt
  Before-erase_next P k t ((i, v) ∷ m) (above, s) f h = elim (Bool-cases (ltb k i)) [
    | inl l ↦
        absurd
          (ground (arith, find-IsAbove k m (IsAbove-le k i m (omega (arith, ltb→lt k i)) above)))
    | inr l ↦
        let skip : next_key k ((i, v) ∷ m) ≡ next_key k m = ground arith in
        elim (Bool-cases (i == k)) [
          | inl e ↦
              let same : i ≡ k = ground arith in
              rw (skip, e)
                (Before-erase P (next_key k m) k m
                  (Before-rest P k m s (subst (λ x. IsAbove x m) same above)))
          | inr e ↦
              rw (skip, e)
                (Before-cons P (next_key k m) i v (erase k m) (h.0 (ground arith))
                  (Before-erase_next P k t m s (ground arith) h.1))
        ]
  ]

  pub Before-assign :
      (P : V → Type 0) (it : Option ℕ) (k : ℕ) (v : V) (m : List (ℕ × V))
      → P v
      → Before P it m
      → Before P it (assign k v m)
  Before-assign P none k v m p h = All-assign (λ q. P q.1) k v m p h
  Before-assign P (some j) k v m p h = All-assign (λ q. q.0 < j → P q.1) k v m (λ _. p) h

  pub All-find :
      (P : V → Type 0) (k : ℕ) (v : V) (m : List (ℕ × V))
      → All (λ p. P p.1) m
      → find k m ≡ some v
      → P v
  All-find P k v [] h f = absurd (ground (arith, f))
  All-find P k v ((j, w) ∷ m) h f = elim (Bool-cases (j == k)) [
    | inl e ↦ let same : w ≡ v = ground arith in subst P same h.0
    | inr e ↦ All-find P k v m h.1 (ground arith)
  ]

  -- How many rounds an iterator has before it.
  abbrev pub remaining : Option ℕ → List (ℕ × V) → ℕ
  remaining none m = 0
  remaining (some k) m = keys_from k m

  keys_from_pos : (k : ℕ) (m : List (ℕ × V)) → find k m ≢ none → 0 < keys_from k m
  keys_from_pos k [] f = ground arith
  keys_from_pos k ((j, w) ∷ m) f = ground (arith, keys_from_pos k m)

  pub remaining-next :
      (k : ℕ) (m : List (ℕ × V)) → find k m ≢ none → remaining (next_key k m) m < keys_from k m
  remaining-next k m f = elim (Option-cases (next_key k m)) [
    | inl e ↦ rw e (keys_from_pos k m f)
    | inr (j, e) ↦ rw e (keys_from-next k j m (next_key_lem k j m e).0 f)
  ]

  pub find-first_key : (k : ℕ) (m : List (ℕ × V)) → first_key m ≡ some k → find k m ≢ none
  find-first_key k [] e = ground arith
  find-first_key k ((j, w) ∷ m) e = ground arith
