-- ===== src/Parameters/Names.antt =====
-- The C string functions on parameter names that core/mavlink_parameters.cpp calls, and its cache,
-- a `std::map` from names.
use stealth_drone_purdue.Base.{
  ℕ, zero, suc, ◌≡◌, refl, Bool, true, false, List, [], ◌∷◌, Option, none, some, arith, ◌==◌,
  if◌then◌else◌,
}
use stealth_drone_purdue.Mavlink.{Name, ParamValue}

-- `strncmp(s, t, n) == 0`: up to `n` bytes, or to the end of the strings.
abbrev pub strncmp_eq : ℕ → List ℕ → List ℕ → Bool
strncmp_eq zero s t = true
strncmp_eq (suc n) (x ∷ s) (y ∷ t) =
    let rest = strncmp_eq n s t in if x == y then (if x == 0 then true else rest) else false
strncmp_eq (suc n) _ _ = false

-- `strncpy` of `n` bytes into a zeroed array.
abbrev pub strncpy : ℕ → List ℕ → List ℕ
strncpy zero s = []
strncpy (suc n) [] = 0 ∷ strncpy n []
strncpy (suc n) (x ∷ s) = x ∷ strncpy n (if x == 0 then [] else s)

abbrev name_eq : Name → Name → Bool
name_eq [] [] = true
name_eq (x ∷ s) (y ∷ t) = let rest = name_eq s t in if x == y then rest else false
name_eq _ _ = false

abbrev pub cache_find : Name → List (Name × ParamValue) → Option ParamValue
cache_find name [] = none
cache_find name ((key, value) ∷ cache) =
    if name_eq key name then some value else cache_find name cache

abbrev pub cache_assign : Name → ParamValue → List (Name × ParamValue) → List (Name × ParamValue)
cache_assign name value [] = (name, value) ∷ []
cache_assign name value ((key, old) ∷ cache) =
    if name_eq key name then (key, value) ∷ cache else (key, old) ∷ cache_assign name value cache

pub name_eq_self : (s : Name) → name_eq s s ≡ true
name_eq_self [] = refl
name_eq_self (x ∷ s) = ground (arith, name_eq_self s)

name_eq→eq : (s t : Name) → name_eq s t ≡ true → s ≡ t
name_eq→eq [] [] h = refl
name_eq→eq [] (y ∷ t) h = cc
name_eq→eq (x ∷ s) [] h = cc
name_eq→eq (x ∷ s) (y ∷ t) h = ground (arith, name_eq→eq s t)

-- Writing an entry changes that entry alone.
pub cache_find-assign :
    (name other : Name) (value : ParamValue) (cache : List (Name × ParamValue))
    → cache_find other (cache_assign name value cache)
      ≡ (if name_eq name other then some value else cache_find other cache)
cache_find-assign name other value [] = refl
cache_find-assign name other value ((key, old) ∷ cache) = ground (
  arith,
  cache_find-assign name other value cache,
  name_eq→eq key name,
  name_eq→eq key other,
  name_eq→eq name other,
  name_eq_self name,
)
