-- ===== src/SystemImpl/Shrinking.antt =====
-- What callbacks that only unregister handlers do to the table in core/system_impl.cpp.
use stealth_drone_purdue.Base.{
  ℕ, zero, suc, ◌+◌, ◌≤◌, ◌<◌, ◌≡◌, refl, ◌∙◌, ◌⊎◌, inl, inr, true, false, List, [], ◌∷◌, length,
  arith, All, Bool-cases,
}
use stealth_drone_purdue.SystemImpl.HandlerTable.{
  Handler, HandlerTable, without, has_cookie, unregister_all_mavlink_message_handlers, Action,
  registers, unregisters, act_all,
}

abbrev pub IsUnregister : Action → Type 0
IsUnregister (registers h) = ⊥
IsUnregister (unregisters cookie) = Unit

-- The rounds that a table of so many handlers can take.
abbrev pub rounds : ℕ → ℕ
rounds zero = 0
rounds (suc n) = rounds n + suc n

pub rounds_mono : (m n : ℕ) → m < n → rounds m + n ≤ rounds n
rounds_mono m zero h = omega arith
rounds_mono m (suc n) h = ground (arith, rounds_mono m n)

pub rounds_le : (m n : ℕ) → m ≤ n → rounds m ≤ rounds n
rounds_le zero n h = omega arith
rounds_le (suc m) zero h = absurd (omega arith)
rounds_le (suc m) (suc n) h = omega (arith, rounds_le m n (omega arith))

without-length : (cookie : ℕ) (hs : List Handler) → length (without cookie hs) ≤ length hs
unfolding without
without-length cookie [] = omega arith
without-length cookie (h ∷ hs) = ground (arith, without-length cookie hs)

without_some :
    (cookie : ℕ) (hs : List Handler)
    → has_cookie cookie hs ≡ true
    → length (without cookie hs) < length hs
unfolding without has_cookie
without_some cookie [] some_there = ground arith
without_some cookie (h ∷ hs) some_there =
    ground (arith, without_some cookie hs, without-length cookie hs)

without_none :
    (cookie : ℕ) (hs : List Handler) → has_cookie cookie hs ≡ false → without cookie hs ≡ hs
unfolding without has_cookie
without_none cookie [] none_there = refl
without_none cookie (h ∷ hs) none_there = ground (arith, without_none cookie hs)

-- What a callback that only unregisters does to the table.
abbrev pub Shrinks : (t t' : HandlerTable) → Type 0
Shrinks t t' =
    (t'.moved ≡ t.moved)
    × (length t'.handlers ≤ length t.handlers)
    × (t'.iterator_invalidated ≡ true
        → (t.iterator_invalidated ≡ true) ⊎ (length t'.handlers < length t.handlers))
    × (t'.iterator_invalidated ≡ false
        → (t.iterator_invalidated ≡ false) × (t'.handlers ≡ t.handlers))

unregister-Shrinks :
    (cookie : ℕ) (t : HandlerTable) → Shrinks t (unregister_all_mavlink_message_handlers cookie t)
unfolding unregister_all_mavlink_message_handlers
unregister-Shrinks cookie t = elim (Bool-cases (has_cookie cookie t.handlers)) [
  | inl e ↦ (
    refl,
    without-length cookie t.handlers,
    (λ h. inr (without_some cookie t.handlers e)),
    λ h. ground arith,
  )
  | inr e ↦ (
    refl,
    without-length cookie t.handlers,
    (λ h. ground arith),
    λ h. (ground arith, without_none cookie t.handlers e),
  )
]

Shrinks-trans : (t t' t'' : HandlerTable) → Shrinks t t' → Shrinks t' t'' → Shrinks t t''
Shrinks-trans t t' t'' (moved, less, on, off) (moved', less', on', off') = (
  moved' ∙ moved,
  omega arith,
  (λ h. elim (on' h) [
    | inl before ↦ elim (on before) [ inl first ↦ inl first | inr fewer ↦ inr (omega arith) ]
    | inr fewer ↦ inr (omega arith)
  ]),
  (λ h. ((off (off' h).0).0, (off' h).1 ∙ (off (off' h).0).1)),
)

pub act_all-Shrinks :
    (actions : List Action) (t : HandlerTable)
    → All IsUnregister actions
    → Shrinks t (act_all actions t)
unfolding act_all
act_all-Shrinks [] t only = (refl, omega arith, (λ h. inl h), λ h. (h, refl))
act_all-Shrinks (registers h ∷ actions) t only = absurd only.0
act_all-Shrinks (unregisters cookie ∷ actions) t only =
    let t' = unregister_all_mavlink_message_handlers cookie t in
    Shrinks-trans t t' (act_all actions t') (unregister-Shrinks cookie t)
      (act_all-Shrinks actions t' only.1)
