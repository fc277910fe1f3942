-- ===== src/SystemImpl/Components.antt =====
-- The components of a system in core/system_impl.cpp: each is announced once.
use stealth_drone_purdue.Base.{
  ℕ, ◌≡◌, refl, sym, true, false, ◌||◌, List, [], ◌∷◌, ◌++◌, map, Option, none, some, ◌==◌,
  count_of, count_of-append, if◌then◌else◌, arith, Bool-cases, inl, inr, append-nil, append_assoc,
  subst, map-append,
}
use stealth_drone_purdue.SystemImpl.Discovery.{
  System, ComponentType, has_component, component_type, discovered, add_new_component,
  register_component_discovered_callback,
}

-- Messages come from components, one after another.
abbrev add_all : List ℕ → System → System
add_all [] s = s
add_all (id ∷ ids) s = add_all ids (add_new_component id s)

-- A component is known once, if it is, and those in `seen` are the ones that are.
abbrev IsOnce : (seen components : List ℕ) → Type 0
IsOnce seen components =
    (id : ℕ) → count_of id components ≡ (if has_component id seen then 1 else 0)

has_component-append :
    (id : ℕ) (xs ys : List ℕ)
    → has_component id (xs ++ ys) ≡ (has_component id xs || has_component id ys)
unfolding has_component
has_component-append id [] ys = ground arith
has_component-append id (x ∷ xs) ys = ground (arith, has_component-append id xs ys)

has_component-count :
    (id : ℕ) (cs : List ℕ) → has_component id cs ≡ (if count_of id cs == 0 then false else true)
unfolding has_component
has_component-count id [] = ground arith
has_component-count id (c ∷ cs) = ground (arith, has_component-count id cs)

-- What is known of the components, after the ids in `seen`: with the callback, if one is set, each
-- is announced to it.
abbrev IsAnnounced : (seen : List ℕ) (callback : Option ℕ) → System → Type 0
IsAnnounced seen callback s =
    IsOnce seen s.components
    × (s.component_discovered_callback ≡ callback)
    × (s.discovered_components ≡ discovered callback s.components)

discovered-append :
    (callback : Option ℕ) (xs ys : List ℕ)
    → discovered callback (xs ++ ys) ≡ discovered callback xs ++ discovered callback ys
unfolding discovered
discovered-append none xs ys = refl
discovered-append (some callback) xs ys =
    ground (arith, map-append {B = ComponentType} component_type xs ys)

add_new_component-IsAnnounced :
    (id : ℕ) (seen : List ℕ) (callback : Option ℕ) (s : System)
    → IsAnnounced seen callback s
    → IsAnnounced (seen ++ id ∷ []) callback (add_new_component id s)
unfolding add_new_component has_component
add_new_component-IsAnnounced id seen callback s (once, set, told) =
    elim (Bool-cases (has_component id s.components)) [
      | inl old ↦
          rw (add_new_component, old)
            (
              λ k. ground (
                arith,
                once k,
                once id,
                has_component-append k seen (id ∷ []),
                has_component-count id s.components,
              ),
              set,
              told,
            )
      | inr fresh ↦
          rw (add_new_component, fresh)
            (
              λ k. ground (
                arith,
                once k,
                once id,
                count_of-append k id s.components,
                has_component-append k seen (id ∷ []),
                has_component-count id s.components,
              ),
              set,
              ground (arith, discovered-append callback s.components (id ∷ [])),
            )
    ]

add_all-IsAnnounced :
    (ids seen : List ℕ) (callback : Option ℕ) (s : System)
    → IsAnnounced seen callback s
    → IsAnnounced (seen ++ ids) callback (add_all ids s)
add_all-IsAnnounced [] seen callback s h =
    subst (λ seen. IsAnnounced seen callback s) (sym (append-nil seen)) h
add_all-IsAnnounced (id ∷ ids) seen callback s h =
    subst (λ seen. IsAnnounced seen callback (add_all ids (add_new_component id s)))
      (append_assoc seen (id ∷ []) ids)
      (add_all-IsAnnounced ids (seen ++ id ∷ []) callback (add_new_component id s)
        (add_new_component-IsAnnounced id seen callback s h))

-- The callback is set after the messages of some components, and before those of others.
abbrev pub callback_between : (before behind : List ℕ) (callback : ℕ) → System → System
callback_between before behind callback s =
    add_all behind (register_component_discovered_callback (some callback) (add_all before s))

-- However many messages come from which components, before and after the user sets the callback,
-- every component that any of them came from is known once, the callback that is set is the user's,
-- and its calls are exactly one for each of the components that are known, with its type.
pub announced_once :
    (before behind : List ℕ) (callback : ℕ) (s : System)
    → s.components ≡ []
    → s.component_discovered_callback ≡ none
    → s.discovered_components ≡ []
    → ((id : ℕ)
        → count_of id (callback_between before behind callback s).components
          ≡ (if has_component id (before ++ behind) then 1 else 0))
      × ((callback_between before behind callback s).component_discovered_callback ≡ some callback)
      × ((callback_between before behind callback s).discovered_components
          ≡ map component_type (callback_between before behind callback s).components)
unfolding register_component_discovered_callback discovered has_component
announced_once before behind callback s empty unset silent =
    let (once, set, told) : IsAnnounced before none (add_all before s) =
      add_all-IsAnnounced before [] none s (λ id. rw empty refl, unset, silent) in
    let announced =
      add_all-IsAnnounced behind before (some callback)
        (register_component_discovered_callback (some callback) (add_all before s))
        (once, refl, rw told refl) in
    (announced.0, announced.1, announced.2)
