-- ===== src/SystemImpl/Deliveries.antt =====
-- The loop of `process_mavlink_message` in core/system_impl.cpp, and whom it calls.
use stealth_drone_purdue.Base.{
  ℕ, zero, suc, ◌+◌, ◌≤◌, ◌<◌, ◌≡◌, refl, sym, subst, inl, inr, Bool, true, false, List, [], ◌∷◌,
  ◌++◌, ◌∙◌, none, some, ◌==◌, if◌then◌else◌, get_elem?, length, arith, All, Option-cases,
  Bool-cases, count_of, count_of-append, append-nil, append_assoc, length-append,
}
use stealth_drone_purdue.SystemImpl.HandlerTable.{
  Handler, HandlerTable, Action, act_all, Delivery, finished, dangling, out_of_fuel, visit,
  with_call, deliver_from, process_mavlink_message, without, has_cookie,
  unregister_all_mavlink_message_handlers,
}
use stealth_drone_purdue.SystemImpl.Shrinking.{
  IsUnregister, rounds, rounds_mono, rounds_le, Shrinks, act_all-Shrinks,
}

-- Every handler of the message that stands before the entry `i` was called.
abbrev CalledBefore : (msg_id i : ℕ) → List Handler → (calls : List ℕ) → Type 0
CalledBefore msg_id i hs calls =
    (j : ℕ) (h : Handler)
    → j < i
    → get_elem? hs j ≡ some h
    → h.msg_id ≡ msg_id
    → 1 ≤ count_of h.callback calls

-- The loop ended, and every handler of the message that is still in the table was called.
abbrev pub IsDelivered : (msg_id : ℕ) → Delivery → Type 0
IsDelivered msg_id (finished t calls) =
    (j : ℕ) (h : Handler)
    → get_elem? t.handlers j ≡ some h
    → h.msg_id ≡ msg_id
    → 1 ≤ count_of h.callback calls
IsDelivered msg_id dangling = ⊥
IsDelivered msg_id out_of_fuel = ⊥

past_end :
    (hs : List Handler) (i j : ℕ) (h : Handler)
    → get_elem? hs i ≡ none
    → get_elem? hs j ≡ some h
    → j < i
past_end [] i j h end found = ground arith
past_end (x ∷ hs) zero j h end found = ground arith
past_end (x ∷ hs) (suc i) zero h end found = omega arith
past_end (x ∷ hs) (suc i) (suc j) h end found =
    let less = past_end hs i j h end found in omega arith

get_elem?-length :
    (hs : List Handler) (i : ℕ) (h : Handler) → get_elem? hs i ≡ some h → i < length hs
get_elem?-length [] i h found = ground arith
get_elem?-length (x ∷ hs) zero h found = omega arith
get_elem?-length (x ∷ hs) (suc i) h found = let less = get_elem?-length hs i h found in omega arith

absurd_index :
    (hs : List Handler) (j : ℕ) (h : Handler) → get_elem? hs 0 ≡ none → get_elem? hs j ≡ some h → ⊥
absurd_index hs j h end found = let less = past_end hs 0 j h end found in omega arith

module _ (respond : (callback : ℕ) → List Action) (msg_id : ℕ)
    (only : (callback : ℕ) → All IsUnregister (respond callback)) where
  visit-Shrinks : (h : Handler) (t : HandlerTable) → Shrinks t (visit respond msg_id h t)
  unfolding visit
  visit-Shrinks h t = elim (Bool-cases (h.msg_id == msg_id)) [
    | inl e ↦ rw e (act_all-Shrinks (respond h.callback) t (only h.callback))
    | inr e ↦ rw e (refl, omega arith, (λ on. inl on), λ off. (off, refl))
  ]

  with_call-CalledBefore :
      (i : ℕ) (h : Handler) (hs : List Handler) (calls : List ℕ)
      → get_elem? hs i ≡ some h
      → CalledBefore msg_id i hs calls
      → CalledBefore msg_id (i + 1) hs (with_call respond msg_id h calls)
  unfolding with_call
  with_call-CalledBefore i h hs calls found called j g below at_j same =
      ground (arith, called j g, count_of-append g.callback h.callback calls)

  -- One turn of the loop.
  turn :
      (fuel i : ℕ) (t : HandlerTable) (calls : List ℕ) (h : Handler)
      → get_elem? t.handlers i ≡ some h
      → (let after = visit respond msg_id h (record t { moved = false }) in
          deliver_from respond msg_id (suc fuel) i t calls
          ≡ deliver_from respond msg_id fuel
              (if after.iterator_invalidated then 0 else (i + 1))
              (record after { iterator_invalidated = false })
              (with_call respond msg_id h calls))
  unfolding deliver_from
  turn fuel i t calls h found =
      let (moved, less, on, off) = visit-Shrinks h (record t { moved = false }) in ground arith

  deliver_from-IsDelivered :
      (fuel i : ℕ) (t : HandlerTable) (calls : List ℕ)
      → t.iterator_invalidated ≡ false
      → rounds (length t.handlers) + length t.handlers < fuel + i
      → i ≤ length t.handlers
      → CalledBefore msg_id i t.handlers calls
      → IsDelivered msg_id (deliver_from respond msg_id fuel i t calls)
  unfolding deliver_from
  deliver_from-IsDelivered zero i t calls valid enough inside called = absurd (omega arith)
  deliver_from-IsDelivered (suc fuel) i t calls valid enough inside called =
      elim (Option-cases (get_elem? t.handlers i)) [
        | inl end ↦
            rw (deliver_from, end)
              (λ j h found same. called j h (past_end t.handlers i j h end found) found same)
        | inr (h, found) ↦
            let after = visit respond msg_id h (record t { moved = false }) in
            let (moved, less, on, off) = visit-Shrinks h (record t { moved = false }) in
            let within = get_elem?-length t.handlers i h found in
            elim (Bool-cases after.iterator_invalidated) [
              | inl again ↦ subst (IsDelivered msg_id) (sym (turn fuel i t calls h found)) (
                  rw again (
                    deliver_from-IsDelivered fuel 0 (record after { iterator_invalidated = false })
                      (with_call respond msg_id h calls) refl
                      (elim (on again) [
                        | inl stale ↦ absurd (ground arith)
                        | inr fewer ↦
                            omega
                              (arith, rounds_mono (length after.handlers) (length t.handlers) fewer)
                      ])
                      (omega arith) (λ j g below. absurd (omega arith))))
              | inr still ↦ subst (IsDelivered msg_id) (sym (turn fuel i t calls h found)) (
                  rw still (
                    deliver_from-IsDelivered fuel (i + 1)
                      (record after { iterator_invalidated = false })
                      (with_call respond msg_id h calls) refl (rw (off still).1 (omega arith))
                      (rw (off still).1 (omega arith))
                      (rw (off still).1
                        (with_call-CalledBefore i h t.handlers calls found called))))
            ]
      ]

  -- When callbacks only take handlers out, however they do, handing a message to its handlers ends,
  -- with fuel for `rounds` of as many handlers as there are, one for each of them, and two more, and
  -- without a dangling iterator; and every handler of the message that is left in the table was called.
  pub process_mavlink_message_ends :
      (fuel : ℕ) (t : HandlerTable)
      → rounds (length t.handlers) + length t.handlers + 1 < fuel
      → IsDelivered msg_id (process_mavlink_message respond msg_id fuel t)
  unfolding process_mavlink_message deliver_from
  process_mavlink_message_ends zero t enough = absurd (omega arith)
  process_mavlink_message_ends (suc fuel) t enough = elim (Bool-cases t.iterator_invalidated) [
    | inr valid ↦
        deliver_from-IsDelivered (suc fuel) 0 t [] valid (omega arith) (omega arith)
          (λ j g below. absurd (omega arith))
    | inl stale ↦ elim (Option-cases (get_elem? t.handlers 0)) [
      | inl end ↦
          rw (deliver_from, end) (λ j h found same. absurd (absurd_index t.handlers j h end found))
      | inr (h, found) ↦
          let after = visit respond msg_id h (record t { moved = false }) in
          let (moved, less, on, off) = visit-Shrinks h (record t { moved = false }) in
          elim (Bool-cases after.iterator_invalidated) [
            | inl again ↦ subst (IsDelivered msg_id) (sym (turn fuel 0 t [] h found)) (
                rw again (
                  deliver_from-IsDelivered fuel 0 (record after { iterator_invalidated = false })
                    (with_call respond msg_id h []) refl
                    (omega (arith, rounds_le (length after.handlers) (length t.handlers) less))
                    (omega arith) (λ j g below. absurd (omega arith))))
            | inr still ↦ absurd (ground (arith, (off still).0))
          ]
    ]
  ]

-- The callbacks of a message, in the order of the table.
abbrev pub callbacks_of : (msg_id : ℕ) → List Handler → List ℕ
callbacks_of msg_id [] = []
callbacks_of msg_id (h ∷ hs) =
    (if h.msg_id == msg_id then h.callback ∷ [] else []) ++ callbacks_of msg_id hs

get_elem?-middle :
    (front : List Handler) (h : Handler) (back : List Handler)
    → get_elem? (front ++ h ∷ back) (length front) ≡ some h
get_elem?-middle [] h back = refl
get_elem?-middle (x ∷ front) h back = get_elem?-middle front h back

get_elem?-end : (hs : List Handler) → get_elem? hs (length hs) ≡ none
get_elem?-end [] = refl
get_elem?-end (x ∷ hs) = get_elem?-end hs

abbrev unchanged : List Handler → HandlerTable
unchanged hs = record { handlers = hs; iterator_invalidated = false; moved = false }

-- One turn with a callback that leaves the table alone.
quiet_turn :
    (msg_id fuel : ℕ) (front : List Handler) (h : Handler) (back : List Handler) (calls : List ℕ)
    → deliver_from (λ _. []) msg_id (suc fuel) (length front) (unchanged (front ++ h ∷ back)) calls
      ≡ deliver_from
          (λ _. [])
          msg_id
          fuel
          (length front + 1)
          (unchanged (front ++ h ∷ back))
          (calls ++ (if h.msg_id == msg_id then h.callback ∷ [] else []))
unfolding deliver_from visit with_call act_all
quiet_turn msg_id fuel front h back calls =
    ground (arith, get_elem?-middle front h back, append-nil calls)

quiet_lem :
    (msg_id fuel : ℕ) (front back : List Handler) (calls : List ℕ)
    → length back < fuel
    → deliver_from (λ _. []) msg_id fuel (length front) (unchanged (front ++ back)) calls
      ≡ finished (unchanged (front ++ back)) (calls ++ callbacks_of msg_id back)
unfolding deliver_from
quiet_lem msg_id zero front back calls enough = absurd (omega arith)
quiet_lem msg_id (suc fuel) front [] calls enough =
    let whole : front ++ [] ≡ front = append-nil front in
    subst
      (λ (hs : List Handler).
        deliver_from (λ _. []) msg_id (suc fuel) (length front) (unchanged hs) calls
        ≡ finished (unchanged hs) (calls ++ []))
      (sym whole) (ground (arith, get_elem?-end front, append-nil calls))
quiet_lem msg_id (suc fuel) front (h ∷ back) calls enough =
    let call = if h.msg_id == msg_id then h.callback ∷ [] else [] in
    let rest = quiet_lem msg_id fuel (front ++ h ∷ []) back (calls ++ call) (omega arith) in
    quiet_turn msg_id fuel front h back calls
    ∙ rw
        (
          append_assoc front (h ∷ []) back,
          append_assoc calls call (callbacks_of msg_id back),
          length-append front (h ∷ []),
        )
        at rest

unregister_lem :
    (cookie : ℕ) (t : HandlerTable)
    → has_cookie cookie t.handlers ≡ true
    → unregister_all_mavlink_message_handlers cookie t
      ≡ record t { handlers = without cookie t.handlers; iterator_invalidated = true }
unfolding unregister_all_mavlink_message_handlers
unregister_lem cookie t there = ground arith

-- The first turn starts over.
stale_turn :
    (msg_id fuel : ℕ) (h : Handler) (hs : List Handler) (moved : Bool)
    → h.msg_id ≡ msg_id
    → deliver_from
        (λ _. [])
        msg_id
        (suc fuel)
        0
        (record { handlers = h ∷ hs; iterator_invalidated = true; moved = moved })
        []
      ≡ deliver_from (λ _. []) msg_id fuel 0 (unchanged (h ∷ hs)) (h.callback ∷ [])
unfolding deliver_from visit with_call act_all
stale_turn msg_id fuel h hs moved same = ground arith

-- After a plugin's handlers were taken out while no message was being handed out, the first handler
-- that is left, if it is one of the next message, is called twice for it, and the others once, in
-- order: callbacks that leave the table alone, and fuel for every handler left and two more.
pub first_called_twice :
    (msg_id cookie fuel : ℕ) (h : Handler) (hs : List Handler) (t : HandlerTable)
    → has_cookie cookie t.handlers ≡ true
    → without cookie t.handlers ≡ h ∷ hs
    → h.msg_id ≡ msg_id
    → length (h ∷ hs) + 1 < fuel
    → process_mavlink_message
        (λ _. [])
        msg_id
        fuel
        (unregister_all_mavlink_message_handlers cookie t)
      ≡ finished
          (record { handlers = h ∷ hs; iterator_invalidated = false; moved = false })
          (h.callback ∷ callbacks_of msg_id (h ∷ hs))
unfolding process_mavlink_message
first_called_twice msg_id cookie zero h hs t there left same enough = absurd (omega arith)
first_called_twice msg_id cookie (suc fuel) h hs t there left same enough =
    rw (unregister_lem cookie t there, left)
      (stale_turn msg_id fuel h hs t.moved same
        ∙ quiet_lem msg_id fuel [] (h ∷ hs) (h.callback ∷ []) (omega arith))
