-- ===== src/MissionMessages/Numbering.antt =====
-- The numbers of the messages of an upload, in plugins/mission/mission_impl.cpp.
use stealth_drone_purdue.Base.{
  ℕ, ◌%◌, ◌^◌, suc, ◌+◌, ◌≡◌, Bool, List, [], ◌∷◌, ◌++◌, none, some, arith, ◌==◌, if◌then◌else◌,
  length, not, ◌&&◌, if_both,
}
use stealth_drone_purdue.StdMap.{find, find-assign}
use stealth_drone_purdue.MissionMessages.Invariants.{items_keep, IsPlain, rtl_command}
use stealth_drone_purdue.Mavlink.{MissionItemInt}
use stealth_drone_purdue.MissionItem.{MissionItem, Conversions}
use stealth_drone_purdue.MissionMessages.{
  Assembly, push, add_items, rtl, assemble_mavlink_messages, command_message,
}

-- The number 0 is current, unless it is the return to launch.
abbrev current_at : (k command : ℕ) → ℕ
current_at k command = if (k == 0) && not (command == rtl_command) then 1 else 0

-- Numbered from `k` on, with `current` set accordingly.
abbrev pub IsNumbered : ℕ → List MissionItemInt → Type 0
IsNumbered k [] = Unit
IsNumbered k (m ∷ ms) =
    (m.seq ≡ k % 2 ^ 16) × (m.current ≡ current_at k m.command) × IsNumbered (suc k) ms

IsNumbered-append :
    (k : ℕ) (xs : List MissionItemInt) (y : MissionItemInt)
    → IsNumbered k xs
    → y.seq ≡ (k + length xs) % 2 ^ 16
    → y.current ≡ current_at (k + length xs) y.command
    → IsNumbered k (xs ++ y ∷ [])
IsNumbered-append k [] y h s c = ground arith
IsNumbered-append k (x ∷ xs) y h s c =
    (h.0, h.1, IsNumbered-append (suc k) xs y h.2 (omega arith) (ground arith))

push-IsNumbered :
    (item_i : ℕ) (message : ℕ → ℕ → MissionItemInt) (a : Assembly)
    → IsPlain message
    → IsNumbered 0 a.messages
    → IsNumbered 0 (push item_i message a).messages
unfolding push
push-IsNumbered item_i message a p h =
    let seq = length a.messages in
    let q = p (seq % 2 ^ 16) (if seq == 0 then 1 else 0) in
    IsNumbered-append 0 a.messages (message (seq % 2 ^ 16) (if seq == 0 then 1 else 0)) h
      (omega (arith, q.0)) (ground (arith, q.1, q.2))

-- The messages of an upload are numbered from 0 on without a gap (modulo 2 ^ 16), whatever the
-- mission items are, and the first one alone is current, unless it is the return to launch.
pub assemble-IsNumbered :
    (d : Conversions) (yaw rtl_after : Bool) (indices : List (ℕ × ℕ)) (items : List MissionItem)
    → IsNumbered 0 (assemble_mavlink_messages d yaw rtl_after indices items).messages
unfolding assemble_mavlink_messages rtl command_message push
assemble-IsNumbered d yaw rtl_after indices items =
    let start : Assembly = record { messages = []; indices = indices; last_position = none } in
    let a = add_items d yaw 0 items start in
    let h =
      items_keep (λ b. IsNumbered 0 b.messages) push-IsNumbered (λ p b h. h) d yaw 0 items start
        tt in
    if_both {A = Assembly} (λ b. IsNumbered 0 b.messages) rtl_after
      (IsNumbered-append 0 a.messages _ h (omega arith) (ground arith)) h

push_indices :
    (k v item_i : ℕ) (message : ℕ → ℕ → MissionItemInt) (a : Assembly)
    → find k a.indices ≡ some v
    → find k (push item_i message a).indices ≡ some v
unfolding push
push_indices k v item_i message a h =
    ground (arith, find-assign (length a.messages) k item_i a.indices)

-- The map from messages to mission items keeps every entry that an earlier upload has left,
-- though the messages and mission items are those of the new one.
pub assemble_indices :
    (d : Conversions) (yaw rtl_after : Bool) (indices : List (ℕ × ℕ)) (items : List MissionItem)
    (k v : ℕ)
    → find k indices ≡ some v
    → find k (assemble_mavlink_messages d yaw rtl_after indices items).indices ≡ some v
unfolding assemble_mavlink_messages
assemble_indices d yaw rtl_after indices items k v h =
    let start : Assembly = record { messages = []; indices = indices; last_position = none } in
    let a = add_items d yaw 0 items start in
    let kept =
      items_keep (λ b. find k b.indices ≡ some v)
        (λ item_i message b p h. push_indices k v item_i message b h) (λ p b h. h) d yaw 0 items
        start h in
    if_both {A = Assembly} (λ b. find k b.indices ≡ some v) rtl_after
      (push_indices k v (length items) rtl a kept) kept
