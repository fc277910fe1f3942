-- ===== src/SystemImpl/HandlerTable.antt =====
-- core/system_impl.h and core/system_impl.cpp: the table of the handlers of MAVLink messages, and
-- the loop that hands a message to them. A callback may call back into the table, which is unlocked
-- meanwhile.
use stealth_drone_purdue.Base.{
  ℕ, zero, suc, ◌+◌, Bool, true, false, not, ◌&&◌, ◌||◌, List, [], ◌∷◌, ◌++◌, none, some, ◌==◌,
  if◌then◌else◌, get_elem?,
}

-- `MAVLinkHandlerTableEntry`.
pub record Handler : Type 0 where
  pub msg_id : ℕ
  pub callback : ℕ
  pub cookie : ℕ

-- `moved` says that `push_back` was called since, and may have moved the elements.
pub record HandlerTable : Type 0 where
  pub handlers : List Handler
  pub iterator_invalidated : Bool
  pub moved : Bool

unfoldable pub register_mavlink_message_handler : Handler → HandlerTable → HandlerTable
register_mavlink_message_handler h t = record t { handlers = t.handlers ++ h ∷ []; moved = true }

unfoldable pub without : (cookie : ℕ) → List Handler → List Handler
without cookie [] = []
without cookie (h ∷ hs) =
    let rest = without cookie hs in if h.cookie == cookie then rest else h ∷ rest

unfoldable pub has_cookie : (cookie : ℕ) → List Handler → Bool
has_cookie cookie [] = false
has_cookie cookie (h ∷ hs) = (h.cookie == cookie) || has_cookie cookie hs

unfoldable pub unregister_all_mavlink_message_handlers : (cookie : ℕ) → HandlerTable → HandlerTable
unregister_all_mavlink_message_handlers cookie t = record t {
  handlers = without cookie t.handlers;
  iterator_invalidated = has_cookie cookie t.handlers || t.iterator_invalidated;
}

-- What a callback does to the table.
pub data Action : Type 0 where
  registers : Handler → Action
  unregisters : (cookie : ℕ) → Action

unfoldable pub act_all : List Action → HandlerTable → HandlerTable
act_all [] t = t
act_all (registers h ∷ actions) t = act_all actions (register_mavlink_message_handler h t)
act_all (unregisters cookie ∷ actions) t =
    act_all actions (unregister_all_mavlink_message_handlers cookie t)

-- How the loop ends, with the callbacks called, oldest first; `dangling` is a use of an iterator
-- that `push_back` may have invalidated, which C++ leaves undefined.
pub data Delivery : Type 0 where
  finished : HandlerTable → (calls : List ℕ) → Delivery
  dangling : Delivery
  out_of_fuel : Delivery

module _ (respond : (callback : ℕ) → List Action) (msg_id : ℕ) where
  unfoldable pub visit : Handler → HandlerTable → HandlerTable
  visit h t = if h.msg_id == msg_id then act_all (respond h.callback) t else t

  unfoldable pub with_call : Handler → (calls : List ℕ) → List ℕ
  with_call h calls = if h.msg_id == msg_id then calls ++ h.callback ∷ [] else calls

  -- From the entry `i` on; after one, from the beginning or on to the next.
  unfoldable pub deliver_from : (fuel i : ℕ) → HandlerTable → (calls : List ℕ) → Delivery
  deliver_from zero i t calls = out_of_fuel
  deliver_from (suc fuel) i t calls = elim (get_elem? t.handlers i) [
    | none ↦ finished t calls
    | some h ↦
        let after = visit h (record t { moved = false }) in
        let rest =
          deliver_from fuel (if after.iterator_invalidated then 0 else (i + 1))
            (record after { iterator_invalidated = false }) (with_call h calls) in
        if after.moved && not after.iterator_invalidated then dangling else rest
  ]

  unfoldable pub process_mavlink_message : (fuel : ℕ) → HandlerTable → Delivery
  process_mavlink_message fuel t = deliver_from fuel 0 t []
