-- ===== src/Parameters/Echo.antt =====
-- Which answers core/mavlink_parameters.cpp takes for the name that it has sent.
use stealth_drone_purdue.Base.{
  ℕ, zero, suc, ◌≡◌, ◌≢◌, true, [], ◌∷◌, ◌++◌, arith, ◌==◌, if◌then◌else◌, length, All, ltb, get_or,
}
use stealth_drone_purdue.Mavlink.{Name}
use stealth_drone_purdue.Parameters.{matches}
use stealth_drone_purdue.Parameters.Names.{strncmp_eq, strncpy}

-- No byte of the name is the end of a C string.
abbrev IsText : Name → Type 0
IsText = All λ c. c ≢ 0

-- The comparison of a name with its copy in a field of `n` bytes, followed by the byte `next`.
echo_at :
    (n next : ℕ) (name : Name)
    → IsText name
    → strncmp_eq (suc n) (name ++ 0 ∷ []) (strncpy n name ++ next ∷ [])
      ≡ (if ltb (length name) n then true else next == get_or name n 0)
echo_at zero next [] text = ground arith
echo_at zero next (c ∷ name) text = ground arith
echo_at (suc n) next [] text = ground arith
echo_at (suc n) next (c ∷ name) text = ground (arith, echo_at n next name)

-- `do_work` sends the first 16 bytes of a name. An answer that repeats them, with the byte `next`
-- behind them in the decoded message, is taken for the name's own exactly if the name has
-- fewer than 16 bytes, or `next` is the byte of the name at position 16 (0 at its end).
pub matches_echo :
    (name : Name) (next : ℕ)
    → IsText name
    → matches name (strncpy 16 name ++ next ∷ [])
      ≡ (if ltb (length name) 16 then true else next == get_or name 16 0)
matches_echo name next text = echo_at 16 next name text
