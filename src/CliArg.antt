-- ===== src/CliArg.antt =====
-- core/cli_arg.h and cli_arg.cpp: the parser of a connection's address. A string is the list of its
-- bytes.
pub mod Decimal
pub mod RoundTrip
pub mod Accepted
use stealth_drone_purdue.Base.{
  ℕ, zero, suc, ◌+◌, ◌-◌, ◌*◌, ◌^◌, Bool, true, false, ◌&&◌, List, [], ◌∷◌, Option, none, some, ltb,
  leb, ◌==◌, if◌then◌else◌, length,
}

-- `enum class Protocol`.
pub data Protocol : Type 0 where
  protocol_none : Protocol
  udp : Protocol
  tcp : Protocol
  serial : Protocol

pub record CliArg : Type 0 where
  pub protocol : Protocol
  pub path : List ℕ
  pub port : ℕ
  pub baudrate : ℕ

-- How a function that returns `bool` ends: `true`, `false`, or with the exception of `std::stoi`;
-- with the object, which it changes.
pub data Outcome : Type 0 where
  accepted : CliArg → Outcome
  refused : CliArg → Outcome
  out_of_range : CliArg → Outcome

-- What is left of the text behind a prefix.
unfoldable pub strip_prefix : (text prefix : List ℕ) → Option (List ℕ)
strip_prefix text [] = some text
strip_prefix [] (p ∷ prefix) = none
strip_prefix (c ∷ text) (p ∷ prefix) =
    let rest = strip_prefix text prefix in if c == p then rest else none

abbrev pub udp_prefix : List ℕ
udp_prefix = b'u' ∷ b'd' ∷ b'p' ∷ b':' ∷ b'/' ∷ b'/' ∷ []

abbrev pub tcp_prefix : List ℕ
tcp_prefix = b't' ∷ b'c' ∷ b'p' ∷ b':' ∷ b'/' ∷ b'/' ∷ []

abbrev pub serial_prefix : List ℕ
serial_prefix = b's' ∷ b'e' ∷ b'r' ∷ b'i' ∷ b'a' ∷ b'l' ∷ b':' ∷ b'/' ∷ b'/' ∷ []

abbrev pub com_prefix : List ℕ
com_prefix = b'C' ∷ b'O' ∷ b'M' ∷ []

unfoldable pub reset : CliArg → CliArg
reset c = record c { protocol = protocol_none; path = []; baudrate = 0; port = 0 }

-- The protocol, and the text behind it.
unfoldable pub find_protocol : List ℕ → Option (Protocol × List ℕ)
find_protocol rest = elim (strip_prefix rest udp_prefix) [
  | some r ↦ some (udp, r)
  | none ↦ elim (strip_prefix rest tcp_prefix) [
    | some r ↦ some (tcp, r)
    | none ↦ elim (strip_prefix rest serial_prefix) [ some r ↦ some (serial, r) | none ↦ none ]
  ]
]

-- `substr` before and behind the first ':'.
unfoldable pub split_colon : List ℕ → Option (List ℕ × List ℕ)
split_colon [] = none
split_colon (c ∷ text) =
    let more = split_colon text in
    if c == b':'
    then some ([], text)
    else elim more [ none ↦ none | some (before, behind) ↦ some (c ∷ before, behind) ]

-- The path, and the rest behind it.
unfoldable pub split_path : List ℕ → List ℕ × List ℕ
split_path text = elim (split_colon text) [ none ↦ (text, []) | some parts ↦ parts ]

unfoldable pub is_digit : ℕ → Bool
is_digit c = leb b'0' c && leb c b'9'

unfoldable pub all_digits : List ℕ → Bool
all_digits [] = true
all_digits (c ∷ text) = is_digit c && all_digits text

-- The check of a serial path: whether it is fine, and what `_path` is afterwards.
unfoldable pub check_serial_path : List ℕ → Bool × List ℕ
check_serial_path path = elim (strip_prefix path (b'/' ∷ [])) [
  | some _ ↦ (true, path)
  | none ↦ elim (strip_prefix path com_prefix) [
    | none ↦ (false, [])
    | some digits ↦
        if length path == 3
        then (false, path)
        else if all_digits digits
        then (true, path)
        else (false, [])
  ]
]

unfoldable pub check_path : Protocol → List ℕ → Bool × List ℕ
check_path serial path = check_serial_path path
check_path protocol_none path = (true, path)
check_path udp path = (true, path)
check_path tcp path = (true, path)

pub needs_path : Protocol → Bool
needs_path udp = false
needs_path tcp = false
needs_path protocol_none = true
needs_path serial = true

-- The result, `_path` and the rest, when nothing is left behind the protocol.
unfoldable pub find_path : (rest : List ℕ) → CliArg → Bool × List ℕ × CliArg
find_path [] c = (if needs_path c.protocol then false else true, [], c)
find_path (b ∷ bs) c =
    let split = split_path (b ∷ bs) in
    let checked = check_path c.protocol split.0 in
    (checked.0, split.1, record c { path = checked.1 })

-- The number that digits write, after the digits of `n`.
unfoldable pub value_from : (n : ℕ) → List ℕ → ℕ
value_from n [] = n
value_from n (c ∷ text) = value_from (n * 10 + (c - b'0')) text

-- `std::stoi` on digits: it throws when the number is no `int`.
unfoldable pub stoi : List ℕ → Option ℕ
stoi text = let n = value_from 0 text in if ltb n (2 ^ 31) then some n else none

pub find_port : (rest : List ℕ) → CliArg → Outcome
find_port [] c = accepted (record c { port = 0 })
find_port (b ∷ bs) c =
    if all_digits (b ∷ bs)
    then elim (stoi (b ∷ bs)) [
      | none ↦ out_of_range c
      | some n ↦
          if ltb 65535 n then refused (record c { port = 0 }) else accepted (record c { port = n })
    ]
    else refused c

unfoldable pub find_baudrate : (rest : List ℕ) → CliArg → Outcome
find_baudrate [] c = accepted (record c { port = 0 })
find_baudrate (b ∷ bs) c =
    if all_digits (b ∷ bs)
    then elim (stoi (b ∷ bs)) [
      | none ↦ out_of_range c
      | some n ↦ accepted (record c { baudrate = n })
    ]
    else refused c

unfoldable pub find_number : (rest : List ℕ) → CliArg → Outcome
find_number rest c = elim c.protocol [ serial ↦ find_baudrate rest c | _ ↦ find_port rest c ]

unfoldable pub parse_behind : Protocol → (rest : List ℕ) → CliArg → Outcome
parse_behind protocol rest c =
    let (fine, behind, found) = find_path rest (record c { protocol = protocol }) in
    if fine then find_number behind found else refused found

unfoldable pub parse : (uri : List ℕ) → CliArg → Outcome
parse uri c = elim (find_protocol uri) [
  | none ↦ refused (reset c)
  | some (protocol, rest) ↦ parse_behind protocol rest (reset c)
]
