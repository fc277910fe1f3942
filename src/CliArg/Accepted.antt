-- ===== src/CliArg/Accepted.antt =====
-- The parser in core/cli_arg.cpp accepts nothing but well-formed addresses.
use stealth_drone_purdue.Base.{
  ℕ, ◌^◌, ◌≤◌, ◌<◌, ◌≡◌, refl, ◌∙◌, ap, subst, ◌≢◌, ◌⊎◌, inl, inr, true, List, [], ◌∷◌, ◌++◌,
  Option, none, some, ltb, ◌==◌, length, arith, Option-cases, Bool-cases,
}
use stealth_drone_purdue.CliArg.{
  Protocol, protocol_none, udp, tcp, serial, CliArg, Outcome, accepted, refused, out_of_range,
  udp_prefix, tcp_prefix, serial_prefix, com_prefix, strip_prefix, reset, find_protocol,
  split_colon, split_path, all_digits, check_serial_path, check_path, find_path, value_from, stoi,
  find_port, find_baudrate, find_number, parse_behind, parse, needs_path,
}
use stealth_drone_purdue.CliArg.RoundTrip.{HasNoColon, IsSerialPath, IsAddress}

abbrev Accepts : (CliArg → Type 0) → Outcome → Type 0
Accepts P (accepted c) = P c
Accepts P (refused c) = Unit
Accepts P (out_of_range c) = Unit

abbrev Splits : (text : List ℕ) → Option (List ℕ × List ℕ) → Type 0
Splits text none = HasNoColon text
Splits text (some parts) = HasNoColon parts.0

split_colon-Splits : (text : List ℕ) → Splits text (split_colon text)
unfolding split_colon
split_colon-Splits [] = tt
split_colon-Splits (c ∷ text) = elim (Bool-cases (c == b':')) [
  | inl e ↦ rw e tt
  | inr e ↦ elim (Option-cases (split_colon text)) [
    | inl f ↦ rw (e, f) (ground arith, subst (Splits text) f (split_colon-Splits text))
    | inr (parts, f) ↦ rw (e, f) (ground arith, subst (Splits text) f (split_colon-Splits text))
  ]
]

strip_prefix_inv :
    (text prefix rest : List ℕ) → strip_prefix text prefix ≡ some rest → text ≡ prefix ++ rest
unfolding strip_prefix
strip_prefix_inv text [] rest h = ground arith
strip_prefix_inv [] (p ∷ prefix) rest h = ground arith
strip_prefix_inv (c ∷ text) (p ∷ prefix) rest h = elim (Bool-cases (c == p)) [
  | inl e ↦ ground (arith, strip_prefix_inv text prefix rest (ground arith))
  | inr e ↦ ground arith
]

com_inv :
    (path digits : List ℕ)
    → path ≡ com_prefix ++ digits
    → length path ≢ 3
    → all_digits digits ≡ true
    → IsSerialPath path
com_inv path [] e h digits = absurd (h (ap length e))
com_inv path (d ∷ ds) e h digits = inr (d, ds, e, digits)

check_serial_path_inv :
    (path : List ℕ)
    → (check_serial_path path).0 ≡ true
    → IsSerialPath path × ((check_serial_path path).1 ≡ path)
unfolding check_serial_path
check_serial_path_inv path h = elim (Option-cases (strip_prefix path (b'/' ∷ []))) [
  | inr (rest, f) ↦ (inl (rest, strip_prefix_inv path (b'/' ∷ []) rest f), ground arith)
  | inl f ↦ elim (Option-cases (strip_prefix path com_prefix)) [
    | inl g ↦ absurd (ground arith)
    | inr (digits, g) ↦ (
      com_inv path digits (strip_prefix_inv path com_prefix digits g) (ground arith) (ground arith),
      ground arith,
    )
  ]
]

module _ (c : CliArg) where
  -- The number of a connection, and nothing else, is found.
  abbrev KeepsPort : CliArg → Type 0
  KeepsPort c' =
      (c'.protocol ≡ c.protocol)
      × (c'.path ≡ c.path)
      × (c'.port ≤ 65535)
      × (c'.baudrate ≡ c.baudrate)

  abbrev KeepsBaudrate : CliArg → Type 0
  KeepsBaudrate c' =
      (c'.protocol ≡ c.protocol) × (c'.path ≡ c.path) × (c'.port ≡ 0) × (c'.baudrate < 2 ^ 31)

  find_port-Accepts : (rest : List ℕ) → Accepts KeepsPort (find_port rest c)
  unfolding find_port stoi
  find_port-Accepts [] = (refl, refl, omega arith, refl)
  find_port-Accepts (b ∷ bs) = elim (Bool-cases (all_digits (b ∷ bs))) [
    | inr e ↦ rw e tt
    | inl e ↦ elim (Bool-cases (ltb (value_from 0 (b ∷ bs)) (2 ^ 31))) [
      | inr f ↦ rw (e, f) tt
      | inl f ↦ elim (Bool-cases (ltb 65535 (value_from 0 (b ∷ bs)))) [
        | inl g ↦ rw (e, f, g) tt
        | inr g ↦ rw (e, f, g) (refl, refl, ground arith, refl)
      ]
    ]
  ]

  find_baudrate-Accepts :
      (rest : List ℕ) → c.port ≡ 0 → c.baudrate ≡ 0 → Accepts KeepsBaudrate (find_baudrate rest c)
  unfolding find_baudrate stoi
  find_baudrate-Accepts [] p b = (refl, refl, refl, omega arith)
  find_baudrate-Accepts (b ∷ bs) p r = elim (Bool-cases (all_digits (b ∷ bs))) [
    | inr e ↦ rw e tt
    | inl e ↦ elim (Bool-cases (ltb (value_from 0 (b ∷ bs)) (2 ^ 31))) [
      | inr f ↦ rw (e, f) tt
      | inl f ↦ rw (e, f) (refl, refl, p, ground arith)
    ]
  ]

Accepts-map :
    (P Q : CliArg → Type 0) (o : Outcome) → ((c : CliArg) → P c → Q c) → Accepts P o → Accepts Q o
Accepts-map P Q (accepted c) f h = f c h
Accepts-map P Q (refused c) f h = tt
Accepts-map P Q (out_of_range c) f h = tt

KeepsPort-IsAddress :
    (c c' : CliArg)
    → (c.protocol ≡ udp) ⊎ (c.protocol ≡ tcp)
    → HasNoColon c.path
    → c.baudrate ≡ 0
    → KeepsPort c c'
    → IsAddress c'
KeepsPort-IsAddress c c' (inl e) h unset (protocol, path, small, rate) =
    rw (path, protocol, e) (h, (small, rate ∙ unset))
KeepsPort-IsAddress c c' (inr e) h unset (protocol, path, small, rate) =
    rw (path, protocol, e) (h, (small, rate ∙ unset))

KeepsBaudrate-IsAddress :
    (c c' : CliArg)
    → c.protocol ≡ serial
    → HasNoColon c.path
    → IsSerialPath c.path
    → KeepsBaudrate c c'
    → IsAddress c'
KeepsBaudrate-IsAddress c c' e h fits (protocol, path, port, small) =
    rw (path, protocol, e) (h, (fits, port, small))

split_path-HasNoColon : (text : List ℕ) → HasNoColon (split_path text).0
unfolding split_path
split_path-HasNoColon text = elim (Option-cases (split_colon text)) [
  | inl f ↦ rw (split_path, f) (subst (Splits text) f (split_colon-Splits text))
  | inr (parts, f) ↦ rw (split_path, f) (subst (Splits text) f (split_colon-Splits text))
]

find_port-IsAddress :
    (rest : List ℕ) (c : CliArg)
    → (c.protocol ≡ udp) ⊎ (c.protocol ≡ tcp)
    → HasNoColon c.path
    → c.baudrate ≡ 0
    → Accepts IsAddress (find_port rest c)
find_port-IsAddress rest c e h unset =
    Accepts-map (KeepsPort c) IsAddress (find_port rest c)
      (λ c' k. KeepsPort-IsAddress c c' e h unset k) (find_port-Accepts c rest)

serial-IsAddress :
    (rest : List ℕ) (c : CliArg)
    → c.protocol ≡ serial
    → HasNoColon c.path
    → IsSerialPath c.path
    → c.port ≡ 0
    → c.baudrate ≡ 0
    → Accepts IsAddress (find_baudrate rest c)
serial-IsAddress rest c e h fits no_port unset =
    Accepts-map (KeepsBaudrate c) IsAddress (find_baudrate rest c)
      (λ c' k. KeepsBaudrate-IsAddress c c' e h fits k) (find_baudrate-Accepts c rest no_port unset)

parse_behind-IsAddress :
    (protocol : Protocol) (rest : List ℕ) (c : CliArg)
    → protocol ≢ protocol_none
    → Accepts IsAddress (parse_behind protocol rest (reset c))
unfolding parse_behind find_path find_number check_path needs_path reset
parse_behind-IsAddress protocol_none rest c h = absurd (h refl)
parse_behind-IsAddress udp [] c h = find_port-IsAddress [] _ (inl refl) tt refl
parse_behind-IsAddress udp (b ∷ bs) c h =
    find_port-IsAddress (split_path (b ∷ bs)).1 _ (inl refl) (split_path-HasNoColon (b ∷ bs)) refl
parse_behind-IsAddress tcp [] c h = find_port-IsAddress [] _ (inr refl) tt refl
parse_behind-IsAddress tcp (b ∷ bs) c h =
    find_port-IsAddress (split_path (b ∷ bs)).1 _ (inr refl) (split_path-HasNoColon (b ∷ bs)) refl
parse_behind-IsAddress serial [] c h = tt
parse_behind-IsAddress serial (b ∷ bs) c h =
    let path = (split_path (b ∷ bs)).0 in
    elim (Bool-cases (check_serial_path path).0) [
      | inr e ↦ rw e tt
      | inl e ↦
          let (fits, same) = check_serial_path_inv path e in
          rw (e, same)
            (serial-IsAddress (split_path (b ∷ bs)).1 _ refl (split_path-HasNoColon (b ∷ bs)) fits
              refl refl)
    ]

parse-Accepts : (uri : List ℕ) (old : CliArg) → Accepts IsAddress (parse uri old)
unfolding parse find_protocol strip_prefix
parse-Accepts uri old = elim (Option-cases (strip_prefix uri udp_prefix)) [
  | inr (rest, e) ↦ rw e (parse_behind-IsAddress udp rest old (ground arith))
  | inl e ↦ elim (Option-cases (strip_prefix uri tcp_prefix)) [
    | inr (rest, f) ↦ rw (e, f) (parse_behind-IsAddress tcp rest old (ground arith))
    | inl f ↦ elim (Option-cases (strip_prefix uri serial_prefix)) [
      | inr (rest, g) ↦ rw (e, f, g) (parse_behind-IsAddress serial rest old (ground arith))
      | inl g ↦ rw (e, f, g) tt
    ]
  ]
]

-- The parser accepts nothing but addresses: a UDP or TCP one has a port up to 65535 and no
-- baudrate, a serial one a baudrate below 2 ^ 31, no port, and a path from the root, or COM and
-- digits; no path has a colon.
pub parse-IsAddress : (uri : List ℕ) (old c : CliArg) → parse uri old ≡ accepted c → IsAddress c
parse-IsAddress uri old c h = subst (Accepts IsAddress) h (parse-Accepts uri old)
