-- ===== src/CliArg/RoundTrip.antt =====
-- What the parser in core/cli_arg.cpp accepts, and that it reads back what is printed.
use stealth_drone_purdue.Base.{
  ℕ, ◌^◌, ◌≤◌, ◌<◌, ◌≡◌, refl, ◌≢◌, ◌⊎◌, inl, inr, true, List, [], ◌∷◌, ◌++◌, some, All, arith,
}
use stealth_drone_purdue.CliArg.{
  Protocol, protocol_none, udp, tcp, serial, CliArg, accepted, out_of_range, udp_prefix, tcp_prefix,
  serial_prefix, com_prefix, strip_prefix, reset, find_protocol, split_colon, split_path,
  all_digits, check_serial_path, check_path, find_path, value_from, stoi, find_port, find_baudrate,
  find_number, parse_behind, parse,
}
use stealth_drone_purdue.CliArg.Decimal.{decimal, decimal-digits, decimal-value}

abbrev pub HasNoColon : List ℕ → Type 0
HasNoColon path = All (λ b. b ≢ b':') path

-- A path from the root, or COM and digits.
abbrev pub IsSerialPath : List ℕ → Type 0
IsSerialPath path =
    ((p : List ℕ) × (path ≡ b'/' ∷ p))
    ⊎ ((d : ℕ) × (ds : List ℕ) × (path ≡ com_prefix ++ d ∷ ds) × (all_digits (d ∷ ds) ≡ true))

abbrev FitsProtocol : Protocol → List ℕ → (port baudrate : ℕ) → Type 0
FitsProtocol protocol_none path port baudrate = ⊥
FitsProtocol udp path port baudrate = (port ≤ 65535) × (baudrate ≡ 0)
FitsProtocol tcp path port baudrate = (port ≤ 65535) × (baudrate ≡ 0)
FitsProtocol serial path port baudrate = IsSerialPath path × (port ≡ 0) × (baudrate < 2 ^ 31)

-- What an address can say.
abbrev pub IsAddress : CliArg → Type 0
IsAddress c = HasNoColon c.path × FitsProtocol c.protocol c.path c.port c.baudrate

abbrev prefix_of : Protocol → List ℕ
prefix_of protocol_none = []
prefix_of udp = udp_prefix
prefix_of tcp = tcp_prefix
prefix_of serial = serial_prefix

abbrev number_of : Protocol → (port baudrate : ℕ) → ℕ
number_of protocol_none port baudrate = port
number_of udp port baudrate = port
number_of tcp port baudrate = port
number_of serial port baudrate = baudrate

-- The text of an address: the protocol, the path, a colon and the number.
abbrev pub print : CliArg → List ℕ
print c = prefix_of c.protocol ++ c.path ++ b':' ∷ decimal (number_of c.protocol c.port c.baudrate)

split_colon-append :
    (path text : List ℕ) → HasNoColon path → split_colon (path ++ b':' ∷ text) ≡ some (path, text)
unfolding split_colon
split_colon-append [] text h = ground arith
split_colon-append (c ∷ path) text h = ground (arith, split_colon-append path text h.1, h.0)

find_path-append :
    (path text : List ℕ) (c : CliArg)
    → HasNoColon path
    → find_path (path ++ b':' ∷ text) c
      ≡ ((check_path c.protocol path).0, text, record c { path = (check_path c.protocol path).1 })
unfolding find_path split_path
find_path-append [] text c h = ground (arith, split_colon-append [] text h)
find_path-append (b ∷ path) text c h = ground (arith, split_colon-append (b ∷ path) text h)

find_port_digits :
    (n : ℕ) (text : List ℕ) (c : CliArg)
    → all_digits text ≡ true
    → value_from 0 text ≡ n
    → n ≤ 65535
    → c.port ≡ 0
    → find_port text c ≡ accepted (record c { port = n })
unfolding find_port stoi value_from
find_port_digits n [] c digits value small p = ground arith
find_port_digits n (b ∷ bs) c digits value small p = ground arith

find_baudrate_digits :
    (n : ℕ) (text : List ℕ) (c : CliArg)
    → all_digits text ≡ true
    → value_from 0 text ≡ n
    → n < 2 ^ 31
    → c.port ≡ 0
    → c.baudrate ≡ 0
    → find_baudrate text c ≡ accepted (record c { baudrate = n })
unfolding find_baudrate stoi value_from
find_baudrate_digits n [] c digits value small p b = ground arith
find_baudrate_digits n (b ∷ bs) c digits value small p b0 = ground arith

check_serial_path_lem : (path : List ℕ) → IsSerialPath path → check_serial_path path ≡ (true, path)
unfolding check_serial_path strip_prefix
check_serial_path_lem path (inl (p, e)) = rw e (ground arith)
check_serial_path_lem path (inr (d, ds, e, digits)) = rw (e, digits) (ground arith)

behind_udp :
    (path text : List ℕ) (port : ℕ) (old : CliArg)
    → HasNoColon path
    → all_digits text ≡ true
    → value_from 0 text ≡ port
    → port ≤ 65535
    → parse (udp_prefix ++ path ++ b':' ∷ text) old
      ≡ accepted (record { protocol = udp; path = path; port = port; baudrate = 0 })
unfolding parse find_protocol strip_prefix parse_behind check_path find_number reset
behind_udp path text port old h digits value small =
    let c : CliArg = record { protocol = udp; path = []; port = 0; baudrate = 0 } in
    rw (find_path-append path text c h)
      (find_port_digits port text (record c { path = path }) digits value small refl)

behind_tcp :
    (path text : List ℕ) (port : ℕ) (old : CliArg)
    → HasNoColon path
    → all_digits text ≡ true
    → value_from 0 text ≡ port
    → port ≤ 65535
    → parse (tcp_prefix ++ path ++ b':' ∷ text) old
      ≡ accepted (record { protocol = tcp; path = path; port = port; baudrate = 0 })
unfolding parse find_protocol strip_prefix parse_behind check_path find_number reset
behind_tcp path text port old h digits value small =
    let c : CliArg = record { protocol = tcp; path = []; port = 0; baudrate = 0 } in
    rw (find_path-append path text c h)
      (find_port_digits port text (record c { path = path }) digits value small refl)

behind_serial :
    (path text : List ℕ) (baudrate : ℕ) (old : CliArg)
    → HasNoColon path
    → IsSerialPath path
    → all_digits text ≡ true
    → value_from 0 text ≡ baudrate
    → baudrate < 2 ^ 31
    → parse (serial_prefix ++ path ++ b':' ∷ text) old
      ≡ accepted (record { protocol = serial; path = path; port = 0; baudrate = baudrate })
unfolding parse find_protocol strip_prefix parse_behind check_path find_number reset
behind_serial path text baudrate old h fits digits value small =
    let c : CliArg = record { protocol = serial; path = []; port = 0; baudrate = 0 } in
    rw (find_path-append path text c h, check_serial_path_lem path fits)
      (find_baudrate_digits baudrate text (record c { path = path }) digits value small refl refl)

read_back :
    (protocol : Protocol) (path : List ℕ) (port baudrate : ℕ) (old : CliArg)
    → HasNoColon path
    → FitsProtocol protocol path port baudrate
    → parse (prefix_of protocol ++ path ++ b':' ∷ decimal (number_of protocol port baudrate)) old
      ≡ accepted (record { protocol = protocol; path = path; port = port; baudrate = baudrate })
read_back protocol_none path port baudrate old h fits = absurd fits
read_back udp path port baudrate old h (small, unset) = rw unset (
    behind_udp path (decimal port) port old h (decimal-digits port)
      (decimal-value port (omega arith)) small)
read_back tcp path port baudrate old h (small, unset) = rw unset (
    behind_tcp path (decimal port) port old h (decimal-digits port)
      (decimal-value port (omega arith)) small)
read_back serial path port baudrate old h (fits, unset, small) = rw unset (
    behind_serial path (decimal baudrate) baudrate old h fits (decimal-digits baudrate)
      (decimal-value baudrate (omega arith)) small)

find_number_overflow :
    (text : List ℕ) (c : CliArg)
    → all_digits text ≡ true
    → 2 ^ 31 ≤ value_from 0 text
    → find_number text c ≡ out_of_range c
unfolding find_number find_port find_baudrate stoi value_from
find_number_overflow [] c digits large = ground arith
find_number_overflow (b ∷ bs) c digits large = ground arith

overflow :
    (protocol : Protocol) (path : List ℕ) (port baudrate : ℕ) (old : CliArg) (text : List ℕ)
    → HasNoColon path
    → FitsProtocol protocol path port baudrate
    → all_digits text ≡ true
    → 2 ^ 31 ≤ value_from 0 text
    → parse (prefix_of protocol ++ path ++ b':' ∷ text) old
      ≡ out_of_range (record { protocol = protocol; path = path; port = 0; baudrate = 0 })
unfolding parse find_protocol strip_prefix parse_behind check_path reset
overflow protocol_none path port baudrate old text h fits digits large = absurd fits
overflow udp path port baudrate old text h fits digits large =
    let c : CliArg = record { protocol = udp; path = []; port = 0; baudrate = 0 } in
    rw (find_path-append path text c h)
      (find_number_overflow text (record c { path = path }) digits large)
overflow tcp path port baudrate old text h fits digits large =
    let c : CliArg = record { protocol = tcp; path = []; port = 0; baudrate = 0 } in
    rw (find_path-append path text c h)
      (find_number_overflow text (record c { path = path }) digits large)
overflow serial path port baudrate old text h fits digits large =
    let c : CliArg = record { protocol = serial; path = []; port = 0; baudrate = 0 } in
    rw (find_path-append path text c h, check_serial_path_lem path fits.0)
      (find_number_overflow text (record c { path = path }) digits large)

-- An address that is printed is read back, whatever was read before: a UDP or TCP address with any
-- path without a colon and a port up to 65535, or a serial one with a path from the root, or COM
-- and digits, and a baudrate below 2 ^ 31.
pub parse-print : (c old : CliArg) → IsAddress c → parse (print c) old ≡ accepted c
parse-print c old h = read_back c.protocol c.path c.port c.baudrate old h.0 h.1

-- The number behind a path that the parser passes, when its digits write 2 ^ 31 or more, ends the
-- parser with the exception of `std::stoi`, and not with `false`, whatever the protocol.
pub parse_overflow :
    (c old : CliArg) (text : List ℕ)
    → HasNoColon c.path
    → FitsProtocol c.protocol c.path c.port c.baudrate
    → all_digits text ≡ true
    → 2 ^ 31 ≤ value_from 0 text
    → parse (prefix_of c.protocol ++ c.path ++ b':' ∷ text) old
      ≡ out_of_range (record c { port = 0; baudrate = 0 })
parse_overflow c old text h fits digits large =
    overflow c.protocol c.path c.port c.baudrate old text h fits digits large
