-- ===== src/Tests/AddressRuns.antt =====
-- The theorems on core/cli_arg.cpp, applied to the addresses of a simulator and of a serial port.
use stealth_drone_purdue.Base.{ℕ, ◌≡◌, ◌≤◌, ◌^◌, true, refl, List, [], ◌∷◌, ◌++◌, arith}
use stealth_drone_purdue.CliArg.{
  CliArg, protocol_none, udp, serial, accepted, out_of_range, udp_prefix, serial_prefix,
  strip_prefix, find_protocol, split_colon, split_path, is_digit, all_digits, check_serial_path,
  check_path, find_path, value_from, stoi, find_baudrate, find_number, parse_behind, parse, reset,
}
use stealth_drone_purdue.CliArg.RoundTrip.{IsAddress, print, parse-print, parse_overflow}
use stealth_drone_purdue.CliArg.Accepted.{parse-IsAddress}

abbrev blank : CliArg
blank = record { protocol = protocol_none; path = []; port = 0; baudrate = 0 }

-- "udp://1:14540".
abbrev simulator : CliArg
simulator = record { protocol = udp; path = b'1' ∷ []; port = 14540; baudrate = 0 }

parse-print_example : parse (print simulator) blank ≡ accepted simulator
parse-print_example = parse-print simulator blank (((λ h. ground arith), tt), (omega arith, refl))

-- "serial:///d:9".
abbrev serial_uri : List ℕ
serial_uri = serial_prefix ++ b'/' ∷ b'd' ∷ b':' ∷ b'9' ∷ []

abbrev serial_port : CliArg
serial_port = record { protocol = serial; path = b'/' ∷ b'd' ∷ []; port = 0; baudrate = 9 }

serial_accepted : parse serial_uri simulator ≡ accepted serial_port
unfolding parse find_protocol strip_prefix parse_behind find_path split_path split_colon check_path
    check_serial_path find_number find_baudrate all_digits is_digit stoi value_from reset
serial_accepted = refl

parse-IsAddress_example : IsAddress serial_port
parse-IsAddress_example = parse-IsAddress serial_uri simulator serial_port serial_accepted

-- The digits of 2 ^ 31.
abbrev large : List ℕ
large = b'2' ∷ b'1' ∷ b'4' ∷ b'7' ∷ b'4' ∷ b'8' ∷ b'3' ∷ b'6' ∷ b'4' ∷ b'8' ∷ []

large-digits : all_digits large ≡ true
unfolding all_digits is_digit
large-digits = refl

large-value : 2 ^ 31 ≤ value_from 0 large
unfolding value_from
large-value = omega arith

parse_overflow_example :
    parse (udp_prefix ++ (b'1' ∷ []) ++ b':' ∷ large) blank
    ≡ out_of_range (record simulator { port = 0; baudrate = 0 })
parse_overflow_example =
    parse_overflow simulator blank large ((λ h. ground arith), tt) (omega arith, refl) large-digits
      large-value
