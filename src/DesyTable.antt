-- ===== src/DesyTable.antt =====
-- DesyTableCommunication.cc (user/desytable/src) and the begin of DesyTableProducer.cc: the protocol of the
-- moving stage. A text is the list of its bytes, an `int` its bit pattern.
pub mod Digits
pub mod RoundTrip
mod Tests
use eudaq_ahcal.Base.{
  ℕ, zero, suc, ◌+◌, ◌-◌, ◌*◌, ◌/◌, ◌%◌, ◌^◌, List, [], ◌∷◌, ◌++◌, Bool, true, false, not, ◌&&◌,
  ◌||◌, Option, none, some, ◌==◌, if◌then◌else◌, ltb, leb, length, take, drop, replicate,
}
use eudaq_ahcal.Base.Words.{slt, sub32}

-- `abs` and the sign of an `int`.
abbrev pub abs : ℕ → ℕ
abs value = if slt value 0 then sub32 0 value else value

abbrev pub sign : ℕ → ℕ
sign value = if slt value 0 then b'-' else b'+'

-- The digits of a number; ten are enough for an `int`.
unfoldable pub decimal : ℕ → ℕ → List ℕ
decimal zero n = []
decimal (suc fuel) n =
    let high = decimal fuel (n / 10) in
    if ltb n 10 then (b'0' + n) ∷ [] else high ++ (b'0' + n % 10) ∷ []

-- `%0wd` of a number that is not negative.
unfoldable pub padded : ℕ → ℕ → List ℕ
padded w n = let ds = decimal 10 n in replicate (w - length ds) b'0' ++ ds

-- The bytes of `transmit`.
unfoldable pub transmit : List ℕ → ℕ → List ℕ
transmit command address = b'Z' ∷ padded 2 address ++ command ++ b'\r' ∷ []

-- `%c%06d`: the sign and six digits of an `int`.
abbrev pub number_text : ℕ → List ℕ
number_text value = sign value ∷ padded 6 (abs value)

-- The commands of the setters, by their letter; those of P5 have no sign.
unfoldable pub signed_command : ℕ → ℕ → List ℕ
signed_command letter value = letter ∷ number_text value ++ b'\r' ∷ []

unfoldable pub unsigned_command : ℕ → ℕ → List ℕ
unsigned_command letter value = letter ∷ padded 6 (abs value) ++ b'\r' ∷ []

abbrev pub take_over : ℕ → List ℕ
take_over address = transmit (b'U' ∷ b'\r' ∷ []) address

-- What the setters transmit.
unfoldable pub set_actual_position : ℕ → ℕ → List (List ℕ)
set_actual_position value address =
    transmit (signed_command b'A' value) address ∷ take_over address ∷ []

unfoldable pub set_preset_p1 : ℕ → ℕ → List (List ℕ)
set_preset_p1 value address = transmit (signed_command b'B' value) address ∷ take_over address ∷ []

unfoldable pub set_preset_p5 : ℕ → ℕ → List (List ℕ)
set_preset_p5 value address =
    transmit (unsigned_command b'F' value) address ∷ take_over address ∷ []

-- The text in a buffer ends before the first zero.
unfoldable pub c_string : List ℕ → List ℕ
c_string [] = []
c_string (c ∷ cs) = if c == 0 then [] else c ∷ c_string cs

-- `receive` of a number of bytes: each `recv` gives none (-1), which ends it, or at most the bytes that
-- are missing; the list ends at the timeout.
unfoldable pub receive_loop : List ℕ → ℕ → List (Option (List ℕ)) → List ℕ
receive_loop received bytes [] = received
receive_loop received bytes (none ∷ chunks) = received
receive_loop received bytes (some chunk ∷ chunks) =
    if leb bytes (length received)
    then received
    else receive_loop (received ++ take (bytes - length received) chunk) bytes chunks

abbrev pub recv_buf_length : ℕ
recv_buf_length = 512

unfoldable pub receive : ℕ → List (Option (List ℕ)) → List ℕ
receive bytes chunks =
    if ltb recv_buf_length bytes then [] else c_string (receive_loop [] bytes chunks)

-- `std::stoi`: white space, a sign, digits; none is its exception. The texts here are of seven bytes.
abbrev pub is_digit : ℕ → Bool
is_digit c = leb b'0' c && leb c b'9'

abbrev pub is_space : ℕ → Bool
is_space c = c == b' ' || leb 9 c && leb c 13

unfoldable pub digits_value : ℕ → List ℕ → ℕ
digits_value n [] = n
digits_value n (c ∷ cs) = if is_digit c then digits_value (n * 10 + (c - b'0')) cs else n

abbrev pub magnitude : List ℕ → Option ℕ
magnitude [] = none
magnitude (c ∷ cs) = if is_digit c then some (digits_value 0 (c ∷ cs)) else none

abbrev pub negated : Option ℕ → Option ℕ
negated none = none
negated (some n) = some (sub32 0 n)

unfoldable pub stoi : List ℕ → Option ℕ
stoi [] = none
stoi (c ∷ cs) =
    if is_space c
    then stoi cs
    else if c == b'-'
    then negated (magnitude cs)
    else if c == b'+'
    then magnitude cs
    else magnitude (c ∷ cs)

abbrev pub same_text : List ℕ → List ℕ → Bool
same_text [] [] = true
same_text (c ∷ cs) (d ∷ ds) = c == d && same_text cs ds
same_text _ _ = false

abbrev pub error_value : ℕ
error_value = 1000000

-- `requestValue` on the text that it receives.
unfoldable pub request_value : List ℕ → List ℕ → Option ℕ
request_value expected answer =
    if not (length answer == 12)
    then some error_value
    else if same_text (take 4 answer) expected && same_text (take 1 (drop 11 answer)) (b'@' ∷ [])
    then stoi (take 7 (drop 4 answer))
    else some error_value

abbrev pub position_prefix : List ℕ
position_prefix = b'@' ∷ b'V' ∷ b'9' ∷ b'9' ∷ []

abbrev pub p1_prefix : List ℕ
p1_prefix = b'@' ∷ b'V' ∷ b'9' ∷ b'6' ∷ []

abbrev pub p5_prefix : List ℕ
p5_prefix = b'@' ∷ b'V' ∷ b'9' ∷ b'2' ∷ []

abbrev pub get_actual_position : List (Option (List ℕ)) → Option ℕ
get_actual_position chunks = request_value position_prefix (receive 12 chunks)

abbrev pub get_preset_p1 : List (Option (List ℕ)) → Option ℕ
get_preset_p1 chunks = request_value p1_prefix (receive 12 chunks)

abbrev pub get_preset_p5 : List (Option (List ℕ)) → Option ℕ
get_preset_p5 chunks = request_value p5_prefix (receive 12 chunks)

abbrev pub ask_position : ℕ → List ℕ
ask_position address = transmit (b'H' ∷ b'\r' ∷ []) address

-- The loop of `DoInitialise` with RESET_P1_TO_ACTUAL_POSITION, for one address: the position is asked for
-- twice, and the first answer is set as P1. The result is what is transmitted; none is an exception.
unfoldable pub reset_p1 :
    ℕ → List (Option (List ℕ)) → List (Option (List ℕ)) → Option (List (List ℕ))
reset_p1 address first second = elim (get_actual_position first) [
  | none ↦ none
  | some position ↦ elim (get_actual_position second) [
    | none ↦ none
    | some again ↦
        some (ask_position address ∷ ask_position address ∷ set_preset_p1 position address)
  ]
]

-- `DoInitialise`: two equal addresses are replaced.
abbrev pub addresses : ℕ → ℕ → ℕ × ℕ
addresses horizontal vertical =
    if horizontal == vertical then (100, 101) else (horizontal, vertical)

abbrev pub get_controller_setup : List (Option (List ℕ)) → List ℕ
get_controller_setup chunks = receive 78 chunks

-- `trashRecvBuffer`: how many bytes came before the first `recv` without any.
abbrev pub trash_recv_buffer : List (Option (List ℕ)) → ℕ
trash_recv_buffer [] = 0
trash_recv_buffer (none ∷ chunks) = 0
trash_recv_buffer (some chunk ∷ chunks) =
    if 0 == length chunk then 0 else length chunk + trash_recv_buffer chunks
