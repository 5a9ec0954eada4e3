-- ===== src/DesyTable/Tests.antt =====
-- Runs of DesyTableCommunication.cc (user/desytable/src).
use eudaq_ahcal.Base.{ℕ, ◌-◌, ◌^◌, List, [], ◌∷◌, ◌≡◌, refl, arith, none, some, length, map}
use eudaq_ahcal.DesyTable.{
  decimal, padded, transmit, signed_command, unsigned_command, set_preset_p1, set_preset_p5,
  set_actual_position, receive, receive_loop, c_string, digits_value, stoi, request_value,
  position_prefix, reset_p1, ask_position, take_over,
}
use eudaq_ahcal.DesyTable.RoundTrip.{request_value-receive, arrivals}

-- -602 as an `int`.
abbrev minus_602 : ℕ
minus_602 = 2 ^ 32 - 602

abbrev answer_pieces : List (List ℕ)
answer_pieces =
    (b'@' ∷ b'V' ∷ b'9' ∷ [])
    ∷ []
    ∷ (b'9' ∷ b'-' ∷ b'0' ∷ b'0' ∷ b'0' ∷ b'6' ∷ b'0' ∷ [])
    ∷ (b'2' ∷ b'@' ∷ [])
    ∷ []

request_value-receive_example :
    request_value (b'@' ∷ b'V' ∷ b'9' ∷ b'9' ∷ []) (receive 12 (arrivals answer_pieces))
    ≡ some minus_602
unfolding decimal padded
request_value-receive_example =
    request_value-receive b'@' b'V' b'9' b'9' minus_602 answer_pieces (omega arith) (omega arith)
      (omega arith) (omega arith) (omega arith) (ground arith) refl

-- `Z00A-000602`, twice ended, and the command that takes it over.
minus_602_set :
    set_actual_position minus_602 0
    ≡ (b'Z' ∷ b'0' ∷ b'0' ∷ b'A' ∷ b'-' ∷ b'0' ∷ b'0' ∷ b'0' ∷ b'6' ∷ b'0' ∷ b'2' ∷ b'\r' ∷ b'\r'
        ∷ [])
      ∷ (b'Z' ∷ b'0' ∷ b'0' ∷ b'U' ∷ b'\r' ∷ b'\r' ∷ [])
      ∷ []
unfolding set_actual_position signed_command transmit padded decimal
minus_602_set = refl

-- The length of P5 is sent without a sign.
minus_602_p5 : map length (set_preset_p5 minus_602 1) ≡ 12 ∷ 6 ∷ []
unfolding set_preset_p5 unsigned_command transmit padded decimal
minus_602_p5 = refl

-- Without an answer the error value is set as P1, with a digit too many.
unanswered_reset :
    reset_p1 0 [] []
    ≡ some (
        ask_position 0
        ∷ ask_position 0
        ∷ (b'Z' ∷ b'0' ∷ b'0' ∷ b'B' ∷ b'+' ∷ b'1' ∷ b'0' ∷ b'0' ∷ b'0' ∷ b'0' ∷ b'0' ∷ b'0' ∷ b'\r'
            ∷ b'\r' ∷ [])
        ∷ take_over 0
        ∷ [])
unfolding reset_p1 set_preset_p1 signed_command transmit padded decimal request_value receive
    c_string receive_loop
unanswered_reset = refl

-- An answer of twelve bytes with the right start and end, but without a number, is an exception of `stoi`.
no_number :
    request_value position_prefix
      (b'@' ∷ b'V' ∷ b'9' ∷ b'9' ∷ b'?' ∷ b'?' ∷ b'?' ∷ b'?' ∷ b'?' ∷ b'?' ∷ b'?' ∷ b'@' ∷ [])
    ≡ none
unfolding request_value stoi digits_value
no_number = refl
