-- ===== src/DesyTable/RoundTrip.antt =====
-- DesyTableCommunication.cc (user/desytable/src): what the setters print and the getters read.
use mathlib.Core.List.{append-nil, append_assoc}
use eudaq_ahcal.Base.{
  ℕ, zero, suc, ◌+◌, ◌-◌, ◌^◌, ◌<◌, ◌≤◌, List, [], ◌∷◌, ◌++◌, ◌≡◌, refl, sym, ap, ◌∙◌, arith, true,
  false, ◌==◌, Bool-cases, inl, inr, leb, length, length-append, take, All, Option, some,
}
use eudaq_ahcal.Base.Words.{slt, sub32}
use eudaq_ahcal.DesyTable.Digits.{
  tens, fixed, padded-fixed, length-fixed, fixed-is_digit, digits_value-fixed,
}
use eudaq_ahcal.DesyTable.{
  abs, sign, number_text, c_string, receive_loop, receive, is_digit, digits_value, magnitude,
  negated, stoi, request_value,
}

magnitude-digits :
    (text : List ℕ)
    → 0 < length text
    → All (λ c. is_digit c ≡ true) text
    → magnitude text ≡ some (digits_value 0 text)
magnitude-digits [] h digits = absurd (omega (arith, h))
magnitude-digits (c ∷ cs) h digits = rw (digits.0)

magnitude-fixed : (k n : ℕ) → n < tens (suc k) → magnitude (fixed (suc k) n) ≡ some n
unfolding digits_value
magnitude-fixed k n h =
    magnitude-digits (fixed (suc k) n) (omega (arith, length-fixed (suc k) n))
      (fixed-is_digit (suc k) n)
    ∙ ap some (
        ap (digits_value 0) (sym (append-nil (fixed (suc k) n)))
        ∙ digits_value-fixed (suc k) n [] h)

negated_twice : (value : ℕ) → value < 2 ^ 32 → sub32 0 (sub32 0 value) ≡ value
negated_twice value h = omega arith

stoi-number :
    (value : ℕ)
    → value < 2 ^ 32
    → abs value < 1000000
    → stoi (sign value ∷ fixed 6 (abs value)) ≡ some value
unfolding stoi
stoi-number value h small = elim (Bool-cases (slt value 0)) [
  | inl negative ↦ rw negative (
      (ap negated (magnitude-fixed 5 (sub32 0 value) (rw negative at small))
        ∙ ap some (negated_twice value h)))
  | inr positive ↦ rw positive (magnitude-fixed 5 value (rw positive at small))
]

-- A text without zeros.
abbrev pub IsText : List ℕ → Type 0
IsText = All (λ c. 0 < c)

c_string-text : (text : List ℕ) → IsText text → c_string text ≡ text
unfolding c_string
c_string-text [] h = refl
c_string-text (c ∷ cs) h =
    let more : (c == 0) ≡ false = ground (arith, h.0) in rw (more, c_string-text cs h.1)

abbrev pub joined : List (List ℕ) → List ℕ
joined [] = []
joined (piece ∷ pieces) = piece ++ joined pieces

abbrev pub arrivals : List (List ℕ) → List (Option (List ℕ))
arrivals [] = []
arrivals (piece ∷ pieces) = some piece ∷ arrivals pieces

empty : (text : List ℕ) → length text ≤ 0 → text ≡ []
empty [] h = refl
empty (c ∷ cs) h = absurd (omega (arith, h))

take_all : (n : ℕ) (text : List ℕ) → length text ≤ n → take n text ≡ text
take_all zero text h = sym (empty text h)
take_all (suc n) [] h = refl
take_all (suc n) (c ∷ cs) h = ap (λ l. c ∷ l) (take_all n cs (omega (arith, h)))

receive_loop-joined :
    (received : List ℕ) (bytes : ℕ) (pieces : List (List ℕ))
    → length received + length (joined pieces) ≤ bytes
    → receive_loop received bytes (arrivals pieces) ≡ received ++ joined pieces
unfolding receive_loop
receive_loop-joined received bytes [] h = sym (append-nil received)
receive_loop-joined received bytes (piece ∷ pieces) h =
    elim (Bool-cases (leb bytes (length received))) [
      | inl full ↦
          let none_left : joined (piece ∷ pieces) ≡ [] =
            empty (joined (piece ∷ pieces)) (ground (arith, full)) in
          rw (full, none_left, append-nil received)
      | inr more ↦
          let sum = length-append piece (joined pieces) in
          let there = length-append received piece in
          rw (more, take_all (bytes - length received) piece (omega (arith, sum)))
            (receive_loop-joined (received ++ piece) bytes pieces (omega (arith, sum, there))
              ∙ append_assoc received piece (joined pieces))
    ]

-- The answer of the stage with a number, as long as every getter asks for.
abbrev pub answer : ℕ → ℕ → ℕ → ℕ → ℕ → List ℕ
answer a b c d value = a ∷ b ∷ c ∷ d ∷ number_text value ++ b'@' ∷ []

same : (n : ℕ) → (n == n) ≡ true
same n = ground arith

sign_byte : (value : ℕ) → 0 < sign value
sign_byte value = elim (Bool-cases (slt value 0)) [
  | inl negative ↦ rw negative (omega arith)
  | inr positive ↦ rw positive (omega arith)
]

-- The answer with its digits written out.
answer-fixed :
    (a b c d value : ℕ)
    → abs value < 1000000
    → answer a b c d value ≡ a ∷ b ∷ c ∷ d ∷ sign value ∷ fixed 6 (abs value) ++ b'@' ∷ []
answer-fixed a b c d value small =
    ap (λ digits. a ∷ b ∷ c ∷ d ∷ sign value ∷ digits ++ b'@' ∷ [])
      (padded-fixed 5 (abs value) small (omega (arith, small)))

receive-text :
    (text : List ℕ) (pieces : List (List ℕ))
    → length text ≤ 12
    → IsText text
    → joined pieces ≡ text
    → receive 12 (arrivals pieces) ≡ text
unfolding receive
receive-text text pieces short clean arrived =
    let size : length (joined pieces) ≤ 12 = rw arrived short in
    ap c_string (receive_loop-joined [] 12 pieces (omega (arith, size)) ∙ arrived)
    ∙ c_string-text text clean

request_value-fixed :
    (a b c d s n : ℕ)
    → request_value (a ∷ b ∷ c ∷ d ∷ []) (a ∷ b ∷ c ∷ d ∷ s ∷ fixed 6 n ++ b'@' ∷ [])
      ≡ stoi (s ∷ fixed 6 n)
unfolding request_value
request_value-fixed a b c d s n = rw (same a, same b, same c, same d)

-- An answer with four bytes, the number as the setters print it and an `@` is read as that number,
-- in whatever pieces it arrives, when the number has at most six digits and the four bytes are not zero.
pub request_value-receive :
    (a b c d value : ℕ) (pieces : List (List ℕ))
    → 0 < a
    → 0 < b
    → 0 < c
    → 0 < d
    → value < 2 ^ 32
    → abs value < 1000000
    → joined pieces ≡ answer a b c d value
    → request_value (a ∷ b ∷ c ∷ d ∷ []) (receive 12 (arrivals pieces)) ≡ some value
request_value-receive a b c d value pieces ha hb hc hd h small arrived =
    let shown = answer-fixed a b c d value small in
    let digit : (n : ℕ) → 0 < b'0' + n = λ n. omega arith in
    ap (request_value (a ∷ b ∷ c ∷ d ∷ [])) (
      receive-text (a ∷ b ∷ c ∷ d ∷ sign value ∷ fixed 6 (abs value) ++ b'@' ∷ []) pieces
        (omega arith)
        (
          ha,
          (
            hb,
            (
              hc,
              (
                hd,
                (
                  sign_byte value,
                  (
                    digit _,
                    (digit _, (digit _, (digit _, (digit _, (digit _, (omega arith, tt)))))),
                  ),
                ),
              ),
            ),
          ),
        )
        (arrived ∙ shown))
    ∙ request_value-fixed a b c d (sign value) (abs value)
    ∙ stoi-number value h small
