-- ===== src/DesyTable/Digits.antt =====
-- The numbers of the moving stage's protocol: printing with leading zeros, and reading back.
use mathlib.Core.List.{append-nil, append_assoc}
use eudaq_ahcal.Base.{
  ℕ, zero, suc, ◌+◌, ◌-◌, ◌*◌, ◌/◌, ◌%◌, ◌<◌, List, [], ◌∷◌, ◌++◌, ◌≡◌, refl, sym, ap, ◌∙◌, arith,
  true, Bool-cases, inl, inr, ltb, length, length-append, replicate, All, All-append,
}
use eudaq_ahcal.DesyTable.{decimal, padded, digits_value, is_digit}

-- 10 to the power of k.
abbrev pub tens : ℕ → ℕ
tens zero = 1
tens (suc k) = tens k * 10

-- The last k digits, from the most significant on.
abbrev pub fixed : ℕ → ℕ → List ℕ
fixed zero n = []
fixed (suc k) n = fixed k (n / 10) ++ (b'0' + n % 10) ∷ []

replicate-snoc : (k c : ℕ) → replicate k c ++ c ∷ [] ≡ replicate (suc k) c
replicate-snoc zero c = refl
replicate-snoc (suc k) c = ap (λ l. c ∷ l) (replicate-snoc k c)

fixed-zero : (k : ℕ) → fixed k 0 ≡ replicate k b'0'
fixed-zero zero = refl
fixed-zero (suc k) = ap (λ l. l ++ b'0' ∷ []) (fixed-zero k) ∙ replicate-snoc k b'0'

single : (n : ℕ) → n < 10 → ltb n 10 ≡ true
single n h = ground arith

one_digit : (k n : ℕ) → n < 10 → replicate (suc k - 1) b'0' ++ (b'0' + n) ∷ [] ≡ fixed (suc k) n
one_digit k n h =
    let width : suc k - 1 ≡ k = omega arith in
    let high : n / 10 ≡ 0 = omega (arith, h) in
    let low : n % 10 ≡ n = omega (arith, h) in rw (width, high, low, fixed-zero k)

-- One digit more on both sides.
more_digits :
    (k n : ℕ) (high : List ℕ)
    → replicate (k - length high) b'0' ++ high ≡ fixed k (n / 10)
    → replicate (suc k - length (high ++ (b'0' + n % 10) ∷ [])) b'0'
        ++ (high ++ (b'0' + n % 10) ∷ [])
      ≡ fixed (suc k) n
more_digits k n high h =
    let width : suc k - length (high ++ (b'0' + n % 10) ∷ []) ≡ k - length high =
      omega (arith, length-append high ((b'0' + n % 10) ∷ [])) in
    rw width (
      sym (append_assoc (replicate (k - length high) b'0') high _)
      ∙ ap (λ l. l ++ (b'0' + n % 10) ∷ []) h)

decimal-fixed :
    (k fuel n : ℕ)
    → n < tens (suc k)
    → n < tens fuel
    → replicate (suc k - length (decimal fuel n)) b'0' ++ decimal fuel n ≡ fixed (suc k) n
unfolding decimal
decimal-fixed k zero n hk hf =
    let none_left : n ≡ 0 = omega (arith, hf) in
    let width : suc k - 0 ≡ suc k = omega arith in
    rw (width, append-nil {A = ℕ} (replicate (suc k) b'0'), none_left, fixed-zero (suc k))
decimal-fixed zero (suc fuel) n hk hf = rw (single n hk) (one_digit 0 n hk)
decimal-fixed (suc k) (suc fuel) n hk hf = elim (Bool-cases (ltb n 10)) [
  | inl one ↦ rw one (one_digit (suc k) n (ground arith))
  | inr more ↦ rw more (
      more_digits (suc k) n (decimal fuel (n / 10))
        (decimal-fixed k fuel (n / 10) (omega (arith, hk)) (omega (arith, hf))))
]

pub padded-fixed : (k n : ℕ) → n < tens (suc k) → n < tens 10 → padded (suc k) n ≡ fixed (suc k) n
unfolding padded
padded-fixed k n hk hf = decimal-fixed k 10 n hk hf

pub length-fixed : (k n : ℕ) → length (fixed k n) ≡ k
length-fixed zero n = refl
length-fixed (suc k) n =
    omega (arith, length-append (fixed k (n / 10)) ((b'0' + n % 10) ∷ []), length-fixed k (n / 10))

pub fixed-is_digit : (k n : ℕ) → All (λ c. is_digit c ≡ true) (fixed k n)
fixed-is_digit zero n = tt
fixed-is_digit (suc k) n = All-append _ _ _ (fixed-is_digit k (n / 10)) (ground arith, tt)

next_digit :
    (n : ℕ) (rest : List ℕ) → digits_value (n / 10) ((b'0' + n % 10) ∷ rest) ≡ digits_value n rest
unfolding digits_value
next_digit n rest =
    let digit : is_digit (b'0' + n % 10) ≡ true = ground arith in
    let value : n / 10 * 10 + (b'0' + n % 10 - b'0') ≡ n = omega arith in rw (digit, value)

pub digits_value-fixed :
    (k n : ℕ) (rest : List ℕ)
    → n < tens k
    → digits_value 0 (fixed k n ++ rest) ≡ digits_value n rest
unfolding digits_value
digits_value-fixed zero n rest h = ap (λ m. digits_value m rest) (omega (arith, h))
digits_value-fixed (suc k) n rest h =
    ap (digits_value 0) (append_assoc (fixed k (n / 10)) ((b'0' + n % 10) ∷ []) rest)
    ∙ digits_value-fixed k (n / 10) ((b'0' + n % 10) ∷ rest) (omega (arith, h))
    ∙ next_digit n rest
