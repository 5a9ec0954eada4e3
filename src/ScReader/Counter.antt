-- ===== src/ScReader/Counter.antt =====
-- The counter arithmetic of ScReader.cc: `updateCntModulo` and `grayRecode`.
use Prim.Native.Nat.{bit_and, bit_or, bit_xor}
use eudaq_ahcal.Base.{
  ℕ, zero, suc, ◌+◌, ◌-◌, ◌/◌, ◌%◌, ◌^◌, ◌<◌, ◌≡◌, refl, Bool, true, false, arith, ltb, ◌==◌,
  ==_iff, Bool-cases, inl, inr, if◌then◌else◌,
}
use eudaq_ahcal.Base.Words.{add32, sub32}

-- `x & mask` is `x % 2 ^ bits`, and `x & ~mask` takes that away.
unfoldable pub update_cnt_modulo : ℕ → ℕ → ℕ → ℕ → ℕ
update_cnt_modulo old_cnt new_cnt_modulo bits max_back =
    let back = sub32 old_cnt max_back in
    let newvalue =
      if ltb (new_cnt_modulo % 2 ^ bits) (back % 2 ^ bits) then add32 back (2 ^ bits) else back in
    newvalue - newvalue % 2 ^ bits + new_cnt_modulo % 2 ^ bits

-- The full counter ends in the received byte, and lies in the 256 values from `old_cnt - max_back` on.
pub update_cnt_modulo_bounds :
    (old_cnt new_cnt max_back : ℕ)
    → max_back < 2 ^ 32
    → (update_cnt_modulo old_cnt new_cnt 8 max_back % 2 ^ 8 ≡ new_cnt % 2 ^ 8)
      × (sub32 (update_cnt_modulo old_cnt new_cnt 8 max_back) (sub32 old_cnt max_back) < 2 ^ 8)
      × (update_cnt_modulo old_cnt new_cnt 8 max_back < 2 ^ 32)
unfolding update_cnt_modulo
update_cnt_modulo_bounds old_cnt new_cnt max_back h = ground arith

-- A 32-bit counter that is at most `max_back` behind the old one, or less than 256 - `max_back` ahead
-- of it, is recovered from its last 8 bits.
pub update_cnt_modulo_recovers :
    (old_cnt actual max_back : ℕ)
    → max_back < 2 ^ 32
    → actual < 2 ^ 32
    → sub32 actual (sub32 old_cnt max_back) < 2 ^ 8
    → update_cnt_modulo old_cnt (actual % 2 ^ 8) 8 max_back ≡ actual
update_cnt_modulo_recovers old_cnt actual max_back h ha near =
    omega (arith, update_cnt_modulo_bounds old_cnt (actual % 2 ^ 8) max_back h)

-- The loop of `grayRecode`, whose `Gray` loses a bit in each round: 16 rounds are enough.
high_part : ℕ → ℕ → ℕ → ℕ
high_part zero gray acc = acc
high_part (suc fuel) gray acc =
    let rest = high_part fuel (gray / 2) (bit_xor acc gray) in
    if bit_and gray 0xf000 == 0 then acc else rest

unfoldable pub gray_recode : ℕ → ℕ
unfolding high_part
gray_recode partially_decoded =
    let high = high_part 16 partially_decoded 0 in
    if bit_and high 0x1000 == 0
    then bit_or (bit_and high 0xf000) (bit_and partially_decoded 0xfff)
    else bit_or (bit_and high 0xf000) (bit_and (bit_xor partially_decoded 0xffff) 0xfff)

-- The Gray code, and its inverse on `width` bits.
gray_code : ℕ → ℕ
gray_code n = bit_xor n (n / 2)

gray_decode : ℕ → ℕ → ℕ
gray_decode zero g = 0
gray_decode (suc width) g = bit_xor g (gray_decode width (g / 2))

-- What the chip delivers for `n`: bits 12 to 15 of the Gray code, and the low 12 bits decoded alone.
unfoldable pub half_decoded : ℕ → ℕ
unfolding gray_code gray_decode
half_decoded n = bit_and (gray_code n) 0xf000 + gray_decode 12 (bit_and (gray_code n) 0xfff)

-- Every number below the bound is recovered: a table over all of them.
recovers_below : ℕ → Bool
recovers_below zero = true
recovers_below (suc bound) =
    if gray_recode (half_decoded bound) == bound then recovers_below bound else false

recovers_below_lem :
    (bound n : ℕ) → recovers_below bound ≡ true → n < bound → gray_recode (half_decoded n) ≡ n
unfolding recovers_below
recovers_below_lem zero n t h = absurd (omega arith)
recovers_below_lem (suc bound) n t h =
    elim (Bool-cases (gray_recode (half_decoded bound) == bound)) [
      | inl same ↦ ground (
        arith,
        (==_iff (gray_recode (half_decoded bound)) bound).0 same,
        recovers_below_lem bound n (rw same at t),
      )
      | inr other ↦ absurd (cc (rw other at t))
    ]

whole_table : recovers_below 65536 ≡ true
unfolding recovers_below gray_recode half_decoded gray_code gray_decode
whole_table = refl

-- `grayRecode` completes the decoding of every 16-bit number.
pub gray_recode-half_decoded : (n : ℕ) → n < 2 ^ 16 → gray_recode (half_decoded n) ≡ n
gray_recode-half_decoded n h = recovers_below_lem 65536 n whole_table h
