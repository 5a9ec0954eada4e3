-- ===== src/LcConverter/Parts.antt =====
-- The lines of the voltages, and the times of the two kinds of data, in AHCalRawEvent2LCEventConverter.cc.
use eudaq_ahcal.Base.{
  ℕ, zero, suc, ◌+◌, ◌*◌, ◌/◌, ◌%◌, ◌^◌, ◌<◌, List, [], ◌∷◌, ◌++◌, ◌≡◌, refl, ap, ◌∙◌, arith, ◌==◌,
  if◌then◌else◌, Bool-cases, inl, inr, length, take, drop, All,
}
use eudaq_ahcal.Base.Words.{add64, mul64}
use eudaq_ahcal.LcConverter.{
  hv_lines, hv_objects, bif_nanoseconds, ahcal_nanoseconds, bif_seconds, ahcal_seconds,
}

abbrev pub concat : List (List ℕ) → List ℕ
concat [] = []
concat (xs ∷ xss) = xs ++ concat xss

abbrev pub IsLine : List ℕ → Type 0
IsLine xs = length xs ≡ 8

take_eight :
    (vec : List ℕ) (n : ℕ)
    → length vec ≡ 8 + n
    → (length (take 8 vec) ≡ 8) × (length (drop 8 vec) ≡ n) × (take 8 vec ++ drop 8 vec ≡ vec)
take_eight (a ∷ b ∷ c ∷ d ∷ e ∷ f ∷ g ∷ h ∷ vec) n len = (refl, omega (arith, len), refl)
take_eight vec n len = absurd (omega (arith, len))

hv_lines-concat :
    (n : ℕ) (vec : List ℕ)
    → length vec ≡ n * 8
    → (concat (hv_lines n vec) ≡ vec) × All IsLine (hv_lines n vec)
unfolding hv_lines
hv_lines-concat zero [] len = (refl, tt)
hv_lines-concat zero (x ∷ vec) len = absurd (omega (arith, len))
hv_lines-concat (suc n) vec len =
    let (line, rest, whole) = take_eight vec (n * 8) (omega (arith, len)) in
    let (same, lines) = hv_lines-concat n (drop 8 vec) rest in
    (ap (λ l. take 8 vec ++ l) same ∙ whole, (line, lines))

-- A block of voltages whose length is a multiple of eight becomes objects of eight numbers that are,
-- one after the other, the block; any other block becomes none.
pub hv_objects-lines :
    (vec : List ℕ)
    → All IsLine (hv_objects vec)
      × (concat (hv_objects vec) ≡ (if length vec % 8 == 0 then vec else []))
unfolding hv_objects
hv_objects-lines vec = elim (Bool-cases (length vec % 8 == 0)) [
  | inr torn ↦ rw torn (tt, refl)
  | inl lines ↦
      let len : length vec ≡ length vec / 8 * 8 = ground (arith, lines) in
      let (same, eights) = hv_lines-concat (length vec / 8) vec len in rw lines (eights, same)
]

-- The BIF counts 32 ticks in one of the AHCAL: without an overflow, the same moment gets the same
-- nanoseconds and the same seconds from both.
pub bif_time-ahcal_time :
    (tb ts : ℕ)
    → ts * 32 * 4000 < 2 ^ 64
    → (bif_nanoseconds tb (ts * 32) ≡ ahcal_nanoseconds tb ts)
      × (bif_seconds tb (ts * 32) ≡ ahcal_seconds tb ts)
unfolding bif_nanoseconds ahcal_nanoseconds bif_seconds ahcal_seconds
bif_time-ahcal_time tb ts lt =
    let ns : mul64 (ts * 32) 4000 / 5120 ≡ mul64 ts 25 = omega (arith, lt) in
    let s : ts * 32 / 1280000000 ≡ ts / 40000000 = omega arith in
    (ap (λ n. add64 (mul64 tb 1000000000) n) ns, ap (λ n. add64 tb n) s)
