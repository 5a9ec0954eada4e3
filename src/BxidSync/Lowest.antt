-- ===== src/BxidSync/Lowest.antt =====
-- The lowest ROC and BXID of the fronts: a lower bound of all of them, and one of them.
use eudaq_ahcal.Base.{
  ℕ, ◌+◌, ◌*◌, ◌^◌, ◌≤◌, ◌<◌, List, [], ◌∷◌, ◌≡◌, refl, subst, ◌≢◌, arith, Bool, true, false, ◌&&◌,
  ◌||◌, ◌==◌, ltb, if◌then◌else◌, Bool-cases, inl, inr, ◌⊎◌, All,
}
use eudaq_ahcal.Base.Words.{int_rank}
use eudaq_ahcal.BxidSync.{invalid, lower, lower_in, lowest_roc, lowest_bxid}

-- The lexicographic order of ROC and BXID, both signed.
abbrev pub moment : ℕ × ℕ → ℕ
moment k = int_rank k.0 * 2 ^ 32 + int_rank k.1

abbrev pub stands_for_event : ℕ × ℕ → Bool
stands_for_event k = if k.1 == invalid then false else true

-- Two `int`s; only where there is no event is the BXID invalid, and then so is the ROC.
abbrev pub IsKey : ℕ × ℕ → Type 0
IsKey k = (k.0 < 2 ^ 32) × (k.1 < 2 ^ 32) × ((stands_for_event k || k.0 == invalid) ≡ true)

abbrev pub has_roc : ℕ → List (ℕ × ℕ) → Bool
has_roc r [] = false
has_roc r (k ∷ ks) = k.0 == r || has_roc r ks

abbrev pub has_key : ℕ → ℕ → List (ℕ × ℕ) → Bool
has_key r x [] = false
has_key r x (k ∷ ks) = (k.0 == r && k.1 == x) || has_key r x ks

abbrev pub has_event : List (ℕ × ℕ) → Bool
has_event [] = false
has_event (k ∷ ks) = stands_for_event k || has_event ks

lower-le : (r n : ℕ) → (int_rank (lower r n) ≤ int_rank r) × (int_rank (lower r n) ≤ int_rank n)
lower-le r n = ground arith

lowest_roc-le :
    (n : ℕ) (ks : List (ℕ × ℕ))
    → (int_rank (lowest_roc n ks) ≤ int_rank n)
      × All (λ k. int_rank (lowest_roc n ks) ≤ int_rank k.0) ks
unfolding lowest_roc
lowest_roc-le n [] = (omega arith, tt)
lowest_roc-le n ((r, x) ∷ ks) =
    let ih = lowest_roc-le (lower r n) ks in
    let l = lower-le r n in (omega (arith, ih.0, l.1), (omega (arith, ih.0, l.0), ih.1))

lowest_roc-attained :
    (n : ℕ) (ks : List (ℕ × ℕ)) → (lowest_roc n ks ≡ n) ⊎ (has_roc (lowest_roc n ks) ks ≡ true)
unfolding lowest_roc
lowest_roc-attained n [] = inl refl
lowest_roc-attained n ((r, x) ∷ ks) =
    attained r n (lowest_roc (lower r n) ks) (has_roc (lowest_roc (lower r n) ks) ks)
      (lowest_roc-attained (lower r n) ks)
  where
    attained :
        (r n m : ℕ) (b : Bool) → (m ≡ lower r n) ⊎ (b ≡ true) → (m ≡ n) ⊎ ((r == m || b) ≡ true)
    attained r n m b h = ground arith

-- Of the fronts with the ROC `r` none has a lower BXID.
abbrev pub NotBelow : ℕ → ℕ → ℕ × ℕ → Type 0
NotBelow r x k = (k.0 == r && ltb (int_rank k.1) (int_rank x)) ≡ false

lower_in-le :
    (r s x n : ℕ)
    → (int_rank (lower_in r s x n) ≤ int_rank n) × NotBelow r (lower_in r s x n) (s, x)
lower_in-le r s x n = ground arith

NotBelow-le : (r s x m l : ℕ) → int_rank l ≤ int_rank m → NotBelow r m (s, x) → NotBelow r l (s, x)
NotBelow-le r s x m l h b = ground arith

lowest_bxid-le :
    (r n : ℕ) (ks : List (ℕ × ℕ))
    → (int_rank (lowest_bxid r n ks) ≤ int_rank n) × All (NotBelow r (lowest_bxid r n ks)) ks
unfolding lowest_bxid
lowest_bxid-le r n [] = (omega arith, tt)
lowest_bxid-le r n ((s, x) ∷ ks) =
    let ih = lowest_bxid-le r (lower_in r s x n) ks in
    let l = lower_in-le r s x n in
    (omega (arith, ih.0, l.0), (NotBelow-le r s x (lower_in r s x n) _ ih.0 l.1, ih.1))

lowest_bxid-attained :
    (r n : ℕ) (ks : List (ℕ × ℕ))
    → (lowest_bxid r n ks ≡ n) ⊎ (has_key r (lowest_bxid r n ks) ks ≡ true)
unfolding lowest_bxid
lowest_bxid-attained r n [] = inl refl
lowest_bxid-attained r n ((s, x) ∷ ks) =
    let m = lowest_bxid r (lower_in r s x n) ks in
    attained r s x n m (has_key r m ks) (lowest_bxid-attained r (lower_in r s x n) ks)
  where
    attained :
        (r s x n m : ℕ) (b : Bool)
        → (m ≡ lower_in r s x n) ⊎ (b ≡ true)
        → (m ≡ n) ⊎ (((s == r && x == m) || b) ≡ true)
    attained r s x n m b h = ground arith

-- If both are invalid, no front is that of an event.
none_stands :
    (ks : List (ℕ × ℕ))
    → All IsKey ks
    → All (λ k. int_rank invalid ≤ int_rank k.0) ks
    → All (NotBelow invalid invalid) ks
    → has_event ks ≡ false
none_stands [] keys low bound = refl
none_stands (k ∷ ks) keys low bound =
    let ih = none_stands ks keys.1 low.1 bound.1 in ground (arith, ih, keys.0, low.0, bound.0)

roc_invalid :
    (r : ℕ) (ks : List (ℕ × ℕ))
    → All IsKey ks
    → All (NotBelow r invalid) ks
    → has_roc r ks ≡ true
    → r ≡ invalid
roc_invalid r [] keys bound h = absurd (cc)
roc_invalid r (k ∷ ks) keys bound h = elim (Bool-cases (has_roc r ks)) [
  | inl later ↦ roc_invalid r ks keys.1 bound.1 later
  | inr only ↦ ground (arith, only, h, keys.0, bound.0)
]

abbrev pub first_roc : List (ℕ × ℕ) → ℕ
first_roc ks = lowest_roc invalid ks

abbrev pub first_bxid : List (ℕ × ℕ) → ℕ
first_bxid ks = lowest_bxid (first_roc ks) invalid ks

pub first_valid : (ks : List (ℕ × ℕ)) → All IsKey ks → has_event ks ≡ true → first_bxid ks ≢ invalid
first_valid ks keys some_event e =
    let low = lowest_roc-le invalid ks in
    let bound : All (NotBelow (first_roc ks) invalid) ks =
      subst (λ x. All (NotBelow (first_roc ks) x) ks) e
        (lowest_bxid-le (first_roc ks) invalid ks).1 in
    let r : first_roc ks ≡ invalid = elim (lowest_roc-attained invalid ks) [
      | inl same ↦ same
      | inr hit ↦ roc_invalid (first_roc ks) ks keys bound hit
    ] in
    let none : has_event ks ≡ false =
      none_stands ks keys (subst (λ x. All (λ k. int_rank x ≤ int_rank k.0) ks) r low.1)
        (subst (λ x. All (NotBelow x invalid) ks) r bound) in
    cc

-- One of the fronts is the first one.
pub first_taken :
    (ks : List (ℕ × ℕ))
    → All IsKey ks
    → has_event ks ≡ true
    → has_key (first_roc ks) (first_bxid ks) ks ≡ true
first_taken ks keys some_event = elim (lowest_bxid-attained (first_roc ks) invalid ks) [
  | inl same ↦ absurd (first_valid ks keys some_event same)
  | inr hit ↦ hit
]

moment-le :
    (r x : ℕ) (ks : List (ℕ × ℕ))
    → All IsKey ks
    → r < 2 ^ 32
    → All (λ k. int_rank r ≤ int_rank k.0) ks
    → All (NotBelow r x) ks
    → All (λ k. moment (r, x) ≤ moment k) ks
moment-le r x [] keys hr low bound = tt
moment-le r x (k ∷ ks) keys hr low bound =
    (ground (arith, keys.0, low.0, bound.0), moment-le r x ks keys.1 hr low.1 bound.1)

lowest_roc-lt : (n : ℕ) (ks : List (ℕ × ℕ)) → All IsKey ks → n < 2 ^ 32 → lowest_roc n ks < 2 ^ 32
unfolding lowest_roc
lowest_roc-lt n [] keys h = h
lowest_roc-lt n ((r, x) ∷ ks) keys h = lowest_roc-lt (lower r n) ks keys.1 (ground (arith, keys.0))

-- No front is before the first one.
pub first_least :
    (ks : List (ℕ × ℕ))
    → All IsKey ks
    → All (λ k. moment (first_roc ks, first_bxid ks) ≤ moment k) ks
first_least ks keys =
    moment-le (first_roc ks) (first_bxid ks) ks keys (lowest_roc-lt invalid ks keys (omega arith))
      (lowest_roc-le invalid ks).1 (lowest_bxid-le (first_roc ks) invalid ks).1

lowest_bxid-lt :
    (r n : ℕ) (ks : List (ℕ × ℕ)) → All IsKey ks → n < 2 ^ 32 → lowest_bxid r n ks < 2 ^ 32
unfolding lowest_bxid
lowest_bxid-lt r n [] keys h = h
lowest_bxid-lt r n ((s, x) ∷ ks) keys h =
    lowest_bxid-lt r (lower_in r s x n) ks keys.1 (ground (arith, keys.0))

pub first_is_int :
    (ks : List (ℕ × ℕ)) → All IsKey ks → (first_roc ks < 2 ^ 32) × (first_bxid ks < 2 ^ 32)
first_is_int ks keys = (
  lowest_roc-lt invalid ks keys (omega arith),
  lowest_bxid-lt (first_roc ks) invalid ks keys (omega arith),
)

-- What is not before a key and is not the key is after it.
pub moment-lt :
    (r x s y : ℕ)
    → r < 2 ^ 32
    → x < 2 ^ 32
    → s < 2 ^ 32
    → y < 2 ^ 32
    → moment (r, x) ≤ moment (s, y)
    → (s == r && y == x) ≡ false
    → moment (r, x) < moment (s, y)
moment-lt r x s y hr hx hs hy le ne = ground (arith, le, ne)
