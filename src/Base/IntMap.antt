-- ===== src/Base/IntMap.antt =====
-- `std::map` as an association list in the order of its keys. `rank` places a key in that order:
-- `int_rank` for `int`, the identity for the addresses that order shared pointers.
use Prim.Native.Nat.{ℕ}
use mathlib.Core.Path.{◌≡◌}
use mathlib.Core.List.{List, [], ◌∷◌}
use mathlib.Core.Option.{Option, none, some}
use native.Mathlib.Omega.{arith}
use mathlib.Core.Logic.{inl, inr}
use Prim.Native.Nat.{◌+◌}
use eudaq_ahcal.Base.Tests.{ltb, ◌==◌, if◌then◌else◌, Bool-cases}

abbrev pub IntMap {ℓ} : Type ℓ → Type ℓ
IntMap V = List (ℕ × V)

module _ {V : Type 0} where
  abbrev pub or_default : V → Option V → V
  or_default d none = d
  or_default d (some v) = v

  -- A property of every value.
  abbrev pub Values {κ} : (V → Type κ) → IntMap V → Type κ
  Values P [] = Unit
  Values P ((j, v) ∷ m) = P v × Values P m

  -- The sum of a measure over the values.
  abbrev pub total_of : (V → ℕ) → IntMap V → ℕ
  total_of g [] = 0
  total_of g ((j, v) ∷ m) = g v + total_of g m

module _ {V : Type 0} (rank : ℕ → ℕ) where
  -- `find`; the search ends at the first greater key.
  unfoldable pub lookup : ℕ → IntMap V → Option V
  lookup k [] = none
  lookup k ((j, v) ∷ m) =
      if k == j then some v else if ltb (rank k) (rank j) then none else lookup k m

  -- Changes `m[k]`, which is `d` if the key is new.
  unfoldable pub adjust : ℕ → V → (V → V) → IntMap V → IntMap V
  adjust k d f [] = (k, f d) ∷ []
  adjust k d f ((j, v) ∷ m) =
      if k == j
      then (j, f v) ∷ m
      else if ltb (rank k) (rank j)
      then (k, f d) ∷ (j, v) ∷ m
      else (j, v) ∷ adjust k d f m

  unfoldable pub erase : ℕ → IntMap V → IntMap V
  erase k [] = []
  erase k ((j, v) ∷ m) = if k == j then m else (j, v) ∷ erase k m

  pub lookup-adjust :
      (k j : ℕ) (d : V) (f : V → V) (m : IntMap V)
      → lookup j (adjust k d f m)
        ≡ (if j == k then some (f (or_default d (lookup k m))) else lookup j m)
  unfolding lookup adjust
  lookup-adjust k j d f [] = ground arith
  lookup-adjust k j d f ((i, v) ∷ m) = ground (arith, lookup-adjust k j d f m)

  pub Values-adjust {κ} :
      (P : V → Type κ) (k : ℕ) (d : V) (f : V → V) (m : IntMap V)
      → ((v : V) → P v → P (f v))
      → P d
      → Values P m
      → Values P (adjust k d f m)
  unfolding adjust
  Values-adjust P k d f [] keep pd h = (keep d pd, tt)
  Values-adjust P k d f ((j, v) ∷ m) keep pd h = elim (Bool-cases (k == j)) [
    | inl e ↦ rw e (keep v h.0, h.1)
    | inr e ↦ rw e (elim (Bool-cases (ltb (rank k) (rank j))) [
      | inl l ↦ rw l (keep d pd, h)
      | inr l ↦ rw l (h.0, Values-adjust P k d f m keep pd h.1)
    ])
  ]

  pub total_of-adjust :
      (g : V → ℕ) (n k : ℕ) (d : V) (f : V → V) (m : IntMap V)
      → ((v : V) → g (f v) ≡ g v + n)
      → g d ≡ 0
      → total_of g (adjust k d f m) ≡ total_of g m + n
  unfolding adjust
  total_of-adjust g n k d f [] grows zero_d = omega (arith, grows d)
  total_of-adjust g n k d f ((j, v) ∷ m) grows zero_d =
      ground (arith, grows d, grows v, total_of-adjust g n k d f m grows zero_d)
