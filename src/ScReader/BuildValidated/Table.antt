-- ===== src/ScReader/BuildValidated/Table.antt =====
-- The table of the crossings of a readout cycle, and the iterator that runs over it.
use mathlib.Core.List.{append_assoc}
use eudaq_ahcal.Base.{
  ℕ, ◌^◌, ◌≤◌, ◌<◌, List, [], ◌∷◌, ◌++◌, ◌≡◌, refl, sym, ap, ◌∙◌, arith, Bool, true, false, Option,
  none, some, ltb, ◌==◌, if◌then◌else◌, Bool-cases, inl, inr, All,
}
use eudaq_ahcal.Base.Words.{slt, int_rank}
use eudaq_ahcal.Base.IntMap.{lookup, adjust, lookup-adjust, or_default}
use eudaq_ahcal.ScReader.State.{Infodata}
use eudaq_ahcal.ScReader.Crossings.{Crossings, bxid_of, add_crossing}
use eudaq_ahcal.ScReader.BuildValidated.{
  all_crossings, kick_out, ahcal_bxid, packets_here, moved_away,
}

-- The packets of one crossing, in their order, without empty ones.
abbrev pub cells_at : ℕ → List Infodata → List Infodata
cells_at bxid [] = []
cells_at bxid ([] ∷ cells) = cells_at bxid cells
cells_at bxid ((x ∷ xs) ∷ cells) =
    let rest = cells_at bxid cells in if bxid == bxid_of (x ∷ xs) then (x ∷ xs) ∷ rest else rest

-- An entry with packets put behind.
abbrev pub extend : Option (List Infodata) → List Infodata → Option (List Infodata)
extend o [] = o
extend o (p ∷ ps) = some (or_default [] o ++ p ∷ ps)

pub extend-cons :
    (o : Option (List Infodata)) (p : Infodata) (ps : List Infodata)
    → extend (some (or_default [] o ++ p ∷ [])) ps ≡ extend o (p ∷ ps)
extend-cons o p [] = refl
extend-cons o p (q ∷ qs) = ap some (append_assoc (or_default [] o) (p ∷ []) (q ∷ qs))

pub lookup-all_crossings :
    (bxid : ℕ) (cells : List Infodata) (m : Crossings)
    → lookup int_rank bxid (all_crossings cells m)
      ≡ extend (lookup int_rank bxid m) (cells_at bxid cells)
unfolding all_crossings add_crossing
lookup-all_crossings bxid [] m = refl
lookup-all_crossings bxid ([] ∷ cells) m = lookup-all_crossings bxid cells m
lookup-all_crossings bxid ((x ∷ xs) ∷ cells) m =
    let p = x ∷ xs in
    lookup-all_crossings bxid cells (add_crossing p m)
    ∙ ap (λ o. extend o (cells_at bxid cells))
        (lookup-adjust int_rank (bxid_of p) bxid [] (λ same. same ++ p ∷ []) m)
    ∙ elim (Bool-cases (bxid == bxid_of p)) [
      | inl hit ↦
          rw (hit, at_key bxid (bxid_of p) m hit)
            (extend-cons (lookup int_rank (bxid_of p) m) p (cells_at bxid cells))
      | inr miss ↦ rw miss refl
    ]
  where
    at_key : (b k : ℕ) (m : Crossings) → (b == k) ≡ true → lookup int_rank b m ≡ lookup int_rank k m
    at_key b k m h = ap (λ i. lookup int_rank i m) (same b k h)
      where
        same : (b k : ℕ) → (b == k) ≡ true → b ≡ k
        same b k h = ground arith

abbrev pub KeysAreInts : Crossings → Type 0
KeysAreInts = All (λ e. e.0 < 2 ^ 32)

abbrev pub BxidsAreInts : List Infodata → Type 0
BxidsAreInts = All (λ p. bxid_of p < 2 ^ 32)

add_crossing-KeysAreInts :
    (p : Infodata) (m : Crossings)
    → bxid_of p < 2 ^ 32
    → KeysAreInts m
    → KeysAreInts (add_crossing p m)
unfolding add_crossing adjust
add_crossing-KeysAreInts p [] hp h = (hp, tt)
add_crossing-KeysAreInts p ((k, v) ∷ m) hp h = elim (Bool-cases (bxid_of p == k)) [
  | inl e ↦ rw e h
  | inr e ↦ rw e (elim (Bool-cases (ltb (int_rank (bxid_of p)) (int_rank k))) [
    | inl l ↦ rw l (hp, h)
    | inr l ↦ rw l (h.0, add_crossing-KeysAreInts p m hp h.1)
  ])
]

pub all_crossings-KeysAreInts :
    (cells : List Infodata) (m : Crossings)
    → BxidsAreInts cells
    → KeysAreInts m
    → KeysAreInts (all_crossings cells m)
unfolding all_crossings
all_crossings-KeysAreInts [] m hc h = h
all_crossings-KeysAreInts ([] ∷ cells) m hc h = all_crossings-KeysAreInts cells m hc.1 h
all_crossings-KeysAreInts ((x ∷ xs) ∷ cells) m hc h =
    all_crossings-KeysAreInts cells (add_crossing (x ∷ xs) m) hc.1
      (add_crossing-KeysAreInts (x ∷ xs) m hc.0 h)

pub kick_out-KeysAreInts :
    (b : ℕ) (its : Crossings) → KeysAreInts its → KeysAreInts (kick_out b its)
unfolding kick_out
kick_out-KeysAreInts b [] h = tt
kick_out-KeysAreInts b ((k, v) ∷ its) h = elim (Bool-cases (slt k b)) [
  | inl l ↦ rw l (kick_out-KeysAreInts b its h.1)
  | inr l ↦ rw l h
]

pub moved_away-KeysAreInts : (its : Crossings) → KeysAreInts its → KeysAreInts (moved_away its)
moved_away-KeysAreInts [] h = tt
moved_away-KeysAreInts ((k, v) ∷ its) h = (h.0, h.1)

-- Leaving lower crossings behind does not hide a crossing.
pub lookup-kick_out :
    (b u : ℕ) (its : Crossings)
    → int_rank b ≤ int_rank u
    → lookup int_rank u (kick_out b its) ≡ lookup int_rank u its
unfolding kick_out lookup
lookup-kick_out b u [] le = refl
lookup-kick_out b u ((k, v) ∷ its) le = elim (Bool-cases (slt k b)) [
  | inl l ↦ rw l (lookup-kick_out b u its le ∙ sym (behind b k u v its le l))
  | inr l ↦ rw l refl
]
  where
    behind :
        (b k u : ℕ) (v : List Infodata) (its : Crossings)
        → int_rank b ≤ int_rank u
        → slt k b ≡ true
        → lookup int_rank u ((k, v) ∷ its) ≡ lookup int_rank u its
    behind b k u v its le l = ground arith

pub lookup-moved_away :
    (u : ℕ) (its : Crossings)
    → (u == ahcal_bxid its) ≡ false
    → lookup int_rank u (moved_away its) ≡ lookup int_rank u its
unfolding lookup
lookup-moved_away u [] ne = refl
lookup-moved_away u ((k, v) ∷ its) ne = rw ne refl

-- At the iterator: no crossing of the trigger if it stands after it, else the packets there.
abbrev pub found : Bool → List Infodata → Option (List Infodata)
found after same = if after then none else some same

pub lookup_at_iterator :
    (b : ℕ) (its : Crossings)
    → b < 2 ^ 32
    → slt 65535 b ≡ false
    → KeysAreInts its
    → lookup int_rank b (kick_out b its)
      ≡ found (slt b (ahcal_bxid (kick_out b its))) (packets_here (kick_out b its))
unfolding kick_out lookup
lookup_at_iterator b [] hb small keys = ground arith
lookup_at_iterator b ((k, v) ∷ its) hb small keys = elim (Bool-cases (slt k b)) [
  | inl l ↦ rw l (lookup_at_iterator b its hb small keys.1)
  | inr l ↦ rw l (here b k v its hb keys.0 l)
]
  where
    here :
        (b k : ℕ) (v : List Infodata) (its : Crossings)
        → b < 2 ^ 32
        → k < 2 ^ 32
        → slt k b ≡ false
        → lookup int_rank b ((k, v) ∷ its) ≡ found (slt b k) v
    here b k v its hb hk l = ground arith
