-- ===== src/ScReader/BuildValidated/Iterate.antt =====
-- The loop over the triggers of a readout cycle.
use mathlib.Core.List.{append-nil, append_assoc}
use eudaq_ahcal.Base.{
  ℕ, suc, ◌^◌, ◌≤◌, ◌<◌, List, [], ◌∷◌, ◌++◌, ◌≡◌, sym, ap, ◌∙◌, arith, false, ltb, ◌==◌,
  if◌then◌else◌, map, length, Bool-cases, inl, inr, All,
}
use eudaq_ahcal.Base.Words.{slt, int_rank}
use eudaq_ahcal.Base.IntMap.{lookup}
use eudaq_ahcal.ScReader.State.{Settings, LdaTimeData, Reader}
use eudaq_ahcal.ScReader.Build.{Event}
use eudaq_ahcal.ScReader.Crossings.{Crossings}
use eudaq_ahcal.ScReader.BuildValidated.{
  Trigger, kick_out, ahcal_bxid, packets_here, moved_away, same_crossing,
}
use eudaq_ahcal.ScReader.BuildValidated.Cycle.{fill_missed, handle_trigger, for_triggers}
use eudaq_ahcal.ScReader.BuildValidated.Table.{
  KeysAreInts, kick_out-KeysAreInts, moved_away-KeysAreInts, lookup-kick_out, lookup-moved_away,
  found, lookup_at_iterator,
}
use eudaq_ahcal.ScReader.BuildValidated.Crossed.{
  seen, expected_of, expected, KeepsAll, seen-fill_missed, handle_trigger-HandlesOne, next_iterator,
}

-- The triggers in rising order of their crossings, from the rank `n` on.
abbrev pub IsRising : ℕ → List Trigger → Type 0
IsRising n [] = Unit {0}
IsRising n (t ∷ ts) = (n ≤ int_rank t.trigger_bxid) × IsRising (int_rank t.trigger_bxid) ts

-- A crossing that the builder takes: an `int` up to 65535.
abbrev pub IsCrossing : Trigger → Type 0
IsCrossing t = (t.trigger_bxid < 2 ^ 32) × (slt 65535 t.trigger_bxid ≡ false)

-- For each of the triggers the iterator still has what the table has.
abbrev pub Agrees : Crossings → Crossings → List Trigger → Type 0
Agrees its table =
    All (λ u. lookup int_rank u.trigger_bxid its ≡ lookup int_rank u.trigger_bxid table)

Agrees-kick_out :
    (b n : ℕ) (its table : Crossings) (ts : List Trigger)
    → int_rank b ≤ n
    → IsRising n ts
    → Agrees its table ts
    → Agrees (kick_out b its) table ts
Agrees-kick_out b n its table [] le up h = tt
Agrees-kick_out b n its table (t ∷ ts) le up h = (
  lookup-kick_out b t.trigger_bxid its (omega (arith, le, up.0)) ∙ h.0,
  Agrees-kick_out b (int_rank t.trigger_bxid) its table ts (omega (arith, le, up.0)) up.1 h.1,
)

Agrees-moved_away :
    (n : ℕ) (its table : Crossings) (ts : List Trigger)
    → int_rank (ahcal_bxid its) < n
    → IsRising n ts
    → Agrees its table ts
    → Agrees (moved_away its) table ts
Agrees-moved_away n its table [] lt up h = tt
Agrees-moved_away n its table (t ∷ ts) lt up h = (
  lookup-moved_away t.trigger_bxid its (ground (arith, lt, up.0)) ∙ h.0,
  Agrees-moved_away (int_rank t.trigger_bxid) its table ts (omega (arith, lt, up.0)) up.1 h.1,
)

-- Without a further trigger in its crossing, all that follow are later.
none_same :
    (b : ℕ) (ts : List Trigger)
    → b < 2 ^ 32
    → All IsCrossing ts
    → IsRising (int_rank b) ts
    → ltb 0 (length (same_crossing b ts)) ≡ false
    → IsRising (suc (int_rank b)) ts
unfolding same_crossing
none_same b [] hb good up h = tt
none_same b (t ∷ ts) hb good up h =
    (later b t.trigger_bxid (same_crossing b ts) hb good.0.0 up.0 t h, up.1)
  where
    later :
        (b u : ℕ) (rest : List Trigger)
        → b < 2 ^ 32
        → u < 2 ^ 32
        → int_rank b ≤ int_rank u
        → (t : Trigger) → ltb 0 (length (if u == b then t ∷ rest else [])) ≡ false
        → suc (int_rank b) ≤ int_rank u
    later b u rest hb hu le t h = ground arith

-- The iterator after a trigger agrees with the table on all further triggers.
Agrees-next :
    (t : Trigger) (ts : List Trigger) (its table : Crossings)
    → IsCrossing t
    → All IsCrossing ts
    → KeysAreInts its
    → slt (ahcal_bxid its) t.trigger_bxid ≡ false
    → IsRising (int_rank t.trigger_bxid) ts
    → Agrees its table ts
    → Agrees (next_iterator t ts its) table ts × KeysAreInts (next_iterator t ts its)
Agrees-next t ts its table hb good keys front up h =
    elim (Bool-cases (slt t.trigger_bxid (ahcal_bxid its))) [
      | inl after ↦ rw after (h, keys)
      | inr here ↦ rw here (elim (Bool-cases (ltb 0 (length (same_crossing t.trigger_bxid ts)))) [
        | inl more ↦ rw more (h, keys)
        | inr last ↦ rw last (
          Agrees-moved_away (suc (int_rank t.trigger_bxid)) its table ts
              (ground (arith, here, front)) (none_same t.trigger_bxid ts hb.0 good up last) h,
          moved_away-KeysAreInts its keys,
        )
      ])
    ]

front_not_below :
    (b : ℕ) (its : Crossings) → slt 65535 b ≡ false → slt (ahcal_bxid (kick_out b its)) b ≡ false
unfolding kick_out
front_not_below b [] small = ground arith
front_not_below b ((k, v) ∷ its) small = elim (Bool-cases (slt k b)) [
  | inl l ↦ rw l (front_not_below b its small)
  | inr l ↦ rw l l
]

pub for_triggers-seen :
    (c : Settings) (roc : ℕ) (d : LdaTimeData) (all : List Trigger) (ts : List Trigger)
    (its table : Crossings) (st : List Event × Reader) (n : ℕ)
    → KeepsAll c
    → All IsCrossing ts
    → IsRising n ts
    → KeysAreInts its
    → Agrees its table ts
    → seen (for_triggers c roc d all 0 ts its st).0 ≡ seen st.0 ++ map (expected c table) ts
unfolding for_triggers
for_triggers-seen c roc d all [] its table st n k good up keys agree = sym (append-nil (seen st.0))
for_triggers-seen c roc d all (t ∷ ts) its table st n k good up keys agree =
    let b = t.trigger_bxid in
    let left = kick_out b its in
    let filled = fill_missed c roc d t st in
    let one = handle_trigger-HandlesOne c roc d all t ts left filled.0 filled.1 k in
    let next =
      Agrees-next t ts left table good.0 good.1 (kick_out-KeysAreInts b its keys)
        (front_not_below b its good.0.1) up.1
        (Agrees-kick_out b (int_rank b) its table ts (omega arith) up.1 agree.1) in
    let h = handle_trigger c roc d all t ts left filled in
    let its_own =
      sym (lookup_at_iterator b its good.0.0 good.0.1 keys)
      ∙ lookup-kick_out b b its (omega arith)
      ∙ agree.0 in
    (ap (λ j. seen (for_triggers c roc d all j ts h.iterator h.done_so_far).0) one.0
      ∙ ap (λ i. seen (for_triggers c roc d all 0 ts i h.done_so_far).0) one.2
      ∙ for_triggers-seen c roc d all ts (next_iterator t ts left) table h.done_so_far (int_rank b)
          k good.1 up.1 next.1 next.0
      ∙ ap (λ l. l ++ map (expected c table) ts)
          (one.1
            ∙ ap
                (λ l.
                  l ++ expected_of c t (found (slt b (ahcal_bxid left)) (packets_here left)) ∷ [])
                (seen-fill_missed c roc d t st)
            ∙ ap (λ o. seen st.0 ++ expected_of c t o ∷ []) its_own)
      ∙ append_assoc (seen st.0) (expected c table t ∷ []) (map (expected c table) ts))
