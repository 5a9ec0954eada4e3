-- ===== src/HodoSync/Same.antt =====
-- The sub-events of what AhcalHodoscopeDataCollector.cc writes.
use eudaq_ahcal.Base.{
  ℕ, zero, suc, List, [], ◌∷◌, ◌⊎◌, ◌≡◌, refl, subst, arith, Bool-cases, inl, inr, All, All-append,
}
use eudaq_ahcal.Base.IntMap.{IntMap}
use eudaq_ahcal.HodoSync.{
  Tags, Collector, AhcalFronts, lacks, drops, fronts, HodoscopeFronts, is_same, take_fronts,
}
use eudaq_ahcal.HodoSync.Loop.{Turn, returned, went_on, after_fronts, turn_on, turn, build_event}

module _ {E : Type 0} (t : Tags E) where
  -- The sub-events have one ROC and one BXID.
  abbrev pub HasTags : ℕ → ℕ → E → Type 0
  HasTags roc bxid e = (t.roc e ≡ roc) × (t.bxid e ≡ bxid)

  abbrev pub AreJoined : List E → Type 0
  AreJoined subs = (roc : ℕ) × (bxid : ℕ) × All (HasTags roc bxid) subs

  take_fronts-HasTags :
      (roc bxid : ℕ) (m : IntMap (List E)) → All (HasTags roc bxid) (take_fronts t roc bxid m).0
  unfolding take_fronts
  take_fronts-HasTags roc bxid [] = tt
  take_fronts-HasTags roc bxid ((k, []) ∷ m) = take_fronts-HasTags roc bxid m
  take_fronts-HasTags roc bxid ((k, e ∷ q) ∷ m) = elim (Bool-cases (is_same t roc bxid e)) [
    | inl same ↦
        rw same ((ground (arith, same), ground (arith, same)), take_fronts-HasTags roc bxid m)
    | inr other ↦ rw other (take_fronts-HasTags roc bxid m)
  ]

  abbrev pub TurnJoins : Turn E → Type 0
  TurnJoins (returned c) = Unit
  TurnJoins (went_on ss c) = All AreJoined ss

  after_fronts-TurnJoins :
      (roc bxid : ℕ) (h : HodoscopeFronts E) (c : Collector E)
      → TurnJoins (after_fronts t roc bxid h c)
  after_fronts-TurnJoins roc bxid h c = elim (Bool-cases h.returns) [
    | inl ends ↦ simp (ends) tt
    | inr goes ↦ elim (Bool-cases h.popped) [
      | inl popped ↦ simp (goes, popped) tt
      | inr all ↦ elim (Bool-cases h.match_found) [
        | inr alone ↦ simp (goes, all, alone) tt
        | inl found ↦
            simp (goes, all, found)
              (
                (
                  roc,
                  bxid,
                  All-append _ _ _ (take_fronts-HasTags roc bxid c.ahcal_evts)
                      (take_fronts-HasTags roc bxid h.evts),
                ),
                tt,
              )
      ]
    ]
  ]

  turn_on-TurnJoins : (f : AhcalFronts E) (c : Collector E) → TurnJoins (turn_on t f c)
  turn_on-TurnJoins lacks c = tt
  turn_on-TurnJoins (drops m) c = tt
  turn_on-TurnJoins (fronts roc bxid) c = after_fronts-TurnJoins roc bxid _ c

  pub Turn-cases :
      (x : Turn E)
      → ((c : Collector E) × (x ≡ returned c))
        ⊎ ((ss : List (List E)) × (c : Collector E) × (x ≡ went_on ss c))
  Turn-cases (returned c) = inl (c, refl)
  Turn-cases (went_on ss c) = inr (ss, c, refl)

  pub build_event-AreJoined :
      (turns : ℕ) (c : Collector E) → All AreJoined (build_event t turns c).written
  unfolding build_event turn
  build_event-AreJoined zero c = tt
  build_event-AreJoined (suc turns) c = elim (Turn-cases (turn t c)) [
    | inl (c', e) ↦ rw (build_event, e) tt
    | inr (ss, c', e) ↦
        rw (build_event, e)
          (All-append _ _ _ (subst TurnJoins e (turn_on-TurnJoins _ c))
            (build_event-AreJoined turns c'))
  ]
