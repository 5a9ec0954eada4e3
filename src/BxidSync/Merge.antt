-- ===== src/BxidSync/Merge.antt =====
-- The abstract view of the collector: a merge of queues in the order of ROC and BXID.
pub mod Turn
pub mod Join
pub mod Refine
use eudaq_ahcal.Base.{
  ℕ, suc, ◌+◌, ◌-◌, ◌^◌, ◌≤◌, ◌<◌, List, [], ◌∷◌, ◌≡◌, refl, arith, Bool, true, false, not, ◌&&◌,
  ◌||◌, ◌==◌, leb, if◌then◌else◌, Bool-cases, inl, inr, All,
}
use eudaq_ahcal.Base.Words.{add32}
use eudaq_ahcal.BxidSync.{
  Tags, Origin, ahcal, bif, hodoscope1, hodoscope2, desytable, Producer, Collector, Sync, Outcome,
  discarded, thrown, written, invalid, Front, waits, unreadable, stands, is_unreadable, front_of,
  take_front, is_empty,
}
use eudaq_ahcal.BxidSync.Lowest.{moment, stands_for_event, moment-lt}

-- What a run does not change.
pub record Config : Type 0 where
  pub ahcal_offset : ℕ
  pub bif_offset : ℕ
  pub hodoscope1_offset : ℕ
  pub hodoscope2_offset : ℕ
  pub needs_ahcal : Bool
  pub needs_bif : Bool
  pub needs_hodoscope1 : Bool
  pub needs_hodoscope2 : Bool

-- The state of the merge: every event from now on is at `least` or later, the next one written has
-- the number `next`, and `lost` counts the incomplete ones.
pub record Point : Type 0 where
  pub least : ℕ
  pub next : ℕ
  pub lost : ℕ

abbrev pub is_needed : {E : Type 0} → Producer E → Bool
is_needed p = p.evt_mandatory && p.active

abbrev pub config_of : {E : Type 0} → Collector E → Config
config_of c = record {
  ahcal_offset = c.of_ahcal.roc_offset;
  bif_offset = c.of_bif.roc_offset;
  hodoscope1_offset = c.of_hodoscope1.roc_offset;
  hodoscope2_offset = c.of_hodoscope2.roc_offset;
  needs_ahcal = is_needed c.of_ahcal;
  needs_bif = is_needed c.of_bif;
  needs_hodoscope1 = is_needed c.of_hodoscope1;
  needs_hodoscope2 = is_needed c.of_hodoscope2;
}

abbrev pub point_of : {E : Type 0} → ℕ → Collector E → Point
point_of n c = record { least = n; next = c.ev_n; lost = c.thrown_incomplete }

-- A needed sub-event is missing.
abbrev pub is_incomplete : {E : Type 0} → Config → Sync E → Bool
is_incomplete g s =
    (g.needs_ahcal && is_empty s.sub_ahcal)
    || (g.needs_bif && is_empty s.sub_bif)
    || (g.needs_hodoscope1 && is_empty s.sub_hodoscope1)
    || (g.needs_hodoscope2 && is_empty s.sub_hodoscope2)

-- Only the BXID of the BIF has a lower limit.
abbrev pub is_limited : Origin → Bool
is_limited bif = true
is_limited _ = false

module _ {E : Type 0} (t : Tags E) where
  -- The event has this ROC, corrected by the offset, and this BXID.
  abbrev pub AtKey : ℕ → ℕ × ℕ → E → Type 0
  AtKey off k e = (add32 (t.roc e) off ≡ k.0) × (t.bxid e ≡ k.1)

  abbrev pub moment_of : ℕ → E → ℕ
  moment_of off e = moment (add32 (t.roc e) off, t.bxid e)

  -- The events that can be placed are in strictly rising order, from `n` on.
  abbrev pub is_rising : Bool → ℕ → ℕ → List E → Bool
  is_rising limited off n [] = true
  is_rising limited off n (e ∷ q) =
      if is_unreadable t limited e
      then is_rising limited off n q
      else leb n (moment_of off e) && is_rising limited off (suc (moment_of off e)) q

  pub record AreRising (n : ℕ) (c : Collector E) : Type 0 where
    pub ahcal_rises : is_rising false c.of_ahcal.roc_offset n c.of_ahcal.que ≡ true
    pub bif_rises : is_rising true c.of_bif.roc_offset n c.of_bif.que ≡ true
    pub hodoscope1_rises : is_rising false c.of_hodoscope1.roc_offset n c.of_hodoscope1.que ≡ true
    pub hodoscope2_rises : is_rising false c.of_hodoscope2.roc_offset n c.of_hodoscope2.que ≡ true

  -- An event joined at the key `k`: not before `n`, not empty, and of sub-events of that key. The one
  -- of the table is of any time.
  pub record JoinsAt (g : Config) (n : ℕ) (k : ℕ × ℕ) (s : Sync E) : Type 0 where
    pub not_before : n ≤ moment k
    pub not_empty :
        (not (is_empty s.sub_ahcal)
          || not (is_empty s.sub_bif)
          || not (is_empty s.sub_hodoscope1)
          || not (is_empty s.sub_hodoscope2))
        ≡ true
    pub ahcal_at : All (AtKey g.ahcal_offset k) s.sub_ahcal
    pub bif_at : All (AtKey g.bif_offset k) s.sub_bif
    pub hodoscope1_at : All (AtKey g.hodoscope1_offset k) s.sub_hodoscope1
    pub hodoscope2_at : All (AtKey g.hodoscope2_offset k) s.sub_hodoscope2

  -- The runs of the merge: what cannot be placed is popped; an incomplete event is thrown away and
  -- counted; a complete one is written with the next number. Each is later than the one before.
  pub data Merges (g : Config) : Point → List (Outcome E) → Point → Type 0 where
    returns : (p : Point) → Merges g p [] p
    pops :
        (o : Origin) (e : E) (os : List (Outcome E)) (p q : Point)
        → is_unreadable t (is_limited o) e ≡ true
        → Merges g p os q
        → Merges g p (discarded o e ∷ os) q
    throws :
        (k : ℕ × ℕ) (s : Sync E) (os : List (Outcome E)) (p q : Point)
        → JoinsAt g p.least k s
        → is_incomplete g s ≡ true
        → Merges g (record p { least = suc (moment k); lost = add32 p.lost 1 }) os q
        → Merges g p (thrown s ∷ os) q
    writes :
        (k : ℕ × ℕ) (s : Sync E) (os : List (Outcome E)) (p q : Point)
        → JoinsAt g p.least k s
        → is_incomplete g s ≡ false
        → Merges g (record p { least = suc (moment k); next = add32 p.next 1 }) os q
        → Merges g p (written p.next s ∷ os) q
