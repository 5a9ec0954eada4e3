-- ===== src/HodoSync.antt =====
-- AhcalHodoscopeDataCollector.cc (user/calice/module/src): an event of the AHCAL is joined with the
-- hodoscopes' events of its readout cycle (ROC) and bunch crossing (BXID). An `int` is its bit pattern.
-- A connection is the address by which the maps order the shared pointers.
pub mod Loop
pub mod Same
pub mod Returns
mod Tests
use eudaq_ahcal.Base.{
  ℕ, ◌+◌, ◌-◌, ◌^◌, List, [], ◌∷◌, ◌++◌, Bool, true, false, ◌||◌, ◌&&◌, Option, none, some, ◌==◌,
  if◌then◌else◌,
}
use eudaq_ahcal.Base.Words.{slt}
use eudaq_ahcal.Base.IntMap.{IntMap}

-- `GetTag("ROC", -1)` and `GetTag("BXID", -1)`.
pub record Tags (E : Type 0) : Type 0 where
  pub roc : E → ℕ
  pub bxid : E → ℕ

abbrev pub minus_1 : ℕ
minus_1 = 2 ^ 32 - 1

-- The histograms and the count of unmatched events are only printed.
pub record Collector (E : Type 0) : Type 0 where
  pub ahcal_evts : IntMap (List E)
  pub hodoscope_evts : IntMap (List E)
  pub disconnected : IntMap (Unit {0})

-- What the loop over the queues of the AHCAL finds: an empty queue; an event that it drops, with the
-- map after that; or the last front's ROC and BXID.
pub data AhcalFronts (E : Type 0) : Type 0 where
  lacks : AhcalFronts E
  drops : IntMap (List E) → AhcalFronts E
  fronts : ℕ → ℕ → AhcalFronts E

-- The map after the loop over the hodoscopes, whether it came to an empty queue, which ends the method,
-- whether it popped an event (`everybodyHasEvent` is false), and whether a front matches.
pub record HodoscopeFronts (E : Type 0) : Type 0 where
  pub evts : IntMap (List E)
  pub returns : Bool
  pub popped : Bool
  pub match_found : Bool

module _ {E : Type 0} where
  -- Pops every front; no queue is empty where the code does so.
  unfoldable pub pop_fronts : IntMap (List E) → IntMap (List E)
  pop_fronts [] = []
  pop_fronts ((k, []) ∷ m) = (k, []) ∷ pop_fronts m
  pop_fronts ((k, e ∷ q) ∷ m) = (k, q) ∷ pop_fronts m

module _ {E : Type 0} (t : Tags E) where
  abbrev pub is_untagged : E → Bool
  is_untagged e = t.roc e == minus_1 || t.bxid e == minus_1 || t.bxid e == 0

  abbrev pub keep_queue : ℕ → List E → AhcalFronts E → AhcalFronts E
  keep_queue k q (drops m) = drops ((k, q) ∷ m)
  keep_queue k q other = other

  unfoldable pub ahcal_fronts : ℕ → ℕ → IntMap (List E) → AhcalFronts E
  ahcal_fronts roc bxid [] = fronts roc bxid
  ahcal_fronts roc bxid ((k, []) ∷ m) = lacks
  ahcal_fronts roc bxid ((k, e ∷ q) ∷ m) =
      let rest = ahcal_fronts (t.roc e) (t.bxid e) m in
      if is_untagged e then drops ((k, q) ∷ m) else keep_queue k (e ∷ q) rest

  -- The front of a hodoscope is before that of the AHCAL, and is popped.
  abbrev pub is_before : ℕ → ℕ → E → Bool
  is_before roc bxid e = slt (t.roc e) roc || t.roc e == roc && slt (t.bxid e) bxid

  abbrev pub is_same : ℕ → ℕ → E → Bool
  is_same roc bxid e = t.roc e == roc && t.bxid e == bxid

  unfoldable pub hodoscope_fronts : ℕ → ℕ → IntMap (List E) → HodoscopeFronts E
  hodoscope_fronts roc bxid [] = record {
    evts = [];
    returns = false;
    popped = false;
    match_found = false;
  }
  hodoscope_fronts roc bxid ((k, []) ∷ m) = record {
    evts = (k, []) ∷ m;
    returns = true;
    popped = false;
    match_found = false;
  }
  hodoscope_fronts roc bxid ((k, e ∷ q) ∷ m) =
      let rest = hodoscope_fronts roc bxid m in
      if is_before roc bxid e
      then record rest { evts = (k, q) ∷ rest.evts; popped = true }
      else record rest {
        evts = (k, e ∷ q) ∷ rest.evts;
        match_found = is_same roc bxid e || rest.match_found;
      }

  -- The fronts with this ROC and BXID become sub-events.
  unfoldable pub take_fronts : ℕ → ℕ → IntMap (List E) → List E × IntMap (List E)
  take_fronts roc bxid [] = ([], [])
  take_fronts roc bxid ((k, []) ∷ m) =
      let (subs, m') = take_fronts roc bxid m in (subs, (k, []) ∷ m')
  take_fronts roc bxid ((k, e ∷ q) ∷ m) =
      let (subs, m') = take_fronts roc bxid m in
      if is_same roc bxid e then (e ∷ subs, (k, q) ∷ m') else (subs, (k, e ∷ q) ∷ m')
