-- ===== src/HodoSync/Returns.antt =====
-- The loop of `BuildEvent` of AhcalHodoscopeDataCollector.cc returns.
use eudaq_ahcal.Base.{
  ℕ, zero, suc, ◌+◌, ◌≤◌, ◌<◌, List, [], ◌∷◌, ◌≡◌, refl, subst, arith, Bool, true, false,
  if◌then◌else◌, Bool-cases, inl, inr, length, All,
}
use eudaq_ahcal.Base.IntMap.{IntMap, total_of}
use eudaq_ahcal.HodoSync.{
  Tags, Collector, AhcalFronts, lacks, drops, fronts, minus_1, is_untagged, is_before, is_same,
  keep_queue, ahcal_fronts, hodoscope_fronts, pop_fronts, take_fronts,
}
use eudaq_ahcal.HodoSync.Loop.{Turn, returned, went_on, after_fronts, turn_on, turn, build_event}
use eudaq_ahcal.HodoSync.Same.{AreJoined, Turn-cases, build_event-AreJoined}

module _ {E : Type 0} where
  abbrev pub size : IntMap (List E) → ℕ
  size m = total_of length m

  abbrev pub waiting : Collector E → ℕ
  waiting c = size c.ahcal_evts + size c.hodoscope_evts

  abbrev pub has_queue : IntMap (List E) → Bool
  has_queue [] = false
  has_queue (x ∷ m) = true

  size-pop_fronts : (m : IntMap (List E)) → size (pop_fronts m) ≤ size m
  unfolding pop_fronts
  size-pop_fronts [] = omega arith
  size-pop_fronts ((k, []) ∷ m) = omega (arith, size-pop_fronts m)
  size-pop_fronts ((k, e ∷ q) ∷ m) = omega (arith, size-pop_fronts m)

module _ {E : Type 0} (t : Tags E) where
  size-take_fronts :
      (roc bxid : ℕ) (m : IntMap (List E)) → size (take_fronts t roc bxid m).1 ≤ size m
  unfolding take_fronts
  size-take_fronts roc bxid [] = omega arith
  size-take_fronts roc bxid ((k, []) ∷ m) = omega (arith, size-take_fronts roc bxid m)
  size-take_fronts roc bxid ((k, e ∷ q) ∷ m) = elim (Bool-cases (is_same t roc bxid e)) [
    | inl same ↦ rw same (omega (arith, size-take_fronts roc bxid m))
    | inr other ↦ rw other (omega (arith, size-take_fronts roc bxid m))
  ]

  size-hodoscope_fronts :
      (roc bxid : ℕ) (m : IntMap (List E))
      → size (hodoscope_fronts t roc bxid m).evts
          + (if (hodoscope_fronts t roc bxid m).popped then 1 else 0)
        ≤ size m
  unfolding hodoscope_fronts
  size-hodoscope_fronts roc bxid [] = omega arith
  size-hodoscope_fronts roc bxid ((k, []) ∷ m) = omega arith
  size-hodoscope_fronts roc bxid ((k, e ∷ q) ∷ m) =
      let rest = size-hodoscope_fronts roc bxid m in
      elim (Bool-cases (is_before t roc bxid e)) [
        | inl before ↦ rw before (omega (arith, rest))
        | inr other ↦ rw other (omega (arith, rest))
      ]

  -- What the loop over the AHCAL's queues finds behind a queue with the front `e` and the rest `q`.
  abbrev pub TellsBehind : ℕ → E → List E → IntMap (List E) → AhcalFronts E → Type 0
  TellsBehind k e q m lacks = Unit {0}
  TellsBehind k e q m (drops m') = size m' < size m
  TellsBehind k e q m (fronts roc bxid) =
      size (take_fronts t roc bxid ((k, e ∷ q) ∷ m)).1 < suc (length q) + size m

  take_fronts-lt :
      (roc bxid k : ℕ) (e : E) (q : List E) (m : IntMap (List E))
      → size (take_fronts t roc bxid m).1 < size m
      → size (take_fronts t roc bxid ((k, e ∷ q) ∷ m)).1 < suc (length q) + size m
  unfolding take_fronts
  take_fronts-lt roc bxid k e q m h = elim (Bool-cases (is_same t roc bxid e)) [
    | inl same ↦ rw same (omega (arith, h))
    | inr other ↦ rw other (omega (arith, h))
  ]

  keep_queue-TellsBehind :
      (k j : ℕ) (e e' : E) (q q' : List E) (m : IntMap (List E)) (f : AhcalFronts E)
      → TellsBehind j e' q' m f
      → TellsBehind k e q ((j, e' ∷ q') ∷ m) (keep_queue t j (e' ∷ q') f)
  keep_queue-TellsBehind k j e e' q q' m lacks h = tt
  keep_queue-TellsBehind k j e e' q q' m (drops m') h = omega (arith, h)
  keep_queue-TellsBehind k j e e' q q' m (fronts roc bxid) h = take_fronts-lt roc bxid k e q _ h

  ahcal_fronts-TellsBehind :
      (k : ℕ) (e : E) (q : List E) (m : IntMap (List E))
      → TellsBehind k e q m (ahcal_fronts t (t.roc e) (t.bxid e) m)
  unfolding ahcal_fronts take_fronts
  ahcal_fronts-TellsBehind k e q [] =
      let same : is_same t (t.roc e) (t.bxid e) e ≡ true = ground arith in rw same (omega arith)
  ahcal_fronts-TellsBehind k e q ((j, []) ∷ m) = tt
  ahcal_fronts-TellsBehind k e q ((j, e' ∷ q') ∷ m) = elim (Bool-cases (is_untagged t e')) [
    | inl untagged ↦ rw untagged (omega arith)
    | inr tagged ↦
        rw tagged (keep_queue-TellsBehind k j e e' q q' m _ (ahcal_fronts-TellsBehind j e' q' m))
  ]

  -- What it finds in all: each way on makes the map smaller, and leaves its queues in it.
  abbrev pub Tells : IntMap (List E) → AhcalFronts E → Type 0
  Tells m lacks = Unit {0}
  Tells m (drops m') = (size m' < size m) × (has_queue m' ≡ true)
  Tells m (fronts roc bxid) =
      (size (take_fronts t roc bxid m).1 < size m)
      × (has_queue (take_fronts t roc bxid m).1 ≡ true)
      × (size (pop_fronts m) < size m)
      × (has_queue (pop_fronts m) ≡ true)

  has_queue-take_fronts :
      (roc bxid k : ℕ) (e : E) (q : List E) (m : IntMap (List E))
      → has_queue (take_fronts t roc bxid ((k, e ∷ q) ∷ m)).1 ≡ true
  unfolding take_fronts
  has_queue-take_fronts roc bxid k e q m = elim (Bool-cases (is_same t roc bxid e)) [
    | inl same ↦ rw same refl
    | inr other ↦ rw other refl
  ]

  keep_queue-Tells :
      (k : ℕ) (e : E) (q : List E) (m : IntMap (List E)) (f : AhcalFronts E)
      → TellsBehind k e q m f
      → Tells ((k, e ∷ q) ∷ m) (keep_queue t k (e ∷ q) f)
  unfolding pop_fronts
  keep_queue-Tells k e q m lacks h = tt
  keep_queue-Tells k e q m (drops m') h = (omega (arith, h), refl)
  keep_queue-Tells k e q m (fronts roc bxid) h =
      (h, has_queue-take_fronts roc bxid k e q m, omega (arith, size-pop_fronts m), refl)

  ahcal_fronts-Tells :
      (roc bxid : ℕ) (m : IntMap (List E))
      → has_queue m ≡ true
      → Tells m (ahcal_fronts t roc bxid m)
  unfolding ahcal_fronts
  ahcal_fronts-Tells roc bxid [] h = absurd (cc)
  ahcal_fronts-Tells roc bxid ((k, []) ∷ m) h = tt
  ahcal_fronts-Tells roc bxid ((k, e ∷ q) ∷ m) h = elim (Bool-cases (is_untagged t e)) [
    | inl untagged ↦ rw untagged (omega arith, refl)
    | inr tagged ↦ rw tagged (keep_queue-Tells k e q m _ (ahcal_fronts-TellsBehind k e q m))
  ]

  abbrev pub GoesDown : Collector E → Turn E → Type 0
  GoesDown c (returned c') = Unit {0}
  GoesDown c (went_on ss c') = (waiting c' < waiting c) × (has_queue c'.ahcal_evts ≡ true)

  after_fronts-GoesDown :
      (roc bxid : ℕ) (c : Collector E)
      → has_queue c.ahcal_evts ≡ true
      → Tells c.ahcal_evts (fronts roc bxid)
      → GoesDown c (after_fronts t roc bxid (hodoscope_fronts t roc bxid c.hodoscope_evts) c)
  after_fronts-GoesDown roc bxid c queued h =
      let hf = hodoscope_fronts t roc bxid c.hodoscope_evts in
      let down = size-hodoscope_fronts roc bxid c.hodoscope_evts in
      elim (Bool-cases hf.returns) [
        | inl ends ↦ simp (ends) tt
        | inr goes ↦ elim (Bool-cases hf.popped) [
          | inl popped ↦
              let one : size hf.evts + 1 ≤ size c.hodoscope_evts = ground (arith, down, popped) in
              simp (goes, popped) (omega (arith, one), queued)
          | inr all ↦
              let less : size hf.evts ≤ size c.hodoscope_evts = omega (arith, down) in
              elim (Bool-cases hf.match_found) [
                | inr alone ↦ simp (goes, all, alone) (omega (arith, less, h.2), h.3)
                | inl found ↦
                    let taken = size-take_fronts roc bxid hf.evts in
                    simp (goes, all, found) (omega (arith, less, taken, h.0), h.1)
              ]
        ]
      ]

  turn_on-GoesDown :
      (f : AhcalFronts E) (c : Collector E)
      → has_queue c.ahcal_evts ≡ true
      → Tells c.ahcal_evts f
      → GoesDown c (turn_on t f c)
  turn_on-GoesDown lacks c queued h = tt
  turn_on-GoesDown (drops m) c queued h = (omega (arith, h.0), h.1)
  turn_on-GoesDown (fronts roc bxid) c queued h = after_fronts-GoesDown roc bxid c queued h

  build_returns :
      (turns : ℕ) (c : Collector E)
      → has_queue c.ahcal_evts ≡ true
      → waiting c < turns
      → (build_event t turns c).has_returned ≡ true
  unfolding build_event turn
  build_returns zero c queued lt = absurd (omega (arith, lt))
  build_returns (suc turns) c queued lt = elim (Turn-cases t (turn t c)) [
    | inl (c', e) ↦ rw (build_event, e) refl
    | inr (ss, c', e) ↦
        let down : GoesDown c (went_on ss c') =
          subst (GoesDown c) e (
            turn_on-GoesDown _ c queued (ahcal_fronts-Tells minus_1 minus_1 c.ahcal_evts queued)) in
        rw (build_event, e) (build_returns turns c' down.1 (omega (arith, down.0, lt)))
  ]

  -- If the AHCAL is connected, `BuildEvent` returns within one turn more than events are queued, and the
  -- sub-events of each written event have one ROC and one BXID.
  pub build_event-returns :
      (turns : ℕ) (c : Collector E)
      → has_queue c.ahcal_evts ≡ true
      → waiting c < turns
      → ((build_event t turns c).has_returned ≡ true)
        × All (AreJoined t) (build_event t turns c).written
  build_event-returns turns c queued lt =
      (build_returns turns c queued lt, build_event-AreJoined t turns c)
