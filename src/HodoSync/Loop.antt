-- ===== src/HodoSync/Loop.antt =====
-- `BuildEvent`, `DoReceive` and the connections of AhcalHodoscopeDataCollector.cc.
use eudaq_ahcal.Base.{
  ℕ, zero, suc, ◌+◌, List, [], ◌∷◌, ◌++◌, Bool, true, false, ◌||◌, Option, none, some, ltb, ◌==◌,
  if◌then◌else◌, length,
}
use eudaq_ahcal.Base.IntMap.{IntMap, lookup, adjust}
use eudaq_ahcal.TriggerSync.{address}
use eudaq_ahcal.HodoSync.{
  Tags, Collector, AhcalFronts, lacks, drops, fronts, HodoscopeFronts, minus_1, ahcal_fronts,
  hodoscope_fronts, pop_fronts, take_fronts,
}

-- The producers that `DoConnect` tells apart by a part of the name.
pub data Kind : Type 0 where
  calice hodoscope unknown : Kind

-- A turn of the loop: the return of `BuildEvent`, or another turn after at most one written event,
-- which is the list of its sub-events.
pub data Turn (E : Type 0) : Type 0 where
  returned : Collector E → Turn E
  went_on : List (List E) → Collector E → Turn E

-- The events written, the state, and whether `BuildEvent` has returned.
pub record Built (E : Type 0) : Type 0 where
  pub written : List (List E)
  pub after : Collector E
  pub has_returned : Bool

pub data Received (E : Type 0) : Type 0 where
  thrown : Received E
  built : Built E → Received E

module _ {E : Type 0} where
  -- The first connection of the AHCAL forgets which are gone.
  abbrev pub start_afresh : IntMap (List E) → Collector E → Collector E
  start_afresh [] c = record c { disconnected = [] }
  start_afresh (x ∷ m) c = c

  abbrev pub add_queue : Kind → ℕ → Collector E → Collector E
  add_queue calice idx c = record c { ahcal_evts = adjust address idx [] (λ q. []) c.ahcal_evts }
  add_queue hodoscope idx c = record c {
    hodoscope_evts = adjust address idx [] (λ q. []) c.hodoscope_evts;
  }
  add_queue unknown idx c = c

  unfoldable pub do_connect : Kind → ℕ → Collector E → Collector E
  do_connect kind idx c = add_queue kind idx (start_afresh c.ahcal_evts c)

  unfoldable pub do_disconnect : ℕ → Collector E → Collector E
  do_disconnect idx c =
      let gone = adjust address idx tt (λ u. u) c.disconnected in
      if length gone == length c.ahcal_evts + length c.hodoscope_evts
      then record { ahcal_evts = []; hodoscope_evts = []; disconnected = [] }
      else record c { disconnected = gone }

  -- The queue that has the connection's address; none is the exception.
  abbrev pub push_to :
      Option (List E) → Option (List E) → ℕ → E → Collector E → Option (Collector E)
  push_to (some q) of_hodoscope idx ev c =
      some (record c { ahcal_evts = adjust address idx [] (λ q. q ++ ev ∷ []) c.ahcal_evts })
  push_to none (some q) idx ev c =
      some
        (record c { hodoscope_evts = adjust address idx [] (λ q. q ++ ev ∷ []) c.hodoscope_evts })
  push_to none none idx ev c = none

module _ {E : Type 0} (t : Tags E) where
  -- After the loop over the hodoscopes.
  abbrev pub after_fronts : ℕ → ℕ → HodoscopeFronts E → Collector E → Turn E
  after_fronts roc bxid h c =
      let c' = record c { hodoscope_evts = h.evts } in
      let of_ahcal = take_fronts t roc bxid c.ahcal_evts in
      let of_hodoscope = take_fronts t roc bxid h.evts in
      if h.returns
      then returned c'
      else if h.popped
      then went_on [] c'
      else if h.match_found
      then went_on ((of_ahcal.0 ++ of_hodoscope.0) ∷ [])
          (record c { ahcal_evts = of_ahcal.1; hodoscope_evts = of_hodoscope.1 })
      else went_on [] (record c' { ahcal_evts = pop_fronts c.ahcal_evts })

  abbrev pub turn_on : AhcalFronts E → Collector E → Turn E
  turn_on lacks c = returned c
  turn_on (drops m) c = went_on [] (record c { ahcal_evts = m })
  turn_on (fronts roc bxid) c =
      after_fronts roc bxid (hodoscope_fronts t roc bxid c.hodoscope_evts) c

  unfoldable pub turn : Collector E → Turn E
  turn c = turn_on (ahcal_fronts t minus_1 minus_1 c.ahcal_evts) c

  -- The loop, `turns` turns of it.
  unfoldable pub build_event : ℕ → Collector E → Built E
  build_event zero c = record { written = []; after = c; has_returned = false }
  build_event (suc turns) c = elim (turn c) [
    | returned c' ↦ record { written = []; after = c'; has_returned = true }
    | went_on ss c' ↦
        let rest = build_event turns c' in record rest { written = ss ++ rest.written }
  ]

  -- `SetTag("SRC", …)` puts the producer's name on the event, which nothing here asks for.
  unfoldable pub do_receive : ℕ → ℕ → E → Collector E → Received E
  do_receive turns idx ev c =
      elim (push_to (lookup address idx c.ahcal_evts) (lookup address idx c.hodoscope_evts) idx ev
        c) [
          | none ↦ thrown
          | some c' ↦
              if ltb (length c'.ahcal_evts) 1 || ltb (length c'.hodoscope_evts) 2
              then built (record { written = []; after = c'; has_returned = true })
              else built (build_event turns c')
        ]
