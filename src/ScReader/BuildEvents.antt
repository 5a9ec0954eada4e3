-- ===== src/ScReader/BuildEvents.antt =====
-- `ScReader::buildEvents`: the builder of the configured mode, for all cycles or all but those to keep.
use eudaq_ahcal.Base.{
  ℕ, ◌≤◌, List, [], ◌∷◌, ◌≡◌, refl, arith, Bool, false, Option, some, ltb, if◌then◌else◌, length,
  Bool-cases, inl, inr,
}
use eudaq_ahcal.Base.IntMap.{IntMap, lookup}
use eudaq_ahcal.Base.Words.{int_rank}
use eudaq_ahcal.ScReader.State.{
  EventBuildingMode, roc, triggerid, build_bxid_all, build_bxid_validated, Settings, Infodata,
  Reader,
}
use eudaq_ahcal.ScReader.Build.{Event, build_roc_events}
use eudaq_ahcal.ScReader.Build.Roc.{build_roc_events-Moves}
use eudaq_ahcal.ScReader.BuildTrigid.{build_trigid, build_trigid_loop, build_trigid_events}
use eudaq_ahcal.ScReader.BuildBxid.{build_bxid, build_bxid_loop, build_bxid_events}
use eudaq_ahcal.ScReader.BuildValidated.Cycle.{build_validated_bxid_events}
use eudaq_ahcal.ScReader.BuildValidated.Ends.{AreCycles, build_validated_bxid_events-Ends}

-- None stands for a builder that does not return.
unfoldable pub build_in_mode :
    EventBuildingMode → Settings → Bool → List Event → Reader → Option (List Event × Reader)
build_in_mode roc c dump_all queue r = some (build_roc_events c dump_all queue r)
build_in_mode triggerid c dump_all queue r = some (build_trigid_events c dump_all queue r)
build_in_mode build_bxid_all c dump_all queue r = some (build_bxid_events c dump_all queue r)
build_in_mode build_bxid_validated c dump_all queue r =
    build_validated_bxid_events c dump_all queue r

unfoldable pub build_events : Settings → Bool → List Event → Reader → Option (List Event × Reader)
build_events c dump_all queue r =
    if c.debug_keep_buffered then some (queue, r) else build_in_mode c.event_mode c dump_all queue r

build_trigid_loop_left :
    (c : Settings) (kept : ℕ) (m : IntMap (List Infodata)) (queue : List Event) (r : Reader)
    → length (build_trigid_loop c kept m (queue, r)).1.lda_asic_data ≤ kept
unfolding build_trigid_loop
build_trigid_loop_left c kept [] queue r = omega arith
build_trigid_loop_left c kept ((i, cells) ∷ m) queue r =
    elim (Bool-cases (ltb kept (length ((i, cells) ∷ m)))) [
      | inl more ↦
          let (q, r') =
            build_trigid c i cells (lookup int_rank i r.lda_timestamp_data) (queue, r) in
          rw more (build_trigid_loop_left c kept m q r')
      | inr enough ↦ rw enough (ground (arith, enough))
    ]

build_bxid_loop_left :
    (c : Settings) (kept : ℕ) (m : IntMap (List Infodata)) (queue : List Event) (r : Reader)
    → length (build_bxid_loop c kept m (queue, r)).1.lda_asic_data ≤ kept
unfolding build_bxid_loop
build_bxid_loop_left c kept [] queue r = omega arith
build_bxid_loop_left c kept ((i, cells) ∷ m) queue r =
    elim (Bool-cases (ltb kept (length ((i, cells) ∷ m)))) [
      | inl more ↦
          let (q, r') = build_bxid c i cells (queue, r) in
          rw more (build_bxid_loop_left c kept m q r')
      | inr enough ↦ rw enough (ground (arith, enough))
    ]

-- The builder returns, and leaves at most `kept` cycles of packets.
abbrev pub Leaves : ℕ → Option (List Event × Reader) → Type 0
Leaves kept o = (st : List Event × Reader) × (o ≡ some st) × (length st.1.lda_asic_data ≤ kept)

build_in_mode-Leaves :
    (mode : EventBuildingMode) (c : Settings) (dump_all : Bool) (queue : List Event) (r : Reader)
    → AreCycles r.lda_asic_data
    → Leaves (if dump_all then 0 else c.keep_buffered) (build_in_mode mode c dump_all queue r)
unfolding build_in_mode build_trigid_events build_bxid_events
build_in_mode-Leaves roc c dump_all queue r h =
    let kept = if dump_all then 0 else c.keep_buffered in
    (
      build_roc_events c dump_all queue r,
      refl,
      at_most kept _ _ (build_roc_events-Moves c dump_all queue r).left,
    )
  where
    at_most : (kept n l : ℕ) → l ≡ (if ltb kept n then kept else n) → l ≤ kept
    at_most kept n l e = ground (arith, e)
build_in_mode-Leaves triggerid c dump_all queue r h = (
  build_trigid_events c dump_all queue r,
  refl,
  build_trigid_loop_left c _ r.lda_asic_data queue r,
)
build_in_mode-Leaves build_bxid_all c dump_all queue r h =
    (build_bxid_events c dump_all queue r, refl, build_bxid_loop_left c _ r.lda_asic_data queue r)
build_in_mode-Leaves build_bxid_validated c dump_all queue r h =
    build_validated_bxid_events-Ends c dump_all queue r h

-- In every mode, with readout cycles below 2 ^ 31 - 1 in the map of packets and no buffering for debugging,
-- `buildEvents` returns, and leaves at most as many cycles in the map as are to be kept, none when all are
-- dumped.
pub build_events-Leaves :
    (c : Settings) (dump_all : Bool) (queue : List Event) (r : Reader)
    → c.debug_keep_buffered ≡ false
    → AreCycles r.lda_asic_data
    → Leaves (if dump_all then 0 else c.keep_buffered) (build_events c dump_all queue r)
unfolding build_events
build_events-Leaves c dump_all queue r off h =
    simp (off) (build_in_mode-Leaves c.event_mode c dump_all queue r h)
