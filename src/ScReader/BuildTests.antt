-- ===== src/ScReader/BuildTests.antt =====
-- The builders on two buffered cycles and on three triggers.
use eudaq_ahcal.Base.{ℕ, Option, none, some, List, [], ◌∷◌, ◌≡◌, refl, true}
use eudaq_ahcal.Base.IntMap.{lookup, erase}
use eudaq_ahcal.ScReader.State.{LdaTimeData, Settings, Infodata, Reader}
use eudaq_ahcal.ScReader.Samples.{settings, reader}
use eudaq_ahcal.ScReader.Build.{
  Event, temperatures, prepare_eudaq_raw_packet, insert_dummy_event, insert_dummies, cycledata,
  with_times, set_times, add_times, add_packets, roc_event, build_roc, build_roc_loop,
  build_roc_events,
}
use eudaq_ahcal.ScReader.Build.Roc.{Moves, build_roc_events-Moves}

-- Cycle 7 has two packets and its times, cycle 9 has one packet.
abbrev buffered : Reader
buffered = record reader {
  last_built_event_nr = 5;
  lda_asic_data = (7, (1 ∷ []) ∷ (2 ∷ []) ∷ []) ∷ (9, (3 ∷ []) ∷ []) ∷ [];
  lda_timestamp_data =
      (7, record { ts_start = 100; ts_stop = 200; trigger_ids = []; ts_triggers = [] }) ∷ [];
}

abbrev with_dummies : Settings
with_dummies = record settings { insert_dummy_packets = true }

abbrev dummies : List Event → List (Option ℕ)
dummies [] = []
dummies (ev ∷ queue) = ev.tag_dummy ∷ dummies queue

abbrev all_packets : List Event → List (List Infodata)
all_packets [] = []
all_packets (ev ∷ queue) = ev.packets ∷ all_packets queue

builds_with_dummies :
    let (queue, r) = build_roc_events with_dummies true [] buffered in
    (dummies queue ≡ some 1 ∷ none ∷ some 1 ∷ none ∷ [])
    × (all_packets queue ≡ [] ∷ ((1 ∷ []) ∷ (2 ∷ []) ∷ []) ∷ [] ∷ ((3 ∷ []) ∷ []) ∷ [])
    × (r.lda_timestamp_data ≡ [])
    × (r.last_built_event_nr ≡ 9)
unfolding build_roc_events build_roc_loop build_roc roc_event add_packets add_times set_times
    with_times cycledata insert_dummies insert_dummy_event prepare_eudaq_raw_packet temperatures
    lookup erase
builds_with_dummies = (refl, refl, refl, refl)

build_roc_events-Moves_example :
    let (queue, r) = build_roc_events with_dummies true [] buffered in
    Moves 0 buffered.lda_asic_data [] queue r
build_roc_events-Moves_example = build_roc_events-Moves with_dummies true [] buffered

-- Three triggers of which the second came after the stop.
abbrev times : LdaTimeData
times = record {
  ts_start = 100;
  ts_stop = 200;
  trigger_ids = 7 ∷ 8 ∷ 9 ∷ [];
  ts_triggers = 120 ∷ 300 ∷ 150 ∷ [];
}
