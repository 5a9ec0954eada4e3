-- ===== src/ScReader/CrossingTests.antt =====
-- The builders by bunch crossing on one readout cycle, and the witnesses of their theorems.
use eudaq_ahcal.Base.{List, [], ◌∷◌, ◌≡◌, refl, arith, true, some}
use eudaq_ahcal.Base.IntMap.{lookup, adjust, erase}
use eudaq_ahcal.ScReader.State.{LdaTimeData, Settings, Infodata, Reader}
use eudaq_ahcal.ScReader.Samples.{settings, reader}
use eudaq_ahcal.ScReader.Build.{temperatures, prepare_eudaq_raw_packet, add_packets}
use eudaq_ahcal.ScReader.Crossings.{add_crossing, set_crossing_times}
use eudaq_ahcal.ScReader.BuildBxid.{build_bxid}
use eudaq_ahcal.ScReader.BuildBxid.Sends.{sent_at, build_bxid-sent}
use eudaq_ahcal.ScReader.BuildValidated.{
  all_crossings, insert_trigger, trigger_crossing, trigger_bxids, cycle_triggers_of,
  insert_missed_trigger, insert_missed_triggers, insert_empty_event, kick_out, same_crossing,
}
use eudaq_ahcal.ScReader.BuildValidated.Cycle.{
  matched_event, fill_missed, handle_match, handle_trigger, for_triggers, process_cycle,
}
use eudaq_ahcal.ScReader.BuildValidated.Crossed.{seen, KeepsAll}
use eudaq_ahcal.ScReader.BuildValidated.Matched.{process_cycle-seen}
use eudaq_ahcal.ScReader.BuildValidated.Repeats.{numbers}
use eudaq_ahcal.ScReader.BuildEvents.{Leaves, build_events, build_events-Leaves}

-- Packets of the crossings 3 and 5.
abbrev cells : List Infodata
cells = (7 ∷ 3 ∷ 100 ∷ []) ∷ (7 ∷ 5 ∷ 101 ∷ []) ∷ (7 ∷ 3 ∷ 102 ∷ []) ∷ []

-- Trigger 20 in crossing 9, triggers 21 and 22 in crossing 3.
abbrev times : LdaTimeData
times = record {
  ts_start = 1000;
  ts_stop = 90000;
  trigger_ids = 20 ∷ 21 ∷ 22 ∷ [];
  ts_triggers = 4560 ∷ 3600 ∷ 3610 ∷ [];
}

abbrev with_dummies : Settings
with_dummies = record settings { insert_dummy_packets = true; lda_trigid_offset = 1 }

abbrev ready : Reader
ready = record reader {
  last_built_event_nr = 21;
  lda_asic_data = (7, cells) ∷ [];
  lda_timestamp_data = (7, times) ∷ [];
}

abbrev crossing_three : List Infodata
crossing_three = (7 ∷ 3 ∷ 100 ∷ []) ∷ (7 ∷ 3 ∷ 102 ∷ []) ∷ []

abbrev with_dummies-KeepsAll : KeepsAll with_dummies
with_dummies-KeepsAll = record { with_dummies = refl; no_minimum = refl }

process_cycle-seen_example :
    seen (process_cycle with_dummies 7 times 7 cells [] ([], ready)).0
    ≡ (some 3, some (22, true), crossing_three)
      ∷ (some 3, some (23, true), crossing_three)
      ∷ (some 9, some (20, true), [])
      ∷ []
unfolding cycle_triggers_of trigger_bxids trigger_crossing insert_trigger add_packets
process_cycle-seen_example =
    process_cycle-seen with_dummies 7 times 7 cells [] [] ready with_dummies-KeepsAll
      (omega arith, (omega arith, (omega arith, tt)))

-- The dummy with number 22, already that of an event, is in the queue.
process_cycle_numbers :
    numbers (process_cycle with_dummies 7 times 7 cells [] ([], ready)).0
    ≡ (some (22, true), some 0)
      ∷ (some (22, true), some 1)
      ∷ (some (23, true), some 0)
      ∷ (some (20, true), some 0)
      ∷ []
unfolding process_cycle for_triggers cycle_triggers_of trigger_bxids trigger_crossing insert_trigger
    all_crossings add_crossing adjust lookup erase kick_out same_crossing handle_trigger
    handle_match matched_event fill_missed insert_missed_triggers insert_missed_trigger
    insert_empty_event prepare_eudaq_raw_packet set_crossing_times temperatures
process_cycle_numbers = refl

build_bxid-sent_example : sent_at 3 (build_bxid settings 7 cells ([], ready)).0 ≡ crossing_three
unfolding add_packets lookup
build_bxid-sent_example =
    build_bxid-sent settings 7 3 cells [] ready (omega arith, (omega arith, (omega arith, tt)))

build_events-Leaves_example : Leaves 0 (build_events settings true [] ready)
build_events-Leaves_example = build_events-Leaves settings true [] ready refl (refl, tt)
