-- ===== src/Bif/Tests.antt =====
-- A run of two readout cycles of which one is missing, and the theorems at such inputs.
use eudaq_ahcal.Base.{
  none, replicate, ℕ, ◌/◌, ◌%◌, take, drop, map, ◌+◌, ◌*◌, ◌^◌, List, [], ◌∷◌, ◌++◌, ◌≡◌, refl,
  arith, true, false, some,
}
use eudaq_ahcal.Base.Words.{minus_one}
use eudaq_ahcal.Bif.State.{roc, timestamp, Settings, Producer}
use eudaq_ahcal.Bif.Events.{
  Packet, trigger_push_back, bxid_of_trigger, plain_event, build_eudaq_events_roc,
  build_eudaq_events_triggers, build_eudaq_events_bxid, built, build_eudaq_events,
}
use eudaq_ahcal.Bif.Events.Cycle.{cycle_words, blocks, numbers, build_eudaq_events_triggers-cycle}
use eudaq_ahcal.Bif.Events.Groups.{crossings, build_eudaq_events_bxid-runs}
use eudaq_ahcal.Bif.Process.{
  cycle_difference, missed_stop, start_cycle, fill_cycles, resynchronise, push_packet, shutter_on,
  stop_cycle, shutter_off, note_trigger_id, internal_trigger, push_inputs, external_trigger,
  trigger_word2, single_word, write_word1, write_word2, put_back, process_queued_bif_data,
}
use eudaq_ahcal.Bif.Process.Chunks.{process_queued_bif_data_chunks}
use eudaq_ahcal.Bif.Process.Numbers.{Continues, next_cycle, tolerated}
use eudaq_ahcal.Bif.Process.Runs.{in_order, stream_in_order, process_queued_bif_data-Continues}
use eudaq_ahcal.Bif.Run.{Fetch, Loop, Round, raw_words, drain, run_rounds, run_loop}
use eudaq_ahcal.Bif.Run.Spins.{idle, spin, drain-spin}
use eudaq_ahcal.Bif.Run.Turn.{empty}
use eudaq_ahcal.Bif.Run.Raw.{Keeps, run_loop-Keeps}
use eudaq_ahcal.Bif.Send.{sendallevents, send_queue, mark_first, mark_last}
use eudaq_ahcal.Bif.Send.Order.{Sends, sendallevents-Sends}

abbrev settings : Settings
settings = record {
  event_building_mode = roc;
  event_numbering_preference = timestamp;
  count_roc_from = 0;
  consecutive_trigger_ignore_period = 0;
  first_bxid_offset_bins = 0;
  bxid_length_bins = 5120;
  timestamp_tb_campaign = 0;
  write_raw = true;
}

-- At the start of a run.
abbrev producer : Producer
producer = record {
  bore_sent = false;
  word1_written_previously = false;
  readout_cycle = minus_one;
  last_trigger_time = 0;
  acq_start_ts = 0;
  acq_stop_ts = 0;
  acq_start_cycle = 0;
  trigger_id = minus_one;
  cycle_data = [];
  roc_started = false;
  triggers_in_cycle = 0;
  first_stutter_cycle = minus_one;
  first_trigger = true;
  first_trigger_number = 0;
  stats = record { run_start_ts = 0; run_stop_ts = 0; on_time = 0; triggers = 0 };
  raw_file = [];
  deq_event = [];
}

abbrev word : ℕ → ℕ → ℕ → ℕ
word type inputs ts = type * 2 ^ 60 + inputs * 2 ^ 48 + ts

-- Shutter cycle 7, with one trigger at input 0, then cycle 9.
abbrev stream : List ℕ
stream = word 3 7 1000 ∷ word 1 0x100 2000 ∷ 5 ∷ word 2 7 3000 ∷ word 3 9 5000 ∷ word 2 9 6000 ∷ []

-- Cycle 8 has no data, and is built with none.
missing_cycle :
    let p = (process_queued_bif_data settings stream producer).0 in
    (numbers p.deq_event ≡ 0 ∷ 1 ∷ 2 ∷ [])
    × (p.first_trigger_number ≡ 5)
    × (p.stats.on_time ≡ 3000)
    × (p.raw_file ≡ stream)
unfolding process_queued_bif_data single_word shutter_on shutter_off missed_stop start_cycle
    fill_cycles resynchronise push_packet stop_cycle note_trigger_id internal_trigger push_inputs
    external_trigger trigger_word2 write_word1 write_word2 put_back cycle_difference
    trigger_push_back build_eudaq_events built build_eudaq_events_roc plain_event
missing_cycle = (refl, refl, refl, refl)

process_queued_bif_data_chunks_example :
    let (p', left) = process_queued_bif_data settings (word 1 0x100 2000 ∷ []) producer in
    process_queued_bif_data settings (left ++ 5 ∷ []) p'
    ≡ process_queued_bif_data settings (word 1 0x100 2000 ∷ 5 ∷ []) producer
process_queued_bif_data_chunks_example =
    process_queued_bif_data_chunks settings (word 1 0x100 2000 ∷ []) (5 ∷ []) producer

process_queued_bif_data-Continues_example :
    let p' = (process_queued_bif_data settings stream producer).0 in
    Continues 0 producer p' (next_cycle p')
unfolding stream_in_order in_order tolerated process_queued_bif_data single_word shutter_on
    shutter_off missed_stop start_cycle fill_cycles resynchronise push_packet stop_cycle
    note_trigger_id internal_trigger push_inputs external_trigger trigger_word2 write_word1
    write_word2 put_back cycle_difference trigger_push_back build_eudaq_events built
    build_eudaq_events_roc plain_event
process_queued_bif_data-Continues_example =
    process_queued_bif_data-Continues settings stream producer refl (omega arith) refl

abbrev packet : ℕ → ℕ → ℕ → Packet
packet kind number ts = record {
  type_word = kind * 2 ^ 24;
  event_cnt = number;
  ts_low = ts;
  ts_high = 0;
}

-- A cycle of two triggers, or one, in the producer's data.
abbrev with_cycle : List Packet → Producer
with_cycle qs = record producer {
  acq_start_ts = 10;
  cycle_data = cycle_words (packet 3 0 320) qs (packet 2 0 90000);
}

build_eudaq_events_triggers-cycle_example :
    let p = with_cycle (packet 1 5 6000 ∷ packet 1 6 7000 ∷ []) in
    (blocks (build_eudaq_events_triggers settings p)
      ≡ (3 * 2 ^ 24 ∷ 0 ∷ 320 ∷ 0 ∷ 2 ^ 24 ∷ 5 ∷ 6000 ∷ 0 ∷ 2 * 2 ^ 24 ∷ 0 ∷ 90000 ∷ 0 ∷ [])
        ∷ (3 * 2 ^ 24 ∷ 0 ∷ 320 ∷ 0 ∷ 2 ^ 24 ∷ 6 ∷ 7000 ∷ 0 ∷ 2 * 2 ^ 24 ∷ 0 ∷ 90000 ∷ 0 ∷ [])
        ∷ [])
    × (numbers (build_eudaq_events_triggers settings p) ≡ 5 ∷ 6 ∷ [])
build_eudaq_events_triggers-cycle_example =
    build_eudaq_events_triggers-cycle settings (with_cycle (packet 1 5 6000 ∷ packet 1 6 7000 ∷ []))
      (packet 3 0 320) (packet 2 0 90000) (packet 1 5 6000 ∷ packet 1 6 7000 ∷ []) refl refl refl
      (refl, (refl, tt))

build_eudaq_events_bxid-runs_example :
    crossings (
      build_eudaq_events_bxid settings
        (with_cycle (packet 1 5 6000 ∷ packet 1 6 7000 ∷ packet 1 7 12000 ∷ [])))
    ≡ some 1 ∷ some 2 ∷ []
unfolding bxid_of_trigger
build_eudaq_events_bxid-runs_example =
    build_eudaq_events_bxid-runs settings
      (with_cycle (packet 1 5 6000 ∷ packet 1 6 7000 ∷ packet 1 7 12000 ∷ [])) (packet 3 0 320)
      (packet 2 0 90000) (packet 1 5 6000 ∷ packet 1 6 7000 ∷ packet 1 7 12000 ∷ []) refl refl refl
      (refl, (refl, (refl, tt))) (omega arith)

-- Three queued events, of which one is to stay.
abbrev queue : Producer
queue =
    let e = plain_event settings producer 0 0 in
    record producer { deq_event = e 0 [] ∷ e 1 [] ∷ e 2 [] ∷ [] }

sendallevents-Sends_example :
    let (sent, p') = sendallevents 1 queue in Sends 1 queue.deq_event true sent p'.deq_event
unfolding plain_event
sendallevents-Sends_example = sendallevents-Sends 1 queue (refl, (refl, (refl, tt)))

-- The word_halves of 64-bit words, as the FIFO gives them.
abbrev word_halves : List ℕ → List ℕ
word_halves [] = []
word_halves (w ∷ ws) = (w / 2 ^ 32) ∷ (w % 2 ^ 32) ∷ word_halves ws

raw_words_of_halves : raw_words (word_halves stream) ≡ stream
unfolding raw_words
raw_words_of_halves = refl

abbrev at_start : Loop
at_start = record { producer = producer; buffer = []; sent = [] }

-- The first fetch ends in the middle of the trigger's packet; the third one finds nothing.
abbrev fetches : List Fetch
fetches =
    record { mem = some (word_halves (take 2 stream)); stopped = false }
    ∷ record { mem = some (word_halves (drop 2 stream)); stopped = true }
    ∷ record { mem = some []; stopped = true }
    ∷ []

abbrev stopping : Round
stopping = record { started = true; just_stopped = true; waiting = false }

-- All words are in the file once, all cycles are sent, and the last event has the mark of the end.
whole_run :
    let (s, rest) = run_loop settings (stopping ∷ []) fetches at_start in
    (s.producer.raw_file ≡ stream)
    × (numbers s.sent ≡ 0 ∷ 1 ∷ 2 ∷ [])
    × (map (λ e. e.eore) s.sent ≡ false ∷ false ∷ true ∷ [])
    × (map (λ e. e.bore) s.sent ≡ true ∷ false ∷ false ∷ [])
    × (rest ≡ [])
unfolding process_queued_bif_data single_word shutter_on shutter_off missed_stop start_cycle
    fill_cycles resynchronise push_packet stop_cycle note_trigger_id internal_trigger push_inputs
    external_trigger trigger_word2 write_word1 write_word2 put_back cycle_difference
    trigger_push_back build_eudaq_events built build_eudaq_events_roc plain_event sendallevents
    send_queue mark_first mark_last drain run_rounds raw_words
whole_run = (refl, refl, refl, refl, refl)

-- A trigger's first word alone, at the end of a run.
abbrev lone : List Fetch
lone =
    record { mem = some (word_halves (take 2 stream)); stopped = true }
    ∷ record { mem = none; stopped = true }
    ∷ []

run_loop-Keeps_example : Keeps (at_start, lone) (run_loop settings (stopping ∷ []) lone at_start)
run_loop-Keeps_example =
    run_loop-Keeps settings (stopping ∷ []) lone at_start refl (empty producer refl)

abbrev half_left : Loop
half_left = record { producer = producer; buffer = word 1 0x100 2000 ∷ []; sent = [] }

drain-spin_example :
    (drain settings (replicate 3 idle ++ []) half_left
      ≡ drain settings [] (spin settings 3 half_left))
    × ((spin settings 3 half_left).buffer ≡ word 1 0x100 2000 ∷ [])
drain-spin_example = drain-spin settings (word 1 0x100 2000) 3 [] half_left refl refl
