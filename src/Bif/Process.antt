-- ===== src/Bif/Process.antt =====
-- `ProcessQueuedBifData`: the words that the BIF delivers.
pub mod Chunks
pub mod Cycles
pub mod Numbers
pub mod Runs
use eudaq_ahcal.Base.{
  ℕ, zero, suc, ◌+◌, ◌-◌, ◌*◌, ◌/◌, ◌%◌, ◌^◌, List, [], ◌∷◌, ◌++◌, Bool, true, false, not, ◌&&◌,
  ◌||◌, some, ltb, leb, ◌==◌, if◌then◌else◌, length,
}
use eudaq_ahcal.Base.Words.{add32, sub32, add64, sub64, minus_one}
use eudaq_ahcal.Bif.State.{Settings, Event, Stats, Producer, shift5}
use eudaq_ahcal.Bif.Events.{trigger_push_back, build_eudaq_events}

-- The fields of a packet's first word.
abbrev pub evttype : ℕ → ℕ
evttype word1 = word1 / 2 ^ 60

abbrev pub timestamp_of : ℕ → ℕ
timestamp_of word1 = word1 % 2 ^ 48

abbrev pub inputs_of : ℕ → ℕ
inputs_of word1 = word1 / 2 ^ 48 % 2 ^ 12

-- The fields of the second one.
abbrev pub evt_number_of : ℕ → ℕ
evt_number_of word2 = word2 % 2 ^ 32

abbrev pub fine_stamp : ℕ → ℕ → ℕ
fine_stamp word2 input = (word2 / 2 ^ (56 - 8 * input) + 0x18) % 2 ^ 5

-- How far, modulo 2 ^ 12, the arrived shutter cycle is ahead of an expected one.
unfoldable pub cycle_difference : ℕ → ℕ → Producer → ℕ
cycle_difference inputs expected p =
    sub32 (sub32 inputs p.first_stutter_cycle % 2 ^ 12) (expected % 2 ^ 12) % 2 ^ 12

-- A start without the stop before it: events are built of what there is, if the cycle number goes on
-- or jumps by up to 500, and a cycle that comes again is counted once.
unfoldable pub missed_stop : Settings → ℕ → Producer → Producer
missed_stop c inputs p =
    let difference = cycle_difference inputs (add32 p.readout_cycle 1) p in
    if leb difference 500
    then build_eudaq_events c p
    else if difference == 0xfff
    then record p { readout_cycle = sub32 p.readout_cycle 1 }
    else p

unfoldable pub start_cycle : ℕ → ℕ → Producer → Producer
start_cycle ts inputs p =
    let started = record p {
      roc_started = true;
      triggers_in_cycle = 0;
      acq_start_ts = ts;
      acq_start_cycle = inputs;
    } in
    if p.readout_cycle == minus_one
    then record started {
      first_trigger = true;
      first_stutter_cycle = inputs;
      stats = record s { run_start_ts = ts };
      readout_cycle = 0;
    }
    else record started { readout_cycle = add32 p.readout_cycle 1 }
  where
    open p use {stats as s}

-- The loop `while (difference)`.
unfoldable pub fill_cycles : Settings → ℕ → Producer → Producer
fill_cycles c zero p = p
fill_cycles c (suc difference) p =
    let q = build_eudaq_events c p in
    fill_cycles c difference (record q { readout_cycle = add32 q.readout_cycle 1 })

unfoldable pub resynchronise : Settings → ℕ → Producer → Producer
resynchronise c inputs p = fill_cycles c (cycle_difference inputs p.readout_cycle p) p

unfoldable pub push_packet : ℕ → ℕ → ℕ → Producer → Producer
push_packet type_word number ts p = record p {
  cycle_data = trigger_push_back p.cycle_data type_word number ts;
}

unfoldable pub shutter_on : Settings → ℕ → ℕ → Producer → Producer
shutter_on c ts inputs p =
    let before = if p.roc_started then missed_stop c inputs p else p in
    let q = resynchronise c inputs (start_cycle ts inputs before) in
    push_packet 0x03000000 q.readout_cycle (shift5 q.acq_start_ts) q

unfoldable pub stop_cycle : ℕ → Producer → Producer
stop_cycle ts p = record p {
  roc_started = false;
  acq_stop_ts = ts;
  stats = record s {
    triggers = add32 s.triggers p.triggers_in_cycle;
    run_stop_ts = ts;
    on_time = add64 s.on_time (
        if ltb ts p.acq_start_ts
        then sub64 0 (sub64 ts p.acq_start_ts)
        else sub64 ts p.acq_start_ts);
  };
}
  where
    open p use {stats as s}

unfoldable pub shutter_off : Settings → ℕ → Producer → Producer
shutter_off c ts p =
    build_eudaq_events c (push_packet 0x02000000 p.readout_cycle (shift5 ts) (stop_cycle ts p))

unfoldable pub note_trigger_id : ℕ → Producer → Producer
note_trigger_id number p =
    let next = record p { trigger_id = add32 p.trigger_id 1 } in
    if number == next.trigger_id
    then next
    else if p.first_trigger
    then record p { trigger_id = number; first_trigger = false; first_trigger_number = number }
    else record p { trigger_id = number }

unfoldable pub internal_trigger : ℕ → ℕ → Producer → Producer
internal_trigger ts word2 p =
    push_packet 0x01000000 (evt_number_of word2) ((shift5 ts + fine_stamp word2 0) % 2 ^ 32)
      (record p { triggers_in_cycle = add32 p.triggers_in_cycle 1 })

-- A trigger packet for each input of the mask, from 3 down to 0.
unfoldable pub push_inputs : ℕ → ℕ → ℕ → ℕ → Producer → Producer
push_inputs zero ts mask word2 p = p
push_inputs (suc input) ts mask word2 p = push_inputs input ts mask word2 (
    if mask / 2 ^ 8 / 2 ^ input % 2 == 1
    then push_packet (0x01000000 + input * 2 ^ 16) (evt_number_of word2)
        (shift5 ts + fine_stamp word2 input) p
    else p)

-- A trigger too soon after the last one is left out.
unfoldable pub external_trigger : Settings → ℕ → ℕ → ℕ → Producer → Producer
external_trigger c ts inputs word2 p =
    if ltb c.consecutive_trigger_ignore_period (sub64 (shift5 ts) p.last_trigger_time)
    then push_inputs 4 ts inputs word2 (record p {
      triggers_in_cycle = add32 p.triggers_in_cycle 1;
      last_trigger_time = shift5 ts;
    })
    else p

unfoldable pub trigger_word2 : Settings → ℕ → ℕ → Producer → Producer
trigger_word2 c word1 word2 p =
    let noted = note_trigger_id (evt_number_of word2) p in
    if evttype word1 == 0
    then internal_trigger (timestamp_of word1) word2 noted
    else if evttype word1 == 1
    then external_trigger c (timestamp_of word1) (inputs_of word1) word2 noted
    else noted

-- The types 2 to 7 need no second word; 4 to 7 are only reported.
abbrev pub is_single : ℕ → Bool
is_single word1 = leb 2 (evttype word1) && leb (evttype word1) 7

unfoldable pub single_word : Settings → ℕ → Producer → Producer
single_word c word1 p =
    if evttype word1 == 3
    then shutter_on c (timestamp_of word1) (inputs_of word1) p
    else if evttype word1 == 2
    then shutter_off c (timestamp_of word1) p
    else p

unfoldable pub write_word1 : Settings → ℕ → Producer → Producer
write_word1 c word1 p = record p {
  raw_file =
      if c.write_raw && not p.word1_written_previously
      then p.raw_file ++ word1 ∷ []
      else p.raw_file;
  word1_written_previously = false;
}

unfoldable pub write_word2 : Settings → ℕ → Producer → Producer
write_word2 c word2 p = record p {
  raw_file = if c.write_raw then p.raw_file ++ word2 ∷ [] else p.raw_file;
}

-- A first word at the end of the buffer: it is in the raw file, and will be read again.
unfoldable pub put_back : Settings → ℕ → Producer → Producer
put_back c word1 p = record (write_word1 c word1 p) { word1_written_previously = true }

-- The words of the local buffer, and what is put back: a first word whose second one is not there yet.
unfoldable pub process_queued_bif_data : Settings → List ℕ → Producer → Producer × List ℕ
process_queued_bif_data c [] p = (p, [])
process_queued_bif_data c (word1 ∷ []) p =
    if is_single word1
    then (write_word1 c word1 (single_word c word1 p), [])
    else (put_back c word1 p, word1 ∷ [])
process_queued_bif_data c (word1 ∷ word2 ∷ words) p =
    let single =
      process_queued_bif_data c (word2 ∷ words) (write_word1 c word1 (single_word c word1 p)) in
    let double =
      process_queued_bif_data c words
        (write_word2 c word2 (trigger_word2 c word1 word2 (write_word1 c word1 p))) in
    if is_single word1 then single else double
