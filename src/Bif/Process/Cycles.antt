-- ===== src/Bif/Process/Cycles.antt =====
-- The readout cycle is counted along with the shutter's 12-bit counter, and events number the cycles.
use eudaq_ahcal.Base.{ℕ, zero, suc, ◌%◌, ◌^◌, ◌≡◌, refl, ◌∙◌, arith, true, if◌then◌else◌}
use eudaq_ahcal.Base.Words.{add32, sub32}
use eudaq_ahcal.Bif.State.{Settings, Producer}
use eudaq_ahcal.Bif.Events.{build_eudaq_events}
use eudaq_ahcal.Bif.Process.{
  cycle_difference, missed_stop, start_cycle, fill_cycles, resynchronise, push_packet, shutter_on,
}

fill_cycles_lem :
    (c : Settings) (n : ℕ) (p : Producer)
    → ((fill_cycles c n p).readout_cycle % 2 ^ 32 ≡ add32 p.readout_cycle n)
      × ((fill_cycles c n p).first_stutter_cycle ≡ p.first_stutter_cycle)
      × ((fill_cycles c n p).acq_start_cycle ≡ p.acq_start_cycle)
      × ((fill_cycles c n p).acq_start_ts ≡ p.acq_start_ts)
      × ((fill_cycles c n p).roc_started ≡ p.roc_started)
unfolding fill_cycles build_eudaq_events
fill_cycles_lem c zero p = (omega arith, refl, refl, refl, refl)
fill_cycles_lem c (suc n) p =
    let q = record (build_eudaq_events c p) { readout_cycle = add32 p.readout_cycle 1 } in
    let r = fill_cycles_lem c n q in (omega (arith, r.0), r.1, r.2, r.3, r.4)

start_cycle_lem :
    (ts inputs : ℕ) (p : Producer)
    → let p' = start_cycle ts inputs p in
      (p'.roc_started ≡ true) × (p'.acq_start_ts ≡ ts) × (p'.acq_start_cycle ≡ inputs)
unfolding start_cycle
start_cycle_lem ts inputs p = ground arith

resynchronise_lem :
    (c : Settings) (inputs : ℕ) (p : Producer)
    → (resynchronise c inputs p).readout_cycle % 2 ^ 12
      ≡ sub32 inputs (resynchronise c inputs p).first_stutter_cycle % 2 ^ 12
unfolding resynchronise cycle_difference
resynchronise_lem c inputs p =
    let d =
      sub32 (sub32 inputs p.first_stutter_cycle % 2 ^ 12) (p.readout_cycle % 2 ^ 12) % 2 ^ 12 in
    let f = fill_cycles_lem c d p in rw f.1 (omega (arith, f.0))

resynchronise_same :
    (c : Settings) (inputs : ℕ) (p : Producer)
    → ((resynchronise c inputs p).roc_started ≡ p.roc_started)
      × ((resynchronise c inputs p).acq_start_ts ≡ p.acq_start_ts)
      × ((resynchronise c inputs p).acq_start_cycle ≡ p.acq_start_cycle)
unfolding resynchronise
resynchronise_same c inputs p =
    let f = fill_cycles_lem c (cycle_difference inputs p.readout_cycle p) p in (f.4, f.3, f.2)

-- After a shutter-on word the readout cycle agrees, modulo 2 ^ 12, with the received counter, counted
-- from the first one of the run, whatever was lost before and in whatever state the producer was; the
-- acquisition is open, with the time and the counter of the word.
pub shutter_on_in_step :
    (c : Settings) (ts inputs : ℕ) (p : Producer)
    → let p' = shutter_on c ts inputs p in
      (p'.readout_cycle % 2 ^ 12 ≡ sub32 inputs p'.first_stutter_cycle % 2 ^ 12)
      × (p'.roc_started ≡ true)
      × (p'.acq_start_ts ≡ ts)
      × (p'.acq_start_cycle ≡ inputs)
unfolding shutter_on push_packet
shutter_on_in_step c ts inputs p =
    let before = if p.roc_started then missed_stop c inputs p else p in
    let q = start_cycle ts inputs before in
    let s = start_cycle_lem ts inputs before in
    let k = resynchronise_same c inputs q in
    (resynchronise_lem c inputs q, k.0 ∙ s.0, k.1 ∙ s.1, k.2 ∙ s.2)
