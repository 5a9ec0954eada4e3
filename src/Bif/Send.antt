-- ===== src/Bif/Send.antt =====
-- `sendallevents`, and the state in which a run starts. The tags that name the firmware and the board are
-- read from the hardware and left out.
pub mod Order
use eudaq_ahcal.Base.{
  ℕ, suc, ◌+◌, ◌-◌, ◌*◌, ◌%◌, ◌^◌, List, [], ◌∷◌, ◌++◌, ◌≡◌, ◌≤◌, refl, arith, Bool, true, false,
  not, ◌&&◌, some, ltb, ◌==◌, if◌then◌else◌, length, drop, Bool-cases, inl, inr,
}
use eudaq_ahcal.Base.Words.{minus_one}
use eudaq_ahcal.Bif.State.{Event, Stats, Producer, shift5}

-- The marks on the first event of a run and on its last one.
unfoldable pub mark_first : Producer → Event → Event
mark_first p e =
    if p.bore_sent
    then e
    else record e { bore = true; tag_first_roc_start_ts = some (shift5 p.stats.run_start_ts) }

unfoldable pub mark_last : ℕ → ℕ → Producer → Event → Event
mark_last minimumsize size p e =
    if minimumsize == 0 && size == 1
    then record e {
      eore = true;
      tag_run_first_roc = some p.first_stutter_cycle;
      tag_run_first_trigger_number = some p.first_trigger_number;
    }
    else e

-- The loop of `sendallevents` over the queue: the events that are sent, and the producer with the rest.
unfoldable pub send_queue : ℕ → List Event → Producer → List Event × Producer
send_queue minimumsize [] p = ([], record p { deq_event = [] })
send_queue minimumsize (e ∷ es) p =
    let (sent, p') = send_queue minimumsize es (record p { bore_sent = true }) in
    if ltb minimumsize (length (e ∷ es))
    then (mark_last minimumsize (length (e ∷ es)) p (mark_first p e) ∷ sent, p')
    else ([], record p { deq_event = e ∷ es })

unfoldable pub sendallevents : ℕ → Producer → List Event × Producer
sendallevents minimumsize p = send_queue minimumsize p.deq_event p

-- `DoStartRun`, as far as the state goes; what it does not name stays from the run before.
unfoldable pub do_start_run : Producer → Producer
do_start_run p = record p {
  deq_event = [];
  readout_cycle = minus_one;
  stats = record { run_start_ts = 0; run_stop_ts = 0; on_time = 0; triggers = 0 };
  bore_sent = false;
  first_trigger_number = 0;
}
