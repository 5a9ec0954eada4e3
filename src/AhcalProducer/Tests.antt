-- ===== src/AhcalProducer/Tests.antt =====
-- Tests and witnesses for the sending of events.
use eudaq_ahcal.Base.{List, [], ◌∷◌, ◌≡◌, refl, arith, true, false, none, some}
use eudaq_ahcal.ScReader.State.{Settings, Infodata}
use eudaq_ahcal.ScReader.Samples.{settings, reader}
use eudaq_ahcal.ScReader.Build.{Event}
use eudaq_ahcal.AhcalProducer.{Producer, mark, send_queue, sendallevents}
use eudaq_ahcal.AhcalProducer.Send.{SendsHits, sendallevents-SendsHits}

-- The default of the configuration: one packet at least.
abbrev one_hit : Settings
one_hit = record settings { min_event_hits = 1 }

abbrev plain : List Infodata → Event
plain ps = record {
  tag_roc = some 7;
  tag_roc_start_ts = none;
  tag_roc_stop_ts = none;
  tag_bxid = none;
  tag_dummy = none;
  tag_daq_error_status = none;
  tag_tb_timestamp = none;
  tag_ldats = none;
  tag_trig_bxid_tdc = none;
  tag_raw_lda_trig_id = none;
  flagged = none;
  event_n = none;
  trigger_n = none;
  times = none;
  slowcontrol_block = [];
  led_block = [];
  temperature_block = [];
  cycledata_block = [];
  stopping_block = [];
  hv_adj_block = [];
  packets = ps;
}

-- Three events wait, the first without packets.
abbrev waiting : Producer
waiting = record {
  reader = reader;
  event_no = 0;
  stopped = false;
  bore_sent = false;
  buf_read = [];
  deq_event = plain [] ∷ plain ((1 ∷ []) ∷ []) ∷ plain ((2 ∷ []) ∷ []) ∷ [];
  sent = [];
}

-- The event that is sent has no mark, although it is the first.
sendallevents_one :
    (sendallevents one_hit (λ m. true) 1 waiting).sent
    ≡ record { event = plain ((1 ∷ []) ∷ []); bore = none; eore = false } ∷ []
unfolding sendallevents send_queue mark
sendallevents_one = refl

sendallevents-SendsHits_example :
    SendsHits one_hit 2 waiting.deq_event waiting (sendallevents one_hit (λ m. true) 1 waiting)
sendallevents-SendsHits_example =
    sendallevents-SendsHits one_hit (λ m. true) 1 waiting (λ m. refl) (omega arith)
