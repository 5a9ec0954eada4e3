-- ===== src/Bif/Events.antt =====
-- `buildEudaqEvents` in its three modes, over the data of one cycle.
pub mod Cycle
pub mod Groups
use eudaq_ahcal.Base.{
  ℕ, zero, suc, ◌+◌, ◌-◌, ◌*◌, ◌/◌, ◌%◌, ◌^◌, List, [], ◌∷◌, ◌++◌, Bool, true, false, not, ◌&&◌,
  Option, none, some, ltb, ◌==◌, if◌then◌else◌, length,
}
use eudaq_ahcal.Base.Words.{sdiv64, add32, sub32, add64, sub64}
use eudaq_ahcal.Bif.State.{
  EventBuildingMode, roc, triggers, bxid, EventNumbering, triggernumber, timestamp, Settings, Event,
  Producer, shift5,
}

unfoldable pub trigger_push_back : List ℕ → ℕ → ℕ → ℕ → List ℕ
trigger_push_back cycle_data type_word evt_number ts =
    cycle_data ++ type_word ∷ evt_number ∷ ts % 2 ^ 32 ∷ ts / 2 ^ 32 % 2 ^ 32 ∷ []

-- Four words of the cycle data.
pub record Packet : Type 0 where
  pub type_word : ℕ
  pub event_cnt : ℕ
  pub ts_low : ℕ
  pub ts_high : ℕ

abbrev pub packet_words : Packet → List ℕ
packet_words q = q.type_word ∷ q.event_cnt ∷ q.ts_low ∷ q.ts_high ∷ []

-- The three vectors that the loop over the cycle data fills.
pub record Extracted : Type 0 where
  pub start_packet : List ℕ
  pub stop_packet : List ℕ
  pub trigger_packets : List Packet

abbrev pub nothing_extracted : Extracted
nothing_extracted = record { start_packet = []; stop_packet = []; trigger_packets = [] }

-- `type & 0xFF000000`, as the number of its highest byte.
abbrev pub packet_kind : Packet → ℕ
packet_kind q = q.type_word / 2 ^ 24 % 2 ^ 8

unfoldable pub extract_one : Packet → Extracted → Extracted
extract_one q e =
    if packet_kind q == 3
    then record e { start_packet = packet_words q }
    else if packet_kind q == 2
    then record e { stop_packet = packet_words q }
    else if packet_kind q == 1
    then record e { trigger_packets = e.trigger_packets ++ q ∷ [] }
    else e

unfoldable pub extract : List ℕ → Extracted → Extracted
extract (t ∷ n ∷ l ∷ h ∷ rest) e =
    extract rest (extract_one (record { type_word = t; event_cnt = n; ts_low = l; ts_high = h }) e)
extract _ e = e

abbrev pub trig_ts : Packet → ℕ
trig_ts q = (q.ts_low + q.ts_high * 2 ^ 32) % 2 ^ 64

-- The crossing of the detector in which the trigger came.
unfoldable pub bxid_of_trigger : Settings → Producer → Packet → ℕ
bxid_of_trigger c p q =
    sdiv64 (sub64 (sub64 (trig_ts q) (shift5 p.acq_start_ts)) c.first_bxid_offset_bins)
      c.bxid_length_bins
    % 2 ^ 32

abbrev pub prefers_timestamp : EventNumbering → Bool
prefers_timestamp timestamp = true
prefers_timestamp triggernumber = false

-- What is set on an event in every mode.
unfoldable pub plain_event : Settings → Producer → ℕ → ℕ → ℕ → List ℕ → Event
plain_event c p from to number words = record {
  flag_timestamp = prefers_timestamp c.event_numbering_preference;
  flag_trigger = not (prefers_timestamp c.event_numbering_preference);
  timestamp_begin = from;
  timestamp_end = to;
  trigger_n = number;
  tag_roc = add32 p.readout_cycle c.count_roc_from;
  tag_roc_start_ts = p.acq_start_ts;
  tag_roc_stop_ts = none;
  tag_bxid = none;
  tag_tb_timestamp = none;
  block = words;
  bore = false;
  eore = false;
  tag_first_roc_start_ts = none;
  tag_run_first_roc = none;
  tag_run_first_trigger_number = none;
}

unfoldable pub build_eudaq_events_roc : Settings → Producer → List Event
build_eudaq_events_roc c p =
    plain_event c p (shift5 p.acq_start_ts) (shift5 p.acq_stop_ts) p.readout_cycle p.cycle_data ∷ []

unfoldable pub trigger_event : Settings → Producer → Extracted → Packet → Event
trigger_event c p e q =
    record (plain_event c p (trig_ts q) (add64 (trig_ts q) 1)
      (sub32 q.event_cnt p.first_trigger_number)
      (e.start_packet ++ packet_words q ++ e.stop_packet)) {
        tag_bxid = some (bxid_of_trigger c p q);
        tag_tb_timestamp = some c.timestamp_tb_campaign;
      }

unfoldable pub trigger_events : Settings → Producer → Extracted → List Packet → List Event
trigger_events c p e [] = []
trigger_events c p e (q ∷ qs) = trigger_event c p e q ∷ trigger_events c p e qs

unfoldable pub build_eudaq_events_triggers : Settings → Producer → List Event
build_eudaq_events_triggers c p =
    let e = extract p.cycle_data nothing_extracted in trigger_events c p e e.trigger_packets

-- The variables of the loop of `buildEudaqEventsBxid`.
pub record Group : Type 0 where
  pub last_bxid : ℕ
  pub first_trigger_n_in_bxid : ℕ
  pub first_trigger_ts_in_bxid : ℕ
  pub collected : List ℕ

-- INT_MIN, which stands for no trigger yet.
abbrev pub int_min : ℕ
int_min = 2 ^ 31

unfoldable pub group_event : Settings → Producer → Extracted → Group → Event
group_event c p e g =
    record (plain_event c p g.first_trigger_ts_in_bxid (add64 g.first_trigger_ts_in_bxid 1)
      g.first_trigger_n_in_bxid (g.collected ++ e.stop_packet)) {
        tag_roc_stop_ts = some p.acq_stop_ts;
        tag_bxid = some g.last_bxid;
        tag_tb_timestamp =
            if c.timestamp_tb_campaign == 0 then none else some c.timestamp_tb_campaign;
      }

-- One trigger: the group it finds, which may be closed by an event, and the group it leaves.
unfoldable pub group_step : Settings → Producer → Extracted → Packet → Group → List Event × Group
group_step c p e q g =
    let b = bxid_of_trigger c p q in
    let closed = record g {
      first_trigger_n_in_bxid = sub32 q.event_cnt p.first_trigger_number;
      first_trigger_ts_in_bxid = trig_ts q;
      collected = [];
    } in
    let joined = record g { collected = g.collected ++ packet_words q } in
    let opened = record closed { collected = g.collected ++ packet_words q } in
    let found =
      if g.last_bxid == int_min then opened else if b == g.last_bxid then joined else closed in
    (
      if g.last_bxid == int_min
          then []
          else if b == g.last_bxid
          then []
          else group_event c p e g ∷ [],
      record found {
        last_bxid = b;
        collected = found.collected ++ e.start_packet ++ packet_words q;
      },
    )

unfoldable pub group_loop : Settings → Producer → Extracted → List Packet → Group → List Event
group_loop c p e [] g = if g.last_bxid == int_min then [] else group_event c p e g ∷ []
group_loop c p e (q ∷ qs) g =
    let (events, g') = group_step c p e q g in events ++ group_loop c p e qs g'

abbrev pub no_group : Group
no_group = record {
  last_bxid = int_min;
  first_trigger_n_in_bxid = 0;
  first_trigger_ts_in_bxid = 0;
  collected = [];
}

unfoldable pub build_eudaq_events_bxid : Settings → Producer → List Event
build_eudaq_events_bxid c p =
    let e = extract p.cycle_data nothing_extracted in group_loop c p e e.trigger_packets no_group

unfoldable pub built : Settings → EventBuildingMode → Producer → List Event
built c roc p = build_eudaq_events_roc c p
built c triggers p = build_eudaq_events_triggers c p
built c bxid p = build_eudaq_events_bxid c p

-- Every mode queues its events and then clears the cycle data.
unfoldable pub build_eudaq_events : Settings → Producer → Producer
build_eudaq_events c p = record p {
  deq_event = p.deq_event ++ built c c.event_building_mode p;
  cycle_data = [];
}
