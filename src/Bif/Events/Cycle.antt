-- ===== src/Bif/Events/Cycle.antt =====
-- The data of a whole cycle: a start packet, the triggers, and a stop packet.
use mathlib.Core.List.{append-nil, append_assoc}
use eudaq_ahcal.Base.{ℕ, List, [], ◌∷◌, ◌++◌, ◌≡◌, refl, sym, ap, ◌∙◌, arith, All}
use eudaq_ahcal.Base.Words.{sub32}
use eudaq_ahcal.Bif.State.{Settings, Event, Producer}
use eudaq_ahcal.Bif.Events.{
  Packet, packet_words, packet_kind, Extracted, nothing_extracted, extract_one, extract,
  plain_event, trigger_event, trigger_events, build_eudaq_events_triggers,
}

unfoldable pub all_words : List Packet → List ℕ
all_words [] = []
all_words (q ∷ qs) = packet_words q ++ all_words qs

-- What `trigger_push_back` makes of a start, triggers and a stop.
unfoldable pub cycle_words : Packet → List Packet → Packet → List ℕ
cycle_words start qs stop = packet_words start ++ all_words qs ++ packet_words stop

abbrev pub whole_cycle : Packet → List Packet → Packet → Extracted
whole_cycle start qs stop = record {
  start_packet = packet_words start;
  stop_packet = packet_words stop;
  trigger_packets = qs;
}

kind_trigger :
    (q : Packet) (e : Extracted)
    → packet_kind q ≡ 1
    → extract_one q e ≡ record e { trigger_packets = e.trigger_packets ++ q ∷ [] }
unfolding extract_one
kind_trigger q e h = ground arith

kind_start :
    (q : Packet) (e : Extracted)
    → packet_kind q ≡ 3
    → extract_one q e ≡ record e { start_packet = packet_words q }
unfolding extract_one
kind_start q e h = ground arith

kind_stop :
    (q : Packet) (e : Extracted)
    → packet_kind q ≡ 2
    → extract_one q e ≡ record e { stop_packet = packet_words q }
unfolding extract_one
kind_stop q e h = ground arith

extract_triggers :
    (qs : List Packet) (rest : List ℕ) (e : Extracted)
    → All (λ q. packet_kind q ≡ 1) qs
    → extract (all_words qs ++ rest) e
      ≡ extract rest (record e { trigger_packets = e.trigger_packets ++ qs })
unfolding extract all_words
extract_triggers [] rest e h =
    ap (λ l. extract rest (record e { trigger_packets = l })) (sym (append-nil e.trigger_packets))
extract_triggers (q ∷ qs) rest e h =
    let e' = record e { trigger_packets = e.trigger_packets ++ q ∷ [] } in
    ap (extract (all_words qs ++ rest)) (kind_trigger q e h.0)
    ∙ extract_triggers qs rest e' h.1
    ∙ ap (λ l. extract rest (record e { trigger_packets = l }))
        (append_assoc e.trigger_packets (q ∷ []) qs)

-- The loop over the words of a whole cycle finds its start, its stop and all its triggers in order.
pub extract-cycle_words :
    (start stop : Packet) (qs : List Packet)
    → packet_kind start ≡ 3
    → packet_kind stop ≡ 2
    → All (λ q. packet_kind q ≡ 1) qs
    → extract (cycle_words start qs stop) nothing_extracted ≡ whole_cycle start qs stop
unfolding cycle_words extract
extract-cycle_words start stop qs hs he hq =
    let e = record nothing_extracted { start_packet = packet_words start } in
    ap (extract (all_words qs ++ packet_words stop)) (kind_start start nothing_extracted hs)
    ∙ extract_triggers qs (packet_words stop) e hq
    ∙ kind_stop stop (record e { trigger_packets = qs }) he

-- The events' own blocks and numbers, in order.
abbrev pub blocks : List Event → List (List ℕ)
blocks [] = []
blocks (v ∷ vs) = v.block ∷ blocks vs

abbrev pub numbers : List Event → List ℕ
numbers [] = []
numbers (v ∷ vs) = v.trigger_n ∷ numbers vs

abbrev pub framed : Packet → Packet → List Packet → List (List ℕ)
framed start stop [] = []
framed start stop (q ∷ qs) =
    (packet_words start ++ packet_words q ++ packet_words stop) ∷ framed start stop qs

abbrev pub counted_from : ℕ → List Packet → List ℕ
counted_from first [] = []
counted_from first (q ∷ qs) = sub32 q.event_cnt first ∷ counted_from first qs

trigger_events_lem :
    (c : Settings) (p : Producer) (start stop : Packet) (all qs : List Packet)
    → let events = trigger_events c p (whole_cycle start all stop) qs in
      (blocks events ≡ framed start stop qs)
      × (numbers events ≡ counted_from p.first_trigger_number qs)
unfolding trigger_events trigger_event plain_event
trigger_events_lem c p start stop all [] = (refl, refl)
trigger_events_lem c p start stop all (q ∷ qs) =
    let r = trigger_events_lem c p start stop all qs in
    (
      ap (λ l. (packet_words start ++ packet_words q ++ packet_words stop) ∷ l) r.0,
      ap (λ l. sub32 q.event_cnt p.first_trigger_number ∷ l) r.1,
    )

build_triggers_whole :
    (c : Settings) (p : Producer) (start stop : Packet) (qs : List Packet)
    → p.cycle_data ≡ cycle_words start qs stop
    → packet_kind start ≡ 3
    → packet_kind stop ≡ 2
    → All (λ q. packet_kind q ≡ 1) qs
    → build_eudaq_events_triggers c p ≡ trigger_events c p (whole_cycle start qs stop) qs
unfolding build_eudaq_events_triggers
build_triggers_whole c p start stop qs words hs he hq =
    ap (λ l. let e = extract l nothing_extracted in trigger_events c p e e.trigger_packets) words
    ∙ ap (λ e. trigger_events c p e e.trigger_packets) (extract-cycle_words start stop qs hs he hq)

-- In the mode of one event per trigger, the data of a whole cycle (a start packet, trigger packets and
-- a stop packet) becomes one event for each trigger, in order, with that trigger between the start and
-- the stop as its block, and numbered from the first trigger of the run.
pub build_eudaq_events_triggers-cycle :
    (c : Settings) (p : Producer) (start stop : Packet) (qs : List Packet)
    → p.cycle_data ≡ cycle_words start qs stop
    → packet_kind start ≡ 3
    → packet_kind stop ≡ 2
    → All (λ q. packet_kind q ≡ 1) qs
    → (blocks (build_eudaq_events_triggers c p) ≡ framed start stop qs)
      × (numbers (build_eudaq_events_triggers c p) ≡ counted_from p.first_trigger_number qs)
build_eudaq_events_triggers-cycle c p start stop qs words hs he hq =
    let r = trigger_events_lem c p start stop qs qs in
    let e = build_triggers_whole c p start stop qs words hs he hq in
    (ap blocks e ∙ r.0, ap numbers e ∙ r.1)
