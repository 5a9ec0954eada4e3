-- ===== src/ScReader/Build/Roc.antt =====
-- The events of the readout cycles hold all buffered packets, and the dummies fill the numbers between.
use mathlib.Core.List.{append-nil, append_assoc}
use eudaq_ahcal.Base.{
  ℕ, zero, suc, ◌+◌, ◌-◌, ◌^◌, ◌≤◌, ◌<◌, List, [], ◌∷◌, ◌++◌, ◌≡◌, refl, sym, ap, ◌∙◌, arith, Bool,
  true, false, Option, some, none, ltb, if◌then◌else◌, length, length-append, one_left, Bool-cases,
  inl, inr,
}
use eudaq_ahcal.Base.Words.{add32, slt, int_rank, minus_one}
use eudaq_ahcal.Base.IntMap.{IntMap}
use eudaq_ahcal.ScReader.State.{Settings, LdaTimeData, Infodata, Reader}
use eudaq_ahcal.ScReader.Build.{
  Event, prepare_eudaq_raw_packet, insert_dummy_event, insert_dummies, dummy_fuel, with_times,
  times_of, set_times, add_times, add_packets, roc_event, build_roc, build_roc_loop,
  build_roc_events,
}

-- The packets in a queue of events, and those that wait in the map.
abbrev pub sent_packets : List Event → List Infodata
sent_packets [] = []
sent_packets (ev ∷ queue) = ev.packets ++ sent_packets queue

abbrev pub waiting_packets : IntMap (List Infodata) → List Infodata
waiting_packets [] = []
waiting_packets ((roc, cells) ∷ m) = add_packets cells ++ waiting_packets m

sent_packets-append : (q s : List Event) → sent_packets (q ++ s) ≡ sent_packets q ++ sent_packets s
sent_packets-append [] s = refl
sent_packets-append (ev ∷ q) s =
    ap (λ l. ev.packets ++ l) (sent_packets-append q s)
    ∙ sym (append_assoc ev.packets (sent_packets q) (sent_packets s))

set_times-packets :
    (roc : ℕ) (o : Option LdaTimeData) (ev : Event) (r : Reader)
    → (set_times roc o (ev, r)).0.packets ≡ ev.packets
unfolding set_times with_times
set_times-packets roc none ev r = refl
set_times-packets roc (some d) ev r = refl

add_times-packets :
    (c : Settings) (roc : ℕ) (ev : Event) (r : Reader)
    → (add_times c roc (ev, r)).0.packets ≡ ev.packets
unfolding add_times
add_times-packets c roc ev r = set_times-packets roc (times_of c roc r) ev r

roc_event-packets :
    (c : Settings) (roc : ℕ) (cells : List Infodata) (r : Reader)
    → (roc_event c roc cells r).0.packets ≡ add_packets cells
unfolding roc_event prepare_eudaq_raw_packet
roc_event-packets c roc cells r = add_times-packets c roc _ _

insert_dummies-packets :
    (fuel roc : ℕ) (queue : List Event) (r : Reader)
    → sent_packets (insert_dummies fuel roc (queue, r)).0 ≡ sent_packets queue
unfolding insert_dummies insert_dummy_event prepare_eudaq_raw_packet
insert_dummies-packets zero roc queue r = refl
insert_dummies-packets (suc fuel) roc queue r =
    let next = add32 r.last_built_event_nr 1 in
    let counted = record r { last_built_event_nr = next } in
    let (q, r') = insert_dummy_event next minus_one false (queue, counted) in
    elim (Bool-cases (slt next roc)) [
      | inl more ↦ rw more (
          insert_dummies-packets fuel roc q r'
          ∙ sent_packets-append queue _
          ∙ append-nil (sent_packets queue))
      | inr enough ↦ rw enough refl
    ]

filled_packets :
    (c : Settings) (roc : ℕ) (queue : List Event) (r : Reader)
    → sent_packets
        (if c.insert_dummy_packets
          then insert_dummies (dummy_fuel roc r) roc (queue, r)
          else (queue, r)).0
      ≡ sent_packets queue
filled_packets c roc queue r = elim (Bool-cases c.insert_dummy_packets) [
  | inl on ↦ rw on (insert_dummies-packets (dummy_fuel roc r) roc queue r)
  | inr off ↦ rw off refl
]

build_roc-packets :
    (c : Settings) (roc : ℕ) (cells : List Infodata) (queue : List Event) (r : Reader)
    → sent_packets (build_roc c roc cells (queue, r)).0 ≡ sent_packets queue ++ add_packets cells
unfolding build_roc
build_roc-packets c roc cells queue r =
    let filled =
      if c.insert_dummy_packets
      then insert_dummies (dummy_fuel roc r) roc (queue, r)
      else (queue, r) in
    let ev = (roc_event c roc cells filled.1).0 in
    sent_packets-append filled.0 (ev ∷ [])
    ∙ ap (λ l. l ++ (ev.packets ++ [])) (filled_packets c roc queue r)
    ∙ ap (λ l. sent_packets queue ++ l)
        (append-nil ev.packets ∙ roc_event-packets c roc cells filled.1)

-- The loop moves packets from the front of the map to the end of the queue.
pub record Moves (kept : ℕ) (m : IntMap (List Infodata)) (queue queue' : List Event) (r' : Reader)
    : Type 0 where
  pub all_packets :
      sent_packets queue' ++ waiting_packets r'.lda_asic_data
      ≡ sent_packets queue ++ waiting_packets m
  pub left : length r'.lda_asic_data ≡ (if ltb kept (length m) then kept else length m)

build_roc_loop-Moves :
    (c : Settings) (kept : ℕ) (m : IntMap (List Infodata)) (queue : List Event) (r : Reader)
    → let (queue', r') = build_roc_loop c kept m (queue, r) in Moves kept m queue queue' r'
unfolding build_roc_loop
build_roc_loop-Moves c kept [] queue r = record { all_packets = refl; left = ground arith }
build_roc_loop-Moves c kept ((roc, cells) ∷ m) queue r =
    elim (Bool-cases (ltb kept (suc (length m)))) [
      | inr enough ↦ rw enough (record { all_packets = refl; left = rw enough refl })
      | inl more ↦
          let (q, r') = build_roc c roc cells (queue, r) in
          let ih = build_roc_loop-Moves c kept m q r' in
          rw more (record {
            all_packets =
                ih.all_packets
                ∙ ap (λ l. l ++ waiting_packets m) (build_roc-packets c roc cells queue r)
                ∙ append_assoc (sent_packets queue) (add_packets cells) (waiting_packets m);
            left = rw more (one_left kept (length m) _ more ih.left);
          })
    ]

-- `buildROCEvents` loses no packet and sends none twice: the packets of the events in the queue, then
-- those that stay buffered, are the packets of the queue and of the buffered cycles before, in order,
-- but for empty ones. As many cycles stay as are to be kept, none when all are dumped.
pub build_roc_events-Moves :
    (c : Settings) (dump_all : Bool) (queue : List Event) (r : Reader)
    → let (queue', r') = build_roc_events c dump_all queue r in
      Moves (if dump_all then 0 else c.keep_buffered) r.lda_asic_data queue queue' r'
unfolding build_roc_events
build_roc_events-Moves c dump_all queue r =
    build_roc_loop-Moves c (if dump_all then 0 else c.keep_buffered) r.lda_asic_data queue r

pub insert_dummy_event-length :
    (n t : ℕ) (flag : Bool) (queue : List Event) (r : Reader)
    → length (insert_dummy_event n t flag (queue, r)).0 ≡ length queue + 1
unfolding insert_dummy_event
insert_dummy_event-length n t flag queue r = length-append queue (_ ∷ [])

insert_dummies_numbers :
    (fuel roc : ℕ) (queue : List Event) (r : Reader)
    → roc < 2 ^ 32
    → r.last_built_event_nr < 2 ^ 32
    → int_rank r.last_built_event_nr < int_rank roc
    → int_rank roc - int_rank r.last_built_event_nr ≤ fuel
    → let (queue', r') = insert_dummies fuel roc (queue, r) in
      (r'.last_built_event_nr ≡ roc)
      × (length queue' + 1 ≡ length queue + (int_rank roc - int_rank r.last_built_event_nr))
unfolding insert_dummies insert_dummy_event prepare_eudaq_raw_packet
insert_dummies_numbers zero roc queue r hr hl lt f = absurd (omega (arith, lt, f))
insert_dummies_numbers (suc fuel) roc queue r hr hl lt f =
    let next = add32 r.last_built_event_nr 1 in
    let counted = record r { last_built_event_nr = next } in
    let (q, r') = insert_dummy_event next minus_one false (queue, counted) in
    elim (Bool-cases (slt next roc)) [
      | inl more ↦
          let l : int_rank next < int_rank roc = ground (arith, more) in
          let ih =
            insert_dummies_numbers fuel roc q r' hr (omega arith) l (omega (arith, l, hl, lt, f)) in
          rw more (
            ih.0,
            omega (
              arith,
              ih.1,
              insert_dummy_event-length next minus_one false queue counted,
              l,
              hl,
              lt,
            ),
          )
      | inr enough ↦
          rw enough (ground (arith, enough, lt, hl, hr), ground (arith, enough, lt, hl, hr))
    ]

set_times_last :
    (roc : ℕ) (o : Option LdaTimeData) (ev : Event) (r : Reader)
    → (set_times roc o (ev, r)).1.last_built_event_nr ≡ r.last_built_event_nr
unfolding set_times
set_times_last roc none ev r = refl
set_times_last roc (some d) ev r = refl

roc_event_last :
    (c : Settings) (roc : ℕ) (cells : List Infodata) (r : Reader)
    → (roc_event c roc cells r).1.last_built_event_nr ≡ r.last_built_event_nr
unfolding roc_event add_times prepare_eudaq_raw_packet
roc_event_last c roc cells r =
    let (ev, r') = prepare_eudaq_raw_packet r in
    set_times_last roc (times_of c roc r')
      (record ev { tag_roc = some roc; packets = add_packets cells }) r'

-- With dummies, a readout cycle that is ahead of the last built one is built with one dummy for every
-- number between, and becomes the last built one (the numbers are `int`).
pub build_roc_fills :
    (c : Settings) (roc : ℕ) (cells : List Infodata) (queue : List Event) (r : Reader)
    → c.insert_dummy_packets ≡ true
    → roc < 2 ^ 32
    → r.last_built_event_nr < 2 ^ 32
    → int_rank r.last_built_event_nr < int_rank roc
    → let (queue', r') = build_roc c roc cells (queue, r) in
      (r'.last_built_event_nr ≡ roc)
      × (length queue' ≡ length queue + (int_rank roc - int_rank r.last_built_event_nr))
unfolding build_roc
build_roc_fills c roc cells queue r on hr hl lt =
    let n = insert_dummies_numbers (dummy_fuel roc r) roc queue r hr hl lt (omega arith) in
    let filled = insert_dummies (dummy_fuel roc r) roc (queue, r) in
    simp (on) (
      roc_event_last c roc cells filled.1 ∙ n.0,
      length-append filled.0 ((roc_event c roc cells filled.1).0 ∷ []) ∙ n.1,
    )
