-- ===== src/ScReader/BuildValidated/Ends.antt =====
-- The loop of `ScReader::buildValidatedBXIDEvents` over the readout cycles ends.
use eudaq_ahcal.Base.{
  ℕ, zero, suc, ◌+◌, ◌≤◌, ◌<◌, List, [], ◌∷◌, ◌++◌, ◌≡◌, ◌≢◌, refl, ap, ◌∙◌, arith, Bool, true, not,
  ◌&&◌, some, ltb, ◌==◌, if◌then◌else◌, length, Bool-cases, inl, inr, All,
}
use eudaq_ahcal.Base.Words.{add32, slt}
use eudaq_ahcal.Base.IntMap.{IntMap}
use eudaq_ahcal.ScReader.State.{Settings, LdaTimeData, Infodata, Reader}
use eudaq_ahcal.ScReader.Build.{Event, prepare_eudaq_raw_packet}
use eudaq_ahcal.ScReader.Crossings.{Crossings, behind_full_cell}
use eudaq_ahcal.ScReader.BuildValidated.{
  Trigger, int_max, missed_dummy, insert_missed_trigger, insert_missed_triggers, missed_fuel,
  insert_empty_event, kick_out, ahcal_bxid, cycle_triggers_of, all_crossings,
}
use eudaq_ahcal.ScReader.BuildValidated.Cycle.{
  matched_event, fill_missed, handle_match, handle_trigger, for_triggers, erase_below, erase_up_to,
  emptied, process_cycle, turn_on, validated_turn, build_validated_loop, validated_fuel,
  build_validated_bxid_events,
}

-- The two maps that the loop empties.
abbrev pub maps_of : List Event × Reader → IntMap (List Infodata) × IntMap LdaTimeData
maps_of st = (st.1.lda_asic_data, st.1.lda_timestamp_data)

maps_of-insert_missed_triggers :
    (fuel roc start number : ℕ) (st : List Event × Reader)
    → maps_of (insert_missed_triggers fuel roc start number st) ≡ maps_of st
unfolding insert_missed_triggers insert_missed_trigger prepare_eudaq_raw_packet
maps_of-insert_missed_triggers zero roc start number (queue, r) = refl
maps_of-insert_missed_triggers (suc fuel) roc start number (queue, r) =
    let next = add32 r.last_built_event_nr 1 in
    let (ev, r') =
      insert_missed_trigger roc start next missed_dummy (record r { last_built_event_nr = next }) in
    elim (Bool-cases (slt next number)) [
      | inl more ↦
          rw more (maps_of-insert_missed_triggers fuel roc start number (queue ++ ev ∷ [], r'))
      | inr enough ↦ rw enough refl
    ]

maps_of-fill_missed :
    (c : Settings) (roc : ℕ) (d : LdaTimeData) (t : Trigger) (st : List Event × Reader)
    → maps_of (fill_missed c roc d t st) ≡ maps_of st
unfolding fill_missed
maps_of-fill_missed c roc d t (queue, r) = elim (Bool-cases c.insert_dummy_packets) [
  | inl on ↦ rw on (
      let number = add32 t.trigger_raw_trig_id c.lda_trigid_offset in
      maps_of-insert_missed_triggers (missed_fuel number r) roc d.ts_start number (queue, r))
  | inr off ↦ rw off refl
]

maps_of-handle_match :
    (c : Settings) (roc : ℕ) (d : LdaTimeData) (all : List Trigger) (t : Trigger)
    (ts : List Trigger) (its : Crossings) (st : List Event × Reader)
    → maps_of (handle_match c roc d all t ts its st).done_so_far ≡ maps_of st
unfolding handle_match matched_event prepare_eudaq_raw_packet
maps_of-handle_match c roc d all t ts its (queue, r) =
    elim (Bool-cases (behind_full_cell r roc (ahcal_bxid its) && not c.insert_dummy_packets)) [
      | inl skipped ↦ rw skipped refl
      | inr built ↦ rw built refl
    ]

maps_of-handle_trigger :
    (c : Settings) (roc : ℕ) (d : LdaTimeData) (all : List Trigger) (t : Trigger)
    (ts : List Trigger) (its : Crossings) (st : List Event × Reader)
    → maps_of (handle_trigger c roc d all t ts its st).done_so_far ≡ maps_of st
unfolding handle_trigger insert_empty_event prepare_eudaq_raw_packet
maps_of-handle_trigger c roc d all t ts its (queue, r) =
    elim (Bool-cases (slt t.trigger_bxid (ahcal_bxid its) && c.min_event_hits == 0)) [
      | inl empty ↦ rw empty refl
      | inr full ↦ rw full (maps_of-handle_match c roc d all t ts its (queue, r))
    ]

maps_of-for_triggers :
    (c : Settings) (roc : ℕ) (d : LdaTimeData) (all : List Trigger) (skip : ℕ) (ts : List Trigger)
    (its : Crossings) (st : List Event × Reader)
    → maps_of (for_triggers c roc d all skip ts its st) ≡ maps_of st
unfolding for_triggers
maps_of-for_triggers c roc d all skip [] its st = refl
maps_of-for_triggers c roc d all (suc skip) (t ∷ ts) its st =
    maps_of-for_triggers c roc d all skip ts its st
maps_of-for_triggers c roc d all zero (t ∷ ts) its st =
    let filled = fill_missed c roc d t st in
    let left = kick_out t.trigger_bxid its in
    let h = handle_trigger c roc d all t ts left filled in
    maps_of-for_triggers c roc d all h.joined ts h.iterator h.done_so_far
    ∙ maps_of-handle_trigger c roc d all t ts left filled
    ∙ maps_of-fill_missed c roc d t st

length-erase_below : {V : Type 0} (roc : ℕ) (m : IntMap V) → length (erase_below roc m) ≤ length m
unfolding erase_below
length-erase_below roc [] = omega arith
length-erase_below roc ((k, v) ∷ m) = ground (arith, length-erase_below roc m)

length-erase_up_to : {V : Type 0} (roc : ℕ) (m : IntMap V) → length (erase_up_to roc m) ≤ length m
unfolding erase_up_to
length-erase_up_to roc [] = omega arith
length-erase_up_to roc ((k, v) ∷ m) = ground (arith, length-erase_up_to roc m)

length-erase_up_to_front :
    {V : Type 0} (roc : ℕ) (v : V) (m : IntMap V)
    → length (erase_up_to roc ((roc, v) ∷ m)) ≤ length m
unfolding erase_up_to
length-erase_up_to_front roc v m = ground (arith, length-erase_up_to roc m)

-- Every key is a readout cycle below INT32_MAX, the number that stands for none.
abbrev pub AreCycles : IntMap (List Infodata) → Type 0
AreCycles = All (λ e. slt e.0 int_max ≡ true)

erase_below-AreCycles :
    (roc : ℕ) (m : IntMap (List Infodata)) → AreCycles m → AreCycles (erase_below roc m)
unfolding erase_below
erase_below-AreCycles roc [] h = tt
erase_below-AreCycles roc ((k, v) ∷ m) h = elim (Bool-cases (slt k roc)) [
  | inl l ↦ rw l (erase_below-AreCycles roc m h.1)
  | inr l ↦ rw l h
]

abbrev pub sizes : List Event × Reader → ℕ
sizes st = length st.1.lda_asic_data + length st.1.lda_timestamp_data

process_cycle-sizes :
    (c : Settings) (roc : ℕ) (d : LdaTimeData) (a : ℕ) (cells : List Infodata)
    (m : IntMap (List Infodata)) (times : IntMap LdaTimeData) (queue : List Event) (r : Reader)
    → r.lda_timestamp_data ≡ (roc, d) ∷ times
    → AreCycles ((a, cells) ∷ m)
    → let st = process_cycle c roc d a cells m (queue, r) in
      (sizes st ≤ suc (length m) + length times) × AreCycles st.1.lda_asic_data
unfolding process_cycle
process_cycle-sizes c roc d a cells m times queue r e h =
    let triggers = cycle_triggers_of c d in
    let bxids = if a == roc then all_crossings cells [] else [] in
    let taken = if a == roc then emptied cells else cells in
    let kept =
      maps_of-for_triggers c roc d triggers 0 triggers bxids
        (queue, record r { lda_asic_data = (a, taken) ∷ m }) in
    rw (ap (λ p. p.0) kept, ap (λ p. p.1) kept, e)
      (
        omega
            (arith, length-erase_below roc ((a, taken) ∷ m), length-erase_up_to_front roc d times),
        erase_below-AreCycles roc ((a, taken) ∷ m) (h.0, h.1),
      )

-- A turn erases at least one entry.
turn_on-sizes :
    (c : Settings) (asic : IntMap (List Infodata)) (times : IntMap LdaTimeData) (queue : List Event)
    (r : Reader)
    → r.lda_timestamp_data ≡ times
    → asic ≢ []
    → AreCycles asic
    → let st = turn_on c asic times (queue, r) in
      (sizes st < length asic + length times) × AreCycles st.1.lda_asic_data
turn_on-sizes c [] times queue r e ne h = absurd (ne refl)
turn_on-sizes c ((a, cells) ∷ m) [] queue r e ne h = rw (h.0, e) (omega arith, h.1)
turn_on-sizes c ((a, cells) ∷ m) ((roc, d) ∷ times) queue r e ne h = elim (Bool-cases (slt a roc)) [
  | inl l ↦ rw (l, e) (omega arith, h.1)
  | inr l ↦
      let p = process_cycle-sizes c roc d a cells m times queue r e h in
      rw l (omega (arith, p.0), p.1)
]

build_validated_loop-Ends :
    (fuel : ℕ) (c : Settings) (kept : ℕ) (st : List Event × Reader)
    → AreCycles st.1.lda_asic_data
    → sizes st < fuel
    → (st' : List Event × Reader) × (build_validated_loop fuel c kept st ≡ some st')
      × (length st'.1.lda_asic_data ≤ kept)
unfolding build_validated_loop validated_turn
build_validated_loop-Ends zero c kept st h lt = absurd (omega (arith, lt))
build_validated_loop-Ends (suc fuel) c kept (queue, r) h lt =
    elim (Bool-cases (ltb kept (length r.lda_asic_data))) [
      | inr enough ↦ rw enough ((queue, r), refl, ground (arith, enough))
      | inl more ↦
          let t =
            turn_on-sizes c r.lda_asic_data r.lda_timestamp_data queue r refl
              (not_empty kept r.lda_asic_data more) h in
          rw more (
            build_validated_loop-Ends fuel c kept (validated_turn c (queue, r)) t.1
              (omega (arith, t.0, lt)))
    ]
  where
    not_empty : (kept : ℕ) (m : IntMap (List Infodata)) → ltb kept (length m) ≡ true → m ≢ []
    not_empty kept [] more = λ p. ground arith
    not_empty kept (x ∷ m) more = λ p. cc

-- With readout cycles below 2 ^ 31 - 1 in the map of packets, `buildValidatedBXIDEvents` returns, and
-- leaves at most as many cycles in the map as are to be kept, none when all are dumped.
pub build_validated_bxid_events-Ends :
    (c : Settings) (dump_all : Bool) (queue : List Event) (r : Reader)
    → AreCycles r.lda_asic_data
    → (st : List Event × Reader) × (build_validated_bxid_events c dump_all queue r ≡ some st)
      × (length st.1.lda_asic_data ≤ (if dump_all then 0 else c.keep_buffered))
unfolding build_validated_bxid_events
build_validated_bxid_events-Ends c dump_all queue r h =
    build_validated_loop-Ends (validated_fuel r) c (if dump_all then 0 else c.keep_buffered)
      (queue, r) h (omega arith)
