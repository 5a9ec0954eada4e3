-- ===== src/ScReader/BuildTrigid/Dummies.antt =====
-- The dummies before a trigger fill the numbers up to its own.
use eudaq_ahcal.Base.{
  ℕ, zero, suc, ◌+◌, ◌-◌, ◌^◌, ◌≤◌, ◌<◌, List, [], ◌∷◌, ◌≡◌, ◌∙◌, arith, true, length,
  length-append, Bool-cases, inl, inr,
}
use eudaq_ahcal.Base.Words.{add32, slt, int_rank}
use eudaq_ahcal.ScReader.State.{Settings, LdaTimeData, Infodata, Reader}
use eudaq_ahcal.ScReader.Build.{Event, prepare_eudaq_raw_packet, insert_dummy_event}
use eudaq_ahcal.ScReader.Build.Roc.{insert_dummy_event-length}
use eudaq_ahcal.ScReader.BuildTrigid.{insert_trigger_dummies, trigid_event, build_trigger}

insert_trigger_dummies_fill :
    (fuel number : ℕ) (queue : List Event) (r : Reader)
    → number < 2 ^ 32
    → r.last_built_event_nr < 2 ^ 32
    → int_rank r.last_built_event_nr < int_rank number
    → int_rank number - int_rank r.last_built_event_nr ≤ fuel
    → let (queue', r') = insert_trigger_dummies fuel number (queue, r) in
      (r'.last_built_event_nr ≡ number)
      × (length queue' + 1 ≡ length queue + (int_rank number - int_rank r.last_built_event_nr))
unfolding insert_trigger_dummies insert_dummy_event prepare_eudaq_raw_packet
insert_trigger_dummies_fill zero number queue r hr hl lt f = absurd (omega (arith, lt, f))
insert_trigger_dummies_fill (suc fuel) number queue r hr hl lt f =
    let next = add32 r.last_built_event_nr 1 in
    let counted = record r { last_built_event_nr = next } in
    let (q, r') = insert_dummy_event next next true (queue, counted) in
    elim (Bool-cases (slt next number)) [
      | inl more ↦
          let l : int_rank next < int_rank number = ground (arith, more) in
          let ih =
            insert_trigger_dummies_fill fuel number q r' hr (omega arith) l
              (omega (arith, l, hl, lt, f)) in
          rw more (
            ih.0,
            omega (arith, ih.1, insert_dummy_event-length next next true queue counted, l, hl, lt),
          )
      | inr enough ↦
          rw enough (ground (arith, enough, lt, hl, hr), ground (arith, enough, lt, hl, hr))
    ]

-- With dummies, a trigger whose number (an `int`) is ahead of the last built one is built with one dummy
-- for every number between, and its number becomes the last built one.
pub build_trigger_fills :
    (c : Settings) (roc : ℕ) (d : LdaTimeData) (cells : List Infodata) (id ts : ℕ)
    (queue : List Event) (r : Reader)
    → c.insert_dummy_packets ≡ true
    → r.last_built_event_nr < 2 ^ 32
    → int_rank r.last_built_event_nr < int_rank (add32 id c.lda_trigid_offset)
    → let (queue', r') = build_trigger c roc d cells id ts (queue, r) in
      (r'.last_built_event_nr ≡ add32 id c.lda_trigid_offset)
      × (length queue'
          ≡ length queue
            + (int_rank (add32 id c.lda_trigid_offset) - int_rank r.last_built_event_nr))
unfolding build_trigger trigid_event prepare_eudaq_raw_packet
build_trigger_fills c roc d cells id ts queue r on hl lt =
    let number = add32 id c.lda_trigid_offset in
    let fuel = int_rank number - int_rank r.last_built_event_nr + 1 in
    let filled = insert_trigger_dummies fuel number (queue, r) in
    let n = insert_trigger_dummies_fill fuel number queue r (omega arith) hl lt (omega arith) in
    simp (on)
      (n.0, length-append filled.0 ((trigid_event c roc d cells number ts filled.1).0 ∷ []) ∙ n.1)
