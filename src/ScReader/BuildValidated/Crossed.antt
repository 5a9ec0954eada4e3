-- ===== src/ScReader/BuildValidated/Crossed.antt =====
-- Which events the triggers of a readout cycle get.
use mathlib.Core.List.{append-nil}
use eudaq_ahcal.Base.{
  ℕ, zero, suc, List, [], ◌∷◌, ◌++◌, ◌≡◌, refl, ap, ◌∙◌, arith, Bool, true, false, not, ◌&&◌,
  Option, none, some, ltb, ◌==◌, if◌then◌else◌, length, Bool-cases, inl, inr,
}
use eudaq_ahcal.Base.Words.{add32, slt, int_rank}
use eudaq_ahcal.Base.IntMap.{lookup}
use eudaq_ahcal.ScReader.State.{Settings, LdaTimeData, Infodata, Reader}
use eudaq_ahcal.ScReader.Build.{Event, prepare_eudaq_raw_packet, add_packets}
use eudaq_ahcal.ScReader.Crossings.{Crossings, behind_full_cell, set_crossing_times}
use eudaq_ahcal.ScReader.BuildValidated.{
  Trigger, missed_dummy, insert_missed_trigger, insert_missed_triggers, missed_fuel,
  insert_empty_event, ahcal_bxid, packets_here, moved_away, same_crossing,
}
use eudaq_ahcal.ScReader.BuildValidated.Cycle.{
  matched_event, Handled, fill_missed, handle_match, handle_trigger, push, cycle_status,
}
use eudaq_ahcal.ScReader.BuildValidated.Table.{found}

-- What is seen of an event: its crossing, its trigger number, its packets.
abbrev pub Seen : Type 0
Seen = Option ℕ × Option (ℕ × Bool) × List Infodata

-- The tag \"Dummy\" is 0.
abbrev pub is_real : Option ℕ → Bool
is_real none = false
is_real (some n) = n == 0

abbrev pub seen_in : Bool → Event → List Seen → List Seen
seen_in b ev rest = if b then (ev.tag_bxid, ev.trigger_n, ev.packets) ∷ rest else rest

abbrev pub seen : List Event → List Seen
seen [] = []
seen (ev ∷ queue) = seen_in (is_real ev.tag_dummy) ev (seen queue)

pub seen-append : (q s : List Event) → seen (q ++ s) ≡ seen q ++ seen s
seen-append [] s = refl
seen-append (ev ∷ q) s =
    ap (seen_in (is_real ev.tag_dummy) ev) (seen-append q s) ∙ pushed (is_real ev.tag_dummy) ev
  where
    pushed :
        (b : Bool) (ev : Event) → seen_in b ev (seen q ++ seen s) ≡ seen_in b ev (seen q) ++ seen s
    pushed true ev = refl
    pushed false ev = refl

-- Without packets in its crossing the event has the raw number of the trigger, with packets that number
-- corrected by the offset.
abbrev pub expected_of : Settings → Trigger → Option (List Infodata) → Seen
expected_of c t none = (some t.trigger_bxid, some (t.trigger_raw_trig_id, true), [])
expected_of c t (some same) = (
  some t.trigger_bxid,
  some (add32 t.trigger_raw_trig_id c.lda_trigid_offset, true),
  add_packets same,
)

abbrev pub expected : Settings → Crossings → Trigger → Seen
expected c table t = expected_of c t (lookup int_rank t.trigger_bxid table)

seen-insert_missed_triggers :
    (fuel roc start number : ℕ) (queue : List Event) (r : Reader)
    → seen (insert_missed_triggers fuel roc start number (queue, r)).0 ≡ seen queue
unfolding insert_missed_triggers insert_missed_trigger prepare_eudaq_raw_packet
seen-insert_missed_triggers zero roc start number queue r = refl
seen-insert_missed_triggers (suc fuel) roc start number queue r =
    let next = add32 r.last_built_event_nr 1 in
    let (ev, r') =
      insert_missed_trigger roc start next missed_dummy (record r { last_built_event_nr = next }) in
    elim (Bool-cases (slt next number)) [
      | inl more ↦ rw more (
          seen-insert_missed_triggers fuel roc start number (queue ++ ev ∷ []) r'
          ∙ seen-append queue (ev ∷ [])
          ∙ append-nil (seen queue))
      | inr enough ↦ rw enough refl
    ]

pub seen-fill_missed :
    (c : Settings) (roc : ℕ) (d : LdaTimeData) (t : Trigger) (st : List Event × Reader)
    → seen (fill_missed c roc d t st).0 ≡ seen st.0
unfolding fill_missed
seen-fill_missed c roc d t (queue, r) = elim (Bool-cases c.insert_dummy_packets) [
  | inl on ↦ rw on (
      let number = add32 t.trigger_raw_trig_id c.lda_trigid_offset in
      seen-insert_missed_triggers (missed_fuel number r) roc d.ts_start number queue r)
  | inr off ↦ rw off refl
]

-- What the settings must be: dummies are inserted, and events need no hits.
pub record KeepsAll (c : Settings) : Type 0 where
  pub with_dummies : c.insert_dummy_packets ≡ true
  pub no_minimum : (c.min_event_hits == 0) ≡ true

seen-insert_empty_event :
    (c : Settings) (roc : ℕ) (d : LdaTimeData) (t : Trigger) (status : ℕ) (queue : List Event)
    (r : Reader)
    → seen (push queue (insert_empty_event c roc d t status r)).0
      ≡ seen queue ++ expected_of c t none ∷ []
unfolding insert_empty_event set_crossing_times prepare_eudaq_raw_packet
seen-insert_empty_event c roc d t status queue r = seen-append queue _

seen-matched_event :
    (c : Settings) (roc : ℕ) (d : LdaTimeData) (t : Trigger) (same : List Trigger) (status : ℕ)
    (cells : List Infodata) (queue : List Event) (r : Reader)
    → c.insert_dummy_packets ≡ true
    → seen (push queue (matched_event c roc d t same status cells r)).0
      ≡ seen queue ++ expected_of c t (some cells) ∷ []
unfolding matched_event set_crossing_times prepare_eudaq_raw_packet
seen-matched_event c roc d t same status cells queue r on = seen-append queue _ ∙ simp (on) refl

-- The iterator after a trigger with packets: they are moved away if no further trigger has the crossing.
abbrev pub iterator_after : Trigger → List Trigger → Crossings → Crossings
iterator_after t ts its =
    if ltb 0 (length (same_crossing t.trigger_bxid ts)) then its else moved_away its

abbrev pub next_iterator : Trigger → List Trigger → Crossings → Crossings
next_iterator t ts its =
    if slt t.trigger_bxid (ahcal_bxid its) then its else iterator_after t ts its

-- What one trigger does: it joins no other, and adds the event `x`.
abbrev pub HandlesOne : List Event → Seen → Crossings → Handled → Type 0
HandlesOne queue x its h =
    (h.joined ≡ 0) × (seen h.done_so_far.0 ≡ seen queue ++ x ∷ []) × (h.iterator ≡ its)

handle_match-HandlesOne :
    (c : Settings) (roc : ℕ) (d : LdaTimeData) (all : List Trigger) (t : Trigger)
    (ts : List Trigger) (its : Crossings) (queue : List Event) (r : Reader)
    → c.insert_dummy_packets ≡ true
    → HandlesOne queue
        (expected_of c t (some (packets_here its)))
        (iterator_after t ts its)
        (handle_match c roc d all t ts its (queue, r))
unfolding handle_match
handle_match-HandlesOne c roc d all t ts its queue r on =
    let behind = behind_full_cell r roc (ahcal_bxid its) in
    let kept : (behind && not c.insert_dummy_packets) ≡ false = never behind _ on in
    rw kept (
      rw on refl,
      seen-matched_event c roc d t (same_crossing t.trigger_bxid ts) _ (packets_here its) queue r
          on,
      rw on refl,
    )
  where
    never : (a b : Bool) → b ≡ true → (a && not b) ≡ false
    never a b h = ground arith

pub handle_trigger-HandlesOne :
    (c : Settings) (roc : ℕ) (d : LdaTimeData) (all : List Trigger) (t : Trigger)
    (ts : List Trigger) (its : Crossings) (queue : List Event) (r : Reader)
    → KeepsAll c
    → HandlesOne queue
        (expected_of c t (found (slt t.trigger_bxid (ahcal_bxid its)) (packets_here its)))
        (next_iterator t ts its)
        (handle_trigger c roc d all t ts its (queue, r))
unfolding handle_trigger
handle_trigger-HandlesOne c roc d all t ts its queue r k =
    elim (Bool-cases (slt t.trigger_bxid (ahcal_bxid its))) [
      | inl after ↦
          rw (after, k.no_minimum)
            (refl, seen-insert_empty_event c roc d t (cycle_status d) queue r, refl)
      | inr here ↦ rw here (handle_match-HandlesOne c roc d all t ts its queue r k.with_dummies)
    ]
