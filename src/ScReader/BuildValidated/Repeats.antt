-- ===== src/ScReader/BuildValidated/Repeats.antt =====
-- With dummies, the number of an event with data is given away a second time.
use eudaq_ahcal.Base.{
  ℕ, suc, ◌+◌, ◌-◌, ◌^◌, ◌≤◌, ◌<◌, List, [], ◌∷◌, ◌++◌, ◌≡◌, refl, ap, subst, ◌∙◌, arith, Bool,
  true, false, not, Bool-cases, inl, inr, zero, ◌&&◌, Option, some,
}
use mathlib.Core.List.{append_assoc}
use eudaq_ahcal.Base.Words.{add32, int_rank, slt}
use eudaq_ahcal.ScReader.State.{Settings, LdaTimeData, Reader}
use eudaq_ahcal.ScReader.Build.{Event, prepare_eudaq_raw_packet}
use eudaq_ahcal.ScReader.Crossings.{Crossings, behind_full_cell, set_crossing_times}
use eudaq_ahcal.ScReader.BuildValidated.{
  missed_dummy, insert_missed_trigger, Trigger, insert_missed_trigger, insert_missed_triggers,
  missed_fuel, ahcal_bxid,
}
use eudaq_ahcal.ScReader.BuildValidated.Cycle.{
  matched_event, fill_missed, handle_match, handle_trigger,
}

-- Trigger number and dummy tag of the events of a queue.
abbrev pub numbers : List Event → List (Option (ℕ × Bool) × Option ℕ)
numbers [] = []
numbers (ev ∷ queue) = (ev.trigger_n, ev.tag_dummy) ∷ numbers queue

numbers-append : (q s : List Event) → numbers (q ++ s) ≡ numbers q ++ numbers s
numbers-append [] s = refl
numbers-append (ev ∷ q) s = ap (λ l. (ev.trigger_n, ev.tag_dummy) ∷ l) (numbers-append q s)

abbrev pub number_of : Settings → Trigger → ℕ
number_of c t = add32 t.trigger_raw_trig_id c.lda_trigid_offset

one_missed :
    (fuel roc start number : ℕ) (queue : List Event) (r : Reader)
    → slt (add32 r.last_built_event_nr 1) number ≡ true
    → add32 (add32 r.last_built_event_nr 1) 1 ≡ number
    → numbers (insert_missed_triggers (suc (suc fuel)) roc start number (queue, r)).0
      ≡ numbers queue ++ (some (add32 r.last_built_event_nr 1, true), some 1) ∷ []
unfolding insert_missed_triggers insert_missed_trigger prepare_eudaq_raw_packet
one_missed fuel roc start number queue r more last = rw (more, enough) (numbers-append queue _)
  where
    enough : slt (add32 (add32 r.last_built_event_nr 1) 1) number ≡ false
    enough = ground (arith, last)

fill_missed-one :
    (c : Settings) (roc : ℕ) (d : LdaTimeData) (t : Trigger) (queue : List Event) (r : Reader)
    → c.insert_dummy_packets ≡ true
    → r.last_built_event_nr < 2 ^ 32
    → slt r.last_built_event_nr (number_of c t) ≡ true
    → slt (add32 r.last_built_event_nr 1) (number_of c t) ≡ true
    → add32 (add32 r.last_built_event_nr 1) 1 ≡ number_of c t
    → numbers (fill_missed c roc d t (queue, r)).0
      ≡ numbers queue ++ (some (add32 r.last_built_event_nr 1, true), some 1) ∷ []
unfolding fill_missed
fill_missed-one c roc d t queue r on hl below more last = rw on (
    subst
      (λ f.
        numbers (insert_missed_triggers f roc d.ts_start (number_of c t) (queue, r)).0
        ≡ numbers queue ++ (some (add32 r.last_built_event_nr 1, true), some 1) ∷ [])
      fuel
      (one_missed (missed_fuel (number_of c t) r - 2) roc d.ts_start (number_of c t) queue r more
        last))
  where
    fuel : suc (suc (missed_fuel (number_of c t) r - 2)) ≡ missed_fuel (number_of c t) r
    fuel = ground (arith, below)

handle_match_numbers :
    (c : Settings) (roc : ℕ) (d : LdaTimeData) (all : List Trigger) (t : Trigger)
    (ts : List Trigger) (its : Crossings) (queue : List Event) (r : Reader)
    → c.insert_dummy_packets ≡ true
    → let st = (handle_match c roc d all t ts its (queue, r)).done_so_far in
      (numbers st.0 ≡ numbers queue ++ (some (number_of c t, true), some 0) ∷ [])
      × (st.1.last_built_event_nr ≡ r.last_built_event_nr)
unfolding handle_match matched_event set_crossing_times prepare_eudaq_raw_packet
handle_match_numbers c roc d all t ts its queue r on =
    let behind = behind_full_cell r roc (ahcal_bxid its) in
    rw (never behind _ on) (numbers-append queue _ ∙ rw on refl, refl)
  where
    never : (a b : Bool) → b ≡ true → (a && not b) ≡ false
    never a b h = ground arith

-- With dummies: after a trigger whose crossing has packets and whose number (below 2 ^ 31 - 1) is the next one, the
-- trigger of the number after it is preceded by a dummy that has the number of the first one again.
pub handle_trigger_repeats :
    (c : Settings) (roc : ℕ) (d : LdaTimeData) (all : List Trigger) (t u : Trigger)
    (ts : List Trigger) (its : Crossings) (queue : List Event) (r : Reader)
    → c.insert_dummy_packets ≡ true
    → slt t.trigger_bxid (ahcal_bxid its) ≡ false
    → r.last_built_event_nr + 2 < 2 ^ 31
    → number_of c t ≡ r.last_built_event_nr + 1
    → number_of c u ≡ r.last_built_event_nr + 2
    → numbers (fill_missed c roc d u (handle_trigger c roc d all t ts its (queue, r)).done_so_far).0
      ≡ numbers queue
        ++ (some (number_of c t, true), some 0) ∷ (some (number_of c t, true), some 1) ∷ []
unfolding handle_trigger
handle_trigger_repeats c roc d all t u ts its queue r on here small nt nu =
    let st = (handle_match c roc d all t ts its (queue, r)).done_so_far in
    let m = handle_match_numbers c roc d all t ts its queue r on in
    let again : Option (ℕ × Bool) × Option ℕ = (some (number_of c t, true), some 0) in
    rw here (
      fill_missed-one c roc d u st.0 st.1 on (omega (arith, m.1, small))
        (ground (arith, m.1, small, nu)) (ground (arith, m.1, small, nu))
        (omega (arith, m.1, small, nu))
      ∙ ap (λ l. l ++ (some (add32 st.1.last_built_event_nr 1, true), some 1) ∷ []) m.0
      ∙ append_assoc (numbers queue) (again ∷ [])
          ((some (add32 st.1.last_built_event_nr 1, true), some 1) ∷ [])
      ∙ ap (λ n. numbers queue ++ again ∷ (some (n, true), some 1) ∷ [])
          (omega (arith, m.1, small, nt)))

-- The dummies before a trigger ahead of the last number reach the number before its own.
missed_reach :
    (fuel roc start number : ℕ) (queue : List Event) (r : Reader)
    → number < 2 ^ 32
    → r.last_built_event_nr < 2 ^ 32
    → int_rank r.last_built_event_nr < int_rank number
    → int_rank number - int_rank r.last_built_event_nr ≤ fuel
    → add32 (insert_missed_triggers fuel roc start number (queue, r)).1.last_built_event_nr 1
      ≡ number
unfolding insert_missed_triggers insert_missed_trigger prepare_eudaq_raw_packet
missed_reach zero roc start number queue r hn hl lt f = absurd (omega (arith, lt, f))
missed_reach (suc fuel) roc start number queue r hn hl lt f =
    let next = add32 r.last_built_event_nr 1 in
    let (ev, r') =
      insert_missed_trigger roc start next missed_dummy (record r { last_built_event_nr = next }) in
    elim (Bool-cases (slt next number)) [
      | inl more ↦
          let l : int_rank next < int_rank number = ground (arith, more) in
          rw more (
            missed_reach fuel roc start number (queue ++ ev ∷ []) r' hn (omega arith) l
              (omega (arith, l, hl, lt, f)))
      | inr enough ↦ rw enough (ground (arith, enough, lt, hl, hn))
    ]
