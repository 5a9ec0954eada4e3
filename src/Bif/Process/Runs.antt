-- ===== src/Bif/Process/Runs.antt =====
-- The numbers of the events over a whole stream of words.
use eudaq_ahcal.Base.{
  ℕ, zero, suc, ◌^◌, ◌<◌, List, [], ◌∷◌, ◌≡◌, refl, sym, subst, ◌∙◌, arith, Bool, true, false, ◌&&◌,
  if◌then◌else◌, ◌==◌, Bool-cases, inl, inr,
}
use eudaq_ahcal.Base.Words.{add32}
use eudaq_ahcal.Bif.State.{roc, Settings, Producer, shift5}
use eudaq_ahcal.Bif.Events.{build_eudaq_events}
use eudaq_ahcal.Bif.Process.{
  push_packet, shutter_off, stop_cycle, evttype, timestamp_of, inputs_of, is_single, single_word,
  trigger_word2, note_trigger_id, internal_trigger, external_trigger, push_inputs, write_word1,
  write_word2, put_back, process_queued_bif_data,
}
use eudaq_ahcal.Bif.Process.Numbers.{
  Continues, Continues-trans, silent, build-Continues, next_cycle, tolerated, shutter_on-Continues,
}

-- The counters that the numbering looks at.
record Quiet (p q : Producer) : Type 0 where
  events : q.deq_event ≡ p.deq_event
  cycle : q.readout_cycle ≡ p.readout_cycle
  started : q.roc_started ≡ p.roc_started

next_cycle-Quiet : (p q : Producer) → Quiet p q → next_cycle q ≡ next_cycle p
next_cycle-Quiet p q h = ground (arith, h.cycle, h.started)

Quiet-Continues :
    (p q : Producer)
    → p.readout_cycle < 2 ^ 32
    → Quiet p q
    → Continues (next_cycle p) p q (next_cycle q)
Quiet-Continues p q w h =
    silent _ _ p q h.events (sym (next_cycle-Quiet p q h)) (omega (arith, h.cycle))

stop_cycle_same :
    (ts : ℕ) (p : Producer)
    → let q = push_packet 0x02000000 p.readout_cycle (shift5 ts) (stop_cycle ts p) in
      (q.deq_event ≡ p.deq_event) × (q.readout_cycle ≡ p.readout_cycle) × (q.roc_started ≡ false)
unfolding push_packet stop_cycle
stop_cycle_same ts p = (refl, refl, refl)

next_cycle-build :
    (c : Settings) (p : Producer)
    → p.roc_started ≡ false
    → next_cycle (build_eudaq_events c p) ≡ add32 p.readout_cycle 1
unfolding build_eudaq_events
next_cycle-build c p off = ground arith

-- A shutter-off word of an open acquisition queues the event of its cycle.
shutter_off-Continues :
    (c : Settings) (ts : ℕ) (p : Producer)
    → c.event_building_mode ≡ roc
    → p.readout_cycle < 2 ^ 32
    → p.roc_started ≡ true
    → Continues (next_cycle p) p (shutter_off c ts p) (next_cycle (shutter_off c ts p))
unfolding shutter_off
shutter_off-Continues c ts p mode w on =
    let q = push_packet 0x02000000 p.readout_cycle (shift5 ts) (stop_cycle ts p) in
    let s = stop_cycle_same ts p in
    let r = build_eudaq_events c q in
    subst (λ m. Continues (next_cycle p) p r m) (sym (next_cycle-build c q s.2))
      (Continues-trans (next_cycle p) q.readout_cycle _ p q r
        (silent _ _ p q s.0 (ground (arith, s.1)) (omega (arith, s.1)))
        (build-Continues c q mode (omega (arith, s.1))))

write_word1-Quiet : (c : Settings) (w : ℕ) (p : Producer) → Quiet p (write_word1 c w p)
unfolding write_word1
write_word1-Quiet c w p = record { events = refl; cycle = refl; started = refl }

put_back-Quiet : (c : Settings) (w : ℕ) (p : Producer) → Quiet p (put_back c w p)
unfolding put_back write_word1
put_back-Quiet c w p = record { events = refl; cycle = refl; started = refl }

write_word2-Quiet : (c : Settings) (w : ℕ) (p : Producer) → Quiet p (write_word2 c w p)
unfolding write_word2
write_word2-Quiet c w p = record { events = refl; cycle = refl; started = refl }

push_inputs-Quiet : (n ts mask w2 : ℕ) (p : Producer) → Quiet p (push_inputs n ts mask w2 p)
unfolding push_inputs push_packet
push_inputs-Quiet zero ts mask w2 p = record { events = refl; cycle = refl; started = refl }
push_inputs-Quiet (suc n) ts mask w2 p = grind (arith, push_inputs-Quiet n ts mask w2)

trigger_word2-Quiet : (c : Settings) (w w2 : ℕ) (p : Producer) → Quiet p (trigger_word2 c w w2 p)
unfolding trigger_word2 note_trigger_id internal_trigger external_trigger push_packet
trigger_word2-Quiet c w w2 p = grind (arith, push_inputs-Quiet)

-- A word that the numbering can follow: a stop ends an open acquisition, and a start follows a stop, or
-- a missing stop that can be made good.
unfoldable pub in_order : ℕ → Producer → Bool
in_order word1 p =
    if evttype word1 == 3
    then (if p.roc_started then tolerated (inputs_of word1) p else true)
    else if evttype word1 == 2
    then p.roc_started
    else true

-- So for every word of a stream, in the state in which it is read.
unfoldable pub stream_in_order : Settings → List ℕ → Producer → Bool
stream_in_order c [] p = true
stream_in_order c (w ∷ []) p = in_order w p
stream_in_order c (w ∷ w2 ∷ words) p =
    let single = stream_in_order c (w2 ∷ words) (write_word1 c w (single_word c w p)) in
    let double =
      stream_in_order c words (write_word2 c w2 (trigger_word2 c w w2 (write_word1 c w p))) in
    in_order w p && (if is_single w then single else double)

single_word-Continues :
    (c : Settings) (w : ℕ) (p : Producer)
    → c.event_building_mode ≡ roc
    → p.readout_cycle < 2 ^ 32
    → in_order w p ≡ true
    → Continues (next_cycle p) p (single_word c w p) (next_cycle (single_word c w p))
unfolding single_word in_order
single_word-Continues c w p mode b ok = elim (Bool-cases (evttype w == 3)) [
  | inl on ↦ rw on (shutter_on-Continues c (timestamp_of w) (inputs_of w) p mode b (rw on at ok))
  | inr other ↦ elim (Bool-cases (evttype w == 2)) [
    | inl off ↦
        rw (other, off) (shutter_off-Continues c (timestamp_of w) p mode b (rw (other, off) at ok))
    | inr else_word ↦ rw (other, else_word) (silent _ _ p p refl refl b)
  ]
]

single-Continues :
    (c : Settings) (w : ℕ) (p : Producer)
    → c.event_building_mode ≡ roc
    → p.readout_cycle < 2 ^ 32
    → in_order w p ≡ true
    → let q = write_word1 c w (single_word c w p) in Continues (next_cycle p) p q (next_cycle q)
single-Continues c w p mode b ok =
    let s = single_word-Continues c w p mode b ok in
    let r = single_word c w p in
    Continues-trans (next_cycle p) (next_cycle r) _ p r (write_word1 c w r) s
      (Quiet-Continues r (write_word1 c w r) s.word (write_word1-Quiet c w r))

double-Quiet :
    (c : Settings) (w w2 : ℕ) (p : Producer)
    → Quiet p (write_word2 c w2 (trigger_word2 c w w2 (write_word1 c w p)))
double-Quiet c w w2 p =
    let a = write_word1-Quiet c w p in
    let b = trigger_word2-Quiet c w w2 (write_word1 c w p) in
    let d = write_word2-Quiet c w2 (trigger_word2 c w w2 (write_word1 c w p)) in
    record {
      events = d.events ∙ b.events ∙ a.events;
      cycle = d.cycle ∙ b.cycle ∙ a.cycle;
      started = d.started ∙ b.started ∙ a.started;
    }

and_if_true :
    (a s b d : Bool)
    → (a && (if s then b else d)) ≡ true
    → (a ≡ true) × ((if s then b else d) ≡ true)
and_if_true a s b d e = ground arith

rest_in_order :
    (c : Settings) (w w2 : ℕ) (words : List ℕ) (p : Producer)
    → stream_in_order c (w ∷ w2 ∷ words) p ≡ true
    → (in_order w p ≡ true)
      × ((if is_single w
            then stream_in_order c (w2 ∷ words) (write_word1 c w (single_word c w p))
            else stream_in_order c words
                (write_word2 c w2 (trigger_word2 c w w2 (write_word1 c w p))))
          ≡ true)
unfolding stream_in_order
rest_in_order c w w2 words p ok = and_if_true _ (is_single w) _ _ ok

-- In the mode of one event per readout cycle: a stream of words that the numbering can follow (stops
-- end open acquisitions, and missing stops can be made good) queues events that number the readout
-- cycles without gap or repetition, from the next cycle before the stream to the next one after it.
pub process_queued_bif_data-Continues :
    (c : Settings) (words : List ℕ) (p : Producer)
    → c.event_building_mode ≡ roc
    → p.readout_cycle < 2 ^ 32
    → stream_in_order c words p ≡ true
    → let p' = (process_queued_bif_data c words p).0 in
      Continues (next_cycle p) p p' (next_cycle p')
unfolding process_queued_bif_data stream_in_order
process_queued_bif_data-Continues c [] p mode b ok = silent _ _ p p refl refl b
process_queued_bif_data-Continues c (w ∷ []) p mode b ok = elim (Bool-cases (is_single w)) [
  | inl s ↦ rw s (single-Continues c w p mode b ok)
  | inr d ↦ rw d (Quiet-Continues p (put_back c w p) b (put_back-Quiet c w p))
]
process_queued_bif_data-Continues c (w ∷ w2 ∷ words) p mode b ok = elim (Bool-cases (is_single w)) [
  | inl s ↦
      let q = write_word1 c w (single_word c w p) in
      let one = single-Continues c w p mode b (rest_in_order c w w2 words p ok).0 in
      rw s (
        Continues-trans (next_cycle p) (next_cycle q) _ p q _ one (
          process_queued_bif_data-Continues c (w2 ∷ words) q mode one.word
            (rw s at (rest_in_order c w w2 words p ok).1)))
  | inr d ↦
      let q = write_word2 c w2 (trigger_word2 c w w2 (write_word1 c w p)) in
      let one = Quiet-Continues p q b (double-Quiet c w w2 p) in
      rw d (
        Continues-trans (next_cycle p) (next_cycle q) _ p q _ one (
          process_queued_bif_data-Continues c words q mode one.word
            (rw d at (rest_in_order c w w2 words p ok).1)))
]
