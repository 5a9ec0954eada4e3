-- ===== src/Bif/Process/Numbers.antt =====
-- In the mode of one event per readout cycle, the events number the cycles without gap or repetition.
use mathlib.Core.List.{append-nil, append_assoc}
use eudaq_ahcal.Base.{
  ℕ, zero, suc, ◌^◌, ◌<◌, List, [], ◌∷◌, ◌++◌, ◌≡◌, refl, sym, ap, subst, ◌∙◌, arith, Bool, true,
  false, ◌||◌, if◌then◌else◌, leb, ◌==◌, inl, inr, ◌⊎◌,
}
use eudaq_ahcal.Base.Words.{add32, sub32}
use eudaq_ahcal.Bif.State.{roc, Settings, Event, Producer, shift5}
use eudaq_ahcal.Bif.Events.{built, build_eudaq_events, build_eudaq_events_roc, plain_event}
use eudaq_ahcal.Bif.Process.Cycles.{shutter_on_in_step}
use eudaq_ahcal.Bif.Process.{
  cycle_difference, missed_stop, start_cycle, fill_cycles, resynchronise, push_packet, shutter_on,
}

-- Events with the numbers `n`, `n + 1`, ..., up to but without `m`.
abbrev pub Numbered : ℕ → List Event → ℕ → Type 0
Numbered n [] m = n ≡ m
Numbered n (e ∷ es) m = (e.trigger_n ≡ n) × Numbered (add32 n 1) es m

Numbered-append :
    (n k m : ℕ) (es fs : List Event) → Numbered n es k → Numbered k fs m → Numbered n (es ++ fs) m
Numbered-append n k m [] fs h g = rw h g
Numbered-append n k m (e ∷ es) fs h g = (h.0, Numbered-append (add32 n 1) k m es fs h.1 g)

-- The cycle of the event that is built next.
abbrev pub next_cycle : Producer → ℕ
next_cycle p = if p.roc_started then p.readout_cycle else add32 p.readout_cycle 1

-- Only events are queued, numbered on from the next cycle to the next cycle then.
pub record Continues (from : ℕ) (p p' : Producer) (to : ℕ) : Type 0 where
  pub new : List Event
  pub queued : p'.deq_event ≡ p.deq_event ++ new
  pub numbered : Numbered from new to
  pub word : p'.readout_cycle < 2 ^ 32

pub Continues-trans :
    (n k m : ℕ) (p q r : Producer) → Continues n p q k → Continues k q r m → Continues n p r m
Continues-trans n k m p q r a b = record {
  new = a.new ++ b.new;
  queued = b.queued ∙ ap (λ l. l ++ b.new) a.queued ∙ append_assoc p.deq_event a.new b.new;
  numbered = Numbered-append n k m a.new b.new a.numbered b.numbered;
  word = b.word;
}

-- Nothing queued.
pub silent :
    (n m : ℕ) (p q : Producer)
    → q.deq_event ≡ p.deq_event
    → n ≡ m
    → q.readout_cycle < 2 ^ 32
    → Continues n p q m
silent n m p q same e w = record {
  new = [];
  queued = same ∙ sym (append-nil p.deq_event);
  numbered = e;
  word = w;
}

pub build-Continues :
    (c : Settings) (p : Producer)
    → c.event_building_mode ≡ roc
    → p.readout_cycle < 2 ^ 32
    → Continues p.readout_cycle p (build_eudaq_events c p) (add32 p.readout_cycle 1)
unfolding build_eudaq_events built build_eudaq_events_roc plain_event
build-Continues c p mode w = record {
  new = build_eudaq_events_roc c p;
  queued = ap (λ m. p.deq_event ++ built c m p) mode;
  numbered = (refl, refl);
  word = w;
}

fill_cycles-Continues :
    (c : Settings) (n : ℕ) (p : Producer)
    → c.event_building_mode ≡ roc
    → p.readout_cycle < 2 ^ 32
    → Continues p.readout_cycle p (fill_cycles c n p) (fill_cycles c n p).readout_cycle
unfolding fill_cycles build_eudaq_events
fill_cycles-Continues c zero p mode w = silent _ _ p p refl refl w
fill_cycles-Continues c (suc n) p mode w =
    let b = build_eudaq_events c p in
    let q = record b { readout_cycle = add32 p.readout_cycle 1 } in
    let k = p.readout_cycle in
    Continues-trans k (add32 k 1) _ p q _
      (Continues-trans k (add32 k 1) (add32 k 1) p b q (build-Continues c p mode w)
        (silent _ _ b q refl refl (omega arith)))
      (fill_cycles-Continues c n q mode (omega arith))

-- The jumps that are filled with events, or taken back, if the stop of the cycle before is missing.
unfoldable pub tolerated : ℕ → Producer → Bool
tolerated inputs p =
    let difference = cycle_difference inputs (add32 p.readout_cycle 1) p in
    leb difference 500 || difference == 0xfff

build_again-Continues :
    (c : Settings) (p : Producer)
    → c.event_building_mode ≡ roc
    → p.readout_cycle < 2 ^ 32
    → Continues p.readout_cycle p
        (build_eudaq_events c p)
        (add32 (build_eudaq_events c p).readout_cycle 1)
unfolding build_eudaq_events
build_again-Continues c p mode w = build-Continues c p mode w

missed_stop_cases :
    (c : Settings) (inputs : ℕ) (p : Producer)
    → tolerated inputs p ≡ true
    → (missed_stop c inputs p ≡ build_eudaq_events c p)
      ⊎ (missed_stop c inputs p ≡ record p { readout_cycle = sub32 p.readout_cycle 1 })
unfolding missed_stop tolerated
missed_stop_cases c inputs p ok = ground arith

missed_stop-Continues :
    (c : Settings) (inputs : ℕ) (p : Producer)
    → c.event_building_mode ≡ roc
    → p.readout_cycle < 2 ^ 32
    → tolerated inputs p ≡ true
    → Continues p.readout_cycle p
        (missed_stop c inputs p)
        (add32 (missed_stop c inputs p).readout_cycle 1)
missed_stop-Continues c inputs p mode w ok = elim (missed_stop_cases c inputs p ok) [
  | inl built ↦ rw built (build_again-Continues c p mode w)
  | inr back ↦ rw back (silent _ _ p _ refl (omega arith) (omega arith))
]

start_cycle_counts :
    (ts inputs : ℕ) (p : Producer)
    → p.readout_cycle < 2 ^ 32
    → ((start_cycle ts inputs p).readout_cycle ≡ add32 p.readout_cycle 1)
      × ((start_cycle ts inputs p).deq_event ≡ p.deq_event)
unfolding start_cycle
start_cycle_counts ts inputs p w = ground arith

-- Before the start itself, with the flag `started` as it was.
shutter_before-Continues :
    (c : Settings) (inputs : ℕ) (p : Producer) (started : Bool)
    → c.event_building_mode ≡ roc
    → p.readout_cycle < 2 ^ 32
    → (if started then tolerated inputs p else true) ≡ true
    → let before = if started then missed_stop c inputs p else p in
      Continues
        (if started then p.readout_cycle else add32 p.readout_cycle 1)
        p
        before
        (add32 before.readout_cycle 1)
shutter_before-Continues c inputs p true mode w ok = missed_stop-Continues c inputs p mode w ok
shutter_before-Continues c inputs p false mode w ok = silent _ _ p p refl refl w

resynchronise-Continues :
    (c : Settings) (inputs : ℕ) (p : Producer)
    → c.event_building_mode ≡ roc
    → p.readout_cycle < 2 ^ 32
    → Continues p.readout_cycle p
        (resynchronise c inputs p)
        (resynchronise c inputs p).readout_cycle
unfolding resynchronise
resynchronise-Continues c inputs p mode w =
    fill_cycles-Continues c (cycle_difference inputs p.readout_cycle p) p mode w

-- The start, the filled cycles and the packet, after whatever came before.
start-Continues :
    (c : Settings) (ts inputs : ℕ) (p : Producer)
    → c.event_building_mode ≡ roc
    → p.readout_cycle < 2 ^ 32
    → let q = resynchronise c inputs (start_cycle ts inputs p) in
      Continues
        (add32 p.readout_cycle 1)
        p
        (push_packet 0x03000000 q.readout_cycle (shift5 q.acq_start_ts) q)
        q.readout_cycle
unfolding push_packet
start-Continues c ts inputs p mode w =
    let s = start_cycle ts inputs p in
    let n = start_cycle_counts ts inputs p w in
    let q = resynchronise c inputs s in
    let filled = resynchronise-Continues c inputs s mode (omega (arith, n.0)) in
    Continues-trans _ _ _ p s _ (silent _ _ p s n.1 (sym n.0) (omega (arith, n.0))) (record {
      new = filled.new;
      queued = filled.queued;
      numbered = filled.numbered;
      word = filled.word;
    })

shutter_on-numbered :
    (c : Settings) (ts inputs : ℕ) (p : Producer)
    → c.event_building_mode ≡ roc
    → p.readout_cycle < 2 ^ 32
    → (if p.roc_started then tolerated inputs p else true) ≡ true
    → Continues (next_cycle p) p (shutter_on c ts inputs p) (shutter_on c ts inputs p).readout_cycle
unfolding shutter_on push_packet
shutter_on-numbered c ts inputs p mode w ok =
    let before = if p.roc_started then missed_stop c inputs p else p in
    let b = shutter_before-Continues c inputs p p.roc_started mode w ok in
    Continues-trans _ _ _ p before _ b (start-Continues c ts inputs before mode b.word)

pub next_cycle_open : (p : Producer) → p.roc_started ≡ true → next_cycle p ≡ p.readout_cycle
next_cycle_open p on = ground arith

-- In the mode of one event per readout cycle, a shutter-on word queues events numbered on from the next
-- cycle to the one that it opens, exactly one for each cycle that has no data, if the acquisition
-- before was stopped or the missing stop can be made good.
pub shutter_on-Continues :
    (c : Settings) (ts inputs : ℕ) (p : Producer)
    → c.event_building_mode ≡ roc
    → p.readout_cycle < 2 ^ 32
    → (if p.roc_started then tolerated inputs p else true) ≡ true
    → Continues (next_cycle p) p (shutter_on c ts inputs p) (next_cycle (shutter_on c ts inputs p))
shutter_on-Continues c ts inputs p mode w ok =
    subst (λ m. Continues (next_cycle p) p (shutter_on c ts inputs p) m)
      (sym (next_cycle_open (shutter_on c ts inputs p) (shutter_on_in_step c ts inputs p).1))
      (shutter_on-numbered c ts inputs p mode w ok)
