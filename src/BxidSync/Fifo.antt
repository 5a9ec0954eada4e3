-- ===== src/BxidSync/Fifo.antt =====
-- No event is lost, made up or overtaken: what leaves a queue is its front part, in order.
use mathlib.Core.List.{append_assoc}
use eudaq_ahcal.Base.{
  ℕ, zero, suc, List, [], ◌∷◌, ◌++◌, ◌≡◌, refl, sym, ap, subst, ◌∙◌, arith, Bool, true, false,
  Option, none, some, Bool-cases, Option-cases, inl, inr,
}
use eudaq_ahcal.BxidSync.{
  Tags, Origin, ahcal, bif, hodoscope1, hodoscope2, desytable, Collector, Sync, Outcome, discarded,
  thrown, written, Front, waits, unreadable, stands, is_unreadable, front_of, front, take_front,
  take_any, join, finish,
}
use eudaq_ahcal.BxidSync.Loop.{discard, turn_on, turn, build_event_bxid, add_outcome}

module _ {E : Type 0} where
  abbrev pub que_of : Origin → Collector E → List E
  que_of ahcal c = c.of_ahcal.que
  que_of bif c = c.of_bif.que
  que_of hodoscope1 c = c.of_hodoscope1.que
  que_of hodoscope2 c = c.of_hodoscope2.que
  que_of desytable c = c.of_desytable.que

  abbrev pub sub_of : Origin → Sync E → List E
  sub_of ahcal s = s.sub_ahcal
  sub_of bif s = s.sub_bif
  sub_of hodoscope1 s = s.sub_hodoscope1
  sub_of hodoscope2 s = s.sub_hodoscope2
  sub_of desytable s = s.sub_desytable

  -- An event popped from the queue of one producer, seen from the queue of another.
  abbrev pub popped : Origin → Origin → E → List E
  popped ahcal ahcal e = e ∷ []
  popped bif bif e = e ∷ []
  popped hodoscope1 hodoscope1 e = e ∷ []
  popped hodoscope2 hodoscope2 e = e ∷ []
  popped desytable desytable e = e ∷ []
  popped _ _ e = []

  -- What an outcome takes from the queue of a producer.
  abbrev pub taken : Origin → Outcome E → List E
  taken o (discarded p e) = popped o p e
  taken o (thrown s) = sub_of o s
  taken o (written n s) = sub_of o s

  abbrev pub all_taken : Origin → List (Outcome E) → List E
  all_taken o [] = []
  all_taken o (x ∷ os) = taken o x ++ all_taken o os

  take_front_splits :
      (pr px roc bxid : ℕ) (q : List E)
      → q ≡ (take_front pr px roc bxid q).0 ++ (take_front pr px roc bxid q).1
  unfolding take_front
  take_front_splits pr px roc bxid [] = refl
  take_front_splits pr px roc bxid (e ∷ q) = ground arith

  take_any_splits : (q : List E) → q ≡ (take_any q).0 ++ (take_any q).1
  take_any_splits [] = refl
  take_any_splits (e ∷ q) = refl

  finish_splits :
      (o : Origin) (m : Bool) (s : Sync E) (c : Collector E) (q : List E)
      → q ≡ sub_of o s ++ que_of o c
      → q ≡ taken o (finish m s c).0 ++ que_of o (finish m s c).1
  unfolding finish
  finish_splits ahcal true s c q h = h
  finish_splits ahcal false s c q h = h
  finish_splits bif true s c q h = h
  finish_splits bif false s c q h = h
  finish_splits hodoscope1 true s c q h = h
  finish_splits hodoscope1 false s c q h = h
  finish_splits hodoscope2 true s c q h = h
  finish_splits hodoscope2 false s c q h = h
  finish_splits desytable true s c q h = h
  finish_splits desytable false s c q h = h

module _ {E : Type 0} (t : Tags E) where
  -- A front that is popped is the first of its queue.
  abbrev pub Heads : Front E → List E → Type 0
  Heads waits q = Unit {0}
  Heads (unreadable e q') q = q ≡ e ∷ q'
  Heads (stands r x) q = Unit {0}

  front_of-Heads : (l a : Bool) (off : ℕ) (q : List E) → Heads (front_of t l a off q) q
  unfolding front_of
  front_of-Heads l true off [] = tt
  front_of-Heads l false off [] = tt
  front_of-Heads l a off (e ∷ q) = elim (Bool-cases (is_unreadable t l e)) [
    | inl u ↦ rw u refl
    | inr u ↦ rw u tt
  ]

  join_splits :
      (a b h k : ℕ × ℕ) (c : Collector E) (o : Origin)
      → que_of o c ≡ taken o (join t a b h k c).0 ++ que_of o (join t a b h k c).1
  unfolding join
  join_splits a b h k c ahcal = finish_splits ahcal _ _ _ _ (take_front_splits _ _ a.0 a.1 _)
  join_splits a b h k c bif = finish_splits bif _ _ _ _ (take_front_splits _ _ b.0 b.1 _)
  join_splits a b h k c hodoscope1 =
      finish_splits hodoscope1 _ _ _ _ (take_front_splits _ _ h.0 h.1 _)
  join_splits a b h k c hodoscope2 =
      finish_splits hodoscope2 _ _ _ _ (take_front_splits _ _ k.0 k.1 _)
  join_splits a b h k c desytable = finish_splits desytable _ _ _ _ (take_any_splits _)

  -- Of an outcome and the state after it.
  abbrev pub Splits : Collector E → Outcome E × Collector E → Type 0
  Splits c (x, c') = (o : Origin) → que_of o c ≡ taken o x ++ que_of o c'

  abbrev pub StepSplits : Collector E → Option (Outcome E × Collector E) → Type 0
  StepSplits c none = Unit {0}
  StepSplits c (some step) = Splits c step

  discard-Splits :
      (p : Origin) (e : E) (q : List E) (c : Collector E)
      → que_of p c ≡ e ∷ q
      → Splits c (discard p e q c)
  discard-Splits ahcal e q c h o = ground arith
  discard-Splits bif e q c h o = ground arith
  discard-Splits hodoscope1 e q c h o = ground arith
  discard-Splits hodoscope2 e q c h o = ground arith
  discard-Splits desytable e q c h o = ground arith

  turn_on_splits :
      (a b h k : Front E) (c : Collector E)
      → Heads a c.of_ahcal.que
      → Heads b c.of_bif.que
      → Heads h c.of_hodoscope1.que
      → Heads k c.of_hodoscope2.que
      → StepSplits c (turn_on t a b h k c)
  turn_on_splits waits b h k c pa pb ph pk = tt
  turn_on_splits (unreadable e q) b h k c pa pb ph pk = discard-Splits ahcal e q c pa
  turn_on_splits (stands ar ax) waits h k c pa pb ph pk = tt
  turn_on_splits (stands ar ax) (unreadable e q) h k c pa pb ph pk = discard-Splits bif e q c pb
  turn_on_splits (stands ar ax) (stands br bx) waits k c pa pb ph pk = tt
  turn_on_splits (stands ar ax) (stands br bx) (unreadable e q) k c pa pb ph pk =
      discard-Splits hodoscope1 e q c ph
  turn_on_splits (stands ar ax) (stands br bx) (stands hr hx) waits c pa pb ph pk = tt
  turn_on_splits (stands ar ax) (stands br bx) (stands hr hx) (unreadable e q) c pa pb ph pk =
      discard-Splits hodoscope2 e q c pk
  turn_on_splits (stands ar ax) (stands br bx) (stands hr hx) (stands kr kx) c pa pb ph pk =
      join_splits (ar, ax) (br, bx) (hr, hx) (kr, kx) c

  turn_splits : (c : Collector E) → StepSplits c (turn t c)
  unfolding turn
  turn_splits c =
      turn_on_splits (front t false c.of_ahcal) (front t true c.of_bif)
        (front t false c.of_hodoscope1) (front t false c.of_hodoscope2) c
        (front_of-Heads false c.of_ahcal.active c.of_ahcal.roc_offset c.of_ahcal.que)
        (front_of-Heads true c.of_bif.active c.of_bif.roc_offset c.of_bif.que)
        (front_of-Heads false c.of_hodoscope1.active c.of_hodoscope1.roc_offset c.of_hodoscope1.que)
        (front_of-Heads false c.of_hodoscope2.active c.of_hodoscope2.roc_offset c.of_hodoscope2.que)

  -- Of a whole run of the loop, if it returns.
  abbrev pub RunSplits : Collector E → Option (List (Outcome E) × Collector E) → Type 0
  RunSplits c none = Unit {0}
  RunSplits c (some run) = (o : Origin) → que_of o c ≡ all_taken o run.0 ++ que_of o run.1

  add_outcome-Splits :
      (c : Collector E) (step : Outcome E × Collector E)
      (r : Option (List (Outcome E) × Collector E))
      → Splits c step
      → RunSplits step.1 r
      → RunSplits c (add_outcome step.0 r)
  add_outcome-Splits c step none s h = tt
  add_outcome-Splits c step (some run) s h = λ o.
      s o
      ∙ ap (λ l. taken o step.0 ++ l) (h o)
      ∙ sym (append_assoc (taken o step.0) (all_taken o run.0) (que_of o run.1))

  pub build_splits : (fuel : ℕ) (c : Collector E) → RunSplits c (build_event_bxid t fuel c)
  unfolding build_event_bxid
  build_splits zero c = tt
  build_splits (suc fuel) c = elim (Option-cases (turn t c)) [
    | inl e ↦ rw (RunSplits, e) (λ o. refl)
    | inr (step, e) ↦
        rw (RunSplits, e)
          (add_outcome-Splits c step (build_event_bxid t fuel step.1)
            (subst (StepSplits c) e (turn_splits c)) (build_splits fuel step.1))
  ]
