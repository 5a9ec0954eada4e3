-- ===== src/BxidSync/Merge/Refine.antt =====
-- The loop of `BuildEvent_bxid` implements the merge.
use eudaq_ahcal.Base.{
  ℕ, zero, suc, ◌+◌, List, [], ◌∷◌, ◌++◌, ◌≡◌, refl, sym, subst, ◌∙◌, arith, Bool, true, false,
  Option, none, some, Option-cases, inl, inr,
}
use eudaq_ahcal.BxidSync.{
  Tags, Origin, ahcal, bif, hodoscope1, hodoscope2, Producer, Collector, Outcome, Front, waits,
  unreadable, stands, is_unreadable, front,
}
use eudaq_ahcal.BxidSync.Loop.{turn_on, turn, build_event_bxid, add_outcome, waiting}
use eudaq_ahcal.BxidSync.Fifo.{que_of, all_taken, RunSplits, build_splits}
use eudaq_ahcal.BxidSync.Merge.Join.{Refines, StepRefines, Reads, join-Refines}
use eudaq_ahcal.BxidSync.Returns.{
  Tells, front_of-Tells, has_active, Progress, turn-Progress, build_returns,
}
use eudaq_ahcal.BxidSync.Merge.{
  Config, Point, config_of, point_of, is_rising, AreRising, Merges, returns, pops,
}
use eudaq_ahcal.BxidSync.Merge.Turn.{Shows, front_of-Shows}

module _ {E : Type 0} (t : Tags E) where
  rising-pop :
      (l : Bool) (off n : ℕ) (e : E) (q' q : List E)
      → Tells t false (unreadable e q') q
      → Shows t l off (unreadable e q') q
      → is_rising t l off n q ≡ true
      → is_rising t l off n q' ≡ true
  rising-pop l off n e q' [] tl sh up = absurd (omega (arith, tl))
  rising-pop l off n e q' (e' ∷ q) tl sh up =
      subst (λ q. is_rising t l off n q ≡ true) sh.2
        (sym (rw (subst (λ e. is_unreadable t l e ≡ true) (sym sh.1) sh.0) refl) ∙ up)

  unreadable-Shows :
      (a l : Bool) (off : ℕ) (e : E) (q' q : List E)
      → Tells t a (unreadable e q') q
      → Shows t l off (unreadable e q') q
      → is_unreadable t l e ≡ true
  unreadable-Shows a l off e q' [] tl sh = absurd (omega (arith, tl))
  unreadable-Shows a l off e q' (e' ∷ q) tl sh = sh.0

  turn_on-Refines :
      (a b h k : Front E) (n : ℕ) (c : Collector E)
      → has_active t c ≡ true
      → AreRising t n c
      → Reads t false c.of_ahcal a
      → Reads t true c.of_bif b
      → Reads t false c.of_hodoscope1 h
      → Reads t false c.of_hodoscope2 k
      → StepRefines t (config_of c) (point_of n c) (turn_on t a b h k c)
  turn_on-Refines waits b h k n c busy up ra rb rh rk = tt
  turn_on-Refines (unreadable e q) b h k n c busy up ra rb rh rk = record {
    from_now = n;
    same_config = refl;
    rises = record {
      ahcal_rises =
          rising-pop false c.of_ahcal.roc_offset n e q c.of_ahcal.que ra.0 ra.1 up.ahcal_rises;
      bif_rises = up.bif_rises;
      hodoscope1_rises = up.hodoscope1_rises;
      hodoscope2_rises = up.hodoscope2_rises;
    };
    extends = λ os p m.
        pops ahcal e os (point_of n c) p
          (unreadable-Shows false false c.of_ahcal.roc_offset e q c.of_ahcal.que ra.0 ra.1) m;
  }
  turn_on-Refines (stands ar ax) waits h k n c busy up ra rb rh rk = tt
  turn_on-Refines (stands ar ax) (unreadable e q) h k n c busy up ra rb rh rk = record {
    from_now = n;
    same_config = refl;
    rises = record {
      ahcal_rises = up.ahcal_rises;
      bif_rises = rising-pop true c.of_bif.roc_offset n e q c.of_bif.que rb.0 rb.1 up.bif_rises;
      hodoscope1_rises = up.hodoscope1_rises;
      hodoscope2_rises = up.hodoscope2_rises;
    };
    extends = λ os p m.
        pops bif e os (point_of n c) p
          (unreadable-Shows false true c.of_bif.roc_offset e q c.of_bif.que rb.0 rb.1) m;
  }
  turn_on-Refines (stands ar ax) (stands br bx) waits k n c busy up ra rb rh rk = tt
  turn_on-Refines (stands ar ax) (stands br bx) (unreadable e q) k n c busy up ra rb rh rk =
      record {
        from_now = n;
        same_config = refl;
        rises = record {
          ahcal_rises = up.ahcal_rises;
          bif_rises = up.bif_rises;
          hodoscope1_rises =
              rising-pop false c.of_hodoscope1.roc_offset n e q c.of_hodoscope1.que rh.0 rh.1
                up.hodoscope1_rises;
          hodoscope2_rises = up.hodoscope2_rises;
        };
        extends = λ os p m.
            pops hodoscope1 e os (point_of n c) p
              (unreadable-Shows false false c.of_hodoscope1.roc_offset e q c.of_hodoscope1.que rh.0
                rh.1)
              m;
      }
  turn_on-Refines (stands ar ax) (stands br bx) (stands hr hx) waits n c busy up ra rb rh rk = tt
  turn_on-Refines (stands ar ax) (stands br bx) (stands hr hx) (unreadable e q) n c busy up ra rb rh
        rk =
      record {
        from_now = n;
        same_config = refl;
        rises = record {
          ahcal_rises = up.ahcal_rises;
          bif_rises = up.bif_rises;
          hodoscope1_rises = up.hodoscope1_rises;
          hodoscope2_rises =
              rising-pop false c.of_hodoscope2.roc_offset n e q c.of_hodoscope2.que rk.0 rk.1
                up.hodoscope2_rises;
        };
        extends = λ os p m.
            pops hodoscope2 e os (point_of n c) p
              (unreadable-Shows false false c.of_hodoscope2.roc_offset e q c.of_hodoscope2.que rk.0
                rk.1)
              m;
      }
  turn_on-Refines (stands ar ax) (stands br bx) (stands hr hx) (stands kr kx) n c busy up ra rb rh
        rk =
      join-Refines t (ar, ax) (br, bx) (hr, hx) (kr, kx) n c busy up ra rb rh rk

  turn-Refines :
      (n : ℕ) (c : Collector E)
      → has_active t c ≡ true
      → AreRising t n c
      → StepRefines t (config_of c) (point_of n c) (turn t c)
  unfolding turn
  turn-Refines n c busy up =
      turn_on-Refines (front t false c.of_ahcal) (front t true c.of_bif)
        (front t false c.of_hodoscope1) (front t false c.of_hodoscope2) n c busy up
        (reads false c.of_ahcal) (reads true c.of_bif) (reads false c.of_hodoscope1)
        (reads false c.of_hodoscope2)
    where
      reads : (l : Bool) (p : Producer E) → Reads t l p (front t l p)
      reads l p = (
        front_of-Tells t l p.active p.roc_offset p.que,
        front_of-Shows t l p.roc_offset p.active p.que,
      )

  -- The run is one of the merge, and what leaves each queue is its front part, in order.
  pub record Implements (n : ℕ) (c : Collector E) (os : List (Outcome E)) (c' : Collector E)
      : Type 0 where
    pub from_now : ℕ
    pub merges : Merges t (config_of c) (point_of n c) os (point_of from_now c')
    pub rises : AreRising t from_now c'
    pub in_order : (o : Origin) → que_of o c ≡ all_taken o os ++ que_of o c'

  abbrev pub RunMerges : Config → Point → Option (List (Outcome E) × Collector E) → Type 0
  RunMerges g p none = Unit {0}
  RunMerges g p (some run) = (n : ℕ) × Merges t g p run.0 (point_of n run.1) × AreRising t n run.1

  add_outcome-merges :
      (g : Config) (p : Point) (step : Outcome E × Collector E) (f : Refines t g p step.0 step.1)
      (r : Option (List (Outcome E) × Collector E))
      → RunMerges g (point_of f.from_now step.1) r
      → RunMerges g p (add_outcome step.0 r)
  add_outcome-merges g p step f none m = tt
  add_outcome-merges g p step f (some run) m = (m.0, f.extends run.0 (point_of m.0 run.1) m.1, m.2)

  build-merges :
      (fuel n : ℕ) (c : Collector E)
      → has_active t c ≡ true
      → AreRising t n c
      → RunMerges (config_of c) (point_of n c) (build_event_bxid t fuel c)
  unfolding build_event_bxid
  build-merges zero n c busy up = tt
  build-merges (suc fuel) n c busy up = elim (Option-cases (turn t c)) [
    | inl e ↦ rw (RunMerges, e) (n, returns (point_of n c), up)
    | inr (step, e) ↦
        let f : Refines t (config_of c) (point_of n c) step.0 step.1 =
          subst (StepRefines t (config_of c) (point_of n c)) e (turn-Refines n c busy up) in
        let p : Progress t c (some step) = subst (Progress t c) e (turn-Progress t c) in
        rw (RunMerges, e)
          (add_outcome-merges (config_of c) (point_of n c) step f (build_event_bxid t fuel step.1) (
            subst (λ g. RunMerges g (point_of f.from_now step.1) (build_event_bxid t fuel step.1))
              f.same_config (build-merges fuel f.from_now step.1 (p.0 ∙ busy) f.rises)))
  ]

  -- If one of the AHCAL, the BIF and the hodoscopes is connected, and the events of each that carry a
  -- usable ROC and BXID come in strictly rising order, `BuildEvent_bxid` returns, and its run is one of
  -- the merge in the order of ROC and BXID: what it pops, throws away or writes comes out of each queue
  -- in order, a joined event has sub-events of one ROC and BXID, each later than the one before, what is
  -- written is complete and numbered without a gap, and what stays queued is later.
  pub build_event_bxid-Implements :
      (n : ℕ) (c : Collector E)
      → has_active t c ≡ true
      → AreRising t n c
      → (run : List (Outcome E) × Collector E) × (build_event_bxid t (waiting c + 1) c ≡ some run)
        × Implements n c run.0 run.1
  build_event_bxid-Implements n c busy up =
      elim (Option-cases (build_event_bxid t (waiting c + 1) c)) [
        | inl e ↦ absurd (build_returns t (waiting c + 1) c busy (omega arith) e)
        | inr (run, e) ↦
            let m : RunMerges (config_of c) (point_of n c) (some run) =
              subst (RunMerges (config_of c) (point_of n c)) e
                (build-merges (waiting c + 1) n c busy up) in
            (
              run,
              e,
              record {
                from_now = m.0;
                merges = m.1;
                rises = m.2;
                in_order = subst (RunSplits t c) e (build_splits t (waiting c + 1) c);
              },
            )
      ]
