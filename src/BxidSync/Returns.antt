-- ===== src/BxidSync/Returns.antt =====
-- When the loop of `BuildEvent_bxid` returns.
use eudaq_ahcal.Base.{
  ℕ, zero, suc, ◌+◌, ◌<◌, List, [], ◌∷◌, ◌≡◌, ◌≢◌, refl, subst, ◌∙◌, arith, Bool, true, false, not,
  ◌&&◌, ◌||◌, Option, none, some, ◌==◌, if◌then◌else◌, Bool-cases, Option-cases, inl, inr, length,
  All, ltb, lt→ltb,
}
use eudaq_ahcal.BxidSync.{
  Tags, Collector, Sync, Outcome, invalid, Front, waits, unreadable, stands, is_unreadable,
  front_of, front, take_front, join, finish, is_empty,
}
use eudaq_ahcal.BxidSync.Loop.{turn_on, turn, build_event_bxid, add_outcome, waiting}
use eudaq_ahcal.BxidSync.Lowest.{
  IsKey, stands_for_event, has_event, first_roc, first_bxid, first_taken, first_valid,
}

module _ {E : Type 0} (t : Tags E) where
  -- What a front tells of its queue: a popped one shortens it, a standing one is a key.
  abbrev pub Tells : Bool → Front E → List E → Type 0
  Tells active waits q = active ≡ true
  Tells active (unreadable e q') q = suc (length q') ≡ length q
  Tells active (stands r x) q =
      IsKey (r, x)
      × (stands_for_event (r, x) ≡ not (is_empty q))
      × ((not active || not (is_empty q)) ≡ true)

  pub front_of-Tells : (l a : Bool) (off : ℕ) (q : List E) → Tells a (front_of t l a off q) q
  unfolding front_of
  front_of-Tells l true off [] = refl
  front_of-Tells l false off [] = ((omega arith, omega arith, refl), refl, refl)
  front_of-Tells l a off (e ∷ q) = elim (Bool-cases (is_unreadable t l e)) [
    | inl u ↦ rw u refl
    | inr u ↦
        rw u ((omega arith, t.bxid_is_int e, ground (arith, u)), ground (arith, u), ground arith)
  ]

  length-take_front :
      (pr px r x : ℕ) (q : List E)
      → px ≢ invalid
      → stands_for_event (r, x) ≡ not (is_empty q)
      → length (take_front pr px r x q).1 + (if r == pr && x == px then 1 else 0) ≡ length q
  unfolding take_front
  length-take_front pr px r x [] ne h = ground arith
  length-take_front pr px r x (e ∷ q) ne h = ground arith

  waiting-finish : (m : Bool) (s : Sync E) (c : Collector E) → waiting (finish m s c).1 ≡ waiting c
  unfolding finish
  waiting-finish true s c = refl
  waiting-finish false s c = refl

  one_taken :
      (a b h k : Bool) (la lb lh lk ma mb mh mk : ℕ)
      → (a || (b || (h || (k || false)))) ≡ true
      → la + (if a then 1 else 0) ≡ ma
      → lb + (if b then 1 else 0) ≡ mb
      → lh + (if h then 1 else 0) ≡ mh
      → lk + (if k then 1 else 0) ≡ mk
      → la + lb + lh + lk < ma + mb + mh + mk
  one_taken a b h k la lb lh lk ma mb mh mk hit pa pb ph pk = ground arith

  join_progress :
      (a b h k : ℕ × ℕ) (c : Collector E)
      → Tells c.of_ahcal.active (stands a.0 a.1) c.of_ahcal.que
      → Tells c.of_bif.active (stands b.0 b.1) c.of_bif.que
      → Tells c.of_hodoscope1.active (stands h.0 h.1) c.of_hodoscope1.que
      → Tells c.of_hodoscope2.active (stands k.0 k.1) c.of_hodoscope2.que
      → has_event (a ∷ b ∷ h ∷ k ∷ []) ≡ true
      → waiting (join t a b h k c).1 < waiting c
  unfolding join
  join_progress a b h k c pa pb ph pk some_event =
      let ks = a ∷ b ∷ h ∷ k ∷ [] in
      let keys : All IsKey ks = (pa.0, (pb.0, (ph.0, (pk.0, tt)))) in
      let r = first_roc ks in
      let x = first_bxid ks in
      let valid = first_valid ks keys some_event in
      rw (waiting-finish _ _ _) (
        one_taken (a.0 == r && a.1 == x) (b.0 == r && b.1 == x) (h.0 == r && h.1 == x)
          (k.0 == r && k.1 == x) _ _ _ _ _ _ _ _ (first_taken ks keys some_event)
          (length-take_front r x a.0 a.1 c.of_ahcal.que valid pa.1)
          (length-take_front r x b.0 b.1 c.of_bif.que valid pb.1)
          (length-take_front r x h.0 h.1 c.of_hodoscope1.que valid ph.1)
          (length-take_front r x k.0 k.1 c.of_hodoscope2.que valid pk.1))

  abbrev pub has_active : Collector E → Bool
  has_active c =
      c.of_ahcal.active || c.of_bif.active || c.of_hodoscope1.active || c.of_hodoscope2.active

  -- A turn that does not return makes the queues shorter, if a producer is active; a turn returns only
  -- if one is.
  abbrev pub Progress : Collector E → Option (Outcome E × Collector E) → Type 0
  Progress c none = has_active c ≡ true
  Progress c (some step) =
      (has_active step.1 ≡ has_active c)
      × ((not (has_active c) || ltb (waiting step.1) (waiting c)) ≡ true)

  has_active-finish :
      (m : Bool) (s : Sync E) (c : Collector E) → has_active (finish m s c).1 ≡ has_active c
  unfolding finish
  has_active-finish true s c = refl
  has_active-finish false s c = refl

  join_keeps_active :
      (a b h k : ℕ × ℕ) (c : Collector E) → has_active (join t a b h k c).1 ≡ has_active c
  unfolding join
  join_keeps_active a b h k c = has_active-finish _ _ _

  join-Progress :
      (a b h k : ℕ × ℕ) (c : Collector E)
      → Tells c.of_ahcal.active (stands a.0 a.1) c.of_ahcal.que
      → Tells c.of_bif.active (stands b.0 b.1) c.of_bif.que
      → Tells c.of_hodoscope1.active (stands h.0 h.1) c.of_hodoscope1.que
      → Tells c.of_hodoscope2.active (stands k.0 k.1) c.of_hodoscope2.que
      → Progress c (some (join t a b h k c))
  join-Progress a b h k c pa pb ph pk = (
    join_keeps_active a b h k c,
    elim (Bool-cases (has_active c)) [
      | inr idle ↦ rw idle refl
      | inl busy ↦
          rw
            (
              busy,
              lt→ltb _ _ (
                  join_progress a b h k c pa pb ph pk
                    (ground (arith, busy, pa.1, pa.2, pb.1, pb.2, ph.1, ph.2, pk.1, pk.2))),
            )
            refl
    ],
  )

  turn_on-Progress :
      (a b h k : Front E) (c : Collector E)
      → Tells c.of_ahcal.active a c.of_ahcal.que
      → Tells c.of_bif.active b c.of_bif.que
      → Tells c.of_hodoscope1.active h c.of_hodoscope1.que
      → Tells c.of_hodoscope2.active k c.of_hodoscope2.que
      → Progress c (turn_on t a b h k c)
  turn_on-Progress waits b h k c pa pb ph pk = ground arith
  turn_on-Progress (unreadable e q) b h k c pa pb ph pk = (refl, ground (arith, pa))
  turn_on-Progress (stands ar ax) waits h k c pa pb ph pk = ground arith
  turn_on-Progress (stands ar ax) (unreadable e q) h k c pa pb ph pk = (refl, ground (arith, pb))
  turn_on-Progress (stands ar ax) (stands br bx) waits k c pa pb ph pk = ground arith
  turn_on-Progress (stands ar ax) (stands br bx) (unreadable e q) k c pa pb ph pk =
      (refl, ground (arith, ph))
  turn_on-Progress (stands ar ax) (stands br bx) (stands hr hx) waits c pa pb ph pk = ground arith
  turn_on-Progress (stands ar ax) (stands br bx) (stands hr hx) (unreadable e q) c pa pb ph pk =
      (refl, ground (arith, pk))
  turn_on-Progress (stands ar ax) (stands br bx) (stands hr hx) (stands kr kx) c pa pb ph pk =
      join-Progress (ar, ax) (br, bx) (hr, hx) (kr, kx) c pa pb ph pk

  pub turn-Progress : (c : Collector E) → Progress c (turn t c)
  unfolding turn
  turn-Progress c =
      turn_on-Progress (front t false c.of_ahcal) (front t true c.of_bif)
        (front t false c.of_hodoscope1) (front t false c.of_hodoscope2) c
        (front_of-Tells false c.of_ahcal.active c.of_ahcal.roc_offset c.of_ahcal.que)
        (front_of-Tells true c.of_bif.active c.of_bif.roc_offset c.of_bif.que)
        (front_of-Tells false c.of_hodoscope1.active c.of_hodoscope1.roc_offset c.of_hodoscope1.que)
        (front_of-Tells false c.of_hodoscope2.active c.of_hodoscope2.roc_offset c.of_hodoscope2.que)

  add_outcome-ne-none :
      (o : Outcome E) (r : Option (List (Outcome E) × Collector E))
      → r ≢ none
      → add_outcome o r ≢ none
  add_outcome-ne-none o none h = absurd (h refl)
  add_outcome-ne-none o (some run) h = λ p. cc

  pub build_returns :
      (fuel : ℕ) (c : Collector E)
      → has_active c ≡ true
      → waiting c < fuel
      → build_event_bxid t fuel c ≢ none
  unfolding build_event_bxid
  build_returns zero c busy lt = absurd (omega (arith, lt))
  build_returns (suc fuel) c busy lt = elim (Option-cases (turn t c)) [
    | inl e ↦ rw (build_event_bxid, e) (λ p. cc)
    | inr (step, e) ↦
        let p : Progress c (some step) = subst (Progress c) e (turn-Progress c) in
        rw (build_event_bxid, e)
          (add_outcome-ne-none step.0 (build_event_bxid t fuel step.1)
            (build_returns fuel step.1 (p.0 ∙ busy) (ground (arith, p.1, busy, lt))))
  ]

  -- If none of the AHCAL, the BIF and the hodoscopes is connected, the loop of `BuildEvent_bxid` has not
  -- returned after any number of turns.
  pub build_never_returns :
      (fuel : ℕ) (c : Collector E) → has_active c ≡ false → build_event_bxid t fuel c ≡ none
  unfolding build_event_bxid
  build_never_returns zero c idle = refl
  build_never_returns (suc fuel) c idle = elim (Option-cases (turn t c)) [
    | inl e ↦ let p : has_active c ≡ true = subst (Progress c) e (turn-Progress c) in absurd (cc)
    | inr (step, e) ↦
        let p : Progress c (some step) = subst (Progress c) e (turn-Progress c) in
        rw (build_event_bxid, e, build_never_returns fuel step.1 (p.0 ∙ idle)) refl
  ]
