-- ===== src/BxidSync/Merge/Join.antt =====
-- A turn of the loop that joins events is a step of the merge.
use eudaq_ahcal.Base.{
  ℕ, suc, ◌≤◌, List, [], ◌∷◌, ◌≡◌, refl, arith, Bool, true, false, not, ◌&&◌, ◌||◌, Option, none,
  some, leb, All,
}
use eudaq_ahcal.BxidSync.{
  Tags, Producer, Collector, Sync, Outcome, Front, stands, take_front, is_empty, misses, join,
  finish,
}
use eudaq_ahcal.BxidSync.Lowest.{
  IsKey, moment, has_event, first_roc, first_bxid, first_taken, first_valid, first_least,
  first_is_int,
}
use eudaq_ahcal.BxidSync.Returns.{Tells, has_active}
use eudaq_ahcal.BxidSync.Merge.{
  Config, Point, config_of, point_of, is_needed, is_incomplete, AreRising, JoinsAt, Merges, throws,
  writes,
}
use eudaq_ahcal.BxidSync.Merge.Turn.{Shows, take_front-Takes}

module _ {E : Type 0} (t : Tags E) where
  -- A turn with the outcome `x`: whatever the merge does after it, it does from `p` on.
  pub record Refines (g : Config) (p : Point) (x : Outcome E) (c : Collector E) : Type 0 where
    pub from_now : ℕ
    pub same_config : config_of c ≡ g
    pub rises : AreRising t from_now c
    pub extends :
        (os : List (Outcome E)) (q : Point)
        → Merges t g (point_of from_now c) os q
        → Merges t g p (x ∷ os) q

  abbrev pub StepRefines : Config → Point → Option (Outcome E × Collector E) → Type 0
  StepRefines g p none = Unit {0}
  StepRefines g p (some step) = Refines g p step.0 step.1

  finish-Refines :
      (m : Bool) (s : Sync E) (c : Collector E) (n : ℕ) (k : ℕ × ℕ) (g : Config)
      → config_of c ≡ g
      → JoinsAt t g n k s
      → is_incomplete g s ≡ m
      → AreRising t (suc (moment k)) c
      → Refines g (point_of n c) (finish m s c).0 (finish m s c).1
  unfolding finish
  finish-Refines true s c n k g same j i up = record {
    from_now = suc (moment k);
    same_config = same;
    rises = record {
      ahcal_rises = up.ahcal_rises;
      bif_rises = up.bif_rises;
      hodoscope1_rises = up.hodoscope1_rises;
      hodoscope2_rises = up.hodoscope2_rises;
    };
    extends = λ os q h. throws k s os (point_of n c) q j i h;
  }
  finish-Refines false s c n k g same j i up = record {
    from_now = suc (moment k);
    same_config = same;
    rises = record {
      ahcal_rises = up.ahcal_rises;
      bif_rises = up.bif_rises;
      hodoscope1_rises = up.hodoscope1_rises;
      hodoscope2_rises = up.hodoscope2_rises;
    };
    extends = λ os q h. writes k s os (point_of n c) q j i h;
  }

  leb→le : (a b : ℕ) → leb a b ≡ true → a ≤ b
  leb→le a b h = ground arith

  misses-needed : (p : Producer E) (subs : List E) → (is_needed p && is_empty subs) ≡ misses p subs
  misses-needed p subs = reorder p.evt_mandatory (is_empty subs) p.active
    where
      reorder : (m e a : Bool) → (m && a && e) ≡ (m && e && a)
      reorder m e a = ground arith

  all_misses :
      (c : Collector E) (a b h k : List E)
      → ((is_needed c.of_ahcal && is_empty a)
          || (is_needed c.of_bif && is_empty b)
          || (is_needed c.of_hodoscope1 && is_empty h)
          || (is_needed c.of_hodoscope2 && is_empty k))
        ≡ (misses c.of_ahcal a
            || misses c.of_bif b
            || misses c.of_hodoscope1 h
            || misses c.of_hodoscope2 k)
  all_misses c a b h k =
      rw
        (
          misses-needed c.of_ahcal a,
          misses-needed c.of_bif b,
          misses-needed c.of_hodoscope1 h,
          misses-needed c.of_hodoscope2 k,
        )
        refl

  one_hit :
      (ha hb hh hk na nb nh nk l : Bool)
      → (ha || (hb || (hh || (hk || false)))) ≡ true
      → (not ha || (na && l)) ≡ true
      → (not hb || (nb && l)) ≡ true
      → (not hh || (nh && l)) ≡ true
      → (not hk || (nk && l)) ≡ true
      → (l ≡ true) × ((na || nb || nh || nk) ≡ true)
  one_hit ha hb hh hk na nb nh nk l hit pa pb ph pk = ground arith

  -- What a front tells and shows of its queue.
  abbrev pub Reads : Bool → Producer E → Front E → Type 0
  Reads l p f = Tells t p.active f p.que × Shows t l p.roc_offset f p.que

  pub join-Refines :
      (a b h k : ℕ × ℕ) (n : ℕ) (c : Collector E)
      → has_active t c ≡ true
      → AreRising t n c
      → Reads false c.of_ahcal (stands a.0 a.1)
      → Reads true c.of_bif (stands b.0 b.1)
      → Reads false c.of_hodoscope1 (stands h.0 h.1)
      → Reads false c.of_hodoscope2 (stands k.0 k.1)
      → Refines (config_of c) (point_of n c) (join t a b h k c).0 (join t a b h k c).1
  unfolding join
  join-Refines a b h k n c busy up ra rb rh rk =
      let ks = a ∷ b ∷ h ∷ k ∷ [] in
      let keys : All IsKey ks = (ra.0.0, (rb.0.0, (rh.0.0, (rk.0.0, tt)))) in
      let r = first_roc ks in
      let x = first_bxid ks in
      let some_event : has_event ks ≡ true =
        ground (arith, busy, ra.0.1, ra.0.2, rb.0.1, rb.0.2, rh.0.1, rh.0.2, rk.0.1, rk.0.2) in
      let valid = first_valid ks keys some_event in
      let int = first_is_int ks keys in
      let least = first_least ks keys in
      let hit = first_taken ks keys some_event in
      let ta =
        take_front-Takes t false c.of_ahcal.roc_offset n r x a.0 a.1 c.of_ahcal.que int.0 int.1
          valid least.0 ra.1 up.ahcal_rises in
      let tb =
        take_front-Takes t true c.of_bif.roc_offset n r x b.0 b.1 c.of_bif.que int.0 int.1 valid
          least.1.0 rb.1 up.bif_rises in
      let th =
        take_front-Takes t false c.of_hodoscope1.roc_offset n r x h.0 h.1 c.of_hodoscope1.que int.0
          int.1 valid least.1.1.0 rh.1 up.hodoscope1_rises in
      let tk =
        take_front-Takes t false c.of_hodoscope2.roc_offset n r x k.0 k.1 c.of_hodoscope2.que int.0
          int.1 valid least.1.1.1.0 rk.1 up.hodoscope2_rises in
      let one =
        one_hit _ _ _ _ _ _ _ _ (leb n (moment (r, x))) hit ta.hits tb.hits th.hits tk.hits in
      finish-Refines _ _ _ n (r, x) (config_of c) refl
        (record {
          not_before = leb→le n (moment (r, x)) one.0;
          not_empty = one.1;
          ahcal_at = ta.at_key;
          bif_at = tb.at_key;
          hodoscope1_at = th.at_key;
          hodoscope2_at = tk.at_key;
        })
        (all_misses c (take_front r x a.0 a.1 c.of_ahcal.que).0
          (take_front r x b.0 b.1 c.of_bif.que).0 (take_front r x h.0 h.1 c.of_hodoscope1.que).0
          (take_front r x k.0 k.1 c.of_hodoscope2.que).0)
        (record {
          ahcal_rises = ta.later;
          bif_rises = tb.later;
          hodoscope1_rises = th.later;
          hodoscope2_rises = tk.later;
        })
