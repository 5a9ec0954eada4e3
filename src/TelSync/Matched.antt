-- ===== src/TelSync/Matched.antt =====
-- The telescope's sub-events in what CaliceTelDataCollector.cc writes.
use eudaq_ahcal.Base.{
  ℕ, zero, suc, List, [], ◌∷◌, ◌≡◌, refl, subst, arith, Option, none, some, ◌==◌, Bool-cases,
  Option-cases, inl, inr, ltb, All, All-append,
}
use eudaq_ahcal.Base.Words.{add32}
use eudaq_ahcal.TelSync.{Tags, Collector, Sync, last_again, catch_up, match_tel, finish, turn}
use eudaq_ahcal.TelSync.Loop.{turn_on, build}
use eudaq_ahcal.TelSync.Splits.{turn_on-split}

module _ {E : Type 0} (t : Tags E) where
  -- A sub-event of the telescope with this number.
  abbrev pub HasEventN : ℕ → Option E → Type 0
  HasEventN n none = ⊥
  HasEventN n (some e) = t.event_n e ≡ n

  -- An event with an event number has a trigger number, and the telescope's events in it have that one;
  -- an event without holds one event of the telescope alone.
  abbrev pub IsMatched : Option ℕ → Option ℕ → List (Option E) → List (Option E) → Type 0
  IsMatched none (some n) subs tels = ⊥
  IsMatched (some tg) (some n) subs tels = All (HasEventN tg) tels
  IsMatched tr none subs tels = (subs ≡ []) × ((e : E) × (tels ≡ some e ∷ []))

  abbrev pub AreMatched : List (Sync E) → Type 0
  AreMatched = All (λ s. IsMatched s.trigger s.number s.subs s.sub_tel)

  last_again-HasEventN : (tg : ℕ) (last : Option E) → All (HasEventN tg) (last_again t tg last)
  last_again-HasEventN tg none = tt
  last_again-HasEventN tg (some l) = elim (Bool-cases (t.event_n l == tg)) [
    | inl same ↦ rw same (ground (arith, same), tt)
    | inr other ↦ rw other tt
  ]

  match_tel-HasEventN :
      (tg : ℕ) (q : List E) (last : Option E) → All (HasEventN tg) (match_tel t tg q last).0
  unfolding match_tel
  match_tel-HasEventN tg [] last = last_again-HasEventN tg last
  match_tel-HasEventN tg (e ∷ q) last = elim (Bool-cases (t.event_n e == tg)) [
    | inl same ↦ rw same (ground (arith, same), tt)
    | inr other ↦ rw other (last_again-HasEventN tg last)
  ]

  catch_up-AreMatched :
      (tg : ℕ) (q : List E) (last : Option E) (n : ℕ) → AreMatched (catch_up t tg q last n).written
  unfolding catch_up
  catch_up-AreMatched tg [] last n = tt
  catch_up-AreMatched tg (e ∷ q) last n = elim (Bool-cases (ltb (t.event_n e) tg)) [
    | inl lower ↦ rw lower ((refl, (e, refl)), catch_up-AreMatched tg q (some e) (add32 n 1))
    | inr other ↦ rw other tt
  ]

  finish-AreMatched :
      (tr : Option ℕ) (subs : List (Option E)) (times : ℕ × ℕ) (c : Collector E)
      → AreMatched (finish t tr subs times c).0
  unfolding finish
  finish-AreMatched none subs times c = tt
  finish-AreMatched (some tg) subs times c =
      All-append _ _ _ (catch_up-AreMatched tg c.que_tel c.ev_last_tel c.ev_n)
        (match_tel-HasEventN tg _ _, tt)

  turn-AreMatched :
      (e : E) (q : List E) (f : E) (r : List E) (c : Collector E) → AreMatched (turn t e q f r c).0
  unfolding turn
  turn-AreMatched e q f r c = finish-AreMatched _ _ _ _

  -- In what the loop of `DoReceive` writes, an event with an event number has a trigger number, which is
  -- the number of every event of the telescope in it; any other written event holds one event of the
  -- telescope and nothing else.
  pub build-AreMatched : (turns : ℕ) (c : Collector E) → AreMatched (build t turns c).0
  unfolding build
  build-AreMatched zero c = tt
  build-AreMatched (suc turns) c = elim (Option-cases (turn_on t c.cal.que c.bif.que c.que_tel c)) [
    | inl p ↦ rw (build, p) tt
    | inr (step, p) ↦
        let (e, q, f, r, pc, pb, now) = turn_on-split t c.cal.que c.bif.que c.que_tel c step p in
        rw (build, p)
          (All-append _ _ _ (subst (λ x. AreMatched x.0) now (turn-AreMatched e q f r c))
            (build-AreMatched turns step.1))
  ]
