-- ===== src/TriggerJoin/Matches.antt =====
-- What the loop of `DoReceive` of CaliceDataCollector.cc writes, against the list of all pairs.
use eudaq_ahcal.Base.{
  ℕ, zero, suc, ◌+◌, ◌≤◌, ◌<◌, List, [], ◌∷◌, ◌++◌, ◌≡◌, refl, sym, ap, ◌∙◌, arith, Bool, true,
  false, ◌||◌, ◌==◌, if◌then◌else◌, Bool-cases, inl, inr, ltb, length, All,
}
use eudaq_ahcal.TriggerJoin.{Tags, Pair, Joined, pair, join}

module _ {E : Type 0} where
  abbrev pub is_empty : List E → Bool
  is_empty [] = true
  is_empty (e ∷ q) = false

module _ {E : Type 0} (t : Tags E) where
  -- The pairs of one event with every event of the other queue that has its trigger number.
  abbrev pub pairs_of : E → List E → List (Pair E)
  pairs_of e [] = []
  pairs_of e (f ∷ r) =
      let rest = pairs_of e r in if t.trigger_n e == t.trigger_n f then pair t e f ∷ rest else rest

  -- All pairs of events with the same trigger number.
  abbrev pub matches : List E → List E → List (Pair E)
  matches [] q_cal = []
  matches (e ∷ q) q_cal = pairs_of e q_cal ++ matches q q_cal

  abbrev pub AllAbove : ℕ → List E → Type 0
  AllAbove n = All (λ e. n < t.trigger_n e)

  -- The trigger numbers rise strictly.
  abbrev pub Rises : List E → Type 0
  Rises [] = Unit
  Rises (e ∷ q) = AllAbove (t.trigger_n e) q × Rises q

  AllAbove-trans : (m n : ℕ) (q : List E) → m ≤ n → AllAbove n q → AllAbove m q
  AllAbove-trans m n [] le h = tt
  AllAbove-trans m n (e ∷ q) le h = (omega (arith, le, h.0), AllAbove-trans m n q le h.1)

  pairs_of_above : (e : E) (q : List E) → AllAbove (t.trigger_n e) q → pairs_of e q ≡ []
  pairs_of_above e [] h = refl
  pairs_of_above e (f ∷ r) h = let rest = pairs_of_above e r h.1 in ground (arith, h.0, rest)

  matches_above :
      (f : E) (q r : List E) → AllAbove (t.trigger_n f) q → matches q (f ∷ r) ≡ matches q r
  matches_above f [] r h = refl
  matches_above f (e ∷ q) r h =
      let rest = matches_above f q r h.1 in
      let other : (t.trigger_n e == t.trigger_n f) ≡ false = ground (arith, h.0) in
      rw other (ap (λ l. pairs_of e r ++ l) rest)

  matches_nil : (q : List E) → matches q [] ≡ []
  matches_nil [] = refl
  matches_nil (e ∷ q) = matches_nil q

  abbrev pub LacksOne : Joined E → Type 0
  LacksOne j = (is_empty j.left_bif || is_empty j.left_cal) ≡ true

  -- Whatever the trigger numbers are, a queue is empty in the end.
  pub join-LacksOne :
      (turns : ℕ) (q r : List E) → length q + length r ≤ turns → LacksOne (join t turns q r)
  unfolding join
  join-LacksOne zero [] r le = refl
  join-LacksOne zero (e ∷ q) r le = absurd (omega (arith, le))
  join-LacksOne (suc turns) [] r le = refl
  join-LacksOne (suc turns) (e ∷ q) [] le = refl
  join-LacksOne (suc turns) (e ∷ q) (f ∷ r) le =
      elim (Bool-cases (ltb (t.trigger_n f) (t.trigger_n e))) [
        | inl later ↦ rw later (join-LacksOne turns (e ∷ q) r (omega (arith, le)))
        | inr up ↦ elim (Bool-cases (ltb (t.trigger_n e) (t.trigger_n f))) [
          | inl earlier ↦ rw (up, earlier) (join-LacksOne turns q (f ∷ r) (omega (arith, le)))
          | inr down ↦ rw (up, down) (join-LacksOne turns q r (omega (arith, le)))
        ]
      ]

  join_written :
      (turns : ℕ) (q r : List E)
      → Rises q
      → Rises r
      → length q + length r ≤ turns
      → (join t turns q r).written ≡ matches q r
  unfolding join
  join_written zero [] r hq hr le = refl
  join_written zero (e ∷ q) r hq hr le = absurd (omega (arith, le))
  join_written (suc turns) [] r hq hr le = refl
  join_written (suc turns) (e ∷ q) [] hq hr le = sym (matches_nil q)
  join_written (suc turns) (e ∷ q) (f ∷ r) hq hr le =
      elim (Bool-cases (ltb (t.trigger_n f) (t.trigger_n e))) [
        | inl later ↦
            let lower : t.trigger_n f < t.trigger_n e = ground (arith, later) in
            let rest = join_written turns (e ∷ q) r hq hr.1 (omega (arith, le)) in
            rw later (
              rest
              ∙ sym (
                  matches_above f (e ∷ q) r
                    (lower, AllAbove-trans _ _ q (omega (arith, lower)) hq.0)))
        | inr up ↦ elim (Bool-cases (ltb (t.trigger_n e) (t.trigger_n f))) [
          | inl earlier ↦
              let lower : t.trigger_n e < t.trigger_n f = ground (arith, earlier) in
              let rest = join_written turns q (f ∷ r) hq.1 hr (omega (arith, le)) in
              rw (up, earlier)
                (rest
                  ∙ ap (λ l. l ++ matches q (f ∷ r))
                      (sym (
                        pairs_of_above e (f ∷ r)
                          (lower, AllAbove-trans _ _ r (omega (arith, lower)) hr.0))))
          | inr down ↦
              let same : t.trigger_n e ≡ t.trigger_n f = ground (arith, up, down) in
              let rest = join_written turns q r hq.1 hr.1 (omega (arith, le)) in
              let equal : (t.trigger_n e == t.trigger_n f) ≡ true = ground (arith, up, down) in
              let above_bif : AllAbove (t.trigger_n f) q =
                AllAbove-trans _ _ q (omega (arith, same)) hq.0 in
              let above_cal : AllAbove (t.trigger_n e) r =
                AllAbove-trans _ _ r (omega (arith, same)) hr.0 in
              rw (up, down, equal, pairs_of_above e r above_cal, matches_above f q r above_bif)
                (ap (λ l. pair t e f ∷ l) rest)
        ]
      ]

  -- If the trigger numbers rise strictly in both queues, the loop of `DoReceive` returns after at most as
  -- many turns as events are queued: one queue is then empty, and the written events are exactly the
  -- pairs of an event of the BIF and one of the AHCAL with the same trigger number, in order, so that an
  -- event popped alone has no partner in the other queue.
  pub join-matches :
      (turns : ℕ) (q_bif q_cal : List E)
      → Rises q_bif
      → Rises q_cal
      → length q_bif + length q_cal ≤ turns
      → ((join t turns q_bif q_cal).written ≡ matches q_bif q_cal)
        × LacksOne (join t turns q_bif q_cal)
  join-matches turns q_bif q_cal h_bif h_cal le =
      (join_written turns q_bif q_cal h_bif h_cal le, join-LacksOne turns q_bif q_cal le)
