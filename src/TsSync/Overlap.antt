-- ===== src/TsSync/Overlap.antt =====
-- What the loop of `DoReceive` of CaliceTsDataCollector.cc takes from its two queues.
use eudaq_ahcal.Base.{
  ℕ, zero, suc, List, [], ◌∷◌, ◌++◌, ◌≡◌, refl, subst, Option, some, Bool-cases, Option-cases, inl,
  inr, ltb,
}
use eudaq_ahcal.Base.Words.{add32}
use eudaq_ahcal.TsSync.{Tags, Side, Collector, Sync, join_side, turn, turn_on, build_timestamp}

module _ {E : Type 0} where
  -- `Splits q xs q'`: a front part of `q` is taken and leaves `q'`; its events occur in `xs`, in order.
  pub data Splits : List E → List (Option E) → List E → Type 0 where
    done : {q : List E} → Splits q [] q
    takes :
        {q q' : List E} {xs : List (Option E)} (e : E)
        → Splits q xs q'
        → Splits (e ∷ q) (some e ∷ xs) q'
    skips :
        {q q' : List E} {xs : List (Option E)} (x : Option E)
        → Splits q xs q'
        → Splits q (x ∷ xs) q'

  pub Splits-trans :
      {q q' q'' : List E} {xs ys : List (Option E)}
      → Splits q xs q'
      → Splits q' ys q''
      → Splits q (xs ++ ys) q''
  Splits-trans done h = h
  Splits-trans (takes e g) h = takes e (Splits-trans g h)
  Splits-trans (skips x g) h = skips x (Splits-trans g h)

  pub skips_all : (q : List E) (xs : List (Option E)) → Splits q xs q
  skips_all q [] = done
  skips_all q (x ∷ xs) = skips x (skips_all q xs)

  pub join_side-Splits :
      (b e tb te : ℕ) (ev : E) (q : List E) (s : Side E)
      → s.que ≡ ev ∷ q
      → Splits s.que (join_side b e tb te ev q s).0 (join_side b e tb te ev q s).1.que
  unfolding join_side
  join_side-Splits b e tb te ev q s p = elim (Bool-cases (ltb b te)) [
    | inl now ↦ rw (p, now) (takes ev done)
    | inr later ↦ elim (Bool-cases (ltb tb s.ts_end_last)) [
      | inl again ↦ rw (later, again) (skips s.ev_last done)
      | inr alone ↦ rw (later, alone) done
    ]
  ]

  abbrev pub subs_of : List (Sync E) → List (Option E)
  subs_of [] = []
  subs_of (s ∷ ss) = s.subs ++ subs_of ss

  -- The written events carry consecutive numbers.
  abbrev pub AreNumbered : ℕ → List (Sync E) → Type 0
  AreNumbered n [] = Unit
  AreNumbered n (s ∷ ss) = (s.event_n ≡ n) × AreNumbered (add32 n 1) ss

  -- What was written between two states.
  pub record Joins (c : Collector E) (ss : List (Sync E)) (c' : Collector E) : Type 0 where
    pub cal_joined : Splits c.cal.que (subs_of ss) c'.cal.que
    pub bif_joined : Splits c.bif.que (subs_of ss) c'.bif.que
    pub numbered : AreNumbered c.ev_n ss

  pub record JoinsOne (c : Collector E) (s : Sync E) (c' : Collector E) : Type 0 where
    pub cal_one : Splits c.cal.que s.subs c'.cal.que
    pub bif_one : Splits c.bif.que s.subs c'.bif.que
    pub number : s.event_n ≡ c.ev_n
    pub next_number : c'.ev_n ≡ add32 c.ev_n 1

module _ {E : Type 0} (t : Tags E) where
  turn-JoinsOne :
      (e : E) (q : List E) (f : E) (r : List E) (c : Collector E)
      → c.cal.que ≡ e ∷ q
      → c.bif.que ≡ f ∷ r
      → JoinsOne c (turn t e q f r c).0 (turn t e q f r c).1
  unfolding turn
  turn-JoinsOne e q f r c pc pb = record {
    cal_one = Splits-trans (skips_all c.cal.que _) (join_side-Splits _ _ _ _ e q c.cal pc);
    bif_one = Splits-trans (join_side-Splits _ _ _ _ f r c.bif pb) (skips_all _ _);
    number = refl;
    next_number = refl;
  }

  -- A turn is one only on two queues that are not empty.
  pub turn_on-split :
      (qc qb : List E) (c : Collector E) (step : Sync E × Collector E)
      → turn_on t qc qb c ≡ some step
      → (e : E) × (q : List E) × (f : E) × (r : List E) × (qc ≡ e ∷ q)
        × (qb ≡ f ∷ r)
        × (turn t e q f r c ≡ step)
  turn_on-split [] qb c step p = absurd (cc)
  turn_on-split (e ∷ q) [] c step p = absurd (cc)
  turn_on-split (e ∷ q) (f ∷ r) c step p = (e, q, f, r, refl, refl, cc)

  pub build-Joins :
      (turns : ℕ) (c : Collector E)
      → Joins c (build_timestamp t turns c).0 (build_timestamp t turns c).1
  unfolding build_timestamp
  build-Joins zero c = record { cal_joined = done; bif_joined = done; numbered = tt }
  build-Joins (suc turns) c = elim (Option-cases (turn_on t c.cal.que c.bif.que c)) [
    | inl p ↦
        rw (build_timestamp, p) (record { cal_joined = done; bif_joined = done; numbered = tt })
    | inr (step, p) ↦
        let (e, q, f, r, pc, pb, now) = turn_on-split c.cal.que c.bif.que c step p in
        let one : JoinsOne c step.0 step.1 =
          subst (λ x. JoinsOne c x.0 x.1) now (turn-JoinsOne e q f r c pc pb) in
        let rest = build-Joins turns step.1 in
        rw (build_timestamp, p)
          (record {
            cal_joined = Splits-trans one.cal_one rest.cal_joined;
            bif_joined = Splits-trans one.bif_one rest.bif_joined;
            numbered = (
              one.number,
              subst (λ n. AreNumbered n (build_timestamp t turns step.1).0) one.next_number
                  rest.numbered,
            );
          })
  ]
