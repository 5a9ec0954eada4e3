-- ===== src/BxidSync/Merge/Turn.antt =====
-- What one turn of the loop takes from a queue in rising order.
use eudaq_ahcal.Base.{
  ℕ, suc, ◌^◌, ◌≤◌, ◌<◌, List, [], ◌∷◌, ◌≡◌, ◌≢◌, refl, sym, subst, ◌∙◌, arith, Bool, true, false,
  not, ◌&&◌, ◌||◌, ◌==◌, leb, Bool-cases, inl, inr, All,
}
use eudaq_ahcal.Base.Words.{add32}
use eudaq_ahcal.BxidSync.{
  Tags, invalid, Front, waits, unreadable, stands, is_unreadable, front_of, take_front, is_empty,
}
use eudaq_ahcal.BxidSync.Lowest.{moment, moment-lt}
use eudaq_ahcal.BxidSync.Merge.{AtKey, moment_of, is_rising}

module _ {E : Type 0} (t : Tags E) (l : Bool) (off : ℕ) where
  -- What a front shows of its queue.
  abbrev pub Shows : Front E → List E → Type 0
  Shows waits q = Unit {0}
  Shows (unreadable e q') [] = Unit {0}
  Shows (unreadable e q') (e' ∷ q) = (is_unreadable t l e ≡ true) × (e' ≡ e) × (q ≡ q')
  Shows (stands r x) [] = (r ≡ invalid) × (x ≡ invalid)
  Shows (stands r x) (e ∷ q) =
      (is_unreadable t l e ≡ false) × (r ≡ add32 (t.roc e) off) × (x ≡ t.bxid e)

  pub front_of-Shows : (a : Bool) (q : List E) → Shows (front_of t l a off q) q
  unfolding front_of
  front_of-Shows true [] = tt
  front_of-Shows false [] = (refl, refl)
  front_of-Shows a (e ∷ q) = elim (Bool-cases (is_unreadable t l e)) [
    | inl u ↦ rw (u, u) (refl, refl, refl)
    | inr u ↦ rw (u, u) (refl, refl, refl)
  ]

  -- At the first key, what is taken has the key, what stays is later, and a queue whose front has the
  -- key gives an event that is not before `n`.
  pub record Takes (n r x s y : ℕ) (taken left : List E) : Type 0 where
    pub at_key : All (AtKey t off (r, x)) taken
    pub later : is_rising t l off (suc (moment (r, x))) left ≡ true
    pub hits : (not (s == r && y == x) || (not (is_empty taken) && leb n (moment (r, x)))) ≡ true

  is_rising-readable :
      (n : ℕ) (e : E) (q : List E)
      → is_unreadable t l e ≡ false
      → is_rising t l off n (e ∷ q)
        ≡ (leb n (moment_of t off e) && is_rising t l off (suc (moment_of t off e)) q)
  is_rising-readable n e q u = rw u refl

  both : (a b : Bool) → (a && b) ≡ true → (a ≡ true) × (b ≡ true)
  both a b h = ground arith

  Rises-head :
      (n m : ℕ) (e : E) (q : List E)
      → is_unreadable t l e ≡ false
      → moment_of t off e ≡ m
      → is_rising t l off n (e ∷ q) ≡ true
      → (leb n m ≡ true) × (is_rising t l off (suc m) q ≡ true)
  Rises-head n m e q u em up =
      subst (λ m. (leb n m ≡ true) × (is_rising t l off (suc m) q ≡ true)) em
        (both _ _ (sym (is_rising-readable n e q u) ∙ up))

  -- A queue that rises from `n` on and whose front is later than `m` rises from after `m` on.
  Rises-after :
      (n m : ℕ) (e : E) (q : List E)
      → is_unreadable t l e ≡ false
      → m < moment_of t off e
      → is_rising t l off n (e ∷ q) ≡ true
      → is_rising t l off (suc m) (e ∷ q) ≡ true
  Rises-after n m e q u lt up =
      is_rising-readable (suc m) e q u
      ∙ conj _ _ (ground (arith, lt)) (Rises-head n (moment_of t off e) e q u refl up).1
    where
      conj : (a b : Bool) → a ≡ true → b ≡ true → (a && b) ≡ true
      conj a b p q = ground arith

  pub take_front-Takes :
      (n r x s y : ℕ) (q : List E)
      → r < 2 ^ 32
      → x < 2 ^ 32
      → x ≢ invalid
      → moment (r, x) ≤ moment (s, y)
      → Shows (stands s y) q
      → is_rising t l off n q ≡ true
      → Takes n r x s y (take_front r x s y q).0 (take_front r x s y q).1
  unfolding take_front
  take_front-Takes n r x s y [] hr hx ne le sh up = record {
    at_key = tt;
    later = refl;
    hits = ground (arith, sh.1, ne);
  }
  take_front-Takes n r x s y (e ∷ q) hr hx ne le sh up = elim (Bool-cases (s == r && y == x)) [
    | inl hit ↦
        let er : add32 (t.roc e) off ≡ r = ground (arith, hit, sh.1) in
        let ex : t.bxid e ≡ x = ground (arith, hit, sh.2) in
        let rest = Rises-head n (moment (r, x)) e q sh.0 (omega (arith, er, ex)) up in
        rw hit (record { at_key = ((er, ex), tt); later = rest.1; hits = rw (hit, rest.0) refl })
    | inr miss ↦
        let lt : moment (r, x) < moment_of t off e = omega (
          arith,
          moment-lt r x s y hr hx (omega (arith, sh.1)) (omega (arith, sh.2, t.bxid_is_int e)) le
              miss,
          sh.1,
          sh.2,
        ) in
        rw miss (record {
          at_key = tt;
          later = Rises-after n (moment (r, x)) e q sh.0 lt up;
          hits = rw miss refl;
        })
  ]
