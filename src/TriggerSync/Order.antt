-- ===== src/TriggerSync/Order.antt =====
-- What a written event is: the lowest trigger number, all fronts that have it, and nothing later.
use eudaq_ahcal.Base.{
  ℕ, ◌≤◌, ◌<◌, List, [], ◌∷◌, ◌++◌, ◌≡◌, ◌≢◌, refl, Bool, some, ltb, ◌==◌, arith, Bool-cases,
  Option-cases, inl, inr, All, ◌⊎◌,
}
use eudaq_ahcal.Base.IntMap.{IntMap, adjust, erase, Values}
use eudaq_ahcal.TriggerSync.{
  address, no_trigger, Collector, Sync, Reply, writes, front_minimum, take_fronts, has_empty_queue,
  forget_inactive, build_sync, do_receive,
}

Values-erase {κ} :
    {V : Type 0} (P : V → Type κ) (k : ℕ) (m : IntMap V) → Values P m → Values P (erase address k m)
unfolding erase
Values-erase P k [] h = h
Values-erase P k ((j, v) ∷ m) h = elim (Bool-cases (k == j)) [
  | inl e ↦ rw e h.1
  | inr e ↦ rw e (h.0, Values-erase P k m h.1)
]

Values-forget_inactive {κ} :
    {E : Type 0} (P : List E → Type κ) (ks : IntMap (Unit {0})) (m : IntMap (List E))
    → Values P m
    → Values P (forget_inactive ks m)
unfolding forget_inactive
Values-forget_inactive P [] m h = h
Values-forget_inactive P ((k, u) ∷ ks) m h = elim (Bool-cases (has_empty_queue k m)) [
  | inl e ↦ rw e (Values-forget_inactive P ks (erase address k m) (Values-erase P k m h))
  | inr e ↦ rw e (Values-forget_inactive P ks m h)
]

module _ {E : Type 0} (trigger_n : E → ℕ) where
  -- A queue in rising order of trigger numbers, all above `n`.
  abbrev pub Rising : ℕ → List E → Type 0
  Rising n [] = Unit {0}
  Rising n (e ∷ q) = (n < trigger_n e) × Rising (trigger_n e) q

  abbrev pub IsAscending : List E → Type 0
  IsAscending [] = Unit {0}
  IsAscending (e ∷ q) = Rising (trigger_n e) q

  -- The first number of a queue is at least `n`.
  abbrev pub FrontFrom : ℕ → List E → Type 0
  FrontFrom n [] = Unit {0}
  FrontFrom n (e ∷ q) = n ≤ trigger_n e

  abbrev pub Above : ℕ → List E → Type 0
  Above n = All (λ e. n < trigger_n e)

  Rising-Above : (n m : ℕ) (q : List E) → n ≤ m → Rising m q → Above n q
  Rising-Above n m [] h r = tt
  Rising-Above n m (e ∷ q) h r =
      (omega (arith, r.0), Rising-Above n (trigger_n e) q (omega (arith, r.0)) r.1)

  Rising-IsAscending : (n : ℕ) (q : List E) → Rising n q → IsAscending q
  Rising-IsAscending n [] r = tt
  Rising-IsAscending n (e ∷ q) r = r.1

  front_minimum-le :
      (start n : ℕ) (m : IntMap (List E))
      → front_minimum trigger_n start m ≡ some n
      → (n ≤ start) × Values (FrontFrom n) m
  unfolding front_minimum
  front_minimum-le start n [] h = (ground arith, tt)
  front_minimum-le start n ((k, []) ∷ m) h = absurd (cc)
  front_minimum-le start n ((k, e ∷ q) ∷ m) h = elim (Bool-cases (ltb (trigger_n e) start)) [
    | inl l ↦
        let r = front_minimum-le (trigger_n e) n m (rw l at h) in (ground (arith, r.0), (r.0, r.1))
    | inr l ↦ let r = front_minimum-le start n m (rw l at h) in (r.0, (ground (arith, r.0), r.1))
  ]

  -- A sub-event has the number; what stays is above it.
  take_fronts-Above :
      (n : ℕ) (m : IntMap (List E))
      → Values (FrontFrom n) m
      → Values IsAscending m
      → All (λ e. trigger_n e ≡ n) (take_fronts trigger_n n m).0
        × Values (Above n) (take_fronts trigger_n n m).1
        × Values IsAscending (take_fronts trigger_n n m).1
  unfolding take_fronts
  take_fronts-Above n [] f a = (tt, tt, tt)
  take_fronts-Above n ((k, []) ∷ m) f a =
      let r = take_fronts-Above n m f.1 a.1 in (r.0, (tt, r.1), (tt, r.2))
  take_fronts-Above n ((k, e ∷ q) ∷ m) f a =
      let r = take_fronts-Above n m f.1 a.1 in
      elim (Bool-cases (trigger_n e == n)) [
        | inl h ↦ rw h (
          (ground arith, r.0),
          (Rising-Above n (trigger_n e) q f.0 a.0, r.1),
          (Rising-IsAscending (trigger_n e) q a.0, r.2),
        )
        | inr h ↦
            rw h (r.0, ((ground arith, Rising-Above n (trigger_n e) q f.0 a.0), r.1), (a.0, r.2))
      ]

  front_minimum-taken :
      (start n : ℕ) (m : IntMap (List E))
      → front_minimum trigger_n start m ≡ some n
      → (n ≡ start) ⊎ ((take_fronts trigger_n n m).0 ≢ [])
  unfolding front_minimum take_fronts
  front_minimum-taken start n [] h = inl (ground arith)
  front_minimum-taken start n ((k, []) ∷ m) h = absurd (cc)
  front_minimum-taken start n ((k, e ∷ q) ∷ m) h = elim (Bool-cases (trigger_n e == n)) [
    | inl hit ↦ rw hit (inr (λ p. cc))
    | inr miss ↦ rw miss (elim (Bool-cases (ltb (trigger_n e) start)) [
      | inl l ↦ elim (front_minimum-taken (trigger_n e) n m (rw l at h)) [
        | inl same ↦ absurd (ground arith)
        | inr some_taken ↦ inr some_taken
      ]
      | inr l ↦ front_minimum-taken start n m (rw l at h)
    ])
  ]

  -- The numbers are proper `uint32_t` numbers, below the one that stands for none.
  abbrev pub FrontIsNumber : List E → Type 0
  FrontIsNumber [] = Unit {0}
  FrontIsNumber (e ∷ q) = trigger_n e < no_trigger

  taken-ne-nil :
      (n : ℕ) (m : IntMap (List E))
      → m ≢ []
      → Values FrontIsNumber m
      → front_minimum trigger_n no_trigger m ≡ some n
      → (take_fronts trigger_n n m).0 ≢ []
  unfolding front_minimum
  taken-ne-nil n [] ne num h = absurd (ne refl)
  taken-ne-nil n ((k, []) ∷ m) ne num h = absurd (cc)
  taken-ne-nil n ((k, e ∷ q) ∷ m) ne num h =
      let low = front_minimum-le no_trigger n ((k, e ∷ q) ∷ m) h in
      elim (front_minimum-taken no_trigger n ((k, e ∷ q) ∷ m) h) [
        | inl same ↦ absurd (omega (arith, low.1.0, num.0))
        | inr taken ↦ taken
      ]

adjust-ne-nil :
    {V : Type 0} (k : ℕ) (d : V) (f : V → V) (m : IntMap V) → adjust address k d f m ≢ []
unfolding adjust
adjust-ne-nil k d f [] = λ p. cc
adjust-ne-nil k d f ((j, v) ∷ m) = ground arith

-- The queues once the event is put in.
abbrev pub received : {E : Type 0} → ℕ → E → Collector E → IntMap (List E)
received idx ev c = adjust address idx [] (λ q. q ++ ev ∷ []) c.conn_evque

-- What the collector may write: sub-events of one number, at least one of them, every event that
-- stays above that number, and the queues still in rising order.
pub record InOrder (E : Type 0) (trigger_n : E → ℕ) (s : Sync E) (c : Collector E) : Type 0 where
  pub numbers : All (λ e. trigger_n e ≡ s.sync_trigger_n) s.sub_events
  pub filled : s.sub_events ≢ []
  pub later : Values (Above trigger_n s.sync_trigger_n) c.conn_evque
  pub ascending : Values (IsAscending trigger_n) c.conn_evque

-- A reply that writes, if there is one, is in order.
abbrev pub ReplyInOrder : {E : Type 0} → (E → ℕ) → Collector E × Reply E → Type 0
ReplyInOrder trigger_n (c, writes s) = InOrder _ trigger_n s c
ReplyInOrder trigger_n (c, _) = Unit {0}

module _ {E : Type 0} (trigger_n : E → ℕ) (is_flag_trigger : E → Bool) where
  build_sync-InOrder :
      (n : ℕ) (c : Collector E)
      → c.conn_evque ≢ []
      → Values (IsAscending trigger_n) c.conn_evque
      → Values (FrontIsNumber trigger_n) c.conn_evque
      → front_minimum trigger_n no_trigger c.conn_evque ≡ some n
      → ReplyInOrder trigger_n (build_sync trigger_n n c)
  unfolding build_sync
  build_sync-InOrder n c ne asc num h =
      let m = c.conn_evque in
      let low = front_minimum-le trigger_n no_trigger n m h in
      let t = take_fronts-Above trigger_n n m low.1 asc in
      record {
        numbers = t.0;
        filled = taken-ne-nil trigger_n n m ne num h;
        later =
            Values-forget_inactive (Above trigger_n n) c.conn_inactive (take_fronts trigger_n n m).1
              t.1;
        ascending =
            Values-forget_inactive (IsAscending trigger_n) c.conn_inactive
              (take_fronts trigger_n n m).1 t.2;
      }

  -- If, with the new event, every queue is in rising order of trigger numbers and starts with a number
  -- below 2 ^ 32 - 1, whatever is then written joins at least one event, all of its trigger number, and
  -- leaves only later events in the queues, still in rising order.
  pub do_receive-InOrder :
      (idx : ℕ) (ev : E) (c : Collector E)
      → Values (IsAscending trigger_n) (received idx ev c)
      → Values (FrontIsNumber trigger_n) (received idx ev c)
      → ReplyInOrder trigger_n (do_receive trigger_n is_flag_trigger idx ev c)
  unfolding do_receive
  do_receive-InOrder idx ev c asc num = elim (Bool-cases (is_flag_trigger ev)) [
    | inr no_flag ↦ rw no_flag tt
    | inl flag ↦
        rw flag (elim (Option-cases (front_minimum trigger_n no_trigger (received idx ev c))) [
          | inl e ↦ rw e tt
          | inr (n, e) ↦ rw e (
              build_sync-InOrder n (record c { conn_evque = received idx ev c })
                (adjust-ne-nil idx [] (λ q. q ++ ev ∷ []) c.conn_evque) asc num e)
        ])
  ]
