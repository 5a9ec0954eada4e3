-- ===== src/TriggerSync/Conserve.antt =====
-- No event is lost, made up or joined twice.
use mathlib.Core.List.{Perm, perm_append_comm, perm_middle, append_assoc}
use mathlib.Core.List.Perm
use eudaq_ahcal.Base.{
  ℕ, List, [], ◌∷◌, ◌++◌, ◌≡◌, refl, sym, subst, ◌∙◌, Bool, true, some, ltb, ◌==◌, arith,
  Bool-cases, Option-cases, inl, inr,
}
use eudaq_ahcal.Base.IntMap.{IntMap, lookup, adjust, erase}
use eudaq_ahcal.TriggerSync.{
  address, no_trigger, Collector, Reply, throws, waits, drops, writes, front_minimum, take_fronts,
  has_empty_queue, forget_inactive, build_sync, do_receive, drop_small, alpide_do_receive,
}

module _ {E : Type 0} where
  -- All events in the queues.
  abbrev pub queued : IntMap (List E) → List E
  queued [] = []
  queued ((k, q) ∷ m) = q ++ queued m

  -- The events that leave with a reply.
  abbrev pub joined : Reply E → List E
  joined throws = []
  joined waits = []
  joined (drops s) = s.sub_events
  joined (writes s) = s.sub_events

  -- A list moved behind the one before it.
  swap_front : (xs ys zs : List E) → Perm (xs ++ (ys ++ zs)) (ys ++ (xs ++ zs))
  swap_front xs ys zs = subst (Perm (xs ++ (ys ++ zs))) (append_assoc ys xs zs) (
      subst (λ l. Perm l ((ys ++ xs) ++ zs)) (append_assoc xs ys zs)
        (Perm.append_right zs (perm_append_comm xs ys)))

  queued-push :
      (k : ℕ) (ev : E) (m : IntMap (List E))
      → Perm (queued (adjust address k [] (λ q. q ++ ev ∷ []) m)) (ev ∷ queued m)
  unfolding adjust
  queued-push k ev [] = Perm.refl (ev ∷ [])
  queued-push k ev ((j, q) ∷ m) = elim (Bool-cases (k == j)) [
    | inl e ↦ rw e (
        subst (λ l. Perm l (ev ∷ (q ++ queued m))) (sym (append_assoc q (ev ∷ []) (queued m)))
          (perm_middle q (queued m)))
    | inr e ↦ rw e (elim (Bool-cases (ltb k j)) [
      | inl l ↦ rw l (Perm.refl (ev ∷ (q ++ queued m)))
      | inr l ↦
          rw l (Perm.trans (Perm.append_left q (queued-push k ev m)) (perm_middle q (queued m)))
    ])
  ]

  queued-erase :
      (k : ℕ) (m : IntMap (List E))
      → lookup address k m ≡ some []
      → queued (erase address k m) ≡ queued m
  unfolding lookup erase
  queued-erase k [] h = refl
  queued-erase k ((j, q) ∷ m) h = ground (arith, queued-erase k m)

  has_empty_lem :
      (k : ℕ) (m : IntMap (List E)) → has_empty_queue k m ≡ true → lookup address k m ≡ some []
  unfolding has_empty_queue
  has_empty_lem k m h = ground arith

  queued-forget_inactive :
      (ks : IntMap (Unit {0})) (m : IntMap (List E)) → queued (forget_inactive ks m) ≡ queued m
  unfolding forget_inactive
  queued-forget_inactive [] m = refl
  queued-forget_inactive ((k, u) ∷ ks) m = elim (Bool-cases (has_empty_queue k m)) [
    | inl h ↦
        rw h
          (queued-forget_inactive ks (erase address k m) ∙ queued-erase k m (has_empty_lem k m h))
    | inr h ↦ rw h (queued-forget_inactive ks m)
  ]

module _ {E : Type 0} (trigger_n : E → ℕ) where
  queued-take_fronts :
      (n : ℕ) (m : IntMap (List E))
      → Perm (queued m) ((take_fronts trigger_n n m).0 ++ queued (take_fronts trigger_n n m).1)
  unfolding take_fronts
  queued-take_fronts n [] = Perm.nil
  queued-take_fronts n ((k, []) ∷ m) = queued-take_fronts n m
  queued-take_fronts n ((k, e ∷ q) ∷ m) =
      let (subs, m') = take_fronts trigger_n n m in
      elim (Bool-cases (trigger_n e == n)) [
        | inl h ↦ rw h (
            Perm.cons e (
              Perm.trans (Perm.append_left q (queued-take_fronts n m))
                (swap_front q subs (queued m'))))
        | inr h ↦ rw h (
            Perm.trans (Perm.append_left (e ∷ q) (queued-take_fronts n m))
              (swap_front (e ∷ q) subs (queued m')))
      ]

module _ {E : Type 0} (trigger_n : E → ℕ) (is_flag_trigger : E → Bool) where
  -- When an event with the trigger flag is received, the event and the queued ones are, up to order,
  -- the events that leave as sub-events and those that stay queued.
  pub do_receive-perm :
      (idx : ℕ) (ev : E) (c : Collector E)
      → is_flag_trigger ev ≡ true
      → let (c', r) = do_receive trigger_n is_flag_trigger idx ev c in
        Perm (ev ∷ queued c.conn_evque) (joined r ++ queued c'.conn_evque)
  unfolding do_receive build_sync
  do_receive-perm idx ev c flag =
      rw (flag, do_receive)
        (elim (Option-cases (front_minimum trigger_n no_trigger m)) [
          | inl e ↦ rw e (Perm.symm (queued-push idx ev c.conn_evque))
          | inr (n, e) ↦
              rw (e, queued-forget_inactive c.conn_inactive (take_fronts trigger_n n m).1)
                (Perm.trans (Perm.symm (queued-push idx ev c.conn_evque))
                  (queued-take_fronts trigger_n n m))
        ])
    where
      m : IntMap (List E)
      m = adjust address idx [] (λ q. q ++ ev ∷ []) c.conn_evque

  joined-drop_small : (minimum : ℕ) (r : Reply E) → joined (drop_small minimum r) ≡ joined r
  joined-drop_small minimum throws = refl
  joined-drop_small minimum waits = refl
  joined-drop_small minimum (drops s) = refl
  joined-drop_small minimum (writes s) = ground arith

  -- When AlpideDataCollector receives an event with the trigger flag, the event and the queued ones are,
  -- up to order, the events that it joins (and writes, or drops as a whole) and those that stay queued.
  pub alpide_do_receive-perm :
      (minimum idx : ℕ) (ev : E) (c : Collector E)
      → is_flag_trigger ev ≡ true
      → let (c', r) = alpide_do_receive trigger_n is_flag_trigger minimum idx ev c in
        Perm (ev ∷ queued c.conn_evque) (joined r ++ queued c'.conn_evque)
  unfolding alpide_do_receive
  alpide_do_receive-perm minimum idx ev c flag =
      rw (joined-drop_small minimum (do_receive trigger_n is_flag_trigger idx ev c).1)
        (do_receive-perm idx ev c flag)
