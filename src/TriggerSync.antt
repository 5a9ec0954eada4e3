-- ===== src/TriggerSync.antt =====
-- The two data collectors that join events by trigger number:
-- user/calice/module/src/TrigidSyncDataCollector.cc and AlpideDataCollector.cc.
-- An event is of any type, asked for `GetTriggerN` and `IsFlagTrigger`; a connection is the address by
-- which the maps order the shared pointers.
pub mod Conserve
pub mod Order
mod Tests
use eudaq_ahcal.Base.{
  ℕ, suc, ◌+◌, ◌-◌, ◌^◌, List, [], ◌∷◌, ◌++◌, Bool, true, false, not, Option, none, some, ltb, ◌==◌,
  if◌then◌else◌, length,
}
use eudaq_ahcal.Base.IntMap.{IntMap, lookup, adjust, erase}

abbrev pub address : ℕ → ℕ
address k = k

abbrev pub no_trigger : ℕ
no_trigger = 2 ^ 32 - 1

-- `conn_inactive` is a set: a map with nothing stored.
pub record Collector (E : Type 0) : Type 0 where
  pub conn_evque : IntMap (List E)
  pub conn_inactive : IntMap (Unit {0})

-- What is set on the event that is written.
pub record Sync (E : Type 0) : Type 0 where
  pub sync_trigger_n : ℕ
  pub sub_events : List E

-- `throws` is the exception for an event without trigger flag; `waits` an early return; `drops` the
-- return of AlpideDataCollector for too few sub-events.
pub data Reply (E : Type 0) : Type 0 where
  throws : Reply E
  waits : Reply E
  drops : Sync E → Reply E
  writes : Sync E → Reply E

module _ {E : Type 0} where
  unfoldable pub do_connect : ℕ → Collector E → Collector E
  do_connect idx c = record {
    conn_evque = adjust address idx [] (λ q. []) c.conn_evque;
    conn_inactive = erase address idx c.conn_inactive;
  }

  unfoldable pub do_disconnect : ℕ → Collector E → Collector E
  do_disconnect idx c =
      let inactive = adjust address idx tt (λ u. u) c.conn_inactive in
      if length inactive == length c.conn_evque
      then record { conn_evque = []; conn_inactive = [] }
      else record c { conn_inactive = inactive }

  unfoldable pub do_reset : Collector E → Collector E
  do_reset c = record { conn_evque = []; conn_inactive = [] }

  -- `m_conn_evque.find(conn) != end() && m_conn_evque[conn].empty()`
  unfoldable pub has_empty_queue : ℕ → IntMap (List E) → Bool
  has_empty_queue k m = elim (lookup address k m) [
    | none ↦ false
    | some q ↦ elim q [ [] ↦ true | _ ↦ false ]
  ]

  -- Inactive connections whose queue ran empty are forgotten, in both containers.
  unfoldable pub forget_inactive : IntMap (Unit {0}) → IntMap (List E) → IntMap (List E)
  forget_inactive [] m = m
  forget_inactive ((k, u) ∷ ks) m =
      forget_inactive ks (if has_empty_queue k m then erase address k m else m)

  unfoldable pub still_inactive : IntMap (Unit {0}) → IntMap (List E) → IntMap (Unit {0})
  still_inactive [] m = []
  still_inactive ((k, u) ∷ ks) m =
      let rest = still_inactive ks (if has_empty_queue k m then erase address k m else m) in
      if has_empty_queue k m then rest else (k, u) ∷ rest

  abbrev pub drop_small : ℕ → Reply E → Reply E
  drop_small minimum (writes s) = if ltb (length s.sub_events) minimum then drops s else writes s
  drop_small minimum other = other

module _ {E : Type 0} (trigger_n : E → ℕ) where
  -- The lowest trigger number at the fronts; none as soon as a queue is empty.
  unfoldable pub front_minimum : ℕ → IntMap (List E) → Option ℕ
  front_minimum n [] = some n
  front_minimum n ((k, []) ∷ m) = none
  front_minimum n ((k, e ∷ q) ∷ m) =
      front_minimum (if ltb (trigger_n e) n then trigger_n e else n) m

  -- The fronts with number `n` become sub-events.
  unfoldable pub take_fronts : ℕ → IntMap (List E) → List E × IntMap (List E)
  take_fronts n [] = ([], [])
  take_fronts n ((k, []) ∷ m) = let (subs, m') = take_fronts n m in (subs, (k, []) ∷ m')
  take_fronts n ((k, e ∷ q) ∷ m) =
      let (subs, m') = take_fronts n m in
      if trigger_n e == n then (e ∷ subs, (k, q) ∷ m') else (subs, (k, e ∷ q) ∷ m')

  unfoldable pub build_sync : ℕ → Collector E → Collector E × Reply E
  build_sync n c =
      let (subs, m) = take_fronts n c.conn_evque in
      (
        record {
          conn_evque = forget_inactive c.conn_inactive m;
          conn_inactive = still_inactive c.conn_inactive m;
        },
        writes (record { sync_trigger_n = n; sub_events = subs }),
      )

module _ {E : Type 0} (trigger_n : E → ℕ) (is_flag_trigger : E → Bool) where
  unfoldable pub do_receive : ℕ → E → Collector E → Collector E × Reply E
  do_receive idx ev c =
      let queued = record c {
        conn_evque = adjust address idx [] (λ q. q ++ ev ∷ []) c.conn_evque;
      } in
      if not (is_flag_trigger ev)
      then (c, throws)
      else elim (front_minimum trigger_n no_trigger queued.conn_evque) [
        | none ↦ (queued, waits)
        | some n ↦ build_sync trigger_n n queued
      ]

  -- AlpideDataCollector differs in the minimum number of sub-events.
  unfoldable pub alpide_do_receive : ℕ → ℕ → E → Collector E → Collector E × Reply E
  alpide_do_receive minimun_sub_event idx ev c =
      let (c', r) = do_receive idx ev c in (c', drop_small minimun_sub_event r)
