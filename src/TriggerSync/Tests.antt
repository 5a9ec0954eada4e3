-- ===== src/TriggerSync/Tests.antt =====
-- Two connections; an event is its number and a mark of its origin.
use eudaq_ahcal.Base.{ℕ, [], ◌∷◌, ◌≡◌, refl, arith, Bool, true}
use mathlib.Core.List.{Perm}
use eudaq_ahcal.Base.IntMap.{adjust, lookup, erase}
use eudaq_ahcal.TriggerSync.{
  Collector, writes, front_minimum, take_fronts, has_empty_queue, forget_inactive, still_inactive,
  build_sync, do_receive,
}
use eudaq_ahcal.TriggerSync.Conserve.{do_receive-perm}
use eudaq_ahcal.TriggerSync.Order.{do_receive-InOrder, ReplyInOrder}

abbrev number : ℕ × ℕ → ℕ
number e = e.0

abbrev flagged : ℕ × ℕ → Bool
flagged e = true

-- Connection 1 waits with event 5, connection 2 has left with events 5 and 7.
abbrev waiting : Collector (ℕ × ℕ)
waiting = record { conn_evque = (1, []) ∷ (2, (5, 2) ∷ []) ∷ []; conn_inactive = (2, tt) ∷ [] }

-- The two events of number 5 are joined, and the connection that left is forgotten.
joins_and_forgets : do_receive number flagged 1 (5, 1) waiting ≡ (
  record { conn_evque = (1, []) ∷ []; conn_inactive = [] },
  writes (record { sync_trigger_n = 5; sub_events = (5, 1) ∷ (5, 2) ∷ [] }),
)
unfolding do_receive adjust front_minimum build_sync take_fronts forget_inactive still_inactive
    has_empty_queue lookup erase
joins_and_forgets = refl

do_receive-perm_example : Perm {A = ℕ × ℕ} ((6, 1) ∷ (5, 2) ∷ []) ((5, 2) ∷ (6, 1) ∷ [])
unfolding do_receive adjust front_minimum build_sync take_fronts forget_inactive still_inactive
    has_empty_queue lookup erase
do_receive-perm_example = do_receive-perm number flagged 1 (6, 1) waiting refl

do_receive-InOrder_example : ReplyInOrder number (do_receive number flagged 1 (6, 1) waiting)
unfolding adjust
do_receive-InOrder_example =
    do_receive-InOrder number flagged 1 (6, 1) waiting (omega arith) (omega arith)
