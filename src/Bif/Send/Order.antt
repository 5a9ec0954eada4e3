-- ===== src/Bif/Send/Order.antt =====
-- What `sendallevents` sends, and what it leaves queued.
use eudaq_ahcal.Base.{
  ℕ, List, [], ◌∷◌, ◌++◌, ◌≡◌, refl, arith, Bool, true, false, not, ltb, if◌then◌else◌, length, All,
  Bool-cases, one_left, inl, inr,
}
use eudaq_ahcal.Bif.State.{Event, Producer}
use eudaq_ahcal.Bif.Events.Cycle.{blocks, numbers}
use eudaq_ahcal.Bif.Send.{mark_first, mark_last, send_queue, sendallevents}

abbrev pub bores : List Event → List Bool
bores [] = []
bores (v ∷ vs) = v.bore ∷ bores vs

-- The mark `b` on the first event alone.
abbrev pub first_only : Bool → List Event → List Bool
first_only b [] = []
first_only b (v ∷ vs) = b ∷ first_only false vs

-- The events leave in order and unchanged but for the marks, until `minimumsize` are left.
pub record Sends (minimumsize : ℕ) (queue : List Event) (fresh : Bool) (sent : List Event)
    (rest : List Event) : Type 0 where
  pub words : blocks sent ++ blocks rest ≡ blocks queue
  pub order : numbers sent ++ numbers rest ≡ numbers queue
  pub left : length rest ≡ (if ltb minimumsize (length queue) then minimumsize else length queue)
  pub marked : bores sent ≡ first_only fresh sent

mark_lem :
    (m size : ℕ) (p : Producer) (e : Event)
    → let s = mark_last m size p (mark_first p e) in
      (s.block ≡ e.block)
      × (s.trigger_n ≡ e.trigger_n)
      × (s.bore ≡ (if p.bore_sent then e.bore else true))
unfolding mark_last mark_first
mark_lem m size p e = ground arith

both {ℓ} : {A : Type ℓ} (x y : A) {xs ys : List A} → x ≡ y → xs ≡ ys → x ∷ xs ≡ y ∷ ys
both x y e f = cc

fresh_mark :
    (sent b marked : Bool) → marked ≡ (if sent then b else true) → b ≡ false → marked ≡ not sent
fresh_mark sent b marked e f = ground arith

send_queue-Sends :
    (m : ℕ) (queue : List Event) (p : Producer)
    → All (λ e. e.bore ≡ false) queue
    → let (sent, p') = send_queue m queue p in Sends m queue (not p.bore_sent) sent p'.deq_event
unfolding send_queue
send_queue-Sends m [] p h = record {
  words = refl;
  order = refl;
  left = ground arith;
  marked = refl;
}
send_queue-Sends m (e ∷ es) p h = elim (Bool-cases (ltb m (length (e ∷ es)))) [
  | inl more ↦
      let r = send_queue-Sends m es (record p { bore_sent = true }) h.1 in
      let s = mark_last m (length (e ∷ es)) p (mark_first p e) in
      let k = mark_lem m (length (e ∷ es)) p e in
      rw more (record {
        words = both s.block e.block k.0 r.words;
        order = both s.trigger_n e.trigger_n k.1 r.order;
        left = rw more (one_left m (length es) _ more r.left);
        marked =
            both s.bore (not p.bore_sent) (fresh_mark p.bore_sent e.bore s.bore k.2 h.0) r.marked;
      })
  | inr enough ↦
      rw enough (record { words = refl; order = refl; left = rw enough refl; marked = refl })
]

-- If no queued event is marked as the first one of the run yet: `sendallevents` sends the queued events
-- in order, with their data and numbers, until `minimumsize` are left (none is sent if there are no
-- more), and marks the first event of the run and no other.
pub sendallevents-Sends :
    (m : ℕ) (p : Producer)
    → All (λ e. e.bore ≡ false) p.deq_event
    → let (sent, p') = sendallevents m p in Sends m p.deq_event (not p.bore_sent) sent p'.deq_event
unfolding sendallevents
sendallevents-Sends m p h = send_queue-Sends m p.deq_event p h
