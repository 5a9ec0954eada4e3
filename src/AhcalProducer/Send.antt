-- ===== src/AhcalProducer/Send.antt =====
-- What `AHCALProducer::sendallevents` sends, and which event gets the mark of the begin of run.
use mathlib.Core.List.{append-nil, append_assoc}
use eudaq_ahcal.Base.{
  ℕ, suc, ◌+◌, ◌-◌, ◌%◌, ◌^◌, ◌<◌, List, [], ◌∷◌, ◌++◌, ◌≡◌, refl, sym, ap, subst, ◌∙◌, arith, Bool,
  true, false, not, ◌&&◌, ltb, if◌then◌else◌, length, take, drop, Bool-cases, inl, inr,
}
use eudaq_ahcal.ScReader.State.{Settings}
use eudaq_ahcal.ScReader.Build.{Event}
use eudaq_ahcal.AhcalProducer.{
  Marked, Producer, mark, has_hits, count_sent, sent_or_left_out, send_queue, sendallevents,
}

abbrev pub events : List Marked → List Event
events [] = []
events (m ∷ ms) = m.event ∷ events ms

events-append : (xs ys : List Marked) → events (xs ++ ys) ≡ events xs ++ events ys
events-append [] ys = refl
events-append (m ∷ ms) ys = ap (λ l. m.event ∷ l) (events-append ms ys)

-- The events with at least as many packets as are asked for.
abbrev pub with_hits : Settings → List Event → List Event
with_hits c [] = []
with_hits c (ev ∷ es) = let rest = with_hits c es in if has_hits c ev then ev ∷ rest else rest

-- `n` events have left the queue: those with hits are sent and counted.
pub record SendsHits (c : Settings) (n : ℕ) (queue : List Event) (p p' : Producer) : Type 0 where
  pub sent_events : events p'.sent ≡ events p.sent ++ with_hits c (take n queue)
  pub left : p'.deq_event ≡ drop n queue
  pub counted : p'.event_no ≡ (p.event_no + length (with_hits c (take n queue))) % 2 ^ 32
  pub goes_on : p'.stopped ≡ p.stopped

abbrev began : Producer → Producer
began p = record p { bore_sent = true }

sent-SendsHits :
    (c : Settings) (n : ℕ) (m : Marked) (es : List Event) (p p' : Producer)
    → has_hits c m.event ≡ true
    → SendsHits c n es (count_sent m (began p)) p'
    → SendsHits c (suc n) (m.event ∷ es) p p'
sent-SendsHits c n m es p p' hits h =
    let rest = with_hits c (take n es) in
    record {
      sent_events = rw hits (
          h.sent_events
          ∙ ap (λ l. l ++ rest) (events-append p.sent (m ∷ []))
          ∙ append_assoc (events p.sent) (m.event ∷ []) rest);
      left = h.left;
      counted = rw hits (h.counted ∙ omega arith);
      goes_on = h.goes_on;
    }

left_out-SendsHits :
    (c : Settings) (n : ℕ) (ev : Event) (es : List Event) (p p' : Producer)
    → has_hits c ev ≡ false
    → SendsHits c n es (began p) p'
    → SendsHits c (suc n) (ev ∷ es) p p'
left_out-SendsHits c n ev es p p' few h = record {
  sent_events = rw few h.sent_events;
  left = h.left;
  counted = rw few h.counted;
  goes_on = h.goes_on;
}

none-SendsHits :
    (c : Settings) (n : ℕ) (queue : List Event) (p : Producer)
    → p.event_no < 2 ^ 32
    → n ≡ 0
    → SendsHits c n queue p (record p { deq_event = queue })
none-SendsHits c n queue p hn e =
    subst (λ k. SendsHits c k queue p (record p { deq_event = queue })) (sym e)
      (record {
        sent_events = sym (append-nil (events p.sent));
        left = refl;
        counted = omega (arith, hn);
        goes_on = refl;
      })

one-SendsHits :
    (c : Settings) (n : ℕ) (m : Marked) (es : List Event) (p p' : Producer)
    → SendsHits c n es (sent_or_left_out c m (began p)) p'
    → SendsHits c (suc n) (m.event ∷ es) p p'
one-SendsHits c n m es p p' h = elim (Bool-cases (has_hits c m.event)) [
  | inl hits ↦
      sent-SendsHits c n m es p p' hits
        (subst (λ b. SendsHits c n es (if b then count_sent m (began p) else began p) p') hits h)
  | inr few ↦
      left_out-SendsHits c n m.event es p p' few
        (subst (λ b. SendsHits c n es (if b then count_sent m (began p) else began p) p') few h)
]

event_no-lt :
    (c : Settings) (m : Marked) (p : Producer)
    → p.event_no < 2 ^ 32
    → (sent_or_left_out c m (began p)).event_no < 2 ^ 32
event_no-lt c m p hn = elim (Bool-cases (has_hits c m.event)) [
  | inl hits ↦ rw hits (omega arith)
  | inr few ↦ rw few hn
]

send_queue-SendsHits :
    (c : Settings) (takes : Marked → Bool) (minimumsize : ℕ) (queue : List Event) (p : Producer)
    → ((m : Marked) → takes m ≡ true)
    → p.event_no < 2 ^ 32
    → SendsHits c (length queue - minimumsize) queue p (send_queue c takes minimumsize queue p)
unfolding send_queue mark
send_queue-SendsHits c takes minimumsize [] p all hn =
    none-SendsHits c (0 - minimumsize) [] p hn (omega arith)
send_queue-SendsHits c takes minimumsize (ev ∷ es) p all hn =
    elim (Bool-cases (ltb minimumsize (length (ev ∷ es)))) [
      | inr enough ↦
          rw enough (
            none-SendsHits c (suc (length es) - minimumsize) (ev ∷ es) p hn
              (ground (arith, enough)))
      | inl more ↦
          let m = mark minimumsize (suc (length es)) p ev in
          let p' = sent_or_left_out c m (began p) in
          rw (more, taken (has_hits c ev) (takes m) (all m))
            (subst (λ n. SendsHits c n (ev ∷ es) p (send_queue c takes minimumsize es p'))
              (fewer minimumsize (length es) more)
              (one-SendsHits c (length es - minimumsize) m es p _
                (send_queue-SendsHits c takes minimumsize es p' all (event_no-lt c m p hn))))
    ]
  where
    taken : (a b : Bool) → b ≡ true → (a && not b) ≡ false
    taken a b h = ground arith

    fewer : (k n : ℕ) → ltb k (suc n) ≡ true → suc (n - k) ≡ suc n - k
    fewer k n h = ground arith

-- If the library takes every event, `sendallevents` sends, in order, those of the queue's events that have at
-- least as many packets as are asked for, up to the number that is to stay; the rest stays queued, and
-- every event that is sent is counted.
pub sendallevents-SendsHits :
    (c : Settings) (takes : Marked → Bool) (minimumsize : ℕ) (p : Producer)
    → ((m : Marked) → takes m ≡ true)
    → p.event_no < 2 ^ 32
    → SendsHits c
        (length p.deq_event - minimumsize)
        p.deq_event
        p
        (sendallevents c takes minimumsize p)
unfolding sendallevents
sendallevents-SendsHits c takes minimumsize p all hn =
    send_queue-SendsHits c takes minimumsize p.deq_event p all hn
