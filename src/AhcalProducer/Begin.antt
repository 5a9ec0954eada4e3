-- ===== src/AhcalProducer/Begin.antt =====
-- The mark of the begin of run.
use eudaq_ahcal.Base.{
  ℕ, suc, List, [], ◌∷◌, ◌++◌, ◌≡◌, refl, sym, subst, Bool, true, false, Option, none, some, ltb,
  if◌then◌else◌, length, All, All-append, Bool-cases, inl, inr,
}
use eudaq_ahcal.ScReader.State.{Settings, Reader}
use eudaq_ahcal.ScReader.Build.{Event}
use eudaq_ahcal.ScReader.Read.{
  ok_all_read, ok_need_more_data, err_incomplete_info_cycle, Outcome, read,
}
use eudaq_ahcal.ScReader.BuildEvents.{build_events}
use eudaq_ahcal.AhcalProducer.{
  Marked, Producer, mark, has_hits, is_failure, sent_or_left_out, send_queue, sendallevents,
  with_events, after_read, read_events, then_send, run_turn, clear_queues, finish_run, and_then,
  run_loop,
}

abbrev pub IsUnmarked : Marked → Type 0
IsUnmarked m = m.bore ≡ none

-- The run has begun, as far as the flag goes, and no event that was sent has the mark.
abbrev pub HasNoBegin : Producer → Type 0
HasNoBegin p = (p.bore_sent ≡ true) × All IsUnmarked p.sent

send_queue-HasNoBegin :
    (c : Settings) (takes : Marked → Bool) (minimumsize : ℕ) (queue : List Event) (p : Producer)
    → HasNoBegin p
    → HasNoBegin (send_queue c takes minimumsize queue p)
unfolding send_queue mark
send_queue-HasNoBegin c takes minimumsize [] p h = h
send_queue-HasNoBegin c takes minimumsize (ev ∷ es) p h =
    elim (Bool-cases (ltb minimumsize (suc (length es)))) [
      | inr enough ↦ rw enough h
      | inl more ↦
          let m = mark minimumsize (suc (length es)) p ev in
          rw more (elim (Bool-cases (is_failure c takes m)) [
            | inl failed ↦ rw failed (refl, h.1)
            | inr good ↦ rw good (
                send_queue-HasNoBegin c takes minimumsize es
                  (sent_or_left_out c m (record p { bore_sent = true }))
                  (elim (Bool-cases (has_hits c ev)) [
                    | inl hits ↦ rw hits (
                      refl,
                      All-append IsUnmarked p.sent (m ∷ []) h.1 (unmarked p.bore_sent h.0, tt),
                    )
                    | inr few ↦ rw few (refl, h.1)
                  ]))
          ])
    ]
  where
    unmarked :
        (b : Bool) → b ≡ true → (if b then none else some p.reader.statistics.first_ts) ≡ none
    unmarked b e = rw e refl

-- Of a producer, if the step returns.
abbrev pub Still : Option Producer → Type 0
Still none = Unit {0}
Still (some p) = HasNoBegin p

then_send-Still :
    (c : Settings) (takes : Marked → Bool) (minimumsize : ℕ) (o : Option Producer)
    → Still o
    → Still (then_send c takes minimumsize o)
unfolding sendallevents
then_send-Still c takes minimumsize none h = tt
then_send-Still c takes minimumsize (some p) h = elim (Bool-cases p.stopped) [
  | inl stopped ↦ simp (stopped) h
  | inr on ↦ simp (on) (send_queue-HasNoBegin c takes minimumsize p.deq_event p h)
]

with_events-Still :
    (p : Producer) (o : Option (List Event × Reader)) → HasNoBegin p → Still (with_events p o)
with_events-Still p none h = tt
with_events-Still p (some (queue, r)) h = h

after_read-Still :
    (c : Settings) (p : Producer) (o : Option Outcome) → HasNoBegin p → Still (after_read c p o)
after_read-Still c p none h = tt
after_read-Still c p (some (err_incomplete_info_cycle, r, buf)) h = h
after_read-Still c p (some (ok_all_read, r, buf)) h =
    with_events-Still (record p { reader = r; buf_read = buf }) (build_events c false p.deq_event r)
      h
after_read-Still c p (some (ok_need_more_data, r, buf)) h =
    with_events-Still (record p { reader = r; buf_read = buf }) (build_events c false p.deq_event r)
      h

clear_queues-Still : (o : Option Producer) → Still o → Still (clear_queues o)
clear_queues-Still none h = tt
clear_queues-Still (some p) h = h

and_then-Still :
    (f : Producer → Option Producer) (o : Option Producer)
    → ((p : Producer) → HasNoBegin p → Still (f p))
    → Still o
    → Still (and_then f o)
and_then-Still f none keeps h = tt
and_then-Still f (some p) keeps h = keeps p h

run_loop-Still :
    (c : Settings) (takes : Marked → Bool) (bufs : List (List ℕ)) (p : Producer)
    → HasNoBegin p
    → Still (run_loop c takes bufs p)
unfolding run_loop run_turn finish_run read_events
run_loop-Still c takes [] p h =
    clear_queues-Still _ (
      then_send-Still c takes 0 _
        (with_events-Still p (build_events c true p.deq_event p.reader) h))
run_loop-Still c takes (buf ∷ bufs) p h =
    let fed = record p { buf_read = p.buf_read ++ buf } in
    and_then-Still (run_loop c takes bufs) (run_turn c takes buf p)
      (λ q k. run_loop-Still c takes bufs q k)
      (then_send-Still c takes 1 (read_events c fed)
        (after_read-Still c fed (read c fed.buf_read fed.reader) h))

first_left_out :
    (c : Settings) (takes : Marked → Bool) (minimumsize : ℕ) (ev : Event) (es : List Event)
    (p : Producer)
    → All IsUnmarked p.sent
    → ltb minimumsize (length (ev ∷ es)) ≡ true
    → has_hits c ev ≡ false
    → HasNoBegin (send_queue c takes minimumsize (ev ∷ es) p)
unfolding send_queue mark
first_left_out c takes minimumsize ev es p none_sent more few =
    rw (more, few)
      (send_queue-HasNoBegin c takes minimumsize es (record p { bore_sent = true })
        (refl, none_sent))

-- If the first event of a run that `sendallevents` takes from the queue has fewer packets than are asked
-- for, no event of the run is marked as its begin, whatever is read after it until the run loop returns: the mark is set on the event
-- that is left out.
pub begin_lost :
    (c : Settings) (takes : Marked → Bool) (minimumsize : ℕ) (ev : Event) (es : List Event)
    (p : Producer) (bufs : List (List ℕ))
    → p.deq_event ≡ ev ∷ es
    → p.sent ≡ []
    → ltb minimumsize (length (ev ∷ es)) ≡ true
    → has_hits c ev ≡ false
    → Still (run_loop c takes bufs (sendallevents c takes minimumsize p))
unfolding sendallevents
begin_lost c takes minimumsize ev es p bufs queue start more few =
    run_loop-Still c takes bufs (sendallevents c takes minimumsize p) (
      subst (λ q. HasNoBegin (send_queue c takes minimumsize q p)) (sym queue)
        (first_left_out c takes minimumsize ev es p (subst (All IsUnmarked) (sym start) tt) more
          few))
