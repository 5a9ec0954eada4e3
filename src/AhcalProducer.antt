-- ===== src/AhcalProducer.antt =====
-- AHCALProducer.cc (user/calice/AHCAL/module/src): from the bytes of the detector to the events that are sent.
-- `SendEvent` of the library is a parameter that tells whether it takes an event; it throws otherwise. The
-- event of a failed call is gone from the queue, whose front the code has then moved away.
pub mod Send
pub mod Begin
mod Tests
use eudaq_ahcal.Base.{
  ℕ, zero, suc, ◌+◌, ◌-◌, List, [], ◌∷◌, ◌++◌, Bool, true, false, not, ◌&&◌, Option, none, some,
  ltb, leb, ◌==◌, if◌then◌else◌, length,
}
use eudaq_ahcal.Base.Words.{add32}
use eudaq_ahcal.ScReader.State.{Settings, Reader}
use eudaq_ahcal.ScReader.Start.{on_start}
use eudaq_ahcal.ScReader.Read.{
  BufferProcessingException, ok_all_read, ok_need_more_data, err_incomplete_info_cycle, Outcome,
  read,
}
use eudaq_ahcal.ScReader.Build.{Event}
use eudaq_ahcal.ScReader.BuildEvents.{build_events}

-- An event with the marks of `SetBORE`, which comes with the tag FirstROCStartTS, and `SetEORE`.
pub record Marked : Type 0 where
  pub event : Event
  pub bore : Option ℕ
  pub eore : Bool

-- The members that the run loop changes, its two queues and what has been sent.
pub record Producer : Type 0 where
  pub reader : Reader
  pub event_no : ℕ
  pub stopped : Bool
  pub bore_sent : Bool
  pub buf_read : List ℕ
  pub deq_event : List Event
  pub sent : List Marked

-- `DoStartRun`; `RunLoop` begins with empty queues.
unfoldable pub do_start_run : Settings → ℕ → Producer → Producer
do_start_run c run_no p = record {
  reader = on_start c run_no p.reader;
  event_no = 0;
  stopped = false;
  bore_sent = false;
  buf_read = [];
  deq_event = [];
  sent = [];
}

unfoldable pub mark : ℕ → ℕ → Producer → Event → Marked
mark minimumsize size p ev = record {
  event = ev;
  bore = if p.bore_sent then none else some p.reader.statistics.first_ts;
  eore = minimumsize == 0 && size == 1;
}

-- `GetBlockNumList().size() - 10 >= _minEventHits`: the blocks from 10 on are the packets.
abbrev pub has_hits : Settings → Event → Bool
has_hits c ev = leb c.min_event_hits (length ev.packets)

abbrev pub count_sent : Marked → Producer → Producer
count_sent m p = record p { event_no = add32 p.event_no 1; sent = p.sent ++ m ∷ [] }

-- The exception of `SendEvent`, as the run loop handles it.
abbrev pub stop_sending : List Event → Producer → Producer
stop_sending es p = record p { event_no = add32 p.event_no 1; stopped = true; deq_event = es }

abbrev pub is_failure : Settings → (Marked → Bool) → Marked → Bool
is_failure c takes m = has_hits c m.event && not (takes m)

abbrev pub sent_or_left_out : Settings → Marked → Producer → Producer
sent_or_left_out c m p = if has_hits c m.event then count_sent m p else p

-- The loop of `sendallevents` over the queue.
unfoldable pub send_queue : Settings → (Marked → Bool) → ℕ → List Event → Producer → Producer
send_queue c takes minimumsize [] p = record p { deq_event = [] }
send_queue c takes minimumsize (ev ∷ es) p =
    let m = mark minimumsize (length (ev ∷ es)) p ev in
    let marked = record p { bore_sent = true } in
    let rest = send_queue c takes minimumsize es (sent_or_left_out c m marked) in
    if ltb minimumsize (length (ev ∷ es))
    then if is_failure c takes m then stop_sending es marked else rest
    else record p { deq_event = ev ∷ es }

unfoldable pub sendallevents : Settings → (Marked → Bool) → ℕ → Producer → Producer
sendallevents c takes minimumsize p = send_queue c takes minimumsize p.deq_event p

-- Both calls in the run loop are left out once the sending has stopped.
abbrev pub send_unless_stopped : Settings → (Marked → Bool) → ℕ → Producer → Producer
send_unless_stopped c takes minimumsize p =
    let sending = sendallevents c takes minimumsize p in if p.stopped then p else sending

abbrev pub with_events : Producer → Option (List Event × Reader) → Option Producer
with_events p none = none
with_events p (some (queue, r)) = some (record p { reader = r; deq_event = queue })

-- The end of `ScReader::Read`: the builder is called unless an info is incomplete.
abbrev pub build_after : Settings → BufferProcessingException → Producer → Option Producer
build_after c err_incomplete_info_cycle p = some p
build_after c e p = with_events p (build_events c false p.deq_event p.reader)

abbrev pub after_read : Settings → Producer → Option Outcome → Option Producer
after_read c p none = none
after_read c p (some (e, r, buf)) = build_after c e (record p { reader = r; buf_read = buf })

-- `_reader->Read(bufRead, deqEvent)`.
unfoldable pub read_events : Settings → Producer → Option Producer
read_events c p = after_read c p (read c p.buf_read p.reader)

abbrev pub then_send : Settings → (Marked → Bool) → ℕ → Option Producer → Option Producer
then_send c takes minimumsize none = none
then_send c takes minimumsize (some p) = some (send_unless_stopped c takes minimumsize p)

-- One turn of `RunLoop` with the bytes that `read` delivers; all but the last event are sent.
unfoldable pub run_turn : Settings → (Marked → Bool) → List ℕ → Producer → Option Producer
run_turn c takes buf p =
    then_send c takes 1 (read_events c (record p { buf_read = p.buf_read ++ buf }))

abbrev pub clear_queues : Option Producer → Option Producer
clear_queues none = none
clear_queues (some p) = some (record p { stopped = true; buf_read = []; deq_event = [] })

-- The end of `RunLoop`: the rest is built and sent.
unfoldable pub finish_run : Settings → (Marked → Bool) → Producer → Option Producer
finish_run c takes p =
    clear_queues (then_send c takes 0 (with_events p (build_events c true p.deq_event p.reader)))

abbrev pub and_then : (Producer → Option Producer) → Option Producer → Option Producer
and_then f none = none
and_then f (some p) = f p

-- `RunLoop` on what `read` delivers until it delivers no more.
unfoldable pub run_loop : Settings → (Marked → Bool) → List (List ℕ) → Producer → Option Producer
run_loop c takes [] p = finish_run c takes p
run_loop c takes (buf ∷ bufs) p = and_then (run_loop c takes bufs) (run_turn c takes buf p)
