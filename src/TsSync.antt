-- ===== src/TsSync.antt =====
-- CaliceTsDataCollector.cc (user/calice/module/src): events of the AHCAL and of the BIF are joined
-- when their time windows overlap. Times are `uint64_t`; the AHCAL's are shifted to the BIF's scale.
-- What the code asks of an event is the interface `Tags`.
pub mod Overlap
pub mod Progress
pub mod Stuck
pub mod Held
mod Tests
use Prim.Native.String.{String}
use text.Mathlib.Text.{◌==◌ as str_eq}
use eudaq_ahcal.Base.{
  ℕ, zero, suc, ◌+◌, ◌^◌, List, [], ◌∷◌, ◌++◌, Bool, true, false, ◌||◌, Option, none, some,
  if◌then◌else◌, ltb, length,
}
use eudaq_ahcal.Base.Words.{add32, sub64, mul64}

-- The flags, the tag `FirstROCStartTS`, whose default is 0, and the two timestamps.
pub record Tags (E : Type 0) : Type 0 where
  pub is_flag_fake : E → Bool
  pub is_flag_timestamp : E → Bool
  pub is_bore : E → Bool
  pub first_roc_start : E → ℕ
  pub timestamp_begin : E → ℕ
  pub timestamp_end : E → ℕ

-- The members of one producer: its queue, its last joined event (a null pointer at first) and that
-- event's end.
pub record Side (E : Type 0) : Type 0 where
  pub que : List E
  pub ev_last : Option E
  pub ts_end_last : ℕ

pub record Collector (E : Type 0) : Type 0 where
  pub cal : Side E
  pub bif : Side E
  pub offset_ts_done : Bool
  pub ts_offset_cal2bif : ℕ
  pub ev_n : ℕ

-- A written event: the pointers passed to `AddSubEvent`, in order.
pub record Sync (E : Type 0) : Type 0 where
  pub subs : List (Option E)
  pub ts_begin : ℕ
  pub ts_end : ℕ
  pub event_n : ℕ

-- What `DoReceive` comes to: an exception, or the events written in the turns of its loop.
pub data Received (E : Type 0) : Type 0 where
  thrown : Collector E → Received E
  wrote : List (Sync E) → Collector E → Received E

abbrev pub earlier : ℕ → ℕ → ℕ
earlier a b = if ltb a b then a else b

module _ {E : Type 0} where
  -- The last events are not reset.
  unfoldable pub do_start_run : Collector E → Collector E
  do_start_run c = record {
    cal = record { que = []; ev_last = c.cal.ev_last; ts_end_last = 0 };
    bif = record { que = []; ev_last = c.bif.ev_last; ts_end_last = 0 };
    offset_ts_done = false;
    ts_offset_cal2bif = 0;
    ev_n = 0;
  }

  -- One of the two blocks of a turn: `b` and `e` are the times of the front `ev`, `tb` and `te` the
  -- begin and the end of the joined event.
  unfoldable pub join_side : ℕ → ℕ → ℕ → ℕ → E → List E → Side E → List (Option E) × Side E
  join_side b e tb te ev q s =
      if ltb b te
      then (some ev ∷ [], record { que = q; ev_last = some ev; ts_end_last = e })
      else if ltb tb s.ts_end_last
      then (s.ev_last ∷ [], s)
      else ([], s)

  abbrev pub is_empty : List E → Bool
  is_empty [] = true
  is_empty (e ∷ q) = false

  abbrev pub lacks_one : Collector E → Bool
  lacks_one c = is_empty c.cal.que || is_empty c.bif.que

  abbrev pub waiting : Collector E → ℕ
  waiting c = length c.cal.que + length c.bif.que

  -- `con_name`: the queue that an event is pushed to.
  abbrev pub push : E → Side E → Side E
  push ev s = record s { que = s.que ++ ev ∷ [] }

  abbrev pub push_from : String → E → Collector E → Option (Collector E)
  push_from name ev c =
      if str_eq name "Producer.Calice1"
      then some (record c { cal = push ev c.cal })
      else if str_eq name "Producer.caliceahcalbifProducer"
      then some (record c { bif = push ev c.bif })
      else none

module _ {E : Type 0} (t : Tags E) where
  -- A time of the AHCAL on the scale of the BIF.
  abbrev pub shifted : ℕ → ℕ → ℕ
  shifted offset ts = sub64 (mul64 ts (2 ^ 5)) offset

  -- The turn of the loop with these two fronts.
  unfoldable pub turn : E → List E → E → List E → Collector E → Sync E × Collector E
  turn ev_cal q_cal ev_bif q_bif c =
      let beg_bif = t.timestamp_begin ev_bif in
      let beg_cal = shifted c.ts_offset_cal2bif (t.timestamp_begin ev_cal) in
      let ts_beg = earlier beg_bif beg_cal in
      let end_bif = t.timestamp_end ev_bif in
      let end_cal = shifted c.ts_offset_cal2bif (t.timestamp_end ev_cal) in
      let ts_end = earlier end_bif end_cal in
      let of_bif = join_side beg_bif end_bif ts_beg ts_end ev_bif q_bif c.bif in
      let of_cal = join_side beg_cal end_cal ts_beg ts_end ev_cal q_cal c.cal in
      (
        record {
          subs = of_bif.0 ++ of_cal.0;
          ts_begin = ts_beg;
          ts_end = ts_end;
          event_n = c.ev_n;
        },
        record c { cal = of_cal.1; bif = of_bif.1; ev_n = add32 c.ev_n 1 },
      )

  abbrev pub turn_on : List E → List E → Collector E → Option (Sync E × Collector E)
  turn_on [] q_bif c = none
  turn_on (e ∷ q) [] c = none
  turn_on (e ∷ q) (f ∷ r) c = some (turn e q f r c)

  -- The events written in the first `turns` turns of the loop, and the state after them; it returns
  -- when a queue is empty.
  unfoldable pub build_timestamp : ℕ → Collector E → List (Sync E) × Collector E
  build_timestamp zero c = ([], c)
  build_timestamp (suc turns) c = elim (turn_on c.cal.que c.bif.que c) [
    | none ↦ ([], c)
    | some step ↦ let run = build_timestamp turns step.1 in (step.0 ∷ run.0, run.1)
  ]

  -- The offset of the two clocks, from the first two events; none is the exception.
  abbrev pub find_offset : List E → List E → Collector E → Option (Collector E)
  find_offset [] q_bif c = some c
  find_offset (e ∷ q) [] c = some c
  find_offset (e ∷ q) (f ∷ r) c =
      if t.is_bore e
      then some (record c {
        ts_offset_cal2bif =
            sub64 (sub64 (mul64 (t.first_roc_start e) (2 ^ 5)) (t.first_roc_start f)) 120;
        offset_ts_done = true;
      })
      else none

  abbrev pub with_offset : Collector E → Option (Collector E)
  with_offset c = if c.offset_ts_done then some c else find_offset c.cal.que c.bif.que c

  -- `DoReceive` after the event is in its queue.
  unfoldable pub synchronise : ℕ → Collector E → Received E
  synchronise turns c = if lacks_one c then wrote [] c else elim (with_offset c) [
    | none ↦ thrown c
    | some c' ↦ let run = build_timestamp turns c' in wrote run.0 run.1
  ]

  unfoldable pub do_receive : ℕ → String → E → Collector E → Received E
  do_receive turns name ev c =
      if t.is_flag_fake ev
      then wrote [] c
      else if t.is_flag_timestamp ev
      then elim (push_from name ev c) [ none ↦ wrote [] c | some c' ↦ synchronise turns c' ]
      else wrote [] c
