-- ===== src/TelSync.antt =====
-- CaliceTelDataCollector.cc (user/calice/module/src): events of the AHCAL and of the BIF are joined
-- when their time windows overlap, by the two blocks of TsSync, and an event of the telescope is added
-- whose number is the trigger number.
pub mod Loop
pub mod Splits
pub mod Returns
pub mod Matched
pub mod Table
mod Tests
use eudaq_ahcal.Base.{
  ℕ, zero, suc, ◌+◌, ◌^◌, List, [], ◌∷◌, ◌++◌, Bool, true, false, Option, none, some, ◌==◌,
  if◌then◌else◌, ltb, leb, length,
}
use eudaq_ahcal.Base.Words.{add32, sub32, sub64, mul64, slt}
use eudaq_ahcal.TsSync.{Side, earlier, join_side}

-- What the code asks of an event and sets on it. `run_matches`: its run is the one that is taken.
pub record Tags (E : Type 0) : Type 0 where
  pub is_flag_fake : E → Bool
  pub run_matches : E → Bool
  pub is_bore : E → Bool
  pub first_roc_start : E → ℕ
  pub timestamp_begin : E → ℕ
  pub timestamp_end : E → ℕ
  pub trigger_n : E → ℕ
  pub event_n : E → ℕ
  pub set_trigger_n : ℕ → E → E
  pub set_event_n : ℕ → E → E

pub record Collector (E : Type 0) : Type 0 where
  pub cal : Side E
  pub bif : Side E
  pub que_tel : List E
  pub ev_last_tel : Option E
  pub offset_ts_done : Bool
  pub ts_offset_cal2bif : ℕ
  pub shift_tgn_cal : ℕ
  pub ev_n : ℕ
  pub accept_ev : Bool

-- A written event: its sub-events are `subs`, of the BIF and the AHCAL, and then `sub_tel`.
-- `SetTriggerN` sets the flag that `IsFlagTrigger` asks for.
pub record Sync (E : Type 0) : Type 0 where
  pub subs : List (Option E)
  pub sub_tel : List (Option E)
  pub trigger : Option ℕ
  pub number : Option ℕ
  pub times : Option (ℕ × ℕ)

-- What the inner loop over the telescope's queue has written and left.
pub record Caught (E : Type 0) : Type 0 where
  pub written : List (Sync E)
  pub rest : List E
  pub last : Option E
  pub next_n : ℕ

module _ {E : Type 0} where
  abbrev no_side : Side E
  no_side = record { que = []; ev_last = none; ts_end_last = 0 }

  unfoldable pub do_stop_run : Collector E → Collector E
  do_stop_run c = record {
    cal = no_side;
    bif = no_side;
    que_tel = [];
    ev_last_tel = none;
    offset_ts_done = false;
    ts_offset_cal2bif = 0;
    shift_tgn_cal = c.shift_tgn_cal;
    ev_n = 0;
    accept_ev = false;
  }

  unfoldable pub do_start_run : Collector E → Collector E
  do_start_run c = record {
    cal = no_side;
    bif = no_side;
    que_tel = [];
    ev_last_tel = none;
    offset_ts_done = false;
    ts_offset_cal2bif = 0;
    shift_tgn_cal = c.shift_tgn_cal;
    ev_n = 0;
    accept_ev = true;
  }

  unfoldable pub do_configure : ℕ → Collector E → Collector E
  do_configure shift c = record c { shift_tgn_cal = shift }

  -- The event `ev_sync_only_tel`: its trigger number is overwritten by the event number.
  abbrev pub only_tel : E → ℕ → Sync E
  only_tel e n = record {
    subs = [];
    sub_tel = some e ∷ [];
    trigger = some n;
    number = none;
    times = none;
  }

module _ {E : Type 0} (t : Tags E) where
  -- A null pointer, which the code would follow here, has no trigger number.
  abbrev pub trigger_of : List (Option E) → Option ℕ
  trigger_of [] = none
  trigger_of (none ∷ xs) = none
  trigger_of (some e ∷ xs) = some (t.trigger_n e)

  -- The trigger number after both blocks; a fresh event of the BIF (`is_fresh`) does not set it.
  abbrev pub trigger_after : Bool → List (Option E) → List (Option E) → Option ℕ
  trigger_after true of_bif of_cal = trigger_of of_cal
  trigger_after false of_bif [] = trigger_of of_bif
  trigger_after false of_bif (x ∷ xs) = trigger_of (x ∷ xs)

  -- Telescope events with lower numbers are written alone.
  unfoldable pub catch_up : ℕ → List E → Option E → ℕ → Caught E
  catch_up tg [] last n = record { written = []; rest = []; last = last; next_n = n }
  catch_up tg (e ∷ q) last n =
      let r = catch_up tg q (some e) (add32 n 1) in
      if ltb (t.event_n e) tg
      then record r { written = only_tel e n ∷ r.written }
      else record { written = []; rest = e ∷ q; last = last; next_n = n }

  abbrev pub last_again : ℕ → Option E → List (Option E)
  last_again tg none = []
  last_again tg (some l) = if t.event_n l == tg then some l ∷ [] else []

  -- The telescope's sub-event, its queue and its last event.
  unfoldable pub match_tel : ℕ → List E → Option E → List (Option E) × List E × Option E
  match_tel tg [] last = (last_again tg last, [], last)
  match_tel tg (e ∷ q) last =
      if t.event_n e == tg then (some e ∷ [], q, some e) else (last_again tg last, e ∷ q, last)

  -- The end of a turn: an event without a trigger number is not written.
  unfoldable pub finish :
      Option ℕ → List (Option E) → ℕ × ℕ → Collector E → List (Sync E) × Collector E
  finish none subs times c = ([], c)
  finish (some tg) subs times c =
      let r = catch_up tg c.que_tel c.ev_last_tel c.ev_n in
      let m = match_tel tg r.rest r.last in
      (
        r.written
            ++ record {
              subs = subs;
              sub_tel = m.0;
              trigger = some tg;
              number = some r.next_n;
              times = some times;
            }
              ∷ [],
        record c { que_tel = m.1; ev_last_tel = m.2; ev_n = add32 r.next_n 1 },
      )

  -- The turn of the loop with these fronts of the AHCAL and of the BIF.
  unfoldable pub turn : E → List E → E → List E → Collector E → List (Sync E) × Collector E
  turn ev_cal q_cal ev_bif q_bif c =
      let beg_bif = t.timestamp_begin ev_bif in
      let beg_cal = sub64 (mul64 (t.timestamp_begin ev_cal) (2 ^ 5)) c.ts_offset_cal2bif in
      let ts_beg = earlier beg_bif beg_cal in
      let end_bif = t.timestamp_end ev_bif in
      let end_cal = sub64 (mul64 (t.timestamp_end ev_cal) (2 ^ 5)) c.ts_offset_cal2bif in
      let ts_end = earlier end_bif end_cal in
      let of_bif = join_side beg_bif end_bif ts_beg ts_end ev_bif q_bif c.bif in
      let of_cal = join_side beg_cal end_cal ts_beg ts_end ev_cal q_cal c.cal in
      finish (trigger_after (ltb beg_bif ts_end) of_bif.0 of_cal.0) (of_bif.0 ++ of_cal.0)
        (ts_beg, ts_end) (record c { cal = of_cal.1; bif = of_bif.1 })
