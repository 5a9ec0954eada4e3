-- ===== src/TriggerJoin.antt =====
-- CaliceDataCollector.cc (user/calice/module/src): events of the BIF and of the AHCAL with the same
-- trigger number are written in pairs.
pub mod Matches
mod Tests
use Prim.Native.String.{String}
use text.Mathlib.Text.{◌==◌ as str_eq}
use eudaq_ahcal.Base.{
  ℕ, zero, suc, ◌+◌, List, [], ◌∷◌, ◌++◌, Bool, true, false, if◌then◌else◌, ltb, length,
}

-- `GetTag("ROCStartTS", d)` has a default, `d`.
pub record Tags (E : Type 0) : Type 0 where
  pub is_bore : E → Bool
  pub roc_start : E → ℕ → ℕ
  pub trigger_n : E → ℕ
  pub timestamp_begin : E → ℕ
  pub timestamp_end : E → ℕ

pub record Collector (E : Type 0) : Type 0 where
  pub ts_bore_bif : ℕ
  pub ts_bore_cal : ℕ
  pub que_bif : List E
  pub que_cal : List E

-- A written event, `ev_wrap`.
pub record Pair (E : Type 0) : Type 0 where
  pub sub_bif : E
  pub sub_cal : E
  pub ts_begin : ℕ
  pub ts_end : ℕ
  pub trigger : ℕ

-- What the loop has written and the two queues after it.
pub record Joined (E : Type 0) : Type 0 where
  pub written : List (Pair E)
  pub left_bif : List E
  pub left_cal : List E

module _ {E : Type 0} where
  unfoldable pub do_start_run : Collector E → Collector E
  do_start_run c = record c { que_bif = []; que_cal = [] }

module _ {E : Type 0} (t : Tags E) where
  abbrev pub pair : E → E → Pair E
  pair ev_bif ev_cal = record {
    sub_bif = ev_bif;
    sub_cal = ev_cal;
    ts_begin = t.timestamp_begin ev_bif;
    ts_end = t.timestamp_end ev_bif;
    trigger = t.trigger_n ev_bif;
  }

  -- The loop, `turns` turns of it.
  unfoldable pub join : ℕ → List E → List E → Joined E
  join zero q_bif q_cal = record { written = []; left_bif = q_bif; left_cal = q_cal }
  join (suc turns) [] q_cal = record { written = []; left_bif = []; left_cal = q_cal }
  join (suc turns) (e ∷ q) [] = record { written = []; left_bif = e ∷ q; left_cal = [] }
  join (suc turns) (e ∷ q) (f ∷ r) =
      let without_cal = join turns (e ∷ q) r in
      let without_bif = join turns q (f ∷ r) in
      let without_both = join turns q r in
      if ltb (t.trigger_n f) (t.trigger_n e)
      then without_cal
      else if ltb (t.trigger_n e) (t.trigger_n f)
      then without_bif
      else record without_both { written = pair e f ∷ without_both.written }

  -- A begin-of-run event sets the start of its producer; an event of another producer is not queued.
  abbrev pub push_from : String → E → Collector E → Collector E
  push_from name ev c =
      if str_eq name "caliceahcalbifProducer"
      then record c {
        ts_bore_bif = if t.is_bore ev then t.roc_start ev c.ts_bore_bif else c.ts_bore_bif;
        que_bif = c.que_bif ++ ev ∷ [];
      }
      else if str_eq name "Calice1"
      then record c {
        ts_bore_cal = if t.is_bore ev then t.roc_start ev c.ts_bore_cal else c.ts_bore_cal;
        que_cal = c.que_cal ++ ev ∷ [];
      }
      else c

  unfoldable pub do_receive : String → E → Collector E → List (Pair E) × Collector E
  do_receive name ev c =
      let c' = push_from name ev c in
      let j = join (length c'.que_bif + length c'.que_cal) c'.que_bif c'.que_cal in
      (j.written, record c' { que_bif = j.left_bif; que_cal = j.left_cal })
