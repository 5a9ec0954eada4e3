-- ===== src/TsSync/Tests.antt =====
-- Tests and witnesses for the collector that joins by time. A test event is its two timestamps.
use eudaq_ahcal.Base.{ℕ, List, [], ◌∷◌, ◌≡◌, refl, true, false, none, some, arith, length}
use eudaq_ahcal.TsSync.{
  Tags, Side, Collector, Sync, join_side, turn, build_timestamp, lacks_one, do_receive,
}
use eudaq_ahcal.TsSync.Overlap.{Joins}
use eudaq_ahcal.TsSync.Progress.{build_timestamp-Joins}
use eudaq_ahcal.TsSync.Stuck.{build_timestamp_repeats}
use eudaq_ahcal.TsSync.Held.{IsSafe, do_receive-IsSafe}

abbrev TestEvent : Type 0
TestEvent = ℕ × ℕ

-- The first events of a run are marked.
abbrev tags : Tags TestEvent
tags = record {
  is_flag_fake = λ e. false;
  is_flag_timestamp = λ e. true;
  is_bore = λ e. true;
  first_roc_start = λ e. 10;
  timestamp_begin = λ e. e.0;
  timestamp_end = λ e. e.1;
}

abbrev side : List TestEvent → Side TestEvent
side q = record { que = q; ev_last = none; ts_end_last = 0 }

abbrev collector : List TestEvent → List TestEvent → Collector TestEvent
collector a b = record {
  cal = side a;
  bif = side b;
  offset_ts_done = true;
  ts_offset_cal2bif = 200;
  ev_n = 4;
}

-- The AHCAL's window is [120, 184) on the scale of the BIF.
abbrev overlapping : Collector TestEvent
overlapping = collector ((10, 12) ∷ []) ((100, 130) ∷ (150, 160) ∷ (190, 195) ∷ [])

abbrev written_three : List (Sync TestEvent)
written_three =
    record {
      subs = some (100, 130) ∷ some (10, 12) ∷ [];
      ts_begin = 100;
      ts_end = 130;
      event_n = 4;
    }
    ∷ []

build_timestamp_three : (build_timestamp tags 4 overlapping).0 ≡ written_three
unfolding build_timestamp turn join_side
build_timestamp_three = refl

-- The second event of the AHCAL begins within the BIF's last event, which is added again.
abbrev second_window : Collector TestEvent
second_window = collector ((10, 11) ∷ (11, 12) ∷ []) ((100, 180) ∷ (300, 310) ∷ [])

build_timestamp_again :
    (build_timestamp tags 2 second_window).0
    ≡ record {
      subs = some (100, 180) ∷ some (10, 11) ∷ [];
      ts_begin = 100;
      ts_end = 152;
      event_n = 4;
    }
      ∷ record {
        subs = some (100, 180) ∷ some (11, 12) ∷ [];
        ts_begin = 152;
        ts_end = 184;
        event_n = 5;
      }
      ∷ []
unfolding build_timestamp turn join_side
build_timestamp_again = refl

build_timestamp-Joins_example :
    (lacks_one (build_timestamp tags 4 overlapping).1 ≡ true)
    × Joins overlapping
        (build_timestamp tags 4 overlapping).0
        (build_timestamp tags 4 overlapping).1
build_timestamp-Joins_example =
    build_timestamp-Joins tags 4 overlapping
      (record {
        bif_windows = (omega arith, (omega arith, (omega arith, tt)));
        cal_windows = (omega arith, tt);
      })
      (omega arith)

-- Two fronts of one empty window.
abbrev empty_windows : Collector TestEvent
empty_windows = collector ((10, 10) ∷ []) ((120, 120) ∷ [])

build_timestamp_repeats_example :
    (length (build_timestamp tags 1000 empty_windows).0 ≡ 1000)
    × (lacks_one (build_timestamp tags 1000 empty_windows).1 ≡ false)
build_timestamp_repeats_example = build_timestamp_repeats tags 1000 empty_windows (record {
  front_cal = (10, 10);
  rest_cal = [];
  front_bif = (120, 120);
  rest_bif = [];
  cal_que = refl;
  bif_que = refl;
  bif_late = refl;
  cal_late = refl;
})

do_receive-IsSafe_example : IsSafe (do_receive tags 5 "Producer.Calice1" (13, 14) second_window)
do_receive-IsSafe_example =
    do_receive-IsSafe tags 5 "Producer.Calice1" (13, 14) second_window
      (record { holds_cal = refl; holds_bif = refl })
