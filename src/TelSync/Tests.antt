-- ===== src/TelSync/Tests.antt =====
-- Tests and witnesses for the collector with the telescope. A test event is its two timestamps, its
-- trigger number and its event number.
use eudaq_ahcal.Base.{ℕ, List, [], ◌∷◌, ◌≡◌, refl, true, false, none, some, arith}
use eudaq_ahcal.TsSync.{Side, join_side}
use eudaq_ahcal.TelSync.{Tags, Collector, Sync, only_tel, catch_up, match_tel, finish, turn}
use eudaq_ahcal.TelSync.Loop.{build, synchronise, do_receive, wrote}
use eudaq_ahcal.TelSync.Splits.{Keeps}
use eudaq_ahcal.TelSync.Returns.{HasStopped, build-returns}
use eudaq_ahcal.TelSync.Matched.{AreMatched, build-AreMatched}

abbrev TestEvent : Type 0
TestEvent = ℕ × ℕ × ℕ × ℕ

abbrev tags : Tags TestEvent
tags = record {
  is_flag_fake = λ e. false;
  run_matches = λ e. true;
  is_bore = λ e. true;
  first_roc_start = λ e. 10;
  timestamp_begin = λ e. e.0;
  timestamp_end = λ e. e.1;
  trigger_n = λ e. e.2;
  event_n = λ e. e.3;
  set_trigger_n = λ n e. (e.0, e.1, n, e.3);
  set_event_n = λ n e. (e.0, e.1, e.2, n);
}

abbrev tel : ℕ → TestEvent
tel n = (0, 0, 0, n)

abbrev side : List TestEvent → Side TestEvent
side q = record { que = q; ev_last = none; ts_end_last = 0 }

abbrev collector : List TestEvent → List TestEvent → List TestEvent → Collector TestEvent
collector a b s = record {
  cal = side a;
  bif = side b;
  que_tel = s;
  ev_last_tel = none;
  offset_ts_done = true;
  ts_offset_cal2bif = 200;
  shift_tgn_cal = 0;
  ev_n = 4;
  accept_ev = true;
}

-- The BIF's first event ends before the AHCAL's begins; the telescope is two numbers behind.
abbrev three_queues : Collector TestEvent
three_queues =
    collector ((10, 12, 6, 0) ∷ []) ((100, 110, 0, 0) ∷ (115, 130, 0, 0) ∷ [])
      (tel 4 ∷ tel 5 ∷ tel 6 ∷ tel 7 ∷ [])

abbrev joined : Sync TestEvent
joined = record {
  subs = some (115, 130, 0, 0) ∷ some (10, 12, 6, 0) ∷ [];
  sub_tel = some (tel 6) ∷ [];
  trigger = some 6;
  number = some 6;
  times = some (115, 130);
}

build_three : (build tags 3 three_queues).0 ≡ only_tel (tel 4) 4 ∷ only_tel (tel 5) 5 ∷ joined ∷ []
unfolding build turn finish catch_up match_tel join_side
build_three = refl

-- The telescope has not come to the AHCAL's trigger number yet.
do_receive_waits :
    do_receive tags 3 "Producer.ni"
      (tel 5)
      (collector ((10, 12, 6, 0) ∷ []) ((115, 130, 0, 0) ∷ []) [])
    ≡ wrote [] (collector ((10, 12, 6, 0) ∷ []) ((115, 130, 0, 0) ∷ []) (tel 5 ∷ []))
unfolding do_receive synchronise build
do_receive_waits = refl

build-returns_example :
    HasStopped tags (build tags 3 three_queues).1
    × Keeps three_queues (build tags 3 three_queues).0 (build tags 3 three_queues).1
build-returns_example =
    build-returns tags 3 three_queues
      (record { bif_windows = (omega arith, (omega arith, tt)); cal_windows = (omega arith, tt) })
      (omega arith)

build-AreMatched_example : AreMatched tags (build tags 3 three_queues).0
build-AreMatched_example = build-AreMatched tags 3 three_queues
