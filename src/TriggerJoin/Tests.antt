-- ===== src/TriggerJoin/Tests.antt =====
-- Tests and witnesses for the collector that joins by trigger number. A test event is its trigger number
-- and its first timestamp.
use eudaq_ahcal.Base.{ℕ, ◌+◌, List, [], ◌∷◌, ◌≡◌, refl, false, arith}
use eudaq_ahcal.TriggerJoin.{Tags, Pair, join, do_receive}
use eudaq_ahcal.TriggerJoin.Matches.{LacksOne, matches, join-matches}

abbrev TestEvent : Type 0
TestEvent = ℕ × ℕ

abbrev tags : Tags TestEvent
tags = record {
  is_bore = λ e. false;
  roc_start = λ e d. d;
  trigger_n = λ e. e.0;
  timestamp_begin = λ e. e.1;
  timestamp_end = λ e. e.1 + 1;
}

abbrev of_bif : List TestEvent
of_bif = (1, 10) ∷ (3, 30) ∷ (4, 40) ∷ []

abbrev of_cal : List TestEvent
of_cal = (2, 0) ∷ (3, 0) ∷ (7, 0) ∷ []

abbrev written_pair : Pair TestEvent
written_pair = record {
  sub_bif = (3, 30);
  sub_cal = (3, 0);
  ts_begin = 30;
  ts_end = 31;
  trigger = 3;
}

join_pair :
    join tags 6 of_bif of_cal
    ≡ record { written = written_pair ∷ []; left_bif = []; left_cal = (7, 0) ∷ [] }
unfolding join
join_pair = refl

do_receive_pair :
    (do_receive tags "Calice1"
      (7, 0)
      (record {
        ts_bore_bif = 0;
        ts_bore_cal = 0;
        que_bif = of_bif;
        que_cal = (2, 0) ∷ (3, 0) ∷ [];
      })).0
    ≡ written_pair ∷ []
unfolding do_receive join
do_receive_pair = refl

join-matches_example :
    ((join tags 6 of_bif of_cal).written ≡ matches tags of_bif of_cal)
    × LacksOne tags (join tags 6 of_bif of_cal)
join-matches_example =
    join-matches tags 6 of_bif of_cal
      ((omega arith, (omega arith, tt)), ((omega arith, tt), (tt, tt)))
      ((omega arith, (omega arith, tt)), ((omega arith, tt), (tt, tt))) (omega arith)
