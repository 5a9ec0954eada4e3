-- ===== src/BxidSync/Tests.antt =====
-- Tests and witnesses for the collector that joins by ROC and BXID. A test event is its ROC, its BXID
-- and a label.
use eudaq_ahcal.Base.{
  ℕ, ◌+◌, ◌^◌, ◌%◌, List, [], ◌∷◌, ◌≡◌, refl, Bool, true, false, none, some, arith,
}
use eudaq_ahcal.BxidSync.{
  Tags, ahcal, bif, Producer, Collector, Sync, Outcome, discarded, thrown, written, invalid,
  front_of, take_front, join, finish, lowest_roc, lowest_bxid,
}
use eudaq_ahcal.BxidSync.Loop.{turn, build_event_bxid, waiting, lacks_one, receive_from, do_receive}
use eudaq_ahcal.BxidSync.Returns.{build_never_returns}
use eudaq_ahcal.BxidSync.Receive.{receive_from-returns}
use eudaq_ahcal.BxidSync.Merge.Refine.{Implements, build_event_bxid-Implements}

abbrev TestEvent : Type 0
TestEvent = ℕ × ℕ × ℕ

abbrev tags : Tags TestEvent
tags = record {
  roc = λ e. e.0 % 2 ^ 32;
  bxid = λ e. e.1 % 2 ^ 32;
  timestamps = λ e. (e.2, e.2 + 1);
  is_flag_fake = λ e. false;
  roc_is_int = λ e. omega arith;
  bxid_is_int = λ e. omega arith;
}

abbrev producer : Bool → List TestEvent → Producer TestEvent
producer a q = record { que = q; active = a; evt_mandatory = true; roc_offset = 0 }

abbrev collector : List TestEvent → List TestEvent → List TestEvent → Collector TestEvent
collector a b d = record {
  of_ahcal = producer true a;
  of_bif = producer true b;
  of_hodoscope1 = producer false [];
  of_hodoscope2 = producer false [];
  of_desytable = producer true d;
  thrown_incomplete = 0;
  ev_n = 7;
}

-- The BIF's event at (1, 20) has no partner; the events at (1, 30) are joined.
abbrev two_queues : Collector TestEvent
two_queues = collector ((1, 30, 100) ∷ []) ((1, 20, 200) ∷ (1, 30, 201) ∷ []) ((0, 0, 300) ∷ [])

abbrev lonely : Sync TestEvent
lonely = record {
  sub_bif = (1, 20, 200) ∷ [];
  sub_hodoscope1 = [];
  sub_hodoscope2 = [];
  sub_desytable = (0, 0, 300) ∷ [];
  sub_ahcal = [];
  times = none;
}

abbrev joined_pair : Sync TestEvent
joined_pair = record {
  sub_bif = (1, 30, 201) ∷ [];
  sub_hodoscope1 = [];
  sub_hodoscope2 = [];
  sub_desytable = [];
  sub_ahcal = (1, 30, 100) ∷ [];
  times = some (100, 101);
}

abbrev after_pair : Collector TestEvent
after_pair = record (collector [] [] []) { thrown_incomplete = 1; ev_n = 8 }

build_event_bxid_pair :
    build_event_bxid tags 4 two_queues
    ≡ some (thrown lonely ∷ written 7 joined_pair ∷ [], after_pair)
unfolding build_event_bxid turn front_of take_front join finish lowest_roc lowest_bxid
build_event_bxid_pair = refl

do_receive_unplaceable :
    do_receive tags "BIF1" (invalid, 3, 9) (collector ((1, 30, 100) ∷ []) [] [])
    ≡ some (discarded bif (invalid, 3, 9) ∷ [], collector ((1, 30, 100) ∷ []) [] [])
unfolding do_receive receive_from build_event_bxid turn front_of
do_receive_unplaceable = refl

build_event_bxid-Implements_example :
    (run : List (Outcome TestEvent) × Collector TestEvent) × (build_event_bxid tags
        (waiting two_queues + 1)
        two_queues
      ≡ some run)
    × Implements tags 0 two_queues run.0 run.1
build_event_bxid-Implements_example = build_event_bxid-Implements tags 0 two_queues refl (record {
  ahcal_rises = refl;
  bif_rises = refl;
  hodoscope1_rises = refl;
  hodoscope2_rises = refl;
})

receive_from-returns_example :
    (run : List (Outcome TestEvent) × Collector TestEvent) × (receive_from tags ahcal
        (2, 5, 101)
        two_queues
      ≡ some run)
    × (lacks_one run.1 ≡ true)
receive_from-returns_example = receive_from-returns tags ahcal (2, 5, 101) two_queues refl

-- Only the table is connected.
abbrev table_only : Collector TestEvent
table_only = record (collector [] [] ((0, 0, 300) ∷ [])) {
  of_ahcal = producer false [];
  of_bif = producer false [];
}

build_never_returns_example : build_event_bxid tags 1000 table_only ≡ none
build_never_returns_example = build_never_returns tags 1000 table_only refl
