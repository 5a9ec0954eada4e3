-- ===== src/HodoSync/Tests.antt =====
-- Tests and witnesses for the collector of the hodoscopes. A test event is its ROC and its BXID.
use eudaq_ahcal.Base.{ℕ, [], ◌∷◌, ◌≡◌, refl, true, All, arith}
use eudaq_ahcal.Base.IntMap.{lookup, adjust}
use eudaq_ahcal.HodoSync.{Tags, Collector, ahcal_fronts, hodoscope_fronts, pop_fronts, take_fronts}
use eudaq_ahcal.HodoSync.Loop.{
  built, calice, turn, build_event, do_connect, do_disconnect, do_receive,
}
use eudaq_ahcal.HodoSync.Same.{AreJoined}
use eudaq_ahcal.HodoSync.Returns.{build_event-returns}

abbrev TestEvent : Type 0
TestEvent = ℕ × ℕ

abbrev tags : Tags TestEvent
tags = record { roc = λ e. e.0; bxid = λ e. e.1 }

-- The first event of the AHCAL has no partner, and the first of hodoscope 21 is too early.
abbrev three_queues : Collector TestEvent
three_queues = record {
  ahcal_evts = (10, (1, 4) ∷ (1, 8) ∷ []) ∷ [];
  hodoscope_evts = (20, (1, 8) ∷ (2, 1) ∷ []) ∷ (21, (1, 2) ∷ (1, 8) ∷ (1, 9) ∷ []) ∷ [];
  disconnected = [];
}

build_event_three : build_event tags 8 three_queues ≡ record {
  written = ((1, 8) ∷ (1, 8) ∷ (1, 8) ∷ []) ∷ [];
  after = record {
    ahcal_evts = (10, []) ∷ [];
    hodoscope_evts = (20, (2, 1) ∷ []) ∷ (21, (1, 9) ∷ []) ∷ [];
    disconnected = [];
  };
  has_returned = true;
}
unfolding build_event turn ahcal_fronts hodoscope_fronts pop_fronts take_fronts
build_event_three = refl

do_receive_one_hodoscope :
    do_receive tags 8 10
      (1, 4)
      (record { ahcal_evts = (10, []) ∷ []; hodoscope_evts = (20, []) ∷ []; disconnected = [] })
    ≡ built (record {
      written = [];
      after = record {
        ahcal_evts = (10, (1, 4) ∷ []) ∷ [];
        hodoscope_evts = (20, []) ∷ [];
        disconnected = [];
      };
      has_returned = true;
    })
unfolding do_receive lookup adjust
do_receive_one_hodoscope = refl

abbrev no_connections : Collector TestEvent
no_connections = record { ahcal_evts = []; hodoscope_evts = []; disconnected = [] }

do_connect_disconnect : do_disconnect 10 (do_connect calice 10 no_connections) ≡ no_connections
unfolding do_connect do_disconnect adjust
do_connect_disconnect = refl

build_event-returns_example :
    ((build_event tags 8 three_queues).has_returned ≡ true)
    × All (AreJoined tags) (build_event tags 8 three_queues).written
build_event-returns_example = build_event-returns tags 8 three_queues refl (omega arith)
