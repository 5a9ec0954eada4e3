-- ===== src/ScReader/BuildTrigid/Numbers.antt =====
-- Which triggers of a readout cycle get an event.
use eudaq_ahcal.Base.{ℕ, List, [], ◌∷◌, Bool, true, false, Option, none, some, if◌then◌else◌}
use eudaq_ahcal.Base.Words.{add32}
use eudaq_ahcal.ScReader.State.{
  Settings, EventNumbering, by_triggerid, by_timestamp, LdaTimeData, Infodata,
}
use eudaq_ahcal.ScReader.Build.{Event, add_packets}
use eudaq_ahcal.ScReader.BuildTrigid.{outside}

abbrev is_set : Option ℕ → Bool
is_set none = false
is_set (some n) = true

-- Whether the tag "Dummy" is set.
abbrev pub is_dummy : Event → Bool
is_dummy ev = is_set ev.tag_dummy

-- Number and packets of the events that are no dummies.
abbrev pub built_triggers : List Event → List (Option (ℕ × Bool) × List Infodata)
built_triggers [] = []
built_triggers (ev ∷ queue) =
    if is_dummy ev then built_triggers queue else (ev.trigger_n, ev.packets) ∷ built_triggers queue

abbrev pub as_flag : EventNumbering → Bool
as_flag by_triggerid = true
as_flag by_timestamp = false

-- The triggers inside the acquisition, numbered with the offset, each with the cycle's packets.
abbrev pub inside :
    Settings
    → LdaTimeData
    → List Infodata
    → List ℕ
    → List ℕ
    → List (Option (ℕ × Bool) × List Infodata)
inside c d cells (id ∷ ids) (ts ∷ tss) =
    let rest = inside c d cells ids tss in
    if outside d ts
    then rest
    else (
      some (add32 id c.lda_trigid_offset, as_flag c.event_numbering_preference),
      add_packets cells,
    )
      ∷ rest
inside c d cells _ _ = []
