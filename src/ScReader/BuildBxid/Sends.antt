-- ===== src/ScReader/BuildBxid/Sends.antt =====
-- `ScReader::buildBXIDEvents` sends the packets of each crossing in one event.
use mathlib.Core.List.{append-nil, append_assoc}
use eudaq_ahcal.Base.{
  ℕ, suc, ◌^◌, ◌≤◌, ◌<◌, List, [], ◌∷◌, ◌++◌, ◌≡◌, refl, sym, ap, ◌∙◌, arith, Bool, true, false,
  not, ◌&&◌, Option, none, some, ltb, ◌==◌, if◌then◌else◌, Bool-cases, inl, inr,
}
use eudaq_ahcal.Base.Words.{int_rank}
use eudaq_ahcal.Base.IntMap.{lookup, adjust, lookup-adjust, or_default}
use eudaq_ahcal.ScReader.State.{Settings, LdaTimeData, Infodata, Reader}
use eudaq_ahcal.ScReader.Build.{Event, prepare_eudaq_raw_packet, add_packets}
use eudaq_ahcal.ScReader.Crossings.{
  Crossings, bxid_of, add_crossing, behind_full_cell, set_crossing_times,
}
use eudaq_ahcal.ScReader.BuildBxid.{
  complete_crossings, set_cycle, start_of, stop_of, count_bxid, crossing_event, crossing_events,
  build_bxid,
}
use eudaq_ahcal.ScReader.BuildValidated.Table.{extend, extend-cons, BxidsAreInts}

-- The packets of a crossing of a cycle, in order, unless they are behind a full memory cell.
abbrev pub complete_at : Reader → ℕ → ℕ → List Infodata → List Infodata
complete_at r roc bxid [] = []
complete_at r roc bxid (p ∷ cells) =
    let rest = complete_at r roc bxid cells in
    if bxid == bxid_of p && not (behind_full_cell r roc (bxid_of p)) then p ∷ rest else rest

-- The BXID tag, and the packets, of the events of a queue.
abbrev pub is_at : ℕ → Option ℕ → Bool
is_at bxid none = false
is_at bxid (some b) = bxid == b

abbrev pub sent_at : ℕ → List Event → List Infodata
sent_at bxid [] = []
sent_at bxid (ev ∷ queue) =
    (if is_at bxid ev.tag_bxid then ev.packets else []) ++ sent_at bxid queue

sent_at-append : (b : ℕ) (q s : List Event) → sent_at b (q ++ s) ≡ sent_at b q ++ sent_at b s
sent_at-append b [] s = refl
sent_at-append b (ev ∷ q) s =
    let here = if is_at b ev.tag_bxid then ev.packets else [] in
    ap (λ l. here ++ l) (sent_at-append b q s) ∙ sym (append_assoc here (sent_at b q) (sent_at b s))

-- A table in strictly rising order of its keys, which are `int`s from the rank `n` on.
abbrev IsTable : ℕ → Crossings → Type 0
IsTable n [] = Unit {0}
IsTable n ((k, v) ∷ m) = (k < 2 ^ 32) × (n ≤ int_rank k) × IsTable (suc (int_rank k)) m

lookup-IsTable :
    (b n : ℕ) (m : Crossings) → IsTable n m → int_rank b < n → lookup int_rank b m ≡ none
unfolding lookup
lookup-IsTable b n [] h lt = refl
lookup-IsTable b n ((k, v) ∷ m) h lt = ground (arith, h.1, lt)

add_crossing-IsTable :
    (p : Infodata) (n : ℕ) (m : Crossings)
    → bxid_of p < 2 ^ 32
    → n ≤ int_rank (bxid_of p)
    → IsTable n m
    → IsTable n (add_crossing p m)
unfolding add_crossing adjust
add_crossing-IsTable p n [] hp le h = (hp, le, tt)
add_crossing-IsTable p n ((k, v) ∷ m) hp le h = elim (Bool-cases (bxid_of p == k)) [
  | inl e ↦ rw e h
  | inr e ↦ rw e (elim (Bool-cases (ltb (int_rank (bxid_of p)) (int_rank k))) [
    | inl l ↦ rw l (hp, le, (h.0, ground (arith, l), h.2))
    | inr l ↦ rw l (
      h.0,
      h.1,
      add_crossing-IsTable p (suc (int_rank k)) m hp (ground (arith, l, e, hp, h.0)) h.2,
    )
  ])
]

complete_crossings-IsTable :
    (r : Reader) (roc : ℕ) (cells : List Infodata) (m : Crossings)
    → BxidsAreInts cells
    → IsTable 0 m
    → IsTable 0 (complete_crossings r roc cells m)
unfolding complete_crossings
complete_crossings-IsTable r roc [] m ints h = h
complete_crossings-IsTable r roc (p ∷ cells) m ints h =
    elim (Bool-cases (behind_full_cell r roc (bxid_of p))) [
      | inl behind ↦ rw behind (complete_crossings-IsTable r roc cells m ints.1 h)
      | inr kept ↦ rw kept (
          complete_crossings-IsTable r roc cells (add_crossing p m) ints.1
            (add_crossing-IsTable p 0 m ints.0 (omega arith) h))
    ]

lookup-complete_crossings :
    (r : Reader) (roc b : ℕ) (cells : List Infodata) (m : Crossings)
    → lookup int_rank b (complete_crossings r roc cells m)
      ≡ extend (lookup int_rank b m) (complete_at r roc b cells)
unfolding complete_crossings add_crossing
lookup-complete_crossings r roc b [] m = refl
lookup-complete_crossings r roc b (p ∷ cells) m =
    elim (Bool-cases (behind_full_cell r roc (bxid_of p))) [
      | inl behind ↦
          rw (behind, dropped (b == bxid_of p)) (lookup-complete_crossings r roc b cells m)
      | inr kept ↦ rw kept (
          lookup-complete_crossings r roc b cells (add_crossing p m)
          ∙ ap (λ o. extend o (complete_at r roc b cells))
              (lookup-adjust int_rank (bxid_of p) b [] (λ same. same ++ p ∷ []) m)
          ∙ elim (Bool-cases (b == bxid_of p)) [
            | inl hit ↦
                rw (hit, ap (λ i. lookup int_rank i m) (same b (bxid_of p) hit))
                  (extend-cons (lookup int_rank (bxid_of p) m) p (complete_at r roc b cells))
            | inr miss ↦ rw miss refl
          ])
    ]
  where
    dropped : (a : Bool) → (a && false) ≡ false
    dropped a = ground arith

    same : (b k : ℕ) → (b == k) ≡ true → b ≡ k
    same b k h = ground arith

set_cycle_keeps :
    (start stop : ℕ) (o : Option LdaTimeData) (ev : Event)
    → ((set_cycle start stop o ev).tag_bxid ≡ ev.tag_bxid)
      × ((set_cycle start stop o ev).packets ≡ ev.packets)
set_cycle_keeps start stop none ev = (refl, refl)
set_cycle_keeps start stop (some d) ev = (refl, refl)

single_sent :
    (b bxid : ℕ) (ps : List Infodata) (ev : Event)
    → ev.tag_bxid ≡ some bxid
    → ev.packets ≡ ps
    → sent_at b (ev ∷ []) ≡ (if b == bxid then ps else [])
single_sent b bxid ps ev t p = simp (t, p) (append-nil _)

crossing_event-sent :
    (c : Settings) (roc start stop b bxid : ℕ) (v : List Infodata) (r : Reader)
    → sent_at b ((crossing_event c roc start stop bxid v r).0 ∷ [])
      ≡ (if b == bxid then add_packets v else [])
unfolding crossing_event set_crossing_times prepare_eudaq_raw_packet
crossing_event-sent c roc start stop b bxid v r =
    let (ev, r') = prepare_eudaq_raw_packet (count_bxid r) in
    let k =
      set_cycle_keeps start stop (lookup int_rank roc r'.lda_timestamp_data)
        (record ev { tag_roc = some roc; tag_bxid = some bxid; packets = add_packets v }) in
    single_sent b bxid (add_packets v) (crossing_event c roc start stop bxid v r).0 k.0 k.1

split_front :
    (b k : ℕ) (v : List Infodata) (m : Crossings)
    → k < 2 ^ 32
    → IsTable (suc (int_rank k)) m
    → (if b == k then add_packets v else []) ++ add_packets (or_default [] (lookup int_rank b m))
      ≡ add_packets (or_default [] (lookup int_rank b ((k, v) ∷ m)))
unfolding lookup add_packets
split_front b k v m hk h = elim (Bool-cases (b == k)) [
  | inl hit ↦ rw (hit, absent (ground (arith, hit))) (append-nil (add_packets v))
  | inr miss ↦ rw miss (elim (Bool-cases (ltb (int_rank b) (int_rank k))) [
    | inl l ↦ rw (l, absent (ground (arith, l))) refl
    | inr l ↦ rw l refl
  ])
]
  where
    absent : int_rank b < suc (int_rank k) → lookup int_rank b m ≡ none
    absent lt = lookup-IsTable b (suc (int_rank k)) m h lt

crossing_events-sent :
    (c : Settings) (roc start stop b n : ℕ) (m : Crossings) (queue : List Event) (r : Reader)
    → IsTable n m
    → sent_at b (crossing_events c roc start stop m (queue, r)).0
      ≡ sent_at b queue ++ add_packets (or_default [] (lookup int_rank b m))
unfolding crossing_events lookup add_packets
crossing_events-sent c roc start stop b n [] queue r h = sym (append-nil (sent_at b queue))
crossing_events-sent c roc start stop b n ((k, v) ∷ m) queue r h =
    let (ev, r') = crossing_event c roc start stop k v r in
    crossing_events-sent c roc start stop b (suc (int_rank k)) m (queue ++ ev ∷ []) r' h.2
    ∙ ap (λ l. l ++ add_packets (or_default [] (lookup int_rank b m)))
        (sent_at-append b queue (ev ∷ [])
          ∙ ap (λ l. sent_at b queue ++ l) (crossing_event-sent c roc start stop b k v r))
    ∙ append_assoc (sent_at b queue) (if b == k then add_packets v else []) _
    ∙ ap (λ l. sent_at b queue ++ l) (split_front b k v m h.0 h.2)

-- For a readout cycle, `buildBXIDEvents` sends for each crossing exactly its packets, in order and in events
-- with that BXID, but for empty ones; none of a crossing behind a full memory cell. (The BXIDs of the packets
-- are `int`s.)
pub build_bxid-sent :
    (c : Settings) (roc bxid : ℕ) (cells : List Infodata) (queue : List Event) (r : Reader)
    → BxidsAreInts cells
    → sent_at bxid (build_bxid c roc cells (queue, r)).0
      ≡ sent_at bxid queue ++ add_packets (complete_at r roc bxid cells)
unfolding build_bxid lookup
build_bxid-sent c roc bxid cells queue r ints =
    let d = lookup int_rank roc r.lda_timestamp_data in
    crossing_events-sent c roc (start_of d) (stop_of d) bxid 0 (complete_crossings r roc cells [])
      queue _ (complete_crossings-IsTable r roc cells [] ints tt)
    ∙ ap (λ o. sent_at bxid queue ++ add_packets (or_default [] o))
        (lookup-complete_crossings r roc bxid cells [])
    ∙ ap (λ l. sent_at bxid queue ++ add_packets l) (extended (complete_at r roc bxid cells))
  where
    extended : (l : List Infodata) → or_default [] (extend none l) ≡ l
    extended [] = refl
    extended (p ∷ ps) = refl
