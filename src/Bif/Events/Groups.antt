-- ===== src/Bif/Events/Groups.antt =====
-- The grouping of triggers by the crossing of the detector that they fall in.
use eudaq_ahcal.Base.{
  ℕ, List, [], ◌∷◌, ◌++◌, ◌≡◌, ◌≢◌, refl, sym, ap, ◌∙◌, arith, Bool, true, false, Option, some, All,
  ◌==◌, if◌then◌else◌, Bool-cases, inl, inr,
}
use eudaq_ahcal.Bif.State.{Settings, Event, Producer}
use eudaq_ahcal.Bif.Events.{
  Packet, packet_words, packet_kind, Extracted, nothing_extracted, extract, bxid_of_trigger,
  plain_event, Group, int_min, no_group, group_event, group_step, group_loop,
  build_eudaq_events_bxid,
}
use eudaq_ahcal.Bif.Events.Cycle.{cycle_words, whole_cycle, extract-cycle_words, blocks}

abbrev pub crossings : List Event → List (Option ℕ)
crossings [] = []
crossings (v ∷ vs) = v.tag_bxid ∷ crossings vs

-- The crossings of the triggers, each run of equal ones once, behind an open run of `last`.
abbrev pub runs_from : Settings → Producer → ℕ → List Packet → List (Option ℕ)
runs_from c p last [] = some last ∷ []
runs_from c p last (q ∷ qs) =
    let rest = runs_from c p (bxid_of_trigger c p q) qs in
    if bxid_of_trigger c p q == last then rest else some last ∷ rest

abbrev pub runs : Settings → Producer → List Packet → List (Option ℕ)
runs c p [] = []
runs c p (q ∷ qs) = runs_from c p (bxid_of_trigger c p q) qs

IsCrossing : Settings → Producer → Packet → Type 0
IsCrossing c p q = bxid_of_trigger c p q ≢ int_min

crossings-append : (us vs : List Event) → crossings (us ++ vs) ≡ crossings us ++ crossings vs
crossings-append [] vs = refl
crossings-append (u ∷ us) vs = ap (λ l. u.tag_bxid ∷ l) (crossings-append us vs)

group_step_bxid :
    (c : Settings) (p : Producer) (e : Extracted) (q : Packet) (g : Group)
    → (group_step c p e q g).1.last_bxid ≡ bxid_of_trigger c p q
unfolding group_step
group_step_bxid c p e q g = refl

not_first : (n : ℕ) → n ≢ int_min → (n == int_min) ≡ false
not_first n h = ground arith

append_if :
    (b : Bool) (x : Option ℕ) (l : List (Option ℕ))
    → (if b then [] else x ∷ []) ++ l ≡ (if b then l else x ∷ l)
append_if true x l = refl
append_if false x l = refl

-- What is closed when a trigger comes behind an open group.
crossings-group_step :
    (c : Settings) (p : Producer) (e : Extracted) (q : Packet) (g : Group)
    → g.last_bxid ≢ int_min
    → crossings (group_step c p e q g).0
      ≡ (if bxid_of_trigger c p q == g.last_bxid then [] else some g.last_bxid ∷ [])
unfolding group_step group_event plain_event
crossings-group_step c p e q g open_group =
    rw (not_first g.last_bxid open_group)
      (elim (Bool-cases (bxid_of_trigger c p q == g.last_bxid)) [
        | inl same ↦ rw same refl
        | inr other ↦ rw other refl
      ])

crossings-group_loop :
    (c : Settings) (p : Producer) (e : Extracted) (qs : List Packet) (g : Group)
    → g.last_bxid ≢ int_min
    → All (IsCrossing c p) qs
    → crossings (group_loop c p e qs g) ≡ runs_from c p g.last_bxid qs
unfolding group_loop IsCrossing group_event plain_event
crossings-group_loop c p e [] g open_group h = rw (not_first g.last_bxid open_group) refl
crossings-group_loop c p e (q ∷ qs) g open_group h =
    let g' = (group_step c p e q g).1 in
    let b = bxid_of_trigger c p q in
    let r =
      crossings-group_loop c p e qs g' (λ s. h.0 (sym (group_step_bxid c p e q g) ∙ s)) h.1
      ∙ ap (λ n. runs_from c p n qs) (group_step_bxid c p e q g) in
    crossings-append (group_step c p e q g).0 (group_loop c p e qs g')
    ∙ ap (λ l. l ++ crossings (group_loop c p e qs g')) (crossings-group_step c p e q g open_group)
    ∙ ap (λ l. (if b == g.last_bxid then [] else some g.last_bxid ∷ []) ++ l) r
    ∙ append_if (b == g.last_bxid) (some g.last_bxid) (runs_from c p b qs)

build_bxid_whole :
    (c : Settings) (p : Producer) (start stop : Packet) (qs : List Packet)
    → p.cycle_data ≡ cycle_words start qs stop
    → packet_kind start ≡ 3
    → packet_kind stop ≡ 2
    → All (λ q. packet_kind q ≡ 1) qs
    → build_eudaq_events_bxid c p ≡ group_loop c p (whole_cycle start qs stop) qs no_group
unfolding build_eudaq_events_bxid
build_bxid_whole c p start stop qs words hs he hq =
    ap (λ l. let e = extract l nothing_extracted in group_loop c p e e.trigger_packets no_group)
      words
    ∙ ap (λ e. group_loop c p e e.trigger_packets no_group)
        (extract-cycle_words start stop qs hs he hq)

group_loop-runs :
    (c : Settings) (p : Producer) (e : Extracted) (qs : List Packet)
    → All (IsCrossing c p) qs
    → crossings (group_loop c p e qs no_group) ≡ runs c p qs
unfolding group_loop IsCrossing group_step
group_loop-runs c p e [] h = refl
group_loop-runs c p e (q ∷ qs) h =
    crossings-group_loop c p e qs (group_step c p e q no_group).1 h.0 h.1

-- In the mode of one event per crossing, the data of a whole cycle (a start packet, trigger packets and
-- a stop packet) becomes one event for each run of triggers in the same crossing, in order, if no
-- trigger falls in the crossing INT_MIN.
pub build_eudaq_events_bxid-runs :
    (c : Settings) (p : Producer) (start stop : Packet) (qs : List Packet)
    → p.cycle_data ≡ cycle_words start qs stop
    → packet_kind start ≡ 3
    → packet_kind stop ≡ 2
    → All (λ q. packet_kind q ≡ 1) qs
    → All (λ q. bxid_of_trigger c p q ≢ int_min) qs
    → crossings (build_eudaq_events_bxid c p) ≡ runs c p qs
unfolding IsCrossing
build_eudaq_events_bxid-runs c p start stop qs words hs he hq hb =
    ap crossings (build_bxid_whole c p start stop qs words hs he hq)
    ∙ group_loop-runs c p (whole_cycle start qs stop) qs hb

single_group :
    (c : Settings) (p : Producer) (start stop q : Packet)
    → bxid_of_trigger c p q ≢ int_min
    → blocks (group_loop c p (whole_cycle start (q ∷ []) stop) (q ∷ []) no_group)
      ≡ ((packet_words q ++ packet_words start ++ packet_words q) ++ packet_words stop) ∷ []
unfolding group_loop group_step group_event plain_event
single_group c p start stop q h = rw (not_first (bxid_of_trigger c p q) h) refl

-- In that mode, the only trigger of a cycle stands twice in its event's block: before the start packet
-- and after it.
pub build_eudaq_events_bxid_doubles :
    (c : Settings) (p : Producer) (start stop q : Packet)
    → p.cycle_data ≡ cycle_words start (q ∷ []) stop
    → packet_kind start ≡ 3
    → packet_kind stop ≡ 2
    → packet_kind q ≡ 1
    → bxid_of_trigger c p q ≢ int_min
    → blocks (build_eudaq_events_bxid c p)
      ≡ (packet_words q ++ packet_words start ++ packet_words q ++ packet_words stop) ∷ []
build_eudaq_events_bxid_doubles c p start stop q words hs he hq hb =
    ap blocks (build_bxid_whole c p start stop (q ∷ []) words hs he (hq, tt))
    ∙ single_group c p start stop q hb
