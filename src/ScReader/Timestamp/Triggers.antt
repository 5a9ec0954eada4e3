-- ===== src/ScReader/Timestamp/Triggers.antt =====
-- The bookkeeping of trigger IDs: what a trigger record adds, and what is counted as lost.
use eudaq_ahcal.Base.{
  ℕ, ◌+◌, ◌%◌, ◌^◌, ◌<◌, List, [], ◌∷◌, ◌++◌, ◌≡◌, refl, arith, length, length-append, ◌==◌, Bool,
  true, false, ◌&&◌, ◌||◌, Bool-cases, inl, inr,
}
use eudaq_ahcal.Base.Words.{add32, sub32, slt, int_rank}
use eudaq_ahcal.Base.IntMap.{Values, Values-adjust, total_of, total_of-adjust}
use eudaq_ahcal.ScReader.State.{Settings, LdaTimeData, no_time_data, Reader}
use eudaq_ahcal.ScReader.Timestamp.{
  raw_trig_id, trig_id_difference, skip_triggers, record_trigger, trigid_inc_known, timestamp,
}

-- The two vectors of a readout cycle have equal length.
abbrev pub IsPaired : LdaTimeData → Type 0
IsPaired d = length d.trigger_ids ≡ length d.ts_triggers

abbrev pub AllPaired : Reader → Type 0
AllPaired r = Values IsPaired r.lda_timestamp_data

append_trigger-IsPaired :
    (i t : ℕ) (d : LdaTimeData)
    → IsPaired d
    → length (d.trigger_ids ++ i ∷ []) ≡ length (d.ts_triggers ++ t ∷ [])
append_trigger-IsPaired i t d h =
    omega (arith, length-append d.trigger_ids (i ∷ []), length-append d.ts_triggers (t ∷ []))

pub record_trigger-AllPaired :
    (cycle : ℕ) (buf : List ℕ) (r : Reader) → AllPaired r → AllPaired (record_trigger cycle buf r)
unfolding record_trigger
record_trigger-AllPaired cycle buf r h =
    Values-adjust int_rank IsPaired cycle no_time_data _ r.lda_timestamp_data
      (append_trigger-IsPaired r.trig_id (timestamp buf)) refl h

-- The number of triggers that the map holds.
abbrev pub recorded : Reader → ℕ
recorded r = total_of (λ (d : LdaTimeData). length d.trigger_ids) r.lda_timestamp_data

record_trigger-recorded :
    (cycle : ℕ) (buf : List ℕ) (r : Reader) → recorded (record_trigger cycle buf r) ≡ recorded r + 1
unfolding record_trigger
record_trigger-recorded cycle buf r =
    total_of-adjust int_rank (λ (d : LdaTimeData). length d.trigger_ids) 1 cycle no_time_data _
      r.lda_timestamp_data (λ d. omega (arith, length-append d.trigger_ids (r.trig_id ∷ []))) refl

-- One trigger more is recorded: the counter ends in the received ID, and runs ahead by one and the
-- number counted as lost.
pub record Accounted (buf : List ℕ) (r r' : Reader) : Type 0 where
  pub id : r'.trig_id % 2 ^ 16 ≡ raw_trig_id buf
  pub lost :
      r'.trig_id
      ≡ add32 (add32 r.trig_id 1) (sub32 r'.statistics.triggers_lost r.statistics.triggers_lost)
  pub one_more : recorded r' ≡ recorded r + 1
  pub bounded : r'.statistics.triggers_lost < 2 ^ 32
  pub known : r'.trigid_not_known ≡ r.trigid_not_known

record_trigger-trig_id :
    (cycle : ℕ) (buf : List ℕ) (r : Reader)
    → ((record_trigger cycle buf r).trig_id ≡ r.trig_id)
      × ((record_trigger cycle buf r).statistics.triggers_lost ≡ r.statistics.triggers_lost)
      × ((record_trigger cycle buf r).trigid_not_known ≡ r.trigid_not_known)
unfolding record_trigger
record_trigger-trig_id cycle buf r = ground arith

difference_lem :
    (buf : List ℕ) (t : ℕ)
    → raw_trig_id buf < 2 ^ 16
    → add32 t (trig_id_difference buf t) % 2 ^ 16 ≡ raw_trig_id buf
unfolding trig_id_difference
difference_lem buf t h = ground arith

difference-lt : (buf : List ℕ) (t : ℕ) → trig_id_difference buf t < 2 ^ 32
unfolding trig_id_difference
difference-lt buf t = ground arith

next-Accounted :
    (cycle : ℕ) (buf : List ℕ) (r : Reader)
    → raw_trig_id buf < 2 ^ 16
    → r.statistics.triggers_lost < 2 ^ 32
    → trig_id_difference buf r.trig_id ≡ 1
    → Accounted buf r (record_trigger cycle buf (record r { trig_id = add32 r.trig_id 1 }))
next-Accounted cycle buf r hraw hl d =
    let r1 = record r { trig_id = add32 r.trig_id 1 } in
    let same = record_trigger-trig_id cycle buf r1 in
    record {
      id = omega (arith, same, difference_lem buf r.trig_id hraw, d);
      lost = omega (arith, same);
      one_more = record_trigger-recorded cycle buf r1;
      bounded = omega (arith, same);
      known = same.2;
    }

skip-Accounted :
    (cycle : ℕ) (buf : List ℕ) (r : Reader)
    → raw_trig_id buf < 2 ^ 16
    → r.statistics.triggers_lost < 2 ^ 32
    → Accounted buf r
        (record_trigger cycle buf (skip_triggers (trig_id_difference buf r.trig_id) r))
unfolding skip_triggers
skip-Accounted cycle buf r hraw hl =
    let r1 = skip_triggers (trig_id_difference buf r.trig_id) r in
    let same = record_trigger-trig_id cycle buf r1 in
    record {
      id = omega (arith, same, difference_lem buf r.trig_id hraw);
      lost = omega (arith, same, difference-lt buf r.trig_id);
      one_more = record_trigger-recorded cycle buf r1;
      bounded = omega (arith, same);
      known = same.2;
    }

-- The next ID, or a jump forward of less than `MaxTrigidSkip`.
abbrev pub accepts : Settings → ℕ → Bool
accepts c d = d == 1 || slt 1 d && slt d c.max_trigid_skip

pub trigid_inc_known-Accounted :
    (c : Settings) (cycle : ℕ) (buf : List ℕ) (r : Reader)
    → raw_trig_id buf < 2 ^ 16
    → r.statistics.triggers_lost < 2 ^ 32
    → accepts c (trig_id_difference buf r.trig_id) ≡ true
    → Accounted buf r (trigid_inc_known c cycle buf r).0
unfolding trigid_inc_known
trigid_inc_known-Accounted c cycle buf r hraw hl ok =
    elim (Bool-cases (trig_id_difference buf r.trig_id == 1)) [
      | inl e ↦ rw e (next-Accounted cycle buf r hraw hl (ground arith))
      | inr e ↦ rw (e, rw e at ok) (skip-Accounted cycle buf r hraw hl)
    ]

pub trigid_inc_known-refuses :
    (c : Settings) (cycle : ℕ) (buf : List ℕ) (r : Reader)
    → accepts c (trig_id_difference buf r.trig_id) ≡ false
    → (trigid_inc_known c cycle buf r).0 ≡ r
unfolding trigid_inc_known
trigid_inc_known-refuses c cycle buf r e = ground arith
