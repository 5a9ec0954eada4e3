-- ===== src/ScReader/Timestamp/Ledger.antt =====
-- The whole handler, for trigger records: every ID that the counter passes is recorded or counted.
use eudaq_ahcal.Base.{
  ℕ, ◌^◌, ◌<◌, List, [], ◌∷◌, ◌≡◌, refl, arith, length, ap, ◌∙◌, ==_iff, ◌==◌, true, false,
  Bool-cases, inl, inr, ◌⊎◌, All, AreBytes, get_or-lt,
}
use eudaq_ahcal.Base.Words.{add32, sub32, int_rank}
use eudaq_ahcal.Base.IntMap.{total_of, total_of-adjust}
use eudaq_ahcal.ScReader.State.{Settings, LdaTimeData, no_time_data, Reader}
use eudaq_ahcal.ScReader.Timestamp.{
  ts_type, tstype_trigid_inc, raw_trig_id, trig_id_difference, start_acq, stop_acq, learn_trig_id,
  trigid_inc_known, trigid_inc, advance_cycle_ts, count_outside, handle_type, with_roc, lda_cycle,
  is_acq_type, read_lda_timestamp, read_timestamps, start_statistics, stop_statistics, timestamp,
}
use eudaq_ahcal.ScReader.Timestamp.Triggers.{
  Accounted, recorded, accepts, trigid_inc_known-Accounted, trigid_inc_known-refuses,
}

raw_trig_id-lt : (buf : List ℕ) → AreBytes buf → raw_trig_id buf < 2 ^ 16
unfolding raw_trig_id
raw_trig_id-lt buf h = omega (arith, get_or-lt buf 16 h, get_or-lt buf 17 h)

-- The reader when the record's type is looked at.
prepared : Settings → List ℕ → Reader → Reader
prepared c buf r =
    with_roc (lda_cycle buf r) (λ d. d) (advance_cycle_ts c (lda_cycle buf r) (count_outside buf r))

prepared_same :
    (c : Settings) (buf : List ℕ) (r : Reader)
    → ((prepared c buf r).trig_id ≡ r.trig_id)
      × ((prepared c buf r).statistics.triggers_lost ≡ r.statistics.triggers_lost)
      × ((prepared c buf r).trigid_not_known ≡ r.trigid_not_known)
unfolding prepared advance_cycle_ts count_outside
prepared_same c buf r = ground arith

outside_same :
    (buf : List ℕ) (r : Reader)
    → ((count_outside buf r).trig_id ≡ r.trig_id)
      × ((count_outside buf r).statistics.triggers_lost ≡ r.statistics.triggers_lost)
      × ((count_outside buf r).trigid_not_known ≡ r.trigid_not_known)
      × (recorded (count_outside buf r) ≡ recorded r)
unfolding count_outside
outside_same buf r = ground arith

prepared_eq :
    (c : Settings) (buf : List ℕ) (r : Reader)
    → with_roc
        (lda_cycle buf r)
        (λ d. d)
        (advance_cycle_ts c (lda_cycle buf r) (count_outside buf r))
      ≡ prepared c buf r
unfolding prepared
prepared_eq c buf r = refl

before_map :
    (c : Settings) (cycle : ℕ) (buf : List ℕ) (r : Reader)
    → (advance_cycle_ts c cycle (count_outside buf r)).lda_timestamp_data ≡ r.lda_timestamp_data
unfolding advance_cycle_ts count_outside
before_map c cycle buf r = ground arith

with_roc-recorded :
    (cycle : ℕ) (f : LdaTimeData → LdaTimeData) (r : Reader)
    → ((d : LdaTimeData) → (f d).trigger_ids ≡ d.trigger_ids)
    → recorded (with_roc cycle f r) ≡ recorded r
with_roc-recorded cycle f r same = omega (
  arith,
  total_of-adjust int_rank (λ (d : LdaTimeData). length d.trigger_ids) 0 cycle no_time_data f
      r.lda_timestamp_data (λ d. omega (arith, ap (length {A = ℕ}) (same d))) refl,
)

prepared-recorded :
    (c : Settings) (buf : List ℕ) (r : Reader) → recorded (prepared c buf r) ≡ recorded r
unfolding prepared
prepared-recorded c buf r =
    with_roc-recorded (lda_cycle buf r) (λ d. d)
      (advance_cycle_ts c (lda_cycle buf r) (count_outside buf r)) (λ d. refl)
    ∙ ap (total_of (λ (d : LdaTimeData). length d.trigger_ids))
        (before_map c (lda_cycle buf r) buf r)

read_trigger :
    (c : Settings) (buf : List ℕ) (r : Reader)
    → ts_type buf ≡ tstype_trigid_inc
    → r.trigid_not_known ≡ false
    → (read_lda_timestamp c buf r).0
      ≡ (trigid_inc_known c (lda_cycle buf r) buf (prepared c buf r)).0
unfolding read_lda_timestamp is_acq_type handle_type trigid_inc learn_trig_id
read_trigger c buf r e known = ground (arith, prepared_eq c buf r, prepared_same c buf r)

-- Once the first trigger ID is known, a trigger record (of bytes) whose ID is the next one, or less
-- than `MaxTrigidSkip` ahead, is recorded, if the count of lost triggers is an `int`: the counter
-- takes the received ID, and every ID that it passes over is counted as lost.
pub read_lda_timestamp-Accounted :
    (c : Settings) (buf : List ℕ) (r : Reader)
    → AreBytes buf
    → ts_type buf ≡ tstype_trigid_inc
    → r.trigid_not_known ≡ false
    → r.statistics.triggers_lost < 2 ^ 32
    → accepts c (trig_id_difference buf r.trig_id) ≡ true
    → Accounted buf r (read_lda_timestamp c buf r).0
read_lda_timestamp-Accounted c buf r bytes e known hl ok = rw (read_trigger c buf r e known) (
    let p = prepared c buf r in
    let same = prepared_same c buf r in
    let a =
      trigid_inc_known-Accounted c (lda_cycle buf r) buf p (raw_trig_id-lt buf bytes) (rw same.1 hl)
        (rw same.0 ok) in
    record {
      id = a.id;
      lost = omega (arith, a.lost, same);
      one_more = omega (arith, a.one_more, prepared-recorded c buf r);
      bounded = a.bounded;
      known = a.known ∙ same.2;
    })

-- The counter, the count of lost triggers and the number of recorded ones are the same.
abbrev pub SameCount : Reader → Reader → Type 0
SameCount r r' =
    (r'.trig_id ≡ r.trig_id)
    × (r'.statistics.triggers_lost ≡ r.statistics.triggers_lost)
    × (r'.trigid_not_known ≡ r.trigid_not_known)
    × (recorded r' ≡ recorded r)

-- Once the first trigger ID is known, a trigger record whose ID is neither the next one nor less than
-- `MaxTrigidSkip` ahead records nothing and counts nothing as lost, and the counter stays.
pub read_lda_timestamp-refuses :
    (c : Settings) (buf : List ℕ) (r : Reader)
    → ts_type buf ≡ tstype_trigid_inc
    → r.trigid_not_known ≡ false
    → accepts c (trig_id_difference buf r.trig_id) ≡ false
    → SameCount r (read_lda_timestamp c buf r).0
read_lda_timestamp-refuses c buf r e known no_fit =
    let same = prepared_same c buf r in
    let stay =
      trigid_inc_known-refuses c (lda_cycle buf r) buf (prepared c buf r) (rw same.0 no_fit) in
    rw (read_trigger c buf r e known, stay) (same.0, same.1, same.2, prepared-recorded c buf r)

-- Triggers counted in one way or the other, and how far the counter is ahead of them.
abbrev pub ledger : Reader → ℕ
ledger r = sub32 r.trig_id (add32 (recorded r) r.statistics.triggers_lost)

other_type_same :
    (c : Settings) (cycle : ℕ) (buf : List ℕ) (r : Reader)
    → (ts_type buf == tstype_trigid_inc) ≡ false
    → ((handle_type c cycle buf r).0.trig_id ≡ r.trig_id)
      × ((handle_type c cycle buf r).0.statistics.triggers_lost ≡ r.statistics.triggers_lost)
      × ((handle_type c cycle buf r).0.trigid_not_known ≡ r.trigid_not_known)
      × (recorded (handle_type c cycle buf r).0 ≡ recorded r)
unfolding handle_type start_acq stop_acq start_statistics stop_statistics
other_type_same c cycle buf r other = ground (
  arith,
  with_roc-recorded cycle (λ d. record d { ts_start = timestamp buf }) r (λ d. refl),
  with_roc-recorded cycle (λ d. record d { ts_stop = timestamp buf }) r (λ d. refl),
)

-- What a run of records keeps once the first trigger ID is known.
pub record Kept (r r' : Reader) : Type 0 where
  pub ledger_same : ledger r' ≡ ledger r
  pub bounded : r'.statistics.triggers_lost < 2 ^ 32
  pub known : r'.trigid_not_known ≡ r.trigid_not_known

same-Kept : (r r' : Reader) → r.statistics.triggers_lost < 2 ^ 32 → SameCount r r' → Kept r r'
same-Kept r r' hl same = record {
  ledger_same = omega (arith, same);
  bounded = omega (arith, same);
  known = same.2;
}

Accounted-Kept :
    (buf : List ℕ) (r r' : Reader)
    → r.statistics.triggers_lost < 2 ^ 32
    → Accounted buf r r'
    → Kept r r'
Accounted-Kept buf r r' hl a = record {
  ledger_same = omega (arith, a.lost, a.one_more, a.bounded);
  bounded = a.bounded;
  known = a.known;
}

read_other :
    (c : Settings) (buf : List ℕ) (r : Reader)
    → (ts_type buf == tstype_trigid_inc) ≡ false
    → ((read_lda_timestamp c buf r).0 ≡ count_outside buf r)
      ⊎ ((read_lda_timestamp c buf r).0
          ≡ (handle_type c (lda_cycle buf r) buf (prepared c buf r)).0)
unfolding read_lda_timestamp
read_other c buf r other = ground (arith, prepared_eq c buf r)

pub read_other-SameCount :
    (c : Settings) (buf : List ℕ) (r : Reader)
    → (ts_type buf == tstype_trigid_inc) ≡ false
    → SameCount r (read_lda_timestamp c buf r).0
read_other-SameCount c buf r other = elim (read_other c buf r other) [
  | inl e ↦ rw e (outside_same buf r)
  | inr e ↦ rw e (
      let t = other_type_same c (lda_cycle buf r) buf (prepared c buf r) other in
      let s = prepared_same c buf r in
      (t.0 ∙ s.0, t.1 ∙ s.1, t.2 ∙ s.2, t.3 ∙ prepared-recorded c buf r))
]

-- Once the first trigger ID is known, no record of any type makes the counter drift: it stays as far
-- ahead of the recorded and lost triggers as it was.
pub read_lda_timestamp-Kept :
    (c : Settings) (buf : List ℕ) (r : Reader)
    → AreBytes buf
    → r.trigid_not_known ≡ false
    → r.statistics.triggers_lost < 2 ^ 32
    → Kept r (read_lda_timestamp c buf r).0
read_lda_timestamp-Kept c buf r bytes known hl =
    elim (Bool-cases (ts_type buf == tstype_trigid_inc)) [
      | inr other ↦ same-Kept r _ hl (read_other-SameCount c buf r other)
      | inl e ↦
          let is_trigger = (==_iff (ts_type buf) tstype_trigid_inc).0 e in
          elim (Bool-cases (accepts c (trig_id_difference buf r.trig_id))) [
            | inl ok ↦
                Accounted-Kept buf r _ hl
                  (read_lda_timestamp-Accounted c buf r bytes is_trigger known hl ok)
            | inr no_fit ↦
                same-Kept r _ hl (read_lda_timestamp-refuses c buf r is_trigger known no_fit)
          ]
    ]

-- Once the first trigger ID is known and while the count of lost triggers is an `int`: over any
-- sequence of records (of bytes), of any types, the triggers recorded and the triggers lost account
-- for every step of the trigger counter, modulo 2 ^ 32.
pub read_timestamps-ledger :
    (c : Settings) (bufs : List (List ℕ)) (r : Reader)
    → All AreBytes bufs
    → r.trigid_not_known ≡ false
    → r.statistics.triggers_lost < 2 ^ 32
    → ledger (read_timestamps c bufs r) ≡ ledger r
unfolding read_timestamps
read_timestamps-ledger c [] r bytes known hl = refl
read_timestamps-ledger c (buf ∷ bufs) r bytes known hl =
    let k = read_lda_timestamp-Kept c buf r bytes.0 known hl in
    read_timestamps-ledger c bufs (read_lda_timestamp c buf r).0 bytes.1 (k.known ∙ known) k.bounded
    ∙ k.ledger_same
