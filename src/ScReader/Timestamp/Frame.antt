-- ===== src/ScReader/Timestamp/Frame.antt =====
-- What one timestamp record changes in the map of readout cycles, and how much of the buffer it takes.
use eudaq_ahcal.Base.{
  ℕ, ◌+◌, ◌^◌, ◌<◌, List, ◌≡◌, ◌≢◌, refl, sym, subst, ◌&&◌, arith, ◌==◌, false, Bool-cases, inl,
  inr, drop,
}
use eudaq_ahcal.Base.Words.{sub32, slt, int_rank}
use eudaq_ahcal.Base.IntMap.{lookup, lookup-adjust, Values, Values-adjust}
use eudaq_ahcal.ScReader.State.{Settings, LdaTimeData, no_time_data, Reader, size_lda_header}
use eudaq_ahcal.ScReader.Timestamp.{
  ts_type, tstype_start_acq, tstype_stop_acq, tstype_trigid_inc, start_acq, stop_acq, learn_trig_id,
  record_trigger, skip_triggers, trigid_inc_known, trigid_inc, advance_cycle_ts, count_outside,
  handle_type, with_roc, lda_cycle, trig_id_difference, is_acq_type, read_lda_timestamp,
}
use eudaq_ahcal.ScReader.Timestamp.Triggers.{IsPaired, AllPaired, record_trigger-AllPaired}

-- The record's own bytes are taken from the buffer, whatever its type and whatever is wrong with it.
pub read_lda_timestamp_consumes :
    (c : Settings) (buf : List ℕ) (r : Reader)
    → (read_lda_timestamp c buf r).1 ≡ drop (r.length_of_packet + size_lda_header) buf
unfolding read_lda_timestamp handle_type start_acq stop_acq trigid_inc trigid_inc_known
    learn_trig_id advance_cycle_ts count_outside
read_lda_timestamp_consumes c buf r = ground arith

with_roc-AllPaired :
    (cycle : ℕ) (f : LdaTimeData → LdaTimeData) (r : Reader)
    → ((d : LdaTimeData) → IsPaired d → IsPaired (f d))
    → AllPaired r
    → AllPaired (with_roc cycle f r)
with_roc-AllPaired cycle f r keep h =
    Values-adjust int_rank IsPaired cycle no_time_data f r.lda_timestamp_data keep refl h

start_acq-AllPaired :
    (cycle : ℕ) (buf : List ℕ) (r : Reader) → AllPaired r → AllPaired (start_acq cycle buf r).0
unfolding start_acq
start_acq-AllPaired cycle buf r h =
    Values-adjust int_rank IsPaired cycle no_time_data _ r.lda_timestamp_data (λ d p. p) refl h

stop_acq-AllPaired :
    (cycle : ℕ) (buf : List ℕ) (r : Reader) → AllPaired r → AllPaired (stop_acq cycle buf r).0
unfolding stop_acq
stop_acq-AllPaired cycle buf r h =
    Values-adjust int_rank IsPaired cycle no_time_data _ r.lda_timestamp_data (λ d p. p) refl h

trigid_inc_known-AllPaired :
    (c : Settings) (cycle : ℕ) (buf : List ℕ) (r : Reader)
    → AllPaired r
    → AllPaired (trigid_inc_known c cycle buf r).0
unfolding trigid_inc_known skip_triggers
trigid_inc_known-AllPaired c cycle buf r h =
    elim (Bool-cases (trig_id_difference buf r.trig_id == 1)) [
      | inl e ↦ rw e (record_trigger-AllPaired cycle buf _ h)
      | inr e ↦
          rw e
            (elim (Bool-cases (
              slt 1 (trig_id_difference buf r.trig_id)
              && slt (trig_id_difference buf r.trig_id) c.max_trigid_skip)) [
                | inl f ↦ rw f (record_trigger-AllPaired cycle buf _ h)
                | inr f ↦ rw f h
              ])
    ]

learn_map :
    (buf : List ℕ) (r : Reader) → (learn_trig_id buf r).lda_timestamp_data ≡ r.lda_timestamp_data
unfolding learn_trig_id
learn_map buf r = ground arith

handle_type-AllPaired :
    (c : Settings) (cycle : ℕ) (buf : List ℕ) (r : Reader)
    → AllPaired r
    → AllPaired (handle_type c cycle buf r).0
unfolding handle_type trigid_inc
handle_type-AllPaired c cycle buf r h = elim (Bool-cases (ts_type buf == tstype_start_acq)) [
  | inl e ↦ rw e (start_acq-AllPaired cycle buf r h)
  | inr e ↦ rw e (elim (Bool-cases (ts_type buf == tstype_stop_acq)) [
    | inl f ↦ rw f (stop_acq-AllPaired cycle buf r h)
    | inr f ↦ rw f (elim (Bool-cases (ts_type buf == tstype_trigid_inc)) [
      | inl g ↦ rw g (
          trigid_inc_known-AllPaired c cycle buf (learn_trig_id buf r)
            (subst (Values IsPaired) (sym (learn_map buf r)) h))
      | inr g ↦ rw g h
    ])
  ])
]

before_map :
    (c : Settings) (cycle : ℕ) (buf : List ℕ) (r : Reader)
    → (advance_cycle_ts c cycle (count_outside buf r)).lda_timestamp_data ≡ r.lda_timestamp_data
unfolding advance_cycle_ts count_outside
before_map c cycle buf r = ground arith

outside_map :
    (buf : List ℕ) (r : Reader) → (count_outside buf r).lda_timestamp_data ≡ r.lda_timestamp_data
unfolding count_outside
outside_map buf r = ground arith

-- Reading a record keeps, in every readout cycle, one timestamp for each trigger ID.
pub read_lda_timestamp-AllPaired :
    (c : Settings) (buf : List ℕ) (r : Reader)
    → AllPaired r
    → AllPaired (read_lda_timestamp c buf r).0
unfolding read_lda_timestamp
read_lda_timestamp-AllPaired c buf r h = elim (Bool-cases (is_acq_type (ts_type buf))) [
  | inl e ↦ rw e (
      handle_type-AllPaired c (lda_cycle buf r) buf _ (
        Values-adjust int_rank IsPaired (lda_cycle buf r) no_time_data (λ d. d) _ (λ d p. p) refl
          (subst (Values IsPaired) (sym (before_map c (lda_cycle buf r) buf r)) h)))
  | inr e ↦ rw e (subst (Values IsPaired) (sym (outside_map buf r)) h)
]

handle_type_other_cycle :
    (c : Settings) (cycle j : ℕ) (buf : List ℕ) (r : Reader)
    → j ≢ cycle
    → lookup int_rank j (handle_type c cycle buf r).0.lda_timestamp_data
      ≡ lookup int_rank j r.lda_timestamp_data
unfolding handle_type start_acq stop_acq trigid_inc trigid_inc_known learn_trig_id skip_triggers
    record_trigger
handle_type_other_cycle c cycle j buf r ne = grind (arith, lookup-adjust)

-- A record leaves the entry of every readout cycle but its own alone.
pub read_lda_timestamp_other_cycle :
    (c : Settings) (j : ℕ) (buf : List ℕ) (r : Reader)
    → j ≢ lda_cycle buf r
    → lookup int_rank j (read_lda_timestamp c buf r).0.lda_timestamp_data
      ≡ lookup int_rank j r.lda_timestamp_data
unfolding read_lda_timestamp
read_lda_timestamp_other_cycle c j buf r ne = ground (
  arith,
  outside_map buf r,
  before_map c k buf r,
  lookup-adjust int_rank k j no_time_data (λ d. d)
      (advance_cycle_ts c k (count_outside buf r)).lda_timestamp_data,
  handle_type_other_cycle c k j buf
      (with_roc k (λ d. d) (advance_cycle_ts c k (count_outside buf r))),
)
  where
    k : ℕ
    k = lda_cycle buf r

pub handle_type_cycle :
    (c : Settings) (k : ℕ) (buf : List ℕ) (r : Reader)
    → (handle_type c k buf r).0.cycle_no_ts ≡ r.cycle_no_ts
unfolding handle_type start_acq stop_acq trigid_inc trigid_inc_known learn_trig_id skip_triggers
    record_trigger
handle_type_cycle c k buf r = ground arith

-- `n` steps are at most `jump` back or forward.
abbrev pub Within : ℕ → ℕ → Type 0
Within jump n = (slt jump n ≡ false) × (slt n (sub32 0 jump) ≡ false)

advance-Within :
    (c : Settings) (k : ℕ) (buf : List ℕ) (r : Reader)
    → c.max_roc_jump < 2 ^ 31
    → Within c.max_roc_jump
        (sub32 (advance_cycle_ts c k (count_outside buf r)).cycle_no_ts r.cycle_no_ts)
unfolding advance_cycle_ts count_outside
advance-Within c k buf r h = ground arith

outside_cycle : (buf : List ℕ) (r : Reader) → (count_outside buf r).cycle_no_ts ≡ r.cycle_no_ts
unfolding count_outside
outside_cycle buf r = ground arith

same-Within : (c : Settings) (n : ℕ) → c.max_roc_jump < 2 ^ 31 → Within c.max_roc_jump (sub32 n n)
same-Within c n h = ground arith

-- The readout cycle of the timestamps moves by at most `MaxRocJump` (if that is not negative), whatever
-- cycle a record names.
pub read_lda_timestamp-Within :
    (c : Settings) (buf : List ℕ) (r : Reader)
    → c.max_roc_jump < 2 ^ 31
    → Within c.max_roc_jump (sub32 (read_lda_timestamp c buf r).0.cycle_no_ts r.cycle_no_ts)
unfolding read_lda_timestamp
read_lda_timestamp-Within c buf r h = elim (Bool-cases (is_acq_type (ts_type buf))) [
  | inl e ↦
      rw (e, handle_type_cycle c (lda_cycle buf r) buf) (advance-Within c (lda_cycle buf r) buf r h)
  | inr e ↦ rw (e, outside_cycle buf r) (same-Within c r.cycle_no_ts h)
]
