-- ===== src/ScReader/Timestamp/Refused.antt =====
-- Trigger records with a wrong ID, among those that are recorded.
use eudaq_ahcal.Base.{
  ℕ, ◌^◌, ◌<◌, List, [], ◌∷◌, ◌++◌, ◌≡◌, refl, ◌∙◌, arith, ◌==◌, ==_iff, Bool, true, false, ◌&&◌,
  Bool-cases, inl, inr, All, AreBytes,
}
use eudaq_ahcal.ScReader.State.{Settings, Reader}
use eudaq_ahcal.ScReader.Timestamp.{
  ts_type, tstype_trigid_inc, trig_id_difference, read_lda_timestamp, read_timestamps,
}
use eudaq_ahcal.ScReader.Timestamp.Triggers.{Accounted, accepts}
use eudaq_ahcal.ScReader.Timestamp.Ledger.{
  SameCount, read_lda_timestamp-refuses, read_lda_timestamp-Accounted, read_other-SameCount,
}

-- A trigger record that fits the counter `id`.
abbrev pub fits : Settings → ℕ → List ℕ → Bool
fits c id buf = ts_type buf == tstype_trigid_inc && accepts c (trig_id_difference buf id)

no_fit-SameCount :
    (c : Settings) (buf : List ℕ) (r : Reader)
    → r.trigid_not_known ≡ false
    → fits c r.trig_id buf ≡ false
    → SameCount r (read_lda_timestamp c buf r).0
no_fit-SameCount c buf r known no_fit = elim (Bool-cases (ts_type buf == tstype_trigid_inc)) [
  | inl e ↦
      read_lda_timestamp-refuses c buf r ((==_iff (ts_type buf) tstype_trigid_inc).0 e) known
        (rw e at no_fit)
  | inr other ↦ read_other-SameCount c buf r other
]

SameCount-trans : (p q r : Reader) → SameCount p q → SameCount q r → SameCount p r
SameCount-trans p q r a b = (b.0 ∙ a.0, b.1 ∙ a.1, b.2 ∙ a.2, b.3 ∙ a.3)

read_timestamps-SameCount :
    (c : Settings) (bufs : List (List ℕ)) (r : Reader)
    → r.trigid_not_known ≡ false
    → All (λ buf. fits c r.trig_id buf ≡ false) bufs
    → SameCount r (read_timestamps c bufs r)
unfolding read_timestamps
read_timestamps-SameCount c [] r known none_fits = (refl, refl, refl, refl)
read_timestamps-SameCount c (buf ∷ bufs) r known none_fits =
    let r' = (read_lda_timestamp c buf r).0 in
    let one = no_fit-SameCount c buf r known none_fits.0 in
    SameCount-trans r r' (read_timestamps c bufs r') one
      (read_timestamps-SameCount c bufs r' (one.2 ∙ known) (rw one.0 none_fits.1))

read_timestamps_snoc :
    (c : Settings) (bufs : List (List ℕ)) (buf : List ℕ) (r : Reader)
    → read_timestamps c (bufs ++ buf ∷ []) r
      ≡ (read_lda_timestamp c buf (read_timestamps c bufs r)).0
unfolding read_timestamps
read_timestamps_snoc c [] buf r = refl
read_timestamps_snoc c (b ∷ bufs) buf r =
    read_timestamps_snoc c bufs buf (read_lda_timestamp c b r).0

Accounted-SameCount :
    (buf : List ℕ) (p q r : Reader) → SameCount p q → Accounted buf q r → Accounted buf p r
Accounted-SameCount buf p q r same a = record {
  id = a.id;
  lost = omega (arith, a.lost, same);
  one_more = omega (arith, a.one_more, same);
  bounded = a.bounded;
  known = a.known ∙ same.2;
}

-- Once the first trigger ID is known and while the count of lost triggers is an `int`: any number of
-- trigger records with IDs that do not fit the counter (neither the next one nor less than `MaxTrigidSkip`
-- ahead), and of records of other types, do not disturb the count. A trigger record (of bytes) behind
-- them that fits is recorded as one trigger more, the last 16 bits of the counter are its ID, and what is
-- counted as lost are the numbers between the counter before all of these records and the one after them.
pub read_timestamps-recovers :
    (c : Settings) (bufs : List (List ℕ)) (buf : List ℕ) (r : Reader)
    → AreBytes buf
    → r.trigid_not_known ≡ false
    → r.statistics.triggers_lost < 2 ^ 32
    → All (λ b. fits c r.trig_id b ≡ false) bufs
    → fits c r.trig_id buf ≡ true
    → Accounted buf r (read_timestamps c (bufs ++ buf ∷ []) r)
read_timestamps-recovers c bufs buf r bytes known hl none_fits fit =
    let q = read_timestamps c bufs r in
    let same = read_timestamps-SameCount c bufs r known none_fits in
    let is_trigger : ts_type buf ≡ tstype_trigid_inc = ground (arith, fit) in
    let ok : accepts c (trig_id_difference buf r.trig_id) ≡ true = ground (arith, fit) in
    rw (read_timestamps_snoc c bufs buf r) (
      Accounted-SameCount buf r q _ same (
        read_lda_timestamp-Accounted c buf q bytes is_trigger (same.2 ∙ known) (rw same.1 hl)
          (rw same.0 ok)))
