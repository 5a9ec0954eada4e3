-- ===== src/Bif/Process/Chunks.antt =====
-- The words may arrive in pieces, and no word is lost on the way to the raw file.
use eudaq_ahcal.Base.{
  ℕ, zero, suc, List, [], ◌∷◌, ◌++◌, ◌≡◌, refl, sym, ap, ◌∙◌, arith, true, false, Bool-cases, inl,
  inr,
}
use mathlib.Core.List.{append-nil, append_assoc}
use eudaq_ahcal.Base.Words.{add32}
use eudaq_ahcal.Bif.Events.{build_eudaq_events}
use eudaq_ahcal.Bif.State.{Settings, Producer}
use eudaq_ahcal.Bif.Process.{
  fill_cycles, shutter_on, shutter_off, missed_stop, start_cycle, resynchronise, push_packet,
  stop_cycle, push_inputs, note_trigger_id, internal_trigger, external_trigger, is_single,
  single_word, write_word1, write_word2, put_back, trigger_word2, process_queued_bif_data,
}

-- A first word that was put back is not written again.
write_word1_again :
    (c : Settings) (w : ℕ) (p : Producer) → write_word1 c w (put_back c w p) ≡ write_word1 c w p
unfolding write_word1 put_back
write_word1_again c w p = ground arith

put_back_again :
    (c : Settings) (w : ℕ) (p : Producer) → put_back c w (put_back c w p) ≡ put_back c w p
unfolding put_back
put_back_again c w p = rw (write_word1_again c w p) refl

single_chunk :
    (c : Settings) (w : ℕ) (ys : List ℕ) (p : Producer)
    → is_single w ≡ true
    → process_queued_bif_data c ys (write_word1 c w (single_word c w p))
      ≡ process_queued_bif_data c (w ∷ ys) p
unfolding process_queued_bif_data
single_chunk c w [] p s = rw s refl
single_chunk c w (y ∷ ys) p s = rw s refl

double_chunk :
    (c : Settings) (w : ℕ) (ys : List ℕ) (p : Producer)
    → is_single w ≡ false
    → process_queued_bif_data c (w ∷ ys) (put_back c w p) ≡ process_queued_bif_data c (w ∷ ys) p
unfolding process_queued_bif_data
double_chunk c w [] p d = rw (d, put_back_again c w p) refl
double_chunk c w (y ∷ ys) p d = rw (d, write_word1_again c w p) refl

-- However the stream of words is cut in two, the producer ends in the same state (the raw file
-- included) and with the same word put back, if the second piece is read behind what the first one
-- put back.
pub process_queued_bif_data_chunks :
    (c : Settings) (xs ys : List ℕ) (p : Producer)
    → let (p', left) = process_queued_bif_data c xs p in
      process_queued_bif_data c (left ++ ys) p' ≡ process_queued_bif_data c (xs ++ ys) p
unfolding process_queued_bif_data
process_queued_bif_data_chunks c [] ys p = refl
process_queued_bif_data_chunks c (w ∷ []) ys p = elim (Bool-cases (is_single w)) [
  | inl s ↦ rw s (single_chunk c w ys p s)
  | inr d ↦ rw d (double_chunk c w ys p d)
]
process_queued_bif_data_chunks c (w ∷ w2 ∷ xs) ys p = elim (Bool-cases (is_single w)) [
  | inl s ↦
      rw s (process_queued_bif_data_chunks c (w2 ∷ xs) ys (write_word1 c w (single_word c w p)))
  | inr d ↦ rw d (
      process_queued_bif_data_chunks c xs ys
        (write_word2 c w2 (trigger_word2 c w w2 (write_word1 c w p))))
]

-- What the handlers do leaves the raw file and its flag alone.
unfoldable pub SameFile : Producer → Producer → Type 0
SameFile p q = (q.raw_file ≡ p.raw_file) × (q.word1_written_previously ≡ p.word1_written_previously)

fill_cycles_file : (c : Settings) (n : ℕ) (p : Producer) → SameFile p (fill_cycles c n p)
unfolding SameFile fill_cycles build_eudaq_events
fill_cycles_file c zero p = (refl, refl)
fill_cycles_file c (suc n) p = fill_cycles_file c n (record (build_eudaq_events c p) {
  readout_cycle = add32 (build_eudaq_events c p).readout_cycle 1;
})

single_word_file : (c : Settings) (w : ℕ) (p : Producer) → SameFile p (single_word c w p)
unfolding SameFile single_word shutter_on shutter_off missed_stop start_cycle resynchronise
    push_packet stop_cycle build_eudaq_events
single_word_file c w p = grind (arith, fill_cycles_file)

push_inputs_file : (n ts mask w2 : ℕ) (p : Producer) → SameFile p (push_inputs n ts mask w2 p)
unfolding SameFile push_inputs push_packet
push_inputs_file zero ts mask w2 p = (refl, refl)
push_inputs_file (suc n) ts mask w2 p = grind (arith, push_inputs_file n ts mask w2)

pub trigger_word2_file :
    (c : Settings) (w w2 : ℕ) (p : Producer) → SameFile p (trigger_word2 c w w2 p)
unfolding SameFile trigger_word2 note_trigger_id internal_trigger external_trigger push_packet
trigger_word2_file c w w2 p = grind (arith, push_inputs_file)

word1_written :
    (c : Settings) (w : ℕ) (p : Producer)
    → c.write_raw ≡ true
    → p.word1_written_previously ≡ false
    → ((write_word1 c w p).raw_file ≡ p.raw_file ++ w ∷ [])
      × ((write_word1 c w p).word1_written_previously ≡ false)
unfolding write_word1
word1_written c w p on fresh = ground arith

pub single_written :
    (c : Settings) (w : ℕ) (p : Producer)
    → c.write_raw ≡ true
    → p.word1_written_previously ≡ false
    → ((write_word1 c w (single_word c w p)).raw_file ≡ p.raw_file ++ w ∷ [])
      × ((write_word1 c w (single_word c w p)).word1_written_previously ≡ false)
unfolding SameFile
single_written c w p on fresh =
    let same = single_word_file c w p in
    let done = word1_written c w (single_word c w p) on (same.1 ∙ fresh) in
    (done.0 ∙ ap (λ l. l ++ w ∷ []) same.0, done.1)

pub put_back_written :
    (c : Settings) (w : ℕ) (p : Producer)
    → c.write_raw ≡ true
    → p.word1_written_previously ≡ false
    → (put_back c w p).raw_file ≡ p.raw_file ++ w ∷ []
unfolding put_back
put_back_written c w p on fresh = (word1_written c w p on fresh).0

pub word2_written :
    (c : Settings) (w2 : ℕ) (p : Producer)
    → c.write_raw ≡ true
    → ((write_word2 c w2 p).raw_file ≡ p.raw_file ++ w2 ∷ [])
      × ((write_word2 c w2 p).word1_written_previously ≡ p.word1_written_previously)
unfolding write_word2
word2_written c w2 p on = ground arith

pub double_written :
    (c : Settings) (w w2 : ℕ) (p : Producer)
    → c.write_raw ≡ true
    → p.word1_written_previously ≡ false
    → let p' = write_word2 c w2 (trigger_word2 c w w2 (write_word1 c w p)) in
      (p'.raw_file ≡ p.raw_file ++ w ∷ w2 ∷ []) × (p'.word1_written_previously ≡ false)
unfolding SameFile
double_written c w w2 p on fresh =
    let one = word1_written c w p on fresh in
    let same = trigger_word2_file c w w2 (write_word1 c w p) in
    let two = word2_written c w2 (trigger_word2 c w w2 (write_word1 c w p)) on in
    (
      two.0 ∙ ap (λ l. l ++ w2 ∷ []) (same.0 ∙ one.0) ∙ append_assoc p.raw_file (w ∷ []) (w2 ∷ []),
      two.1 ∙ same.1 ∙ one.1,
    )

-- With the raw file switched on, the words read are appended to it as they came, each once, if the
-- buffer does not start with a word that was put back.
pub process_queued_bif_data_raw_file :
    (c : Settings) (xs : List ℕ) (p : Producer)
    → c.write_raw ≡ true
    → p.word1_written_previously ≡ false
    → (process_queued_bif_data c xs p).0.raw_file ≡ p.raw_file ++ xs
unfolding process_queued_bif_data
process_queued_bif_data_raw_file c [] p on fresh = sym (append-nil _)
process_queued_bif_data_raw_file c (w ∷ []) p on fresh = elim (Bool-cases (is_single w)) [
  | inl s ↦ rw s (single_written c w p on fresh).0
  | inr d ↦ rw d (put_back_written c w p on fresh)
]
process_queued_bif_data_raw_file c (w ∷ w2 ∷ xs) p on fresh = elim (Bool-cases (is_single w)) [
  | inl s ↦
      let one = single_written c w p on fresh in
      rw s (
        process_queued_bif_data_raw_file c (w2 ∷ xs) (write_word1 c w (single_word c w p)) on one.1
        ∙ ap (λ l. l ++ w2 ∷ xs) one.0
        ∙ append_assoc p.raw_file (w ∷ []) (w2 ∷ xs))
  | inr d ↦
      let two = double_written c w w2 p on fresh in
      rw d (
        process_queued_bif_data_raw_file c xs
          (write_word2 c w2 (trigger_word2 c w w2 (write_word1 c w p))) on two.1
        ∙ ap (λ l. l ++ xs) two.0
        ∙ append_assoc p.raw_file (w ∷ w2 ∷ []) xs)
]
