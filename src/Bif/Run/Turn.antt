-- ===== src/Bif/Run/Turn.antt =====
-- What a turn of the loop writes to the raw file.
use eudaq_ahcal.Base.{
  ℕ, List, [], ◌∷◌, ◌++◌, ◌≡◌, ltb, refl, sym, ap, ◌∙◌, arith, true, false, length, Bool-cases, inl,
  inr,
}
use mathlib.Core.List.{append-nil, append_assoc}
use eudaq_ahcal.Bif.State.{Settings, Event, Producer}
use eudaq_ahcal.Bif.Process.{
  is_single, write_word1, write_word2, put_back, trigger_word2, process_queued_bif_data,
}
use eudaq_ahcal.Bif.Process.Chunks.{
  SameFile, trigger_word2_file, word2_written, single_written, double_written,
  process_queued_bif_data_raw_file,
}
use eudaq_ahcal.Bif.Send.{send_queue, sendallevents}
use eudaq_ahcal.Bif.Run.{Fetch, Loop, words_in, fetch, send, turn}

-- The buffer between two turns: it is empty, or holds the first word of a packet, which is already in
-- the raw file.
pub data IsPending : List ℕ → Producer → Type 0 where
  empty : (p : Producer) → p.word1_written_previously ≡ false → IsPending [] p
  half :
      (w : ℕ) (p : Producer)
      → is_single w ≡ false
      → p.word1_written_previously ≡ true
      → IsPending (w ∷ []) p

fresh-IsPending :
    (c : Settings) (xs : List ℕ) (p : Producer)
    → c.write_raw ≡ true
    → p.word1_written_previously ≡ false
    → let (p', left) = process_queued_bif_data c xs p in IsPending left p'
unfolding process_queued_bif_data put_back
fresh-IsPending c [] p on fresh = empty p fresh
fresh-IsPending c (w ∷ []) p on fresh = elim (Bool-cases (is_single w)) [
  | inl s ↦ rw s (empty _ (single_written c w p on fresh).1)
  | inr d ↦ rw d (half w _ d refl)
]
fresh-IsPending c (w ∷ w2 ∷ xs) p on fresh = elim (Bool-cases (is_single w)) [
  | inl s ↦ rw s (fresh-IsPending c (w2 ∷ xs) _ on (single_written c w p on fresh).1)
  | inr d ↦ rw d (fresh-IsPending c xs _ on (double_written c w w2 p on fresh).1)
]

-- The second word of a packet whose first one is in the raw file.
resumed_written :
    (c : Settings) (w w2 : ℕ) (p : Producer)
    → c.write_raw ≡ true
    → p.word1_written_previously ≡ true
    → let p' = write_word2 c w2 (trigger_word2 c w w2 (write_word1 c w p)) in
      (p'.raw_file ≡ p.raw_file ++ w2 ∷ []) × (p'.word1_written_previously ≡ false)
unfolding write_word1 SameFile
resumed_written c w w2 p on again =
    let same = trigger_word2_file c w w2 (write_word1 c w p) in
    let two = word2_written c w2 (trigger_word2 c w w2 (write_word1 c w p)) on in
    let kept : (write_word1 c w p).raw_file ≡ p.raw_file = ground arith in
    (two.0 ∙ ap (λ l. l ++ w2 ∷ []) (same.0 ∙ kept), two.1 ∙ same.1)

-- What a turn does to the file and to the buffer, when `ys` has come to what was pending.
unfoldable pub Goes : List ℕ → List ℕ → Producer → Producer → Type 0
Goes ys left p p' = (p'.raw_file ≡ p.raw_file ++ ys) × IsPending left p'

half-Goes :
    (c : Settings) (w : ℕ) (ys : List ℕ) (p : Producer)
    → c.write_raw ≡ true
    → is_single w ≡ false
    → p.word1_written_previously ≡ true
    → let (p', left) = process_queued_bif_data c (w ∷ ys) p in Goes ys left p p'
unfolding process_queued_bif_data put_back write_word1 Goes
half-Goes c w [] p on d again = rw (d, again) (rw on (sym (append-nil p.raw_file)), half w _ d refl)
half-Goes c w (w2 ∷ ys) p on d again =
    let two = resumed_written c w w2 p on again in
    let q = write_word2 c w2 (trigger_word2 c w w2 (write_word1 c w p)) in
    rw d (
      process_queued_bif_data_raw_file c ys q on two.1
          ∙ ap (λ l. l ++ ys) two.0
          ∙ append_assoc p.raw_file (w2 ∷ []) ys,
      fresh-IsPending c ys q on two.1,
    )

pending-Goes :
    (c : Settings) (left ys : List ℕ) (p : Producer)
    → c.write_raw ≡ true
    → IsPending left p
    → let (p', left') = process_queued_bif_data c (left ++ ys) p in Goes ys left' p p'
unfolding Goes
pending-Goes c left ys p on (empty _ fresh) =
    (process_queued_bif_data_raw_file c ys p on fresh, fresh-IsPending c ys p on fresh)
pending-Goes c left ys p on (half w _ d again) = half-Goes c w ys p on d again

-- Sending keeps the file.
send_queue_file : (n : ℕ) (es : List Event) (p : Producer) → SameFile p (send_queue n es p).1
unfolding send_queue SameFile
send_queue_file n [] p = (refl, refl)
send_queue_file n (e ∷ es) p = elim (Bool-cases (ltb n (length (e ∷ es)))) [
  | inl more ↦ rw more (send_queue_file n es (record p { bore_sent = true }))
  | inr last ↦ rw last (refl, refl)
]

pub IsPending-SameFile :
    (left : List ℕ) (p q : Producer) → SameFile p q → IsPending left p → IsPending left q
unfolding SameFile
IsPending-SameFile left p q same (empty _ fresh) = empty q (same.1 ∙ fresh)
IsPending-SameFile left p q same (half w _ d again) = half w q d (same.1 ∙ again)

pub send_file : (n : ℕ) (s : Loop) → SameFile s.producer (send n s).producer
unfolding sendallevents
send_file n s = send_queue_file n s.producer.deq_event s.producer

-- A turn writes the words of its fetch.
pub turn-Goes :
    (c : Settings) (f : Fetch) (s : Loop)
    → c.write_raw ≡ true
    → IsPending s.buffer s.producer
    → let s' = turn c (fetch f s) in Goes (words_in f.mem) s'.buffer s.producer s'.producer
unfolding Goes SameFile
turn-Goes c f s on pending =
    let goes = pending-Goes c s.buffer (words_in f.mem) s.producer on pending in
    let done = process_queued_bif_data c (s.buffer ++ words_in f.mem) s.producer in
    let mid : Loop = record s { producer = done.0; buffer = done.1 } in
    let same = send_file 1 mid in
    (same.0 ∙ goes.0, IsPending-SameFile done.1 done.0 (send 1 mid).producer same goes.1)
