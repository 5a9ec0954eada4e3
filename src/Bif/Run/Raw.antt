-- ===== src/Bif/Run/Raw.antt =====
-- What the loop writes to the raw file.
use eudaq_ahcal.Base.{
  ℕ, List, [], ◌∷◌, ◌++◌, ◌≡◌, refl, sym, ap, ◌∙◌, arith, true, not, ◌&&◌, ◌||◌, ◌==◌, length,
  Bool-cases, inl, inr,
}
use mathlib.Core.List.{append-nil, append_assoc}
use eudaq_ahcal.Bif.State.{Settings, Producer}
use eudaq_ahcal.Bif.Process.Chunks.{SameFile}
use eudaq_ahcal.Bif.Run.Turn.{
  IsPending, empty, half, Goes, IsPending-SameFile, send_file, turn-Goes,
}
use eudaq_ahcal.Bif.Run.{
  Fetch, Loop, words_in, is_success, fetch, send, turn, drain, Round, round, finish, run_rounds,
  run_loop,
}

-- The words of the fetches.
abbrev pub words_of : List Fetch → List ℕ
words_of [] = []
words_of (f ∷ fs) = words_in f.mem ++ words_of fs

nothing_left :
    (left ws : List ℕ) (p : Producer)
    → IsPending left p
    → (length (left ++ ws) == 0) ≡ true
    → ws ≡ []
nothing_left left [] p pending none_left = refl
nothing_left left (w ∷ ws) p (empty _ fresh) none_left = absurd (ground (arith, none_left))
nothing_left left (w ∷ ws) p (half _ _ d again) none_left = absurd (ground (arith, none_left))

-- Every word of the fetches is in the file or still to come.
pub Keeps : Loop × List Fetch → Loop × List Fetch → Type 0
Keeps (s, fs) (s', fs') =
    (s'.producer.raw_file ++ words_of fs' ≡ s.producer.raw_file ++ words_of fs)
    × IsPending s'.buffer s'.producer

step-Keeps :
    (f : Fetch) (fs : List Fetch) (s s' : Loop)
    → Goes (words_in f.mem) s'.buffer s.producer s'.producer
    → Keeps (s, f ∷ fs) (s', fs)
unfolding Goes Keeps
step-Keeps f fs s s' goes = (
  ap (λ l. l ++ words_of fs) goes.0
      ∙ append_assoc s.producer.raw_file (words_in f.mem) (words_of fs),
  goes.1,
)

idle-Keeps :
    (f : Fetch) (fs : List Fetch) (s : Loop)
    → words_in f.mem ≡ []
    → IsPending s.buffer s.producer
    → Keeps (s, f ∷ fs) (fetch f s, fs)
unfolding Keeps
idle-Keeps f fs s none_new pending = (
  ap (λ ws. s.producer.raw_file ++ (ws ++ words_of fs)) (sym none_new),
  rw (none_new, append-nil s.buffer) pending,
)

drain-Keeps :
    (c : Settings) (fs : List Fetch) (s : Loop)
    → c.write_raw ≡ true
    → IsPending s.buffer s.producer
    → Keeps (s, fs) (drain c fs s)
unfolding drain Keeps Goes
drain-Keeps c [] s on pending = (refl, pending)
drain-Keeps c (f ∷ fs) s on pending =
    let goes = turn-Goes c f s on pending in
    let step = step-Keeps f fs s (turn c (fetch f s)) goes in
    elim (Bool-cases (length (s.buffer ++ words_in f.mem) == 0)) [
      | inl idle ↦
          let none_new = nothing_left s.buffer (words_in f.mem) s.producer pending idle in
          rw idle (idle-Keeps f fs s none_new pending)
      | inr busy ↦ elim (Bool-cases (f.stopped && not (is_success f.mem))) [
        | inl stop ↦ rw (busy, stop) step
        | inr more ↦
            let rest = drain-Keeps c fs (turn c (fetch f s)) on goes.1 in
            rw (busy, more) (rest.0 ∙ step.0, rest.1)
      ]
    ]

round-Keeps :
    (c : Settings) (r : Round) (fs : List Fetch) (s : Loop)
    → c.write_raw ≡ true
    → IsPending s.buffer s.producer
    → Keeps (s, fs) (round c r fs s)
unfolding Keeps
round-Keeps c r fs s on pending = elim (Bool-cases (r.started || r.just_stopped)) [
  | inl runs ↦ rw runs (drain-Keeps c fs s on pending)
  | inr idle ↦ rw idle (refl, pending)
]

-- The end of a run sends what is queued, and writes nothing.
finish-Keeps :
    (fs rest : List Fetch) (s s' : Loop)
    → Keeps (s, fs) (s', rest)
    → Keeps (s, fs) (finish s', rest)
unfolding Keeps SameFile
finish-Keeps fs rest s s' kept =
    let same = send_file 0 s' in
    let p = (send 0 s').producer in
    (
      ap (λ l. l ++ words_of rest) same.0 ∙ kept.0,
      IsPending-SameFile s'.buffer s'.producer (finish s').producer (same.0, same.1) kept.1,
    )

run_rounds-Keeps :
    (c : Settings) (rs : List Round) (fs : List Fetch) (s : Loop)
    → c.write_raw ≡ true
    → IsPending s.buffer s.producer
    → Keeps (s, fs) (run_rounds c rs fs s)
unfolding Keeps run_rounds
run_rounds-Keeps c [] fs s on pending = (refl, pending)
run_rounds-Keeps c (r ∷ rs) fs s on pending =
    let one = round-Keeps c r fs s on pending in
    let after = round c r fs s in
    elim (Bool-cases (r.just_stopped && not r.waiting)) [
      | inl done ↦ rw done (finish-Keeps fs after.1 s after.0 one)
      | inr more ↦
          let rest = run_rounds-Keeps c rs after.1 after.0 on one.1 in
          rw more (rest.0 ∙ one.0, rest.1)
    ]

-- With the raw file switched on and a buffer that is empty, or holds a first word that the file has: the
-- main loop ends a sequence of rounds and fetches in such a state, and what stands in the file then,
-- followed by the words of the fetches that it has not made, is what stood there before, followed by the
-- words of all fetches.
pub run_loop-Keeps :
    (c : Settings) (rs : List Round) (fs : List Fetch) (s : Loop)
    → c.write_raw ≡ true
    → IsPending s.buffer s.producer
    → Keeps (s, fs) (run_loop c rs fs s)
unfolding Keeps SameFile
run_loop-Keeps c rs fs s on pending =
    let begins = record s { producer = record s.producer { first_trigger = true } } in
    run_rounds-Keeps c rs fs begins on
      (IsPending-SameFile s.buffer s.producer begins.producer (refl, refl) pending)
