-- ===== src/Bif/Run/Spins.antt =====
-- The inner loop after the stop, when the last packet is incomplete.
use eudaq_ahcal.Base.{
  ℕ, zero, suc, List, [], ◌∷◌, ◌++◌, ◌≡◌, refl, ap, ◌∙◌, true, false, ◌==◌, length, some, replicate,
}
use mathlib.Core.List.{append-nil}
use eudaq_ahcal.Bif.State.{Settings}
use eudaq_ahcal.Bif.Process.{is_single, process_queued_bif_data}
use eudaq_ahcal.Bif.Run.{Fetch, Loop, raw_words, fetch, turn, drain}

-- A fetch without data, after the run has been stopped.
abbrev pub idle : Fetch
idle = record { mem = some []; stopped = true }

-- The loop after n turns in which nothing comes.
abbrev pub spin : Settings → ℕ → Loop → Loop
spin c zero s = s
spin c (suc n) s = spin c n (turn c s)

turn-buffer :
    (c : Settings) (w : ℕ) (s : Loop)
    → is_single w ≡ false
    → s.buffer ≡ w ∷ []
    → (turn c s).buffer ≡ w ∷ []
unfolding process_queued_bif_data
turn-buffer c w s half held = rw (held, half)

fetch-idle : (s : Loop) → fetch idle s ≡ s
unfolding raw_words
fetch-idle s = ap (λ b. record s { buffer = b }) (append-nil s.buffer)

drain-turn :
    (c : Settings) (w : ℕ) (fs : List Fetch) (s : Loop)
    → s.buffer ≡ w ∷ []
    → drain c (idle ∷ fs) s ≡ drain c fs (turn c s)
unfolding drain
drain-turn c w fs s held =
    let busy : (length (fetch idle s).buffer == 0) ≡ false =
      ap (λ l. length l.buffer == 0) (fetch-idle s) ∙ ap (λ b. length b == 0) held in
    rw busy (ap (λ l. drain c fs (turn c l)) (fetch-idle s))

-- When the first word of a packet is left at the end of a run, the FIFO is empty and its reading does not
-- fail, the inner loop goes on through every number of turns with that word in its buffer, although the
-- run has been stopped.
pub drain-spin :
    (c : Settings) (w n : ℕ) (fs : List Fetch) (s : Loop)
    → is_single w ≡ false
    → s.buffer ≡ w ∷ []
    → (drain c (replicate n idle ++ fs) s ≡ drain c fs (spin c n s))
      × ((spin c n s).buffer ≡ w ∷ [])
drain-spin c w zero fs s half held = (refl, held)
drain-spin c w (suc n) fs s half held =
    let rest = drain-spin c w n fs (turn c s) half (turn-buffer c w s half held) in
    (drain-turn c w (replicate n idle ++ fs) s held ∙ rest.0, rest.1)
