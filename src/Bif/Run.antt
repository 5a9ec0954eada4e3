-- ===== src/Bif/Run.antt =====
-- `RunLoop`, with `FetchBifDataWasSuccessfull` on the hardware and ReadRawFifo of its class
-- caliceahcalbifController (user/calice/BIF_AHCAL/module/src/caliceahcalbifController.cc).
pub mod Turn
pub mod Raw
pub mod Spins
use eudaq_ahcal.Base.{
  ℕ, ◌+◌, ◌*◌, ◌^◌, List, [], ◌∷◌, ◌++◌, Bool, true, false, not, ◌&&◌, ◌||◌, Option, none, some,
  ◌==◌, if◌then◌else◌, length,
}
use eudaq_ahcal.Base.Words.{add32}
use eudaq_ahcal.Bif.State.{Settings, Event, Producer}
use eudaq_ahcal.Bif.Process.{process_queued_bif_data}
use eudaq_ahcal.Bif.Send.{sendallevents}

-- The words of 64 bits: the first half comes first, and an odd word at the end is left out.
unfoldable pub raw_words : List ℕ → List ℕ
raw_words [] = []
raw_words (val1 ∷ []) = []
raw_words (val1 ∷ val2 ∷ mem) = (val2 + val1 * 2 ^ 32) ∷ raw_words mem

-- What a fetch meets: the 32-bit words of the FIFO, or an exception (none), and whether the run has been
-- stopped when the turn ends.
pub record Fetch : Type 0 where
  pub mem : Option (List ℕ)
  pub stopped : Bool

pub record Loop : Type 0 where
  pub producer : Producer
  pub buffer : List ℕ
  pub sent : List Event

abbrev pub words_in : Option (List ℕ) → List ℕ
words_in none = []
words_in (some mem) = raw_words mem

abbrev pub is_success : Option (List ℕ) → Bool
is_success none = false
is_success (some mem) = true

abbrev pub fetch : Fetch → Loop → Loop
fetch f s = record s { buffer = s.buffer ++ words_in f.mem }

abbrev pub send : ℕ → Loop → Loop
send minimumsize s =
    let (sent, p) = sendallevents minimumsize s.producer in
    record s { producer = p; sent = s.sent ++ sent }

abbrev pub turn : Settings → Loop → Loop
turn c s =
    let (p, left) = process_queued_bif_data c s.buffer s.producer in
    send 1 (record s { producer = p; buffer = left })

-- The inner loop: it ends when nothing is left to process, or at a failed fetch after the stop. It
-- gives the fetches that it does not make.
unfoldable pub drain : Settings → List Fetch → Loop → Loop × List Fetch
drain c [] s = (s, [])
drain c (f ∷ fs) s =
    let s1 = fetch f s in
    let on = drain c fs (turn c s1) in
    if length s1.buffer == 0
    then (s1, fs)
    else if f.stopped && not (is_success f.mem)
    then (turn c s1, fs)
    else on

-- A round of the outer loop: the flags of the run, and whether the last readout is not yet long ago.
pub record Round : Type 0 where
  pub started : Bool
  pub just_stopped : Bool
  pub waiting : Bool

abbrev pub round : Settings → Round → List Fetch → Loop → Loop × List Fetch
round c r fs s = if r.started || r.just_stopped then drain c fs s else (s, fs)

abbrev pub finish : Loop → Loop
finish s =
    let s1 = send 0 s in
    record s1 { producer = record p { readout_cycle = add32 p.readout_cycle 1 } }
  where
    p : Producer
    p = (send 0 s).producer

-- The rounds of the outer loop, until the run is done or the list ends.
unfoldable pub run_rounds : Settings → List Round → List Fetch → Loop → Loop × List Fetch
run_rounds c [] fs s = (s, fs)
run_rounds c (r ∷ rs) fs s =
    let (s1, rest) = round c r fs s in
    let on = run_rounds c rs rest s1 in
    if r.just_stopped && not r.waiting then (finish s1, rest) else on

abbrev pub run_loop : Settings → List Round → List Fetch → Loop → Loop × List Fetch
run_loop c rs fs s =
    run_rounds c rs fs (record s { producer = record s.producer { first_trigger = true } })
