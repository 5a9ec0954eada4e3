-- ===== src/ScReader/Read/Keeps.antt =====
-- What holds when `Read` is done with a buffer.
use eudaq_ahcal.Base.{
  ℕ, zero, suc, ◌+◌, ◌*◌, ◌≤◌, ◌<◌, List, ◌≡◌, refl, arith, not, ◌&&◌, Option, none, some, ltb,
  ◌==◌, if◌then◌else◌, drop, length, Bool-cases, inl, inr, ◌⊎◌, Bool, true, false, [], ◌∷◌,
}
use eudaq_ahcal.ScReader.State.{Settings, Reader, size_lda_header}
use eudaq_ahcal.ScReader.Timestamp.{read_lda_timestamp}
use eudaq_ahcal.ScReader.Timestamp.Balance.{read_lda_timestamp-IsBalanced}
use eudaq_ahcal.ScReader.Timestamp.Frame.{read_lda_timestamp-AllPaired}
use eudaq_ahcal.ScReader.AsicData.{read_ahcal_data}
use eudaq_ahcal.ScReader.Read.{
  BufferProcessingException, err_incomplete_info_cycle, ok_all_read, ok_need_more_data, Turn, stops,
  goes_on, data_packet, at, starts, is_done, read_led, SlowcontrolEnd, magic_found, too_short,
  ran_out, slowcontrol_loop, after_slowcontrol, read_slowcontrol, read_hvadj, throw_away, read_info,
  read_temperature, is_slowcontrol, payload_length, dispatch, read_packet, or_packet, read_turn,
  Outcome, next_turn, read_loop, read,
}
use eudaq_ahcal.ScReader.Read.Ends.{Returns, read-Returns}
use eudaq_ahcal.ScReader.Read.Sound.{IsSound, Untouched-IsSound, read_ahcal_data-Untouched}

-- The front of the buffer is an info of which the end is missing: the LED voltages, the slow control, or
-- the adjustment of the high voltage, whose first byte is gone if its end was wrong.
abbrev pub IsIncomplete : Reader → List ℕ → Type 0
IsIncomplete r buf =
    ((starts buf 0xda 0xc1 ≡ true) × (length buf < 3 + at buf 2 * 4))
    ⊎ (is_slowcontrol r.unfinished_packet_state ≡ true)
    ⊎ ((starts buf 0xba 0xd1 ≡ true) × (length buf < 13))
    ⊎ (at buf 0 ≡ 0xd1)

-- The front of the buffer is a packet of which the type (up to the byte 14) or the payload is not there.
abbrev pub IsCut : List ℕ → Type 0
IsCut buf =
    (starts buf 0xcd 0xcd ≡ true)
    × ((length buf < 14) ⊎ (length buf < size_lda_header + payload_length buf))

-- What each exception says of the bytes that are left.
abbrev pub IsLeft : BufferProcessingException → Reader → List ℕ → Type 0
IsLeft err_incomplete_info_cycle r buf = IsIncomplete r buf
IsLeft ok_all_read r buf = (starts buf 0xcd 0xcd ≡ true) × (length buf ≤ size_lda_header)
IsLeft ok_need_more_data r buf = (length buf < 8) ⊎ IsCut buf

-- `front` tells whether a data packet is at the front.
abbrev Holds : Bool → Turn → Type 0
Holds front (stops e r buf) = IsSound r × IsLeft e r buf
Holds front (goes_on r buf) = IsSound r
Holds front data_packet = front ≡ true

after_slowcontrol-Holds :
    (e : SlowcontrolEnd) (sc : List ℕ) (ibuf : ℕ) (buf : List ℕ) (r : Reader)
    → IsSound r
    → Holds false (after_slowcontrol e sc ibuf buf r)
after_slowcontrol-Holds magic_found sc ibuf buf r s = record {
  balanced = s.balanced;
  paired = s.paired;
}
after_slowcontrol-Holds too_short sc ibuf buf r s =
    (record { balanced = s.balanced; paired = s.paired }, inr (inl refl))
after_slowcontrol-Holds ran_out sc ibuf buf r s = record {
  balanced = s.balanced;
  paired = s.paired;
}

read_slowcontrol-Holds :
    (buf : List ℕ) (r : Reader) → IsSound r → Holds false (read_slowcontrol buf r)
unfolding read_slowcontrol
read_slowcontrol-Holds buf r s =
    let start = if is_slowcontrol r.unfinished_packet_state then 0 else 2 in
    let (end, sc, ibuf) = slowcontrol_loop (drop start buf) start r.slowcontrol_data in
    after_slowcontrol-Holds end sc ibuf buf r s

read_led-Holds :
    (buf : List ℕ) (r : Reader)
    → starts buf 0xda 0xc1 ≡ true
    → IsSound r
    → Holds false (read_led buf r)
unfolding read_led
read_led-Holds buf r led s = elim (Bool-cases (ltb (length buf) (3 + at buf 2 * 4))) [
  | inl short ↦ rw short (s, inl (led, ground (arith, short)))
  | inr long ↦ rw long (record { balanced = s.balanced; paired = s.paired })
]

second_byte : (buf : List ℕ) (b : ℕ) → at buf 1 ≡ b → at (drop 1 buf) 0 ≡ b
second_byte [] b e = e
second_byte (x ∷ buf) b e = e

read_hvadj-Holds :
    (buf : List ℕ) (r : Reader)
    → starts buf 0xba 0xd1 ≡ true
    → IsSound r
    → Holds false (read_hvadj buf r)
unfolding read_hvadj
read_hvadj-Holds buf r hv s = elim (Bool-cases (ltb (length buf) 13)) [
  | inl short ↦ rw short (s, inr (inr (inl (hv, ground (arith, short)))))
  | inr long ↦ elim (Bool-cases (not (at buf 10 == 0xab && at buf 11 == 0xab))) [
    | inl bad ↦ rw (long, bad) (s, inr (inr (inr (second_byte buf 0xd1 (ground (arith, hv))))))
    | inr good ↦ rw (long, good) (record { balanced = s.balanced; paired = s.paired })
  ]
]

throw_away-Holds : (buf : List ℕ) (r : Reader) → IsSound r → Holds false (throw_away buf r)
unfolding throw_away
throw_away-Holds buf r s = elim (Bool-cases (at buf 0 == 0xac)) [
  | inl e ↦ rw e (record { balanced = s.balanced; paired = s.paired })
  | inr e ↦ rw e s
]

-- What holds without a data packet holds for either front.
any_front : (front : Bool) (t : Turn) → Holds false t → Holds front t
any_front front (stops e r buf) h = h
any_front front (goes_on r buf) h = h
any_front front data_packet h = absurd (ground (arith, h))

read_info-Holds :
    (buf : List ℕ) (r : Reader) → IsSound r → Holds (starts buf 0xcd 0xcd) (read_info buf r)
unfolding read_info
read_info-Holds buf r s =
    let front = starts buf 0xcd 0xcd in
    let led = is_done r.unfinished_packet_state && starts buf 0xda 0xc1 in
    let hv = is_done r.unfinished_packet_state && starts buf 0xba 0xd1 in
    let control = any_front front (read_slowcontrol buf r) (read_slowcontrol-Holds buf r s) in
    let thrown = any_front front (throw_away buf r) (throw_away-Holds buf r s) in
    elim (Bool-cases led) [
      | inl l ↦
          let h = any_front front (read_led buf r) (read_led-Holds buf r (ground (arith, l)) s) in
          ground (arith, s, h)
      | inr l ↦ elim (Bool-cases hv) [
        | inl v ↦
            let h =
              any_front front (read_hvadj buf r) (read_hvadj-Holds buf r (ground (arith, v)) s) in
            ground (arith, s, control, h)
        | inr v ↦ ground (arith, s, control, thrown)
      ]
    ]

dispatch-Holds :
    (c : Settings) (buf : List ℕ) (r : Reader) → IsSound r → Holds false (dispatch c buf r)
unfolding dispatch read_temperature
dispatch-Holds c buf r s =
    let times : IsSound (read_lda_timestamp c buf r).0 = record {
      balanced = read_lda_timestamp-IsBalanced c buf r s.balanced;
      paired = read_lda_timestamp-AllPaired c buf r s.paired;
    } in
    let cells =
      Untouched-IsSound r (read_ahcal_data c buf r).0 (read_ahcal_data-Untouched c buf r) s in
    let warm =
      Untouched-IsSound r (read_temperature buf r).0
        (record { same_statistics = refl; same_times = refl }) s in
    ground (arith, s, times, cells, warm)

read_packet-Holds :
    (c : Settings) (buf : List ℕ) (r : Reader)
    → starts buf 0xcd 0xcd ≡ true
    → IsSound r
    → Holds false (read_packet c buf r)
unfolding read_packet
read_packet-Holds c buf r front s =
    let measured = record r { length_of_packet = payload_length buf } in
    let same : IsSound measured = record { balanced = s.balanced; paired = s.paired } in
    ground (arith, front, s, same, dispatch-Holds c buf measured same)

or_packet-Holds :
    (front : Bool) (t p : Turn)
    → Holds front t
    → (front ≡ true → Holds false p)
    → Holds false (or_packet t p)
or_packet-Holds front (stops e r buf) p h g = h
or_packet-Holds front (goes_on r buf) p h g = h
or_packet-Holds front data_packet p h g = g h

-- The outcome, if there is one.
abbrev Leaves : Option Outcome → Type 0
Leaves none = Unit {0}
Leaves (some (e, r, buf)) = IsSound r × IsLeft e r buf

next_turn-Leaves :
    (again : Reader → List ℕ → Option Outcome) (t : Turn)
    → ((r : Reader) (buf : List ℕ) → IsSound r → Leaves (again r buf))
    → Holds false t
    → Leaves (next_turn again t)
next_turn-Leaves again (stops e r buf) ih h = h
next_turn-Leaves again (goes_on r buf) ih h = ih r buf h
next_turn-Leaves again data_packet ih h = tt

read_loop-Leaves :
    (n : ℕ) (c : Settings) (r : Reader) (buf : List ℕ) → IsSound r → Leaves (read_loop n c r buf)
unfolding read_loop read_turn
read_loop-Leaves zero c r buf s = tt
read_loop-Leaves (suc n) c r buf s =
    next_turn-Leaves (read_loop n c) (read_turn c buf r) (read_loop-Leaves n c) (
      or_packet-Holds (starts buf 0xcd 0xcd) (read_info buf r) (read_packet c buf r)
        (read_info-Holds buf r s) (λ front. read_packet-Holds c buf r front s))

-- There is an outcome, and it is sound.
abbrev pub Ends : Option Outcome → Type 0
Ends none = ⊥
Ends (some (e, r, buf)) = IsSound r × IsLeft e r buf

Returns-Ends : (o : Option Outcome) → Returns o → Leaves o → Ends o
Returns-Ends none a b = absurd a
Returns-Ends (some out) a b = b

-- From a sound state, `Read` ends on every buffer in a sound state: the accumulated times are the sums
-- of the recorded ones and every trigger has an ID and a time. The bytes that it leaves are, with
-- OK_ALL_READ, at most the ten bytes of a header that begins with the magic word; with
-- OK_NEED_MORE_DATA, fewer than eight bytes, or the begin of a packet that lacks bytes of its first
-- fourteen or of its payload; and with ERR_INCOMPLETE_INFO_CYCLE, LED voltages that lack bytes, slow
-- control, with the state that says so, or an adjustment of the high voltage of fewer than 13 bytes,
-- or they begin with 0xd1, the second byte of such an adjustment.
pub read-Ends : (c : Settings) (buf : List ℕ) (r : Reader) → IsSound r → Ends (read c buf r)
unfolding read
read-Ends c buf r s =
    Returns-Ends (read c buf r) (read-Returns c buf r) (read_loop-Leaves (length buf + 2) c r buf s)
