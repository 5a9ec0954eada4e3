-- ===== src/ScReader/Read.antt =====
-- `ScReader::Read`: the loop over the buffer. An exception is the value that stops the loop, with the
-- state and the buffer at that point; what `Read` does then is to call the event builder, except after
-- an incomplete info.
pub mod Ends
pub mod Sound
pub mod Keeps
use eudaq_ahcal.Base.{
  ℕ, zero, suc, ◌+◌, ◌-◌, ◌*◌, ◌/◌, ◌%◌, ◌^◌, List, [], ◌∷◌, ◌++◌, Bool, true, false, not, ◌&&◌,
  ◌||◌, Option, none, some, ltb, leb, ◌==◌, if◌then◌else◌, get_or, drop, length,
}
use eudaq_ahcal.Base.Words.{from_int16}
use eudaq_ahcal.ScReader.State.{
  Settings, UnfinishedPacketStates, done, temperature, slowcontrol, Reader, size_lda_header,
}
use eudaq_ahcal.ScReader.Timestamp.{read_lda_timestamp}
use eudaq_ahcal.ScReader.AsicData.{read_ahcal_data}

pub data BufferProcessingException : Type 0 where
  err_incomplete_info_cycle ok_all_read ok_need_more_data : BufferProcessingException

-- One turn of the loop: an exception, another turn, or a data packet at the front.
pub data Turn : Type 0 where
  stops : BufferProcessingException → Reader → List ℕ → Turn
  goes_on : Reader → List ℕ → Turn
  data_packet : Turn

abbrev pub at : List ℕ → ℕ → ℕ
at buf i = get_or buf i 0

-- The first two bytes of a part of the buffer.
abbrev pub starts : List ℕ → ℕ → ℕ → Bool
starts buf a b = at buf 0 == a && at buf 1 == b

-- The layers of the LED info, at most `layer_n` of them; `ibuf` moves by 4.
unfoldable pub read_layers : ℕ → ℕ → List ℕ → ℕ → List ℕ → List ℕ × ℕ
read_layers zero layer_n buf ibuf info = (info, ibuf)
read_layers (suc fuel) layer_n buf ibuf info =
    let rest = read_layers fuel layer_n buf (ibuf + 4) (
      info
      ++ at buf (ibuf + 1)
        ∷ (at buf (ibuf + 2) * 2 ^ 8 + at buf (ibuf + 3))
        ∷ at buf (ibuf + 4)
        ∷ []) in
    if ltb ibuf (length buf) && not (at buf ibuf == 0xcd) && ltb (ibuf + 1) (layer_n * 4)
    then rest
    else (info, ibuf)

unfoldable pub read_led : List ℕ → Reader → Turn
read_led buf r =
    let layer_n = at buf 2 in
    let (info, ibuf) = read_layers layer_n layer_n buf 2 (r.led_info ++ layer_n ∷ []) in
    if ltb (length buf) (3 + layer_n * 4)
    then stops err_incomplete_info_cycle r buf
    else goes_on (record r { led_info = info }) (drop (ibuf - 1) buf)

-- How the loop over the slow control ends: at a magic word, one byte before the end, or at the end.
pub data SlowcontrolEnd : Type 0 where
  magic_found too_short ran_out : SlowcontrolEnd

abbrev pub is_magic : ℕ → ℕ → Bool
is_magic a b = (a == 0xcd && b == 0xcd) || (a == 0xda && b == 0xc1) || (a == 0xba && b == 0xd1)

-- The bytes from `ibuf` on, `ibuf` itself, and the data so far.
unfoldable pub slowcontrol_loop : List ℕ → ℕ → List ℕ → SlowcontrolEnd × List ℕ × ℕ
slowcontrol_loop [] ibuf sc = (ran_out, sc, ibuf)
slowcontrol_loop (a ∷ []) ibuf sc = (too_short, sc, ibuf)
slowcontrol_loop (a ∷ b ∷ rest) ibuf sc =
    let further = slowcontrol_loop (b ∷ rest) (ibuf + 1) (sc ++ a ∷ []) in
    if is_magic a b then (magic_found, sc, ibuf) else further

abbrev pub is_slowcontrol : UnfinishedPacketStates → Bool
is_slowcontrol slowcontrol = true
is_slowcontrol _ = false

abbrev pub is_done : UnfinishedPacketStates → Bool
is_done done = true
is_done _ = false

abbrev pub after_slowcontrol : SlowcontrolEnd → List ℕ → ℕ → List ℕ → Reader → Turn
after_slowcontrol magic_found sc ibuf buf r =
    goes_on (record r { unfinished_packet_state = done; slowcontrol_data = sc }) (drop ibuf buf)
after_slowcontrol too_short sc ibuf buf r =
    stops err_incomplete_info_cycle
      (record r { unfinished_packet_state = slowcontrol; slowcontrol_data = sc }) buf
after_slowcontrol ran_out sc ibuf buf r =
    goes_on (record r { unfinished_packet_state = slowcontrol; slowcontrol_data = sc })
      (drop ibuf buf)

unfoldable pub read_slowcontrol : List ℕ → Reader → Turn
read_slowcontrol buf r =
    let start = if is_slowcontrol r.unfinished_packet_state then 0 else 2 in
    let (end, sc, ibuf) = slowcontrol_loop (drop start buf) start r.slowcontrol_data in
    after_slowcontrol end sc ibuf buf r

unfoldable pub read_hvadj : List ℕ → Reader → Turn
read_hvadj buf r =
    if ltb (length buf) 13
    then stops err_incomplete_info_cycle r buf
    else if not (at buf 10 == 0xab && at buf 11 == 0xab)
    then stops err_incomplete_info_cycle r (drop 1 buf)
    else goes_on
        (record r {
          hv_adj_info =
              r.hv_adj_info
              ++ at buf 2
                ∷ at buf 3
                ∷ at buf 4
                ∷ at buf 5
                ∷ at buf 6
                ∷ at buf 7
                ∷ at buf 8
                ∷ at buf 9
                ∷ [];
        })
        (drop 12 buf)

-- A byte that starts nothing is thrown away.
unfoldable pub throw_away : List ℕ → Reader → Turn
throw_away buf r =
    goes_on (if at buf 0 == 0xac then record r { unfinished_packet_state = done } else r)
      (drop 1 buf)

unfoldable pub read_info : List ℕ → Reader → Turn
read_info buf r =
    if ltb (length buf) 8
    then stops ok_need_more_data r buf
    else if is_done r.unfinished_packet_state && starts buf 0xda 0xc1
    then read_led buf r
    else if is_slowcontrol r.unfinished_packet_state || starts buf 0xac 0xdc
    then read_slowcontrol buf r
    else if is_done r.unfinished_packet_state && starts buf 0xba 0xd1
    then read_hvadj buf r
    else if starts buf 0xcd 0xcd
    then data_packet
    else throw_away buf r

unfoldable pub read_temperature : List ℕ → Reader → Reader × List ℕ
read_temperature buf r = (
  record r {
    vec_temp = r.vec_temp ++ (at buf 6, at buf 7, from_int16 (at buf 23 * 2 ^ 8 + at buf 22)) ∷ [];
  },
  drop (r.length_of_packet + size_lda_header) buf,
)

abbrev pub has_type : List ℕ → ℕ → ℕ → ℕ → ℕ → Bool
has_type buf a b c d = at buf 10 == a && at buf 11 == b && at buf 12 == c && at buf 13 == d

abbrev pub continues_with : Reader × List ℕ → Turn
continues_with (r, buf) = goes_on r buf

-- A packet of which all bytes are there, by its status byte and its type.
unfoldable pub dispatch : Settings → List ℕ → Reader → Turn
dispatch c buf r =
    let status = at buf 9 in
    let erased = goes_on r (drop (r.length_of_packet + size_lda_header) buf) in
    if status == 0xa0 && has_type buf 0x41 0x43 0x7a 0
    then continues_with (read_temperature buf r)
    else if status == 0x08 && has_type buf 0x45 0x4d 0x49 0x54
    then continues_with (read_lda_timestamp c buf r)
    else if r.length_of_packet == 8 && status == 0x10 && has_type buf 0x02 0x83 0 0x80
    then erased
    else if status / 2 ^ 6 % 2 == 0
    then erased
    else if has_type buf 0x41 0x43 0x48 0x41
    then continues_with (read_ahcal_data c buf r)
    else goes_on r (drop 1 buf)

-- The length of the payload in the header.
abbrev pub payload_length : List ℕ → ℕ
payload_length buf = at buf 3 * 2 ^ 8 + at buf 2

unfoldable pub read_packet : Settings → List ℕ → Reader → Turn
read_packet c buf r =
    let measured = record r { length_of_packet = payload_length buf } in
    if leb (length buf) size_lda_header
    then stops ok_all_read r buf
    else if ltb (length buf) 14
    then stops ok_need_more_data r buf
    else if ltb (length buf) (size_lda_header + payload_length buf)
    then stops ok_need_more_data measured buf
    else dispatch c buf measured

-- A data packet at the front is read.
abbrev pub or_packet : Turn → Turn → Turn
or_packet data_packet p = p
or_packet t p = t

unfoldable pub read_turn : Settings → List ℕ → Reader → Turn
read_turn c buf r = or_packet (read_info buf r) (read_packet c buf r)

-- What `Read` is left with: the exception, the state and the buffer.
abbrev pub Outcome : Type 0
Outcome = BufferProcessingException × Reader × List ℕ

abbrev pub next_turn : (Reader → List ℕ → Option Outcome) → Turn → Option Outcome
next_turn again (stops e r buf) = some (e, r, buf)
next_turn again (goes_on r buf) = again r buf
next_turn again data_packet = none

unfoldable pub read_loop : ℕ → Settings → Reader → List ℕ → Option Outcome
read_loop zero c r buf = none
read_loop (suc fuel) c r buf = next_turn (read_loop fuel c) (read_turn c buf r)

-- Two turns more than there are bytes are enough.
unfoldable pub read : Settings → List ℕ → Reader → Option Outcome
read c buf r = read_loop (length buf + 2) c r buf
