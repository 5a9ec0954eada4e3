-- ===== src/ScReader/Read/Ends.antt =====
-- The loop of `Read` comes to an end.
use eudaq_ahcal.Base.{
  ℕ, zero, suc, ◌+◌, ◌*◌, ◌^◌, ◌≤◌, ◌<◌, List, [], ◌∷◌, ◌++◌, ◌≡◌, ◌≢◌, refl, ap, arith, Bool, true,
  false, Option, none, some, ltb, if◌then◌else◌, drop, length, length-drop, Bool-cases, inl, inr,
  ◌⊎◌,
}
use eudaq_ahcal.ScReader.State.{Settings, Reader, size_lda_header}
use eudaq_ahcal.ScReader.Timestamp.{read_lda_timestamp}
use eudaq_ahcal.ScReader.Timestamp.Frame.{read_lda_timestamp_consumes}
use eudaq_ahcal.ScReader.AsicData.{read_ahcal_data}
use eudaq_ahcal.ScReader.AsicData.Shape.{read_ahcal_data-Extends}
use eudaq_ahcal.ScReader.Read.{
  Turn, stops, goes_on, data_packet, at, read_layers, read_led, SlowcontrolEnd, magic_found,
  too_short, ran_out, slowcontrol_loop, is_slowcontrol, after_slowcontrol, read_slowcontrol,
  read_hvadj, throw_away, read_info, read_temperature, payload_length, continues_with, dispatch,
  read_packet, read_turn, or_packet, next_turn, Outcome, read_loop, read,
}

-- The bytes left, and one more inside the slow control.
abbrev pub measure : Reader → List ℕ → ℕ
measure r buf = length buf + (if is_slowcontrol r.unfinished_packet_state then 1 else 0)

-- With `P`, what is known if there is a data packet.
abbrev Shrinks : Type 0 → ℕ → Turn → Type 0
Shrinks P n (stops e r buf) = Unit {0}
Shrinks P n (goes_on r buf) = measure r buf < n
Shrinks P n data_packet = P

measure-le : (r : Reader) (buf : List ℕ) → measure r buf ≤ length buf + 1
measure-le r buf = ground arith

read_layers_far :
    (fuel layer_n ibuf : ℕ) (buf info : List ℕ) → ibuf ≤ (read_layers fuel layer_n buf ibuf info).1
unfolding read_layers
read_layers_far zero layer_n ibuf buf info = omega arith
read_layers_far (suc fuel) layer_n ibuf buf info = ground (
  arith,
  read_layers_far fuel layer_n (ibuf + 4) buf (
      info
      ++ at buf (ibuf + 1)
        ∷ (at buf (ibuf + 2) * 2 ^ 8 + at buf (ibuf + 3))
        ∷ at buf (ibuf + 4)
        ∷ []),
)

slowcontrol_loop_far :
    (bytes : List ℕ) (ibuf : ℕ) (sc : List ℕ) → ibuf ≤ (slowcontrol_loop bytes ibuf sc).2
unfolding slowcontrol_loop
slowcontrol_loop_far [] ibuf sc = omega arith
slowcontrol_loop_far (a ∷ []) ibuf sc = omega arith
slowcontrol_loop_far (a ∷ b ∷ rest) ibuf sc =
    ground (arith, slowcontrol_loop_far (b ∷ rest) (ibuf + 1) (sc ++ a ∷ []))

slowcontrol_loop_ends :
    (a : ℕ) (bytes : List ℕ) (ibuf : ℕ) (sc : List ℕ)
    → (slowcontrol_loop (a ∷ bytes) ibuf sc).0 ≢ ran_out
unfolding slowcontrol_loop
slowcontrol_loop_ends a [] ibuf sc = λ e. cc
slowcontrol_loop_ends a (b ∷ rest) ibuf sc =
    ground (arith, slowcontrol_loop_ends b rest (ibuf + 1) (sc ++ a ∷ []))

shrinks_by_drop :
    (n : ℕ) (buf : List ℕ) (r r' : Reader)
    → r'.unfinished_packet_state ≡ r.unfinished_packet_state
    → 1 ≤ n
    → 1 ≤ length buf
    → measure r' (drop n buf) < measure r buf
shrinks_by_drop n buf r r' same h l = ground (arith, ap is_slowcontrol same, length-drop n buf)

read_led-Shrinks :
    (buf : List ℕ) (r : Reader)
    → 8 ≤ length buf
    → Shrinks (Unit {0}) (measure r buf) (read_led buf r)
unfolding read_led
read_led-Shrinks buf r l =
    let far = read_layers_far (at buf 2) (at buf 2) 2 buf (r.led_info ++ at buf 2 ∷ []) in
    elim (Bool-cases (ltb (length buf) (3 + at buf 2 * 4))) [
      | inl short ↦ rw short tt
      | inr long ↦ rw long (
          shrinks_by_drop _ buf r
            (record r {
              led_info = (read_layers (at buf 2) (at buf 2) buf 2 (r.led_info ++ at buf 2 ∷ [])).0;
            })
            refl (omega (arith, far)) (omega (arith, l)))
    ]

read_hvadj-Shrinks :
    (buf : List ℕ) (r : Reader)
    → 8 ≤ length buf
    → Shrinks (Unit {0}) (measure r buf) (read_hvadj buf r)
unfolding read_hvadj
read_hvadj-Shrinks buf r l = ground (arith, length-drop 12 buf)

throw_away-Shrinks :
    (buf : List ℕ) (r : Reader)
    → 8 ≤ length buf
    → Shrinks (Unit {0}) (measure r buf) (throw_away buf r)
unfolding throw_away
throw_away-Shrinks buf r l = ground (arith, length-drop 1 buf)

after_slowcontrol-Shrinks :
    (e : SlowcontrolEnd) (sc : List ℕ) (ibuf : ℕ) (buf : List ℕ) (r : Reader)
    → e ≢ ran_out
    → (1 ≤ ibuf) ⊎ (is_slowcontrol r.unfinished_packet_state ≡ true)
    → 8 ≤ length buf
    → Shrinks (Unit {0}) (measure r buf) (after_slowcontrol e sc ibuf buf r)
after_slowcontrol-Shrinks magic_found sc ibuf buf r ne far l = ground (arith, length-drop ibuf buf)
after_slowcontrol-Shrinks too_short sc ibuf buf r ne far l = tt
after_slowcontrol-Shrinks ran_out sc ibuf buf r ne far l = absurd (ne refl)

drop_ends :
    (n ibuf : ℕ) (buf sc : List ℕ)
    → n < length buf
    → (slowcontrol_loop (drop n buf) ibuf sc).0 ≢ ran_out
drop_ends zero ibuf [] sc l = absurd (omega arith)
drop_ends zero ibuf (a ∷ buf) sc l = slowcontrol_loop_ends a buf ibuf sc
drop_ends (suc n) ibuf [] sc l = absurd (omega arith)
drop_ends (suc n) ibuf (a ∷ buf) sc l = drop_ends n ibuf buf sc (omega arith)

start_far : (s : Bool) (ibuf : ℕ) → s ≡ false → (if s then 0 else 2) ≤ ibuf → 1 ≤ ibuf
start_far s ibuf off far = ground arith

read_slowcontrol-Shrinks :
    (buf : List ℕ) (r : Reader)
    → 8 ≤ length buf
    → Shrinks (Unit {0}) (measure r buf) (read_slowcontrol buf r)
unfolding read_slowcontrol
read_slowcontrol-Shrinks buf r l =
    let start = if is_slowcontrol r.unfinished_packet_state then 0 else 2 in
    let (end, sc, ibuf) = slowcontrol_loop (drop start buf) start r.slowcontrol_data in
    let far = slowcontrol_loop_far (drop start buf) start r.slowcontrol_data in
    after_slowcontrol-Shrinks end sc ibuf buf r
      (drop_ends start start buf r.slowcontrol_data (ground (arith, l)))
      (elim (Bool-cases (is_slowcontrol r.unfinished_packet_state)) [
        | inl on ↦ inr on
        | inr off ↦ inl (start_far _ ibuf off far)
      ])
      l

read_info-Shrinks :
    (buf : List ℕ) (r : Reader) → Shrinks (Unit {0}) (measure r buf) (read_info buf r)
unfolding read_info
read_info-Shrinks buf r = elim (Bool-cases (ltb (length buf) 8)) [
  | inl short ↦ rw short tt
  | inr long ↦
      let l : 8 ≤ length buf = ground (arith, long) in
      ground (
        arith,
        long,
        read_led-Shrinks buf r l,
        read_slowcontrol-Shrinks buf r l,
        read_hvadj-Shrinks buf r l,
        throw_away-Shrinks buf r l,
      )
]

continues-Shrinks :
    (k : ℕ) (p : Reader × List ℕ) (buf : List ℕ) (r : Reader)
    → p.1 ≡ drop (k + size_lda_header) buf
    → 14 ≤ length buf
    → Shrinks ⊥ (measure r buf) (continues_with p)
continues-Shrinks k p buf r e l =
    omega (arith, ap (length {A = ℕ}) e, length-drop (k + size_lda_header) buf, measure-le p.0 p.1)

dispatch-Shrinks :
    (c : Settings) (buf : List ℕ) (r : Reader)
    → 14 ≤ length buf
    → Shrinks ⊥ (measure r buf) (dispatch c buf r)
unfolding dispatch read_temperature
dispatch-Shrinks c buf r l =
    let k = r.length_of_packet in
    ground (
      arith,
      continues-Shrinks k (read_temperature buf r) buf r refl l,
      continues-Shrinks k (read_lda_timestamp c buf r) buf r (read_lda_timestamp_consumes c buf r)
          l,
      continues-Shrinks k (read_ahcal_data c buf r) buf r (read_ahcal_data-Extends c buf r).1 l,
      continues-Shrinks k (r, drop (k + size_lda_header) buf) buf r refl l,
      shrinks_by_drop 1 buf r r refl (omega arith) (omega (arith, l)),
    )

read_packet-Shrinks :
    (c : Settings) (buf : List ℕ) (r : Reader) → Shrinks ⊥ (measure r buf) (read_packet c buf r)
unfolding read_packet
read_packet-Shrinks c buf r =
    let measured = record r { length_of_packet = payload_length buf } in
    elim (Bool-cases (ltb (length buf) 14)) [
      | inl short ↦ ground (arith, short)
      | inr long ↦ ground (arith, long, dispatch-Shrinks c buf measured (ground (arith, long)))
    ]

or_packet-Shrinks :
    (n : ℕ) (t p : Turn) → Shrinks (Unit {0}) n t → Shrinks ⊥ n p → Shrinks ⊥ n (or_packet t p)
or_packet-Shrinks n (stops e r buf) p h g = tt
or_packet-Shrinks n (goes_on r buf) p h g = h
or_packet-Shrinks n data_packet p h g = g

read_turn-Shrinks :
    (c : Settings) (buf : List ℕ) (r : Reader) → Shrinks ⊥ (measure r buf) (read_turn c buf r)
unfolding read_turn
read_turn-Shrinks c buf r =
    or_packet-Shrinks (measure r buf) (read_info buf r) (read_packet c buf r)
      (read_info-Shrinks buf r) (read_packet-Shrinks c buf r)

abbrev pub Returns : Option Outcome → Type 0
Returns none = ⊥
Returns (some out) = Unit {0}

next_turn-Returns :
    (n m : ℕ) (again : Reader → List ℕ → Option Outcome) (t : Turn)
    → ((r : Reader) (buf : List ℕ) → measure r buf < n → Returns (again r buf))
    → Shrinks ⊥ m t
    → m < suc n
    → Returns (next_turn again t)
next_turn-Returns n m again (stops e r buf) ih h l = tt
next_turn-Returns n m again (goes_on r buf) ih h l = ih r buf (omega (arith, h, l))
next_turn-Returns n m again data_packet ih h l = absurd h

read_loop-Returns :
    (n : ℕ) (c : Settings) (r : Reader) (buf : List ℕ)
    → measure r buf < n
    → Returns (read_loop n c r buf)
unfolding read_loop
read_loop-Returns zero c r buf l = absurd (omega (arith, l))
read_loop-Returns (suc n) c r buf l =
    next_turn-Returns n (measure r buf) (read_loop n c) (read_turn c buf r) (read_loop-Returns n c)
      (read_turn-Shrinks c buf r) l

-- `Read` comes to an end on every buffer and in every state: its loop stops with an exception after at
-- most two turns more than there are bytes.
pub read-Returns : (c : Settings) (buf : List ℕ) (r : Reader) → Returns (read c buf r)
unfolding read
read-Returns c buf r = read_loop-Returns (length buf + 2) c r buf (omega (arith, measure-le r buf))
