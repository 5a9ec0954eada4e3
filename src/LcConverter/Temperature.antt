-- ===== src/LcConverter/Temperature.antt =====
-- The temperatures of the detector interfaces, from the list that ScReader collects (its block by
-- appendOtherInfo in ScReader.cc) to the objects of getScCALTemperatureSubEvent in
-- AHCalRawEvent2LCEventConverter.cc.
use mathlib.Core.List.{append_assoc}
use eudaq_ahcal.Base.{
  ℕ, ◌+◌, ◌<◌, List, [], ◌∷◌, ◌++◌, ◌≡◌, refl, ap, ◌∙◌, arith, true, false, ◌==◌, length,
  length-append, get_or, map, All,
}
use eudaq_ahcal.ScReader.Build.{temperatures}
use eudaq_ahcal.LcConverter.{temperature_loop, temperature_objects, kept_output}

-- One interface: where it is, and its eight sensors, each measured twice.
pub record Interface : Type 0 where
  pub lda : ℕ
  pub port : ℕ
  pub readings : List (ℕ × ℕ)

abbrev pub reading_triples : ℕ → ℕ → List (ℕ × ℕ) → List (ℕ × ℕ × ℕ)
reading_triples lda port [] = []
reading_triples lda port ((first, second) ∷ rs) =
    (lda, port, first) ∷ (lda, port, second) ∷ reading_triples lda port rs

abbrev pub second_values : List (ℕ × ℕ) → List ℕ
second_values [] = []
second_values ((first, second) ∷ rs) = second ∷ second_values rs

-- What ScReader collects of the interfaces, and the objects that they should become.
abbrev pub all_triples : List Interface → List (ℕ × ℕ × ℕ)
all_triples [] = []
all_triples (i ∷ is) = reading_triples i.lda i.port i.readings ++ all_triples is

abbrev pub interface_object : Interface → List ℕ
interface_object i = i.lda ∷ i.port ∷ second_values i.readings

abbrev pub HasEight : Interface → Type 0
HasEight i = length i.readings ≡ 8

temperatures-append :
    (xs ys : List (ℕ × ℕ × ℕ)) → temperatures (xs ++ ys) ≡ temperatures xs ++ temperatures ys
unfolding temperatures
temperatures-append [] ys = refl
temperatures-append ((a, b, c) ∷ xs) ys = ap (λ l. a ∷ b ∷ c ∷ l) (temperatures-append xs ys)

kept_same : (lda port : ℕ) (output : List ℕ) → kept_output lda port lda port output ≡ output
kept_same lda port output = ground arith

-- The second of two measurements goes on with the output of its interface.
next_reading :
    (lda port first second : ℕ) (xs rest : List ℕ)
    → length xs < 7
    → temperature_loop true lda port
        (lda ∷ port ∷ xs)
        (lda ∷ port ∷ first ∷ lda ∷ port ∷ second ∷ rest)
      ≡ temperature_loop true lda port (lda ∷ port ∷ xs ++ second ∷ []) rest
unfolding temperature_loop
next_reading lda port first second xs rest lt =
    let open_ : (length (lda ∷ port ∷ xs ++ second ∷ []) == 10) ≡ false =
      ground (arith, lt, length-append xs (second ∷ [])) in
    rw (kept_same lda port (lda ∷ port ∷ xs), open_) refl

last_reading :
    (lda port first second : ℕ) (xs rest : List ℕ)
    → length xs ≡ 7
    → temperature_loop true lda port
        (lda ∷ port ∷ xs)
        (lda ∷ port ∷ first ∷ lda ∷ port ∷ second ∷ rest)
      ≡ (lda ∷ port ∷ xs ++ second ∷ []) ∷ temperature_loop true lda port [] rest
unfolding temperature_loop
last_reading lda port first second xs rest e =
    let full : (length (lda ∷ port ∷ xs ++ second ∷ []) == 10) ≡ true =
      ground (arith, e, length-append xs (second ∷ [])) in
    rw (kept_same lda port (lda ∷ port ∷ xs), full) refl

-- The readings of one interface, behind some of its own, end as one object.
one_interface :
    (lda port : ℕ) (rs : List (ℕ × ℕ)) (xs rest : List ℕ)
    → length xs + length rs ≡ 8
    → length xs < 8
    → temperature_loop true lda port
        (lda ∷ port ∷ xs)
        (temperatures (reading_triples lda port rs) ++ rest)
      ≡ (lda ∷ port ∷ xs ++ second_values rs) ∷ temperature_loop true lda port [] rest
unfolding temperatures
one_interface lda port [] xs rest e lt = absurd (omega (arith, e, lt))
one_interface lda port ((first, second) ∷ []) xs rest e lt =
    last_reading lda port first second xs rest (omega (arith, e))
one_interface lda port ((first, second) ∷ r ∷ rs) xs rest e lt =
    next_reading lda port first second xs _ (omega (arith, e))
    ∙ one_interface lda port (r ∷ rs) (xs ++ second ∷ []) rest
        (omega (arith, e, length-append xs (second ∷ [])))
        (omega (arith, e, length-append xs (second ∷ [])))
    ∙ ap (λ l. (lda ∷ port ∷ l) ∷ temperature_loop true lda port [] rest)
        (append_assoc xs (second ∷ []) (second_values (r ∷ rs)))

-- The first reading begins the output, whatever stood before.
first_reading :
    (old_lda old_port lda port first second : ℕ) (rest : List ℕ)
    → temperature_loop true old_lda old_port [] (lda ∷ port ∷ first ∷ lda ∷ port ∷ second ∷ rest)
      ≡ temperature_loop true lda port (lda ∷ port ∷ second ∷ []) rest
unfolding temperature_loop
first_reading old_lda old_port lda port first second rest = refl

whole_interface :
    (old_lda old_port lda port : ℕ) (rs : List (ℕ × ℕ)) (rest : List ℕ)
    → length rs ≡ 8
    → temperature_loop true old_lda old_port [] (temperatures (reading_triples lda port rs) ++ rest)
      ≡ (lda ∷ port ∷ second_values rs) ∷ temperature_loop true lda port [] rest
unfolding temperatures
whole_interface old_lda old_port lda port [] rest e = absurd (omega (arith, e))
whole_interface old_lda old_port lda port ((first, second) ∷ rs) rest e =
    first_reading old_lda old_port lda port first second _
    ∙ one_interface lda port rs (second ∷ []) rest (omega (arith, e)) (omega arith)

all_interfaces :
    (old_lda old_port : ℕ) (is : List Interface)
    → All HasEight is
    → temperature_loop true old_lda old_port [] (temperatures (all_triples is))
      ≡ map interface_object is
unfolding temperatures temperature_loop
all_interfaces old_lda old_port [] h = refl
all_interfaces old_lda old_port (i ∷ is) h =
    ap (temperature_loop true old_lda old_port [])
      (temperatures-append (reading_triples i.lda i.port i.readings) (all_triples is))
    ∙ whole_interface old_lda old_port i.lda i.port i.readings (temperatures (all_triples is)) h.0
    ∙ ap (λ l. interface_object i ∷ l) (all_interfaces i.lda i.port is h.1)

-- The temperatures that ScReader collects of any number of interfaces, eight pairs of measurements of
-- each, become one object for each interface in the LCIO event: its place, and the second measurement
-- of each pair, in order.
pub temperature_objects-temperatures :
    (is : List Interface)
    → All HasEight is
    → temperature_objects (temperatures (all_triples is)) ≡ map interface_object is
unfolding temperature_objects
temperature_objects-temperatures is h =
    all_interfaces (get_or (temperatures (all_triples is)) 0 0)
      (get_or (temperatures (all_triples is)) 1 0) is h
