-- ===== src/LcConverter/Tests.antt =====
-- Tests and witnesses for the converter into LCIO events.
use eudaq_ahcal.Base.{ℕ, List, [], ◌∷◌, ◌≡◌, refl, true, map, get_or}
use eudaq_ahcal.ScReader.Build.{temperatures}
use eudaq_ahcal.LcConverter.{
  Source, Addition, temperature_loop, temperature_objects, hv_lines, hv_objects, block_objects,
  ahcal_additions, converting,
}
use eudaq_ahcal.LcConverter.Temperature.{
  Interface, all_triples, interface_object, temperature_objects-temperatures,
}

abbrev interface : ℕ → ℕ → Interface
interface lda port = record {
  lda = lda;
  port = port;
  readings = (0, 21) ∷ (0, 22) ∷ (0, 23) ∷ (0, 24) ∷ (0, 25) ∷ (0, 26) ∷ (0, 27) ∷ (0, 28) ∷ [];
}

-- An interrupted interface is given up only if the LDA changes, too: the last measurements of the
-- second port of LDA 1 fill the output of its first port.
abbrev interrupted : List ℕ
interrupted = 1 ∷ 4 ∷ 0 ∷ 1 ∷ 4 ∷ 21 ∷ temperatures (all_triples (interface 1 5 ∷ []))

temperature_objects_mixed :
    temperature_objects interrupted ≡ (1 ∷ 4 ∷ 21 ∷ 21 ∷ 22 ∷ 23 ∷ 24 ∷ 25 ∷ 26 ∷ 27 ∷ []) ∷ []
unfolding temperature_objects temperature_loop temperatures
temperature_objects_mixed = refl

temperature_objects-temperatures_example :
    temperature_objects (temperatures (all_triples (interface 1 4 ∷ interface 1 5 ∷ [])))
    ≡ map interface_object (interface 1 4 ∷ interface 1 5 ∷ [])
temperature_objects-temperatures_example =
    temperature_objects-temperatures (interface 1 4 ∷ interface 1 5 ∷ []) (refl, (refl, tt))

abbrev voltages : List ℕ
voltages = 1 ∷ 2 ∷ 3 ∷ 0 ∷ 50 ∷ 51 ∷ 52 ∷ 0 ∷ 1 ∷ 2 ∷ 4 ∷ 0 ∷ 53 ∷ 54 ∷ 55 ∷ 0 ∷ []

-- An AHCAL event with voltages and one packet.
abbrev blocks : List (List ℕ)
blocks = [] ∷ [] ∷ (17 ∷ []) ∷ [] ∷ [] ∷ [] ∷ [] ∷ [] ∷ voltages ∷ [] ∷ (5 ∷ 6 ∷ []) ∷ []

abbrev source : Source
source = record {
  is_raw_data_event = true;
  has_event_type = true;
  num_blocks = 11;
  get_block = λ i. get_or blocks i [];
  col_name = "EUDAQDataScCAL";
  data_desc = "packets";
  tb_timestamp = 0;
  timestamp_begin = 40000000;
  daq_error_status = 0;
  raw_lda_trig_id = 3;
  daq_quality = λ d. d;
  src = "AHCAL1";
}

abbrev test_addition : List (List ℕ) → Addition
test_addition objects = record {
  name = "EUDAQDataScCAL";
  description = "packets";
  time = 17;
  quality = 1;
  objects = objects;
}

converting_ahcal :
    (converting source).additions
    ≡ record (test_addition
        ((1 ∷ 2 ∷ 3 ∷ 0 ∷ 50 ∷ 51 ∷ 52 ∷ 0 ∷ []) ∷ (1 ∷ 2 ∷ 4 ∷ 0 ∷ 53 ∷ 54 ∷ 55 ∷ 0 ∷ []) ∷ [])) {
          name = "HVAdjInfo";
          description = "i:LDA,i:port,i:Module,i:0,i:HV1,i:HV2,i:HV3,i:0";
        }
      ∷ test_addition ((5 ∷ 6 ∷ []) ∷ [])
      ∷ []
unfolding converting ahcal_additions hv_objects hv_lines block_objects
converting_ahcal = refl
