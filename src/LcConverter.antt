-- ===== src/LcConverter.antt =====
-- AHCalRawEvent2LCEventConverter.cc (user/calice/module/src): what the blocks of an event become in an
-- event of LCIO. A block is the list of its `int`s, a name block its text; LCIO's event is the values
-- that are set on it.
pub mod Temperature
pub mod Parts
mod Tests
use Prim.Native.String.{String}
use text.Mathlib.Text.{◌==◌ as str_eq}
use eudaq_ahcal.Base.{
  ℕ, zero, suc, ◌+◌, ◌-◌, ◌*◌, ◌/◌, ◌%◌, ◌^◌, List, [], ◌∷◌, ◌++◌, Bool, true, false, not, ◌&&◌,
  ◌||◌, Option, none, some, ◌==◌, if◌then◌else◌, ltb, leb, length, get_or, take, drop,
}
use eudaq_ahcal.Base.Words.{add64, mul64, minus_one}

-- What the converter asks of the EUDAQ event. The tag DAQquality has a default.
pub record Source : Type 0 where
  pub is_raw_data_event : Bool
  pub has_event_type : Bool
  pub num_blocks : ℕ
  pub get_block : ℕ → List ℕ
  pub col_name : String
  pub data_desc : String
  pub tb_timestamp : ℕ
  pub timestamp_begin : ℕ
  pub daq_error_status : ℕ
  pub raw_lda_trig_id : ℕ
  pub daq_quality : ℕ → ℕ
  pub src : String

-- The objects added to a collection, which is found or created, and the parameters set on it.
pub record Addition : Type 0 where
  pub name : String
  pub description : String
  pub time : ℕ
  pub quality : ℕ
  pub objects : List (List ℕ)

-- The time stamp of the LCIO event: not set, the time of the conversion, or nanoseconds.
pub data TimeStamp : Type 0 where
  unset now : TimeStamp
  nanoseconds : ℕ → TimeStamp

pub record Converted : Type 0 where
  pub returned : Bool
  pub daq_error_parameter : Option ℕ
  pub raw_lda_trig_id_parameter : Option ℕ
  pub time_stamp : TimeStamp
  pub additions : List Addition

-- `eventTsNanoSeconds` and `shiftedUnixTS` of the two kinds of data.
unfoldable pub bif_nanoseconds : ℕ → ℕ → ℕ
bif_nanoseconds tb ts = add64 (mul64 tb 1000000000) (mul64 ts 4000 / 5120)

unfoldable pub ahcal_nanoseconds : ℕ → ℕ → ℕ
ahcal_nanoseconds tb ts = add64 (mul64 tb 1000000000) (mul64 ts 25)

unfoldable pub bif_seconds : ℕ → ℕ → ℕ
bif_seconds tb ts = add64 tb (ts / 1280000000)

unfoldable pub ahcal_seconds : ℕ → ℕ → ℕ
ahcal_seconds tb ts = add64 tb (ts / 40000000)

abbrev pub is_ahcal : Source → Bool
is_ahcal s = str_eq s.col_name "EUDAQDataScCAL"

abbrev pub is_bif : Source → Bool
is_bif s = str_eq s.col_name "EUDAQDataBIF"

abbrev pub time_stamp_of : Source → TimeStamp
time_stamp_of s =
    if s.tb_timestamp == 0
    then now
    else if is_ahcal s
    then nanoseconds (ahcal_nanoseconds s.tb_timestamp s.timestamp_begin)
    else if is_bif s
    then nanoseconds (bif_nanoseconds s.tb_timestamp s.timestamp_begin)
    else unset

-- The time of the collections: that of the producer, unless the campaign has a start.
abbrev pub shifted_time : Source → ℕ
shifted_time s =
    if s.tb_timestamp == 0
    then get_or (s.get_block 2) 0 0
    else if is_ahcal s
    then ahcal_seconds s.tb_timestamp s.timestamp_begin
    else if is_bif s
    then bif_seconds s.tb_timestamp s.timestamp_begin
    else 0

abbrev pub is_nil : List ℕ → Bool
is_nil [] = true
is_nil (x ∷ xs) = false

-- The measurement `data` of `lda` and `port`, with those of the one before: an unfinished output is
-- given up if both differ, a new output begins with the two, and one of ten numbers is an object.
abbrev pub kept_output : ℕ → ℕ → ℕ → ℕ → List ℕ → List ℕ
kept_output old_lda old_port lda port output =
    if not (is_nil output) && not (old_port == port) && not (old_lda == lda) then [] else output

abbrev pub grown_output : ℕ → ℕ → ℕ → List ℕ → List ℕ
grown_output lda port value output =
    (if is_nil output then lda ∷ port ∷ [] else output) ++ value ∷ []

abbrev pub finish_output : List ℕ → List (List ℕ) × List ℕ
finish_output output = if length output == 10 then (output ∷ [], []) else ([], output)

-- The loop over the triples of a temperature block; every other one is skipped. What is left of a block
-- of fewer than three numbers, where the code reads beyond the end, gives nothing.
unfoldable pub temperature_loop : Bool → ℕ → ℕ → List ℕ → List ℕ → List (List ℕ)
temperature_loop true old_lda old_port output (lda ∷ port ∷ value ∷ rest) =
    temperature_loop false old_lda old_port output rest
temperature_loop false old_lda old_port output (lda ∷ port ∷ value ∷ rest) =
    let step =
      finish_output (grown_output lda port value (kept_output old_lda old_port lda port output)) in
    step.0 ++ temperature_loop true lda port step.1 rest
temperature_loop skip old_lda old_port output _ = []

unfoldable pub temperature_objects : List ℕ → List (List ℕ)
temperature_objects vec = temperature_loop true (get_or vec 0 0) (get_or vec 1 0) [] vec

-- The lines of eight numbers.
unfoldable pub hv_lines : ℕ → List ℕ → List (List ℕ)
hv_lines zero vec = []
hv_lines (suc n) vec = take 8 vec ∷ hv_lines n (drop 8 vec)

unfoldable pub hv_objects : List ℕ → List (List ℕ)
hv_objects vec = if length vec % 2 ^ 3 == 0 then hv_lines (length vec / 8) vec else []

-- The blocks from `nblock` on, `n` of them.
unfoldable pub block_objects : Source → ℕ → ℕ → List (List ℕ)
block_objects s nblock zero = []
block_objects s nblock (suc n) = s.get_block nblock ∷ block_objects s (suc nblock) n

abbrev pub quality_of : Source → ℕ
quality_of s = s.daq_quality (if s.daq_error_status == 0 then 1 else 0)

abbrev pub addition : Source → String → String → List (List ℕ) → Addition
addition s name description objects = record {
  name = name;
  description = description;
  time = shifted_time s;
  quality = quality_of s;
  objects = objects;
}

-- A block that is added if it is not empty.
abbrev pub optional_addition :
    Source → String → String → (List ℕ → List (List ℕ)) → List ℕ → List Addition
optional_addition s name description objects [] = []
optional_addition s name description objects (x ∷ xs) =
    addition s name description (objects (x ∷ xs)) ∷ []

abbrev pub whole : List ℕ → List (List ℕ)
whole block = block ∷ []

abbrev pub data_addition : Source → ℕ → Addition
data_addition s nblock =
    addition s s.col_name s.data_desc (block_objects s nblock (s.num_blocks - nblock))

unfoldable pub hodoscope_additions : Source → List Addition
hodoscope_additions s = addition s s.src s.data_desc (block_objects s 3 (s.num_blocks - 3)) ∷ []

unfoldable pub ahcal_additions : Source → List Addition
ahcal_additions s =
    optional_addition s "SlowControl" "i:sc1,i:sc2,i:scN" whole (s.get_block 3)
    ++ optional_addition s "LEDinfo" "i:Nlayers,i:LayerID_j,i:LayerVoltage_j,i:LayerOnOff_j" whole
        (s.get_block 4)
    ++ optional_addition s "TempSensor" "i:LDA,i:port,i:T1,i:T2,i:T3,i:T4,i:T5,i:T6,i:TDIF,i:TPWR"
        temperature_objects (s.get_block 5)
    ++ optional_addition s "EUDAQDataLDATS"
        "i:StartTS_L;i:StartTS_H;i:StopTS_L;i:StopTS_H;i:TrigTS_L;i:TrigTS_H" whole (s.get_block 6)
    ++ optional_addition s "ASICStopData"
        "[i:asic(memCell 15),i:lowest bxid(memCell15)],[[i:asic, i:stop bxid in asic],[],...]" whole
        (s.get_block 7)
    ++ optional_addition s "HVAdjInfo" "i:LDA,i:port,i:Module,i:0,i:HV1,i:HV2,i:HV3,i:0" hv_objects
        (s.get_block 8)
    ++ data_addition s 10 ∷ []

abbrev pub additions_of : Source → List Addition
additions_of s =
    if str_eq s.col_name "EudaqDataHodoscope"
    then hodoscope_additions s
    else if is_bif s
    then data_addition s 6 ∷ []
    else if is_ahcal s
    then ahcal_additions s
    else []

-- An event of another type is refused, one with fewer than three blocks adds nothing.
unfoldable pub converting : Source → Converted
converting s = record {
  returned = s.is_raw_data_event && s.has_event_type;
  daq_error_parameter = if is_ahcal s then some s.daq_error_status else none;
  raw_lda_trig_id_parameter =
      if s.raw_lda_trig_id == minus_one then none else some s.raw_lda_trig_id;
  time_stamp = time_stamp_of s;
  additions =
      if s.is_raw_data_event && s.has_event_type && ltb 2 s.num_blocks then additions_of s else [];
}
