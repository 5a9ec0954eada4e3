-- ===== src/BxidSync.antt =====
-- CaliceAhcalBifBxidDataCollector.cc (user/calice/module/src): sub-events of up to five producers are
-- joined by readout cycle (ROC) and bunch crossing (BXID).
-- An `int` is its bit pattern; what the code asks of an event is the interface `Tags`.
pub mod Loop
pub mod Fifo
pub mod Lowest
pub mod Returns
pub mod Merge
pub mod Receive
mod Tests
use Prim.Native.String.{String}
use text.Mathlib.Text.{◌==◌ as str_eq}
use eudaq_ahcal.Base.{
  ℕ, zero, suc, ◌+◌, ◌-◌, ◌^◌, ◌<◌, List, [], ◌∷◌, ◌++◌, Bool, true, false, ◌&&◌, ◌||◌, Option,
  none, some, ◌==◌, if◌then◌else◌, length,
}
use eudaq_ahcal.Base.Words.{add32, slt}

-- `GetTag("ROC")`, `GetTag("BXID")`, whose default is INT32_MAX, the two timestamps and the fake flag.
pub record Tags (E : Type 0) : Type 0 where
  pub roc : E → ℕ
  pub bxid : E → ℕ
  pub timestamps : E → ℕ × ℕ
  pub is_flag_fake : E → Bool
  pub roc_is_int : (e : E) → roc e < 2 ^ 32
  pub bxid_is_int : (e : E) → bxid e < 2 ^ 32

-- `mc_roc_invalid` and `mc_bxid_invalid`.
abbrev pub invalid : ℕ
invalid = 2 ^ 31 - 1

abbrev pub minus_100 : ℕ
minus_100 = 2 ^ 32 - 100

pub data Origin : Type 0 where
  ahcal bif hodoscope1 hodoscope2 desytable : Origin

abbrev pub recognized : String → Option Origin
recognized name =
    if str_eq name "AHCAL1"
    then some ahcal
    else if str_eq name "BIF1"
    then some bif
    else if str_eq name "Hodoscope1"
    then some hodoscope1
    else if str_eq name "Hodoscope2"
    then some hodoscope2
    else if str_eq name "desytable1"
    then some desytable
    else none

-- The members of one producer. Those of the table other than its queue are never asked for.
pub record Producer (E : Type 0) : Type 0 where
  pub que : List E
  pub active : Bool
  pub evt_mandatory : Bool
  pub roc_offset : ℕ

pub record Collector (E : Type 0) : Type 0 where
  pub of_ahcal : Producer E
  pub of_bif : Producer E
  pub of_hodoscope1 : Producer E
  pub of_hodoscope2 : Producer E
  pub of_desytable : Producer E
  pub thrown_incomplete : ℕ
  pub ev_n : ℕ

-- The event `ev_sync`: at most one sub-event of each producer.
pub record Sync (E : Type 0) : Type 0 where
  pub sub_bif : List E
  pub sub_hodoscope1 : List E
  pub sub_hodoscope2 : List E
  pub sub_desytable : List E
  pub sub_ahcal : List E
  pub times : Option (ℕ × ℕ)

-- What one turn of the loop does: it pops an event that it cannot place, throws an incomplete event
-- away, or writes an event with its number.
pub data Outcome (E : Type 0) : Type 0 where
  discarded : Origin → E → Outcome E
  thrown : Sync E → Outcome E
  written : ℕ → Sync E → Outcome E

-- What a turn finds in one queue: nothing although more will come; an event that it pops; or the ROC
-- and BXID that it compares, both invalid for the empty queue of an inactive producer.
pub data Front (E : Type 0) : Type 0 where
  waits : Front E
  unreadable : E → List E → Front E
  stands : ℕ → ℕ → Front E

abbrev pub with_que : {E : Type 0} → List E → Producer E → Producer E
with_que q p = record p { que = q }

abbrev pub with_active : {E : Type 0} → Bool → Producer E → Producer E
with_active b p = record p { active = b }

-- The members of the producer `o` changed.
abbrev pub update : {E : Type 0} → Origin → (Producer E → Producer E) → Collector E → Collector E
update ahcal f c = record c { of_ahcal = f c.of_ahcal }
update bif f c = record c { of_bif = f c.of_bif }
update hodoscope1 f c = record c { of_hodoscope1 = f c.of_hodoscope1 }
update hodoscope2 f c = record c { of_hodoscope2 = f c.of_hodoscope2 }
update desytable f c = record c { of_desytable = f c.of_desytable }

abbrev pub update_named :
    {E : Type 0} → Option Origin → (Producer E → Producer E) → Collector E → Collector E
update_named none f c = c
update_named (some o) f c = update o f c

module _ {E : Type 0} where
  unfoldable pub do_start_run : Collector E → Collector E
  do_start_run c = record {
    of_ahcal = with_que [] c.of_ahcal;
    of_bif = with_que [] c.of_bif;
    of_hodoscope1 = with_que [] c.of_hodoscope1;
    of_hodoscope2 = with_que [] c.of_hodoscope2;
    of_desytable = with_que [] c.of_desytable;
    thrown_incomplete = 0;
    ev_n = 0;
  }

  -- The configured number `MandatoryBif`.
  unfoldable pub do_configure : ℕ → Collector E → Collector E
  do_configure mandatory_bif c = record c {
    of_bif = record (c.of_bif) { evt_mandatory = mandatory_bif == 1 };
  }

  unfoldable pub do_connect : String → Collector E → Collector E
  do_connect name c = update_named (recognized name) (with_active true) c

  unfoldable pub do_disconnect : String → Collector E → Collector E
  do_disconnect name c = update_named (recognized name) (with_active false) c

  abbrev pub is_empty : List E → Bool
  is_empty [] = true
  is_empty (e ∷ q) = false

  -- Takes the front with the wanted ROC and BXID; `roc` and `bxid` are those of the front.
  unfoldable pub take_front : ℕ → ℕ → ℕ → ℕ → List E → List E × List E
  take_front processed_roc processed_bxid roc bxid [] = ([], [])
  take_front processed_roc processed_bxid roc bxid (e ∷ q) =
      if roc == processed_roc && bxid == processed_bxid then (e ∷ [], q) else ([], e ∷ q)

  -- The table's front joins whatever event is next.
  abbrev pub take_any : List E → List E × List E
  take_any [] = ([], [])
  take_any (e ∷ q) = (e ∷ [], q)

  -- A mandatory sub-event of an active producer is missing.
  abbrev pub misses : Producer E → List E → Bool
  misses p subs = p.evt_mandatory && is_empty subs && p.active

  -- The end of a turn: an incomplete event is counted and thrown away, any other numbered and written.
  unfoldable pub finish : Bool → Sync E → Collector E → Outcome E × Collector E
  finish true sync c = (thrown sync, record c { thrown_incomplete = add32 c.thrown_incomplete 1 })
  finish false sync c = (written c.ev_n sync, record c { ev_n = add32 c.ev_n 1 })

-- The lowest ROC, and the lowest BXID among those of that ROC.
abbrev pub lower : ℕ → ℕ → ℕ
lower roc n = if slt roc n then roc else n

abbrev pub lower_in : ℕ → ℕ → ℕ → ℕ → ℕ
lower_in processed_roc roc bxid n = if roc == processed_roc && slt bxid n then bxid else n

unfoldable pub lowest_roc : ℕ → List (ℕ × ℕ) → ℕ
lowest_roc n [] = n
lowest_roc n ((roc, bxid) ∷ fronts) = lowest_roc (lower roc n) fronts

unfoldable pub lowest_bxid : ℕ → ℕ → List (ℕ × ℕ) → ℕ
lowest_bxid processed_roc n [] = n
lowest_bxid processed_roc n ((roc, bxid) ∷ fronts) =
    lowest_bxid processed_roc (lower_in processed_roc roc bxid n) fronts

module _ {E : Type 0} (t : Tags E) where
  -- No ROC, no BXID or, for the BIF only (`limited`), a BXID below -100.
  abbrev pub is_unreadable : Bool → E → Bool
  is_unreadable limited e =
      t.roc e == invalid || t.bxid e == invalid || (limited && slt (t.bxid e) minus_100)

  unfoldable pub front_of : Bool → Bool → ℕ → List E → Front E
  front_of limited active offset [] = if active then waits else stands invalid invalid
  front_of limited active offset (e ∷ q) =
      if is_unreadable limited e then unreadable e q else stands (add32 (t.roc e) offset) (t.bxid e)

  abbrev pub front : Bool → Producer E → Front E
  front limited p = front_of limited p.active p.roc_offset p.que

  abbrev pub times_of : List E → Option (ℕ × ℕ)
  times_of [] = none
  times_of (e ∷ q) = some (t.timestamps e)

  -- The parts of the loop that follow the four fronts.
  unfoldable pub join : ℕ × ℕ → ℕ × ℕ → ℕ × ℕ → ℕ × ℕ → Collector E → Outcome E × Collector E
  join a b h k c =
      let fronts = a ∷ b ∷ h ∷ k ∷ [] in
      let processed_roc = lowest_roc invalid fronts in
      let processed_bxid = lowest_bxid processed_roc invalid fronts in
      let bif_taken = take_front processed_roc processed_bxid b.0 b.1 c.of_bif.que in
      let hodoscope1_taken = take_front processed_roc processed_bxid h.0 h.1 c.of_hodoscope1.que in
      let hodoscope2_taken = take_front processed_roc processed_bxid k.0 k.1 c.of_hodoscope2.que in
      let desytable_taken = take_any c.of_desytable.que in
      let ahcal_taken = take_front processed_roc processed_bxid a.0 a.1 c.of_ahcal.que in
      let sync : Sync E = record {
        sub_bif = bif_taken.0;
        sub_hodoscope1 = hodoscope1_taken.0;
        sub_hodoscope2 = hodoscope2_taken.0;
        sub_desytable = desytable_taken.0;
        sub_ahcal = ahcal_taken.0;
        times = times_of ahcal_taken.0;
      } in
      let left = record c {
        of_ahcal = with_que ahcal_taken.1 c.of_ahcal;
        of_bif = with_que bif_taken.1 c.of_bif;
        of_hodoscope1 = with_que hodoscope1_taken.1 c.of_hodoscope1;
        of_hodoscope2 = with_que hodoscope2_taken.1 c.of_hodoscope2;
        of_desytable = with_que desytable_taken.1 c.of_desytable;
      } in
      finish
        (misses c.of_ahcal ahcal_taken.0
          || misses c.of_bif bif_taken.0
          || misses c.of_hodoscope1 hodoscope1_taken.0
          || misses c.of_hodoscope2 hodoscope2_taken.0)
        sync left
