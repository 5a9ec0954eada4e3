-- ===== src/TelSync/Table.antt =====
-- AhcalBifTluAlpideTableDataCollector.cc (user/calice/module/src): the collector of CaliceTelDataCollector
-- with members for a TLU and a table, to which no handler pushes an event.
use Prim.Native.String.{String}
use eudaq_ahcal.Base.{ℕ, List, [], Option, none}
use eudaq_ahcal.TelSync.{Tags, Collector, do_start_run, do_stop_run, do_configure}
use eudaq_ahcal.TelSync.Loop.{Received, thrown, wrote, do_receive}

pub record TableCollector (E : Type 0) : Type 0 where
  pub common : Collector E
  pub que_tlu : List E
  pub que_table : List E
  pub ev_last_tlu : Option E
  pub ev_last_table : Option E
  pub shift_tgn_tel : ℕ
  pub shift_tgn_tlu : ℕ

module _ {E : Type 0} where
  unfoldable pub table_start_run : TableCollector E → TableCollector E
  table_start_run c = record c {
    common = do_start_run c.common;
    que_tlu = [];
    que_table = [];
    ev_last_tlu = none;
    ev_last_table = none;
  }

  unfoldable pub table_stop_run : TableCollector E → TableCollector E
  table_stop_run c = record c { common = do_stop_run c.common }

  -- The configured shifts of the AHCAL, the telescope and the TLU.
  unfoldable pub table_configure : ℕ → ℕ → ℕ → TableCollector E → TableCollector E
  table_configure shift_cal shift_tel shift_tlu c = record c {
    common = do_configure shift_cal c.common;
    shift_tgn_tel = shift_tel;
    shift_tgn_tlu = shift_tlu;
  }

  abbrev pub with_common :
      TableCollector E → Received E (Collector E) → Received E (TableCollector E)
  with_common c (thrown c') = thrown (record c { common = c' })
  with_common c (wrote ss c') = wrote ss (record c { common = c' })

  -- `DoReceive` is that of CaliceTelDataCollector, line by line.
  unfoldable pub table_receive :
      Tags E → ℕ → String → E → TableCollector E → Received E (TableCollector E)
  table_receive t turns name ev c = with_common c (do_receive t turns name ev c.common)
