-- ===== src/Lib.antt =====
-- The data acquisition of the CALICE AHCAL prototype for EUDAQ, modelled and verified.
--
-- The program. An AHCAL producer reads the byte stream of the detector's data concentrators (LDA); its
-- reader, class ScReader, finds packets in the stream, decodes ASIC data and timestamps into two maps by
-- readout cycle, and builds events of them. A second producer does so for the beam interface (BIF), which
-- delivers 64-bit words. The data collectors join the events of several producers.
--
-- The files. Base holds what all share: Base.Tests and Base.Lists (tests and lists over the native
-- numbers), Base.Words (the machine's integers: a 32-bit or 64-bit integer is its bit pattern, and every
-- sum and difference wraps), Base.IntMap (std::map as an association list in the order of its keys).
--   ScReader models user/calice/AHCAL/module/src/ScReader.cc and its header:
--     Counter      updateCntModulo and grayRecode;
--     State        the fields of ScReader and the settings of AHCALProducer.hh that it asks for;
--     Statistics   RunTimeStatistics::clear and append;
--     Timestamp    readLDATimestamp, one function for each kind of record;
--     AsicData     readAHCALData;
--     Read         Read with readTemperature: the loop over the buffer;
--     Build        buildROCEvents with prepareEudaqRawPacket, appendOtherInfo and insertDummyEvent;
--     BuildTrigid  buildTRIGIDEvents; its two vectors of triggers are taken to be of equal length;
--     Crossings    what the two builders by bunch crossing (BXID) share;
--     BuildBxid    buildBXIDEvents; a packet is taken to have its BXID as the second word;
--     BuildValidated  buildValidatedBXIDEvents with insertMissedTrigger, insertEmptyEvent and
--                  IsBXIDComplete (here behind_full_cell); its child Cycle holds the loops;
--     BuildEvents  buildEvents;
--     Start        OnStart.
--   AhcalProducer models user/calice/AHCAL/module/src/AHCALProducer.cc: sendallevents, and RunLoop as a
--   function of the chunks of bytes that it reads, with the end of ScReader::Read, which calls the builder.
--   Bif models user/calice/BIF_AHCAL/module/src/caliceahcalbif_Producer.cc:
--     State        the fields of caliceahcalbifProducer, and a eudaq::Event as the values set on it;
--     Events       buildEudaqEvents in its three modes;
--     Process      ProcessQueuedBifData;
--     Send         sendallevents, and the state in which DoStartRun begins;
--     Run          RunLoop on a list of rounds and a list of what the fetches meet, with ReadRawFifo of
--                  BIF_AHCAL/module/src/caliceahcalbifController.cc; its children have what it writes
--                  to the raw file, and how it hangs.
--   BxidSync models user/calice/module/src/CaliceAhcalBifBxidDataCollector.cc:
--     Loop         BuildEvent_bxid and DoReceive; what a turn of the loop pops, throws away or writes is
--                  its outcome. The tags of an event are asked for by the interface Tags;
--     Merge        the abstract merge that the loop implements.
--   TsSync models user/calice/module/src/CaliceTsDataCollector.cc; the loop of its DoReceive is a function
--   of the number of turns, which gives the events written so far and the state:
--     Overlap      what is taken from the queues and written;
--     Progress, Stuck  when it returns, and when not;
--     Held         the pointers to the last joined events.
--   TelSync models user/calice/module/src/CaliceTelDataCollector.cc, whose turns join the windows by the
--   blocks of TsSync; its child Table is AhcalBifTluAlpideTableDataCollector.cc:
--     Loop         DoReceive;
--     Splits, Returns  what is taken and written, and when the loop stops;
--     Matched      the telescope's events.
--   HodoSync models user/calice/module/src/AhcalHodoscopeDataCollector.cc:
--     Loop         BuildEvent, DoReceive and the connections;
--     Same, Returns  the sub-events, and the end of the loop.
--   TriggerJoin models user/calice/module/src/CaliceDataCollector.cc; its child Matches has the pairs that
--   it should write.
--   LcConverter models user/calice/module/src/AHCalRawEvent2LCEventConverter.cc:
--     Temperature  the temperatures, from the list that ScReader collects to the objects of LCIO;
--     Parts        the voltages and the times.
--   Monitor models user/calice/module/src/AHCalRawEvent2StdEventConverter.cc:
--     Tiles        the mapping of chips and channels to the tiles of a plane;
--     Drawn, Planes, Pixels, Shown  the hits of an event, the cells that they fill, and what is shown.
--   DesyTable models user/desytable/src/DesyTableCommunication.cc and the begin of DesyTableProducer.cc there:
--     Digits, RoundTrip  numbers as the commands have them, and what is read from the answers.
--   TriggerSync models user/calice/module/src/TrigidSyncDataCollector.cc and AlpideDataCollector.cc. Their
--   handlers run under one lock, so an execution is a sequence of them.
--
-- How the code is modelled. A method is a function from the state to the new state, with the fields
-- changed as the code changes them; a buffer or a queue that it changes is an argument and a result.
-- Exceptions are values. The library EUDAQ is not modelled: an event is a record of what the code sets
-- on it, or any type with the questions that a collector asks. Log messages and printing are left
-- out, with the fields that only they use or that nothing reads (_DaqErrors among them). A read beyond
-- the end of a buffer, which is undefined in the code, gives 0. Integers whose use as signed matters
-- are compared by `slt`, which is the signed order.
--
-- Loops. Most are recursion on the list or counter that they run over. The loop of grayRecode has 16
-- rounds as its bound, since it shifts a 16-bit word. The loop of Read is given two turns more than there
-- are bytes; ScReader.Read.Ends shows that this is enough. The layers of the LED info are bounded by the
-- number of layers, since the index moves by 4 up to four times that number.
-- The dummies of three of the builders are bounded by the numbers up to the next cycle or trigger, and one
-- test more; ScReader.Build.Roc, ScReader.BuildTrigid.Dummies and ScReader.BuildValidated.Repeats show
-- that they reach it.
-- The loop of buildValidatedBXIDEvents over the cycles gets as many turns as the two maps have entries, and
-- one more (ScReader.BuildValidated.Ends); that of BuildEvent_bxid as many as events wait, and one more
-- (BxidSync.Returns, also on when no number of turns is enough).
-- Those of DoReceive in CaliceTsDataCollector and CaliceTelDataCollector need as many as events wait, if
-- the windows are not empty (TsSync.Progress, TelSync.Returns), and that in CaliceDataCollector always does
-- (TriggerJoin.Matches). BuildEvent of AhcalHodoscopeDataCollector needs one more (HodoSync.Returns).
-- RunLoop of the BIF runs over the fetches that it meets, and stands still where their list ends
-- (Bif.Run.Spins is on when the list of them has no end for it).
--
-- Not modelled: sockets, files, configuration and run control; the access to the hardware; LCIO and ROOT,
-- with the converters into trees; the moving stage beyond its protocol (its positions in mm are
-- floating-point numbers, and it waits by the clock); printing.
pub mod AhcalProducer
pub mod Base
pub mod Bif
pub mod BxidSync
pub mod DesyTable
pub mod HodoSync
pub mod LcConverter
pub mod Monitor
pub mod ScReader
pub mod TelSync
pub mod TriggerJoin
pub mod TriggerSync
pub mod TsSync
