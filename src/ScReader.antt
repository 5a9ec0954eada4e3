-- ===== src/ScReader.antt =====
-- user/calice/AHCAL/module/src/ScReader.cc: the reader of the detector's data stream.
pub mod Counter
pub mod State
pub mod Statistics
pub mod Timestamp
pub mod AsicData
pub mod Start
pub mod Read
pub mod Build
pub mod BuildTrigid
pub mod Crossings
pub mod BuildBxid
pub mod BuildValidated
pub mod BuildEvents
pub mod Samples
mod Tests
mod AsicTests
mod ReadTests
mod BuildTests
mod CrossingTests
