-- ===== src/Bif.antt =====
-- user/calice/BIF_AHCAL/module/src/caliceahcalbif_Producer.cc: the producer of the beam interface (BIF).
pub mod State
pub mod Events
pub mod Process
pub mod Send
pub mod Run
mod Tests
