-- ===== src/Programs.antt =====
-- The example programs of seat_service/src/examples around the libraries; what they print is left out
-- but where it is all that they do.
pub mod BrokerFeeder
pub mod Feeding
pub mod CanTools
