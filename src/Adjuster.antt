-- ===== src/Adjuster.antt =====
-- seat_service/src/lib/seat_adjuster/seat_adjuster.h: what the services use of a seat adjuster.
pub mod Impl
pub mod Interface
pub mod Telling
pub mod Results
pub mod Lifetime
