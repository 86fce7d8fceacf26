-- ===== src/Controller.antt =====
-- seat_service/src/lib/seat_adjuster/seat_controller: the SeatAdjuster ECU controller.
pub mod Types
pub mod Commands
pub mod Status
pub mod ControlLoop
pub mod Thread
pub mod SetPosition
pub mod Lifecycle
pub mod Effects
pub mod Invariant
pub mod Reach
pub mod Setup
pub mod Printing
pub mod Watching
pub mod Sessions
pub mod Outcomes
pub mod Operation
pub mod Stopping
pub mod Idle
pub mod Magic
pub mod Arriving
pub mod Aiming
pub mod Reading
pub mod Observer
