-- ===== src/Feeder.antt =====
-- seat_service/src/lib/broker_feeder: the feeder that registers datapoints with the data broker and
-- sends it their values.
pub mod Datapoint
pub mod State
pub mod Sending
pub mod Merging
pub mod Registration
pub mod Run
pub mod Alike
pub mod Registered
pub mod Shared
pub mod Typed
pub mod Store
pub mod Stopping
pub mod Delivery
pub mod Ids
pub mod Requests
pub mod Keeps
pub mod Keeping
pub mod Reconnecting
pub mod Names
pub mod Progress
pub mod Sends
pub mod Delivers
