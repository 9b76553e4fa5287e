-- ===== src/Legacy/Transport.antt =====
-- What one round of the main loop of json-modbus-server.c does to the two transports: starting
-- them, stopping them, and serving what is ready.
pub mod Starting
pub mod Stopping
pub mod Serving
pub mod Adapters
pub mod Composition
pub mod Soundness
pub mod Lifetimes
pub mod Cleanups
mod Tests
