-- ===== src/Ltp.antt =====
-- kiss-interface/ltp.c and ltp.h: the Licklider Transmission Protocol over KISS.
pub mod Types
pub mod Encode
pub mod Wire
pub mod ControlWire
pub mod Decode
pub mod RoundTrip
pub mod ControlRoundTrip
pub mod RecvMap
pub mod Engine
mod Runs
