-- ===== src/Ltp/Engine.antt =====
-- The engine of kiss-interface/ltp.c: its sessions and timers, and the functions that change them.
pub mod State
pub mod Timers
pub mod Endpoints
pub mod Output
pub mod Import
pub mod Reassembly
pub mod Segmentation
pub mod Missing
pub mod InOrder
pub mod Export
pub mod Frame
pub mod Delivery
pub mod Reception
pub mod Genuine
pub mod Sending
pub mod Reach
pub mod Receive
pub mod Process
pub mod Fire
pub mod Run
pub mod Listen
pub mod Waiting
pub mod Runs
mod SegmentRuns
mod TimerRuns
