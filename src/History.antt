-- ===== src/History.antt =====
-- internal/history: the event-sourced store.
pub mod Sharding
pub mod Notifier
pub mod TaskToken
pub mod Store
pub mod Append
pub mod Retry
pub mod Wake
pub mod Start
pub mod Signal
pub mod Activity
pub mod Timers
pub mod WorkflowTask
pub mod Dispatch
pub mod Query
pub mod Listing
pub mod WorkflowQuery
pub mod Keeps
pub mod Frames
pub mod Contiguity
pub mod System
