-- ===== src/Tests.antt =====
-- The theorems at concrete inputs, and runs of the definitions.
mod Flags
mod States
mod Maps
mod Channels
mod Files
mod Openings
mod Directories
mod Traces
mod Loggers
mod Configs
mod Arguments
mod Attributes
mod Sessions
mod Printings
mod Queues
mod Supervisors
