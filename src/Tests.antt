-- ===== src/Tests.antt =====
-- Runs at concrete inputs, one file for each part of the program.
mod Containers
mod Flows
mod Losses
mod Reorders
mod Queues
mod Maps
mod Clocks
mod Schedules
mod Services
mod Lives
mod Trackers
