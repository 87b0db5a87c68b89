-- ===== src/Tests.antt =====
-- Runs of the models on concrete inputs, and the theorems applied to them.
mod Data
mod Receive
mod Words
mod Request
mod Alarms
mod Dates
mod Heartbeat
mod Files
mod Named
mod Text
mod Timers
mod Meters
mod Answers
mod Stored
