-- ===== src/Tests.antt =====
-- Test data, and runs of the models on it.
mod Data
mod Buffers
mod Chains
mod Requests
mod Lines
mod Streams
mod Http
mod Values
mod Devices
mod Losses
