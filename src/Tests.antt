-- ===== src/Tests.antt =====
-- Runs of the models at concrete inputs, and the theorems applied there.
mod Schema
mod Conversation
mod Stream
mod Gateway
mod Memory
mod Sessions
mod Rotation
mod Auth
mod Broker
mod Config
mod Bootstrap
mod Clis
mod Owner
mod Requests
