-- ===== src/Tests.antt =====
-- Runs of the model, and the properties applied to concrete input.
mod Codec
mod Packets
mod Calls
mod Discovery
mod Worker
mod Setup
mod Client
mod Delta
mod Subscriptions
mod Answers
mod Driver
mod Search
