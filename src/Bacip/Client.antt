-- ===== src/Bacip/Client.antt =====
-- bacip/client.go: the client.
pub mod Calls
pub mod Holders
pub mod Handler
pub mod Delivery
pub mod Invoke
pub mod Answers
pub mod Search
pub mod Collect
pub mod Discovery
pub mod Decoded
pub mod Subscriptions
pub mod Requests
pub mod Sending
pub mod Writing
pub mod Interface
pub mod Listen
pub mod Broadcast
pub mod Refinement
pub mod Drain
pub mod Routing
