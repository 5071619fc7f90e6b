-- ===== src/Examples.antt =====
-- The theorems at concrete messages, and runs of the definitions that can be followed in the source.
mod Nets
mod Lines
mod Ports
mod Writes
mod Tables
mod Frames
mod Replies
mod Exceptions
mod Exchanges
mod ReadBacks
mod Coils
mod Clients
mod CoilClients
mod Heaps
