-- ===== src/Examples.antt =====
-- Concrete runs: the theorems at concrete inputs, on the transports of Transport/Script.
mod Sending
mod Threads
mod Receiving
mod Clients
mod Interleavings
mod Lifetimes
mod Endings
mod Values
mod Parts
mod Together
mod Ends
mod Departing
mod Since
mod Sockets
mod Descriptors
