-- ===== src/Tests.antt =====
-- Runs of the modelled code on small inputs.
mod Fixture
mod Packets
mod Connections
mod Objects
mod Programs
mod Threads
mod Loops
