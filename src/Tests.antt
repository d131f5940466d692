-- ===== src/Tests.antt =====
-- Instances of the theorems on concrete inputs; the parameters are concrete functions here.
pub mod Toy
pub mod Packets
pub mod Tokens
pub mod State
pub mod Clients
pub mod Runs
pub mod Servers
pub mod Handshakes
pub mod Simulators
