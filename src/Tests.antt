-- ===== src/Tests.antt =====
-- Concrete inputs: cryptography and JSON in miniature, and the theorems at work on them.
mod Toy
mod ToyJson
mod ProtocolTests
mod ChatTests
mod RulesTests
mod ArchiveTests
mod DeviceTests
mod ToyTable
mod NodeTests
mod InviteTests
mod BootstrapTests
mod SyncTests
mod PeerTests
mod NetworkTests
mod CliTests
