-- ===== src/Pcap.antt =====
-- packages/pcap: the file classes over pcap-core.
pub mod Edit
pub mod Retime
pub mod Transforms
pub mod Patch
pub mod Run
pub mod Writer
pub mod Reader
mod Examples
