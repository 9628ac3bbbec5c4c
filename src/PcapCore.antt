-- ===== src/PcapCore.antt =====
-- packages/pcap-core: the pure-buffer core that parses and generates capture files.
pub mod Bytes
pub mod Format
pub mod Parser
pub mod Generator
pub mod RoundTrip
pub mod Lz4
mod Examples
