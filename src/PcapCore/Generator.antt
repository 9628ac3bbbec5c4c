-- ===== src/PcapCore/Generator.antt =====
-- packages/pcap-core/src/PcapGenerator.ts and packages/pcap-core/src/PcapngGenerator.ts: capture
-- files as bytes.
pub mod Stamp
pub mod Pcap
pub mod Pcapng
