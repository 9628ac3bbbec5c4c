-- ===== src/PcapCore/Parser.antt =====
-- packages/pcap-core/src/PcapParserCore.ts: the methods of class PcapParserCore.
pub mod Classic
pub mod Ng
pub mod Machine
pub mod Steady
