-- ===== src/PcapCore/RoundTrip.antt =====
-- packages/pcap-core/src: PcapParserCore reads back what the generators write.
pub mod Pcap
