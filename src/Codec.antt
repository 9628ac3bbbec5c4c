-- ===== src/Codec.antt =====
-- packages/codec/src: the shared state of a header, its access to the packet, the field factories,
-- the post handlers, and the engine that dissects and assembles packets.
pub mod Header
pub mod Bits
pub mod Fields
pub mod Handlers
pub mod Engine
pub mod Examples
