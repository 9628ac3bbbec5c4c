-- ===== src/Analysis.antt =====
-- packages/analysis/src: the frame index, the reducers and the display filter.
pub mod Layer
pub mod ConversationKey
pub mod Frame
pub mod Conversations
pub mod Endpoints
pub mod Store
pub mod TcpStream
pub mod FrameIndexer
pub mod Filter
pub mod Groups
pub mod Synthetic
pub mod Scans
pub mod IndexBuilder
pub mod Worker
pub mod Watch
pub mod Facade
mod Examples
