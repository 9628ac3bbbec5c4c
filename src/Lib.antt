-- ===== src/Lib.antt =====
-- netkitty reads, writes, edits, replays, indexes and analyses packet captures. This library
-- models packages/pcap-core, which parses and generates capture files, the editor, the writer
-- and the reader of packages/pcap, the core of packages/analysis, which indexes the decoded
-- frames and derives tables from them, the state machine of packages/replay, and the engine of
-- packages/codec, which takes packets apart into layers and puts them together.
--
-- PcapCore is packages/pcap-core/src. Bytes holds the Buffer accessors, Format the constants
-- and the types of PcapParserCore.ts. A Buffer is the list of its bytes. The parser's fields
-- are the record Control (all but the buffer), a call of `this.state()` is a Step (drop bytes
-- and go on, wait, fail, or an exception), and handlers are the list of events. Parser/Classic
-- has detectFormat, parseGlobalHeader, parsePacketHeader and parsePacketBody, Parser/Ng the
-- functions of pcapng, and Parser/Machine `write`, `end` and the loop over `state`.
-- Generator/Pcap and Generator/Pcapng are PcapGenerator.ts and PcapngGenerator.ts, and Lz4 is
-- Lz4FrameDecompress.ts.
--
-- Analysis is packages/analysis/src. Layer holds what the package reads of decoded layers,
-- with JavaScript's conversions; ConversationKey is indexer/ConversationKey.ts, FrameIndexer
-- is indexer/FrameIndexer.ts, Store is stores/ColumnarIndexStore.ts, Conversations, Endpoints,
-- TcpStream and Groups are the reducers, Filter is filter/FilterExpression.ts (its children
-- Match and Indexed are the decisions over layers and over the columns), Synthetic is
-- worker/SyntheticFrame.ts and Scans is worker/BuiltinScans.ts. The indexer appends to the
-- store and keeps the dictionaries that the filter, the scans and the synthetic frames read
-- back. A Map is a list of entries in the order of their insertion (Base/Dict), a string the
-- list of its code units (Base/Text).
--
-- Pcap is packages/pcap/src. Edit has the types, errors and timestamps of PcapEdit.ts, Retime
-- its makeRetimer, Transforms the factories and chain, Patch patchInPlace, and Run normalize,
-- run, rewrite and retime; Writer is PcapWriter.ts and Reader is PcapReader.ts. A closure's
-- variables are arguments that come back with its result, a thrown error is a value, and a
-- file is the list of its bytes. The writer calls the generators of PcapCore, and its file is
-- read by their parser.
--
-- Replay is packages/replay/src/Replay.ts together with the native object that it drives,
-- packages/replay/cpp/src/replay.cc: one state with the flags of both, the send thread and the
-- queue of its events, a relation for the steps of the thread and of the event loop, and two for
-- the states that are reached: Reach of any client, and Orderly of a client that starts a thread
-- only when the last one has been stopped and its last event has arrived.
--
-- The analysis service joins these: IndexBuilder is indexer/PcapIndexBuilder.ts, which drains
-- the frames of the parser into the indexer, Worker has the request handlers of
-- worker/AnalysisWorkerCore.ts and Watch its tail of a growing file, and Facade is
-- Analysis.ts, which asks the worker for batches of frames and feeds them to a reducer. An
-- asynchronous function is a function of what its awaits answer; a promise that rejects is a
-- value.
--
-- Codec is packages/codec/src. Header is the packet buffer of abstracts/BaseHeader.ts, with its
-- headroom and the reads and writes of a header, Bits its bit fields, Fields its factories of
-- integer fields with the loops of decode and encode over them, and Handlers
-- lib/SortPostHandlers.ts and lib/ProcessPacketPostHandlers.ts. Engine is Codec.ts: Tables is the
-- constructor with buildDispatchTable, Select is selectCodec, Layers is decode and encode, and
-- Graph the editor's projections. A header class is what the engine sees of it: its declarations,
-- `match`, `decode` and `encode`.
--
-- Fuel: `write` runs its loop with two rounds more than there are bytes, since every round
-- that goes on drops bytes or leaves one of the first two phases; the options of an interface
-- description move by four bytes a round; an LZ4 block moves in every round, so `end` rounds
-- are enough. Decoding moves by a byte a layer where every header takes one, so one round more than
-- the packet has bytes is enough; the code does not ask for that byte, and without it no number of
-- rounds is. A batch of attachReducer and a read of the watch move in every
-- round, so the frame count and the file's length are enough.
--
-- Parameters: the base64 encoder and decoder of Buffer, the bignumber.js conversion of
-- timestamps, Number(text), toLowerCase, `keyOf` of the scans, and parseInt, path.resolve,
-- Date.now and gunzip of packages/pcap. Numbers are whole and below 2 ^ 53 where the code
-- computes with doubles, but for `Number` of a BigInt, which is rounded in Codec/Bits; a mean and a factor of time are a numerator and a denominator.
--
-- Not modelled: the subclasses of BaseHeader (packages/codec/src/headers), its text fields, nested
-- schemas and post-self handlers, Ajv's validation and the dissection and summary of Codec.ts,
-- packages/capture, packages/iface, the streams and the watch mode of PcapReader.ts, failures to
-- open or write a file in PcapEdit.ts, and of packages/analysis the channels, the file backends and the
-- facade's sets of listeners. They are native bindings, input and output, or the field layouts of
-- single protocols. The analysis service takes the codec's decode as a parameter.
pub mod Base
pub mod PcapCore
pub mod Analysis
pub mod Pcap
pub mod Replay
pub mod Codec
