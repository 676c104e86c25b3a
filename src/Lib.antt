-- ===== src/Lib.antt =====
-- A model of TFDB, a time-indexed ring store of records on a raw medium, with proofs of its properties.
--
-- The program is a C++ library (src/, include/tfdb/). A volume is a header, in two copies, and a ring of
-- partitions. A partition is a header, blocks of records, an index and a footer; it is sealed when the
-- writer goes on to the next slot. `RingStore` buffers records in a builder, turns the builder into a
-- block, and makes blocks durable by a flush; `AsyncWriter` puts a queue and a thread before it. The
-- store calls a `Storage` for the medium and a `CompressionCodec` for a block's payload.
--
-- The files, and the code that they are about:
--   Prelude       operators and lists over the native numbers, and the integers of times
--   Status        include/tfdb/status.hpp: a status is a code; a function that fills an output on
--                 success returns a `Result`
--   Bytes         include/tfdb/bytes.hpp, and the little-endian accessors of src/internal_format.cpp;
--                 Bytes.Bits, Bytes.Endian and Bytes.Store are the lemmas on them
--   Crc           `crc32c_update` and its kin of src/internal_format.cpp, with the table as it is filled
--   Format        the encoders and decoders of src/internal_format.cpp, one module per structure:
--                 Volume, Partition, Block, Index and Footer, each with a RoundTrip; Seal is about
--                 `finish_crc` and `common_check`
--   Codec         src/codec.cpp: the codec interface as a record; Codec.PackBits, Codec.Lz4
--   RingStore     src/ring_store.cpp. State has `RingStore::Impl` as a record and the
--                 lookups; Media has `sync_media`; Rotate has `create_partition`, `seal_active_only`,
--                 `rotate_internal` and `ensure_empty_builder_capacity`; Emit has `emit_builder`;
--                 Append has the operations of `RingStore` (`append`, `append_checked`, `publish`,
--                 `checkpoint`, `close`, `rotate`, `set_next_partition_options`, `writer_status`); Run
--                 has sequences of them; Observe has `inspect`, `active_partition_info`, `metrics` and
--                 `health`. Consistent states the invariants, Outcome is the logic that
--                 Effects, Emitted, Rotated, Admitted and Accepted use to carry them through the
--                 steps, and Invariant, Latch, Contract and Skew have the theorems; Medium states what
--                 is asked of a backend for durability, Flushed, Safety and Written carry it through
--                 the steps, and Durable has its theorems
--   AsyncWriter   src/async_writer.cpp. State has the writer with the thread's position in its loop;
--                 Client and Thread have the critical sections as functions of the state; Steps has
--                 executions, which are sequences of critical sections in the order of the mutex;
--                 Order, Ordered, Barrier and Drained have the theorems; Stored and Confirmed
--                 are about the store behind the writer
--                 Reader is the reader: Reads has steps that read a backend, Features and Slots the
--                 headers and footers of partitions, Scan `scan_partition`, Index `load_index`, Block
--                 `read_block`, Events and Query `query`; Ends and Kept are the logics that Answers,
--                 Delivered, Chain and Scanned use. Geometry has `validate_volume_geometry`, Formatter
--                 `format`, and Formatted its theorem. Opener is `open`: Headers has the two copies of
--                 the header, Damage the slots without a valid header, Strict the verification of
--                 payloads, Recover the loop over the slots, Assemble the whole as `open_store`; Order,
--                 Recovered, Installed, Opened, Admits and Survives have the theorems
--   RecordProfile src/record_profile.cpp: Frame has `FramedRecordV1`, Append `append_framed_record`,
--                 Query `query_records`; Fields, RoundTrip and Selected have the theorems
--   Storage       Exact has the loops `write_exact` and `read_exact` of src/storage_posix.cpp, Image and
--                 Readback their theorems; Memory is src/memory_storage.cpp, with the crashes in
--                 Memory.Crash, the abstract medium and sequences of calls in Memory.Medium, and
--                 the refinement in Memory.Refined; Counting is src/counting_storage.cpp
--   Tests         runs at concrete inputs
--
-- Choices of the model. A byte is a number below 256 and a buffer a list. Machine integers are numbers
-- with their wrap-around written out where the code can wrap: `add64` and `sub64` for 64-bit sums and
-- counters, `% 2 ^ 32` for narrowed sizes. `std::size_t` has 64 bits. Times are integers. An operation
-- that holds a mutex is one function of the state. A backend is a `Device`: functions for `read_exact`,
-- `write_exact`, the flush and the clock over a state of their own, of which
-- nothing is assumed but where a theorem says so; each reading of the clock returns the next state. The
-- fuel of the loops of Codec is the number of bytes left, and a round takes a byte at least; that of
-- `write_exact` is the number of rounds, of which an interrupted backend may need any number. The loops
-- of Format run over lists or over the stored count. The
-- messages of a status, memory exhaustion and exceptions are not modelled.
--
-- The reader runs outside the mutex after its snapshot: its state is the backend, the counts of gaps
-- and the visitor's state, and what the writer does meanwhile is a change of the backend in a read. A
-- scan has a round for each 128 bytes of its limit, since no frame is shorter; the decoder of records
-- has a round for each byte. The loops over `getrandom` have a number of rounds, which an interrupted
-- call may use up.
--
-- Not modelled: the hook of `MemoryStorage` as a field, and so `set_hook`; the system
-- calls of src/storage_posix.cpp; the destructors and the exceptions of the asynchronous writer; the
-- tools, the tests and the Rust reader.
pub mod Prelude
pub mod Status
pub mod Bytes
pub mod Crc
pub mod Format
pub mod Codec
pub mod AsyncWriter
pub mod Tests
pub mod RingStore
pub mod Storage
pub mod RecordProfile
