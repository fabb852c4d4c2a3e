-- ===== src/Lib.antt =====
-- yappod2, the search engine: a model of its storage core, its update log and parts of its server.
--
-- Parts, and how they interact. An index is a set of immutable segments. A segment is described by
-- its id, its counts and its components (files with a type, a size and a checksum); the manifest
-- lists the segments of one generation of the index. Writers publish a new generation by replacing
-- the manifest file under a lock, after the operations of the update were logged; readers load it,
-- verify the files that it names and keep a snapshot, which says which documents are visible. The
-- daemon runs requests on a bounded executor, fuses lexical and vector hits, limits the requests in
-- flight and authorizes writes by a token.
--
-- Which file models which part:
--   Prelude, Prelude/*     shared tests on numbers, lists, bytes, bit masks, remainders
--   Codec, Codec/*         little-endian words (put_u16_le ... get_u64_le) and crc32c of
--                          src/storage/yappo_storage_v2.c and src/storage/yappo_manifest_v2.c, and the
--                          branching loop of src/components/yappo_lexical_v2.c
--   Types, Types/*         src/common/yappo_types_v2.h and .c: statuses, documents, passages
--   Storage/Header         YAP_V2_file_header_encode and _decode
--   Storage/Slots          the open-addressing table from segment ids to positions
--   Storage/Descriptor     segment ids, components, segment descriptors and their equality
--   Storage/Manifest       YAP_V2_manifest_add_segment, _validate, the segment map
--   ManifestFile           the parser and the encoder of src/storage/yappo_manifest_v2.c
--   ManifestFile/Publish   YAP_V2_manifest_load, _save_atomic, _publish_next,
--                          _publish_if_generation, over a record of the system calls
--   ManifestFile/Verify    YAP_V2_manifest_verify_components
--   Storage/IdList         YAP_V2_segment_id_list_add
--   Wal, Wal/Loading       src/indexing/yappo_update_wal_v2.c: writing, and loading and clearing, the log
--   Snapshot, Snapshot/*   the visibility table of src/storage/yappo_snapshot_v2.c
--   Snapshot/Manager       the snapshot manager of that file; its threads are a step relation
--   Hybrid, Hybrid/*       src/query/yappo_hybrid.c: reciprocal rank fusion
--   Rag, Rag/*             src/query/yappo_rag.c: the passages of a document
--   Executor               src/server/yappo_executor_v2.c; its threads are a step relation
--   Runtime                src/config/yappo_runtime_policy_v2.c and yappo_compaction_policy_v2.c
--   Examples               the theorems at concrete data
--
-- Conventions. Bytes and machine words are native numbers, with the wrap-around of size_t, uint32_t
-- and uint64_t written out where the source can reach it; size_t has 64 bits. A function that returns
-- a status and writes an output gives a Result. The answers of allocations and of the operating
-- system are arguments (Bool values, or the record Posix with its documented behaviour IsPosix). A C
-- string is the list of its bytes without the terminating zero. Arguments that are NULL are left out,
-- but for the texts of documents and passages and the authorization header. The int64_t time stamp of
-- a document is an integer, that of a logged operation its 64 bits.
--
-- Bounds and fuel. The loop that doubles a table's capacity has 64 rounds, which are enough since its
-- guard stops at 2^63. A walk along a table has as many rounds as the table has slots; a table always
-- keeps an empty slot. All other loops recurse on the list or the count that they walk over.
--
-- Not modelled: segment files, the segments that two snapshots share, indexing and text
-- normalization, the query parser, the filter and the scores, the vector components, HTTP and the
-- reactor, and the command-line programs. They use the manifest only through the operations that
-- are modelled here, or are input and output. Reads of the update log that fail behind its opening
-- are not modelled either.
pub mod Prelude
pub mod Codec
pub mod Types
pub mod Storage
pub mod ManifestFile
pub mod Wal
pub mod Rag
pub mod Hybrid
pub mod Snapshot
pub mod Executor
pub mod Runtime
pub mod Examples
