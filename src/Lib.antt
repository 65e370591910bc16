-- ===== src/Lib.antt =====
-- A verification library beside Enroute, a Git server that keeps repositories in an object store.
--
-- Enroute takes a push as a packfile, numbers its objects, indexes them in segments of a key space and
-- moves refs. A pack is read by crates/git/packfile, the segments are those of crates/lattice/core, and
-- repositories, refs and numbers are rows behind crates/git/metadata, whose store in memory does what
-- the one in Postgres does. The parts meet in the kinds of objects, the error type and the key ranges.
--
-- Packfile: crates/git/packfile/src.
--   Packfile.Errors: `Error` of crates/git/core/src/lib.rs. A message is a constructor `Reason`.
--   Packfile.Format: format.rs. Packfile.Varint: varint.rs.
--   Packfile.Delta: the limits; Packfile.Delta.Apply: delta/apply.rs; Packfile.Delta.Encode and
--   Encode.Index: delta/encode.rs, with the block index, the rolling hash and the candidate search.
--   Packfile.Reader: reader.rs, a state monad over `PackReader`. Packfile.Writer: writer.rs.
--   Packfile.Headers and Packfile.Overruns relate the two, and state where arithmetic wraps.
-- Lattice: crates/lattice/core/src.
--   Lattice.Key: key.rs. Lattice.Frame: frame.rs. Lattice.Tail: tail.rs. Lattice.Plan: plan.rs.
-- Metadata: crates/git/metadata/src, and refname.rs of crates/git/core/src.
--   Metadata.Rows: the rows of one repository in memory.rs. Metadata.Refs: apply, delete, write and
--   update_refs. Metadata.Objects: counters, allocate, record, identify, oids_of. Metadata.Segments:
--   pack images and the maintenance lock. Metadata.Repos: the repositories of the store in memory, and
--   Metadata.Repos.Steps its operations as a step relation on them.
-- Graph: the commits of a push. Graph.TopoOrder: `topo_order` of crates/git/core/src/commit_meta.rs.
--   Graph.Ancestry: crates/git/graph/src/ancestry.rs, a bitmap being the list of its bits.
-- Ingest: crates/git/ingest/src/delta_plan.rs. Ingest.DeltaPlan: `order_entries`, `cut` and `placed`;
--   Ingest.Chains: `bound_chains`, which walks the commits as Graph.TopoOrder orders them.
-- Retrieve: crates/git/retrieve/src/coalesce.rs. Retrieve.Coalesce: `plan`, `copy` and `relocated`.
-- Store: crates/git/store/src. Store.CommitPack: commit_pack.rs, on the varints of Packfile.Varint.
-- Prelude: lists, bytes, results, maps and sets over the native numbers. The modules called Examples
-- apply the theorems to concrete inputs.
--
-- A byte is a number below 256 and a slice is a list. A `usize` has 64 bits, so that a `u64` or a
-- `u32` always converts. Arithmetic that wraps, saturates or is checked in the source does so here, at
-- the width written out, except for two counters that are unbounded here: `next_rank` of
-- Ingest.Chains, a `u32` that counts the entries of one push, and `next_id` of Metadata.Repos, an `i64`
-- that counts the repositories created; a repository's id is 0 or more. A `Result` is a value, and an
-- error ends the operation with no state, except in the metadata store, where it is returned beside
-- the state.
--
-- The queue of `topo_order` is on fuel as long as the batch: a commit is popped once at most. Other
-- loops over collections are by structure. Loops over bytes are on fuel where a round can take more
-- than one: the length of the delta or of the target, or one past what a stream has left, since each
-- round takes a byte at least. Running out is the error `out_of_fuel`, which no Rust value stands for,
-- and the theorems on totality exclude it. The search for a match has the source's own bound of 64
-- candidates.
--
-- What libraries do is an argument: `is_name` is `gix_validate::reference::name`, and the trailer's
-- checksum is the hash that `verify_trailer` is given. The object index that `bound_chains` asks is
-- the record `ObjectIndex`, and a segment's bytes are a function of its id. The time is an argument
-- too. An object id is the number its bytes spell. A map is an association list: no operation modelled
-- depends on its order. `sort_by_key` is an insertion sort, which is stable as it is.
--
-- Not modelled: zlib and with it `skip_entry_body`, the bodies of entries and the compressor of
-- commit_pack.rs; the bitmaps of tail.rs; `cluster` of key.rs; the paged and summarised reads of
-- memory.rs, which change nothing; the lock, since each operation holds it from its start to its end;
-- the rounds of reads in delta_plan.rs; `coalesce` itself, which runs the parts modelled over the
-- stores; the crates for the protocol, the journal, sessions, the object store and the servers.
pub mod Prelude
pub mod Packfile
pub mod Lattice
pub mod Metadata
pub mod Graph
pub mod Ingest
pub mod Retrieve
pub mod Store
