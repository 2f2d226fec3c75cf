-- ===== src/Lib.antt =====
-- RGK: client-side validated assets on Kaspa covenants. This library models the Rust crates that decide
-- whether a receipt, a spend or a resolved state is valid.
--
-- The parts and how they interact:
--   * Core (crates/rgk-core/src): the byte format (`Encoding`: `Writer`, `Reader`, `encode_canonical`,
--     `decode_canonical`), chains, policies and proof modes (`Chain`, `Modes`, `Policy`), states and receipts with their
--     structural rules (`Types`), and the domain-separated commitments (`Commit`). `Bytes` and `Error` are
--     bytes.rs and error.rs. A receipt is built and verified by way of these.
--   * Receipt (crates/rgk-receipt/src/lib.rs): `build`, `verify_local`, `verify_local_structured` and the
--     `ReplaySet`.
--   * Indexer (crates/rgk-indexer/src/lib.rs): `Records` has the records and errors, `Entry` what happens to
--     one covenant (`apply_spend_to_entry`, `rollback`, certificates), `Memory` the `InMemoryIndexer` with its
--     lanes, scan cursors and observed spends. An operation on `&mut self` is a function to the new indexer or
--     an error; the code writes nothing before its last check, so an error leaves the indexer as it was. The
--     three `apply_spend` variants are one function of a record `Spend` with optional proofs.
--     `Rebuild` is `rebuild_from`: its loop writes as it goes, so its result is the indexer that it leaves, also
--     where it fails, beside the summary or the error. `Store` writes the records of the sled indexer as bytes
--     and reads them.
--   * Kaspa (crates/rgk-kaspa/src/lib.rs): the trait `KaspaChainBackend` as the record of the node's answers,
--     its errors and their classification, and the `FixtureBackend`.
--   * Asset (crates/rgk-asset/src/native.rs): lane ids, scan tags and nullifiers (the parent); `Policies`,
--     `Records` and `Errors`; `Roots`, the allocation root, the shape root and the state digest; `Supply`, the
--     checks on sets of allocations, shapes, burns and owners; `Issues` (`RgkAssetIssue`), `Transitions`
--     (`RgkTransition`), `Continuations` (`RgkContinuationPlan`, with `finalize`), `Shapes` and `Strategies` (the
--     production plans). A method `validate` of a type is `validate_issue`, `validate_transition` or
--     `validate_plan`, its `validate_structure` is `.._structure`. `History` follows an asset through any
--     sequence of them. `sort_by_key`, the stable sort of the standard library, is an insertion sort in
--     `Prelude.Sorts`; a `BTreeSet` that is only asked for membership is a list.
--   * Resolver (crates/rgk-resolver/src/lib.rs): `resolve_by_covenant` in its numbered steps, which asks a
--     backend and the lookups of an indexer (the record `Indexer`, which `in_memory` fills), the other lookups
--     (`View`), and `verify_receipt_against_indexer`, which calls the receipt verifier.
--   * Prelude: lists over native numbers, decided equality as an interface, results with guards, ordered maps,
--     vectors. Tests: concrete data, and the theorems applied to it.
--
-- The model: `u8` to `u64` are natural numbers, with their widths in the predicates `IsTyped..` and `IsBytes`; a
-- `[u8; 32]` is a list of numbers; `usize` has 64 bits (`usize_mod`). SHA-256 comes from a package and is a
-- parameter of every definition that hashes; statements about what a commitment binds end in an explicit
-- collision of it. The chain backend is a parameter of the resolver. Error texts are constructors. No definition
-- runs on fuel: every loop follows a list or a count.
--
-- Not modelled: the operations of the sled indexer on its database, the HTTP and wRPC backends (network),
-- strings of `read_str` and the display texts, the rules on NFTs, lane graphs, allocation transcripts and the
-- canonical record of a strategy plan, transactions, covenant scripts,
-- the scanner, the wallet daemon (I/O) and the proof systems (third-party packages).
pub mod Prelude
pub mod Core
pub mod Receipt
pub mod Indexer
pub mod Kaspa
pub mod Asset
pub mod Resolver
pub mod Tests
