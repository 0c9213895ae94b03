-- ===== src/Models.antt =====
-- src/nlreq/models.py: the shared data of the pipeline. `Evidence` has the evidence levels and the
-- final statuses, `Json` the free-form `details` of a result, `Backing` the tests that back a high
-- evidence level, `Result` the guarded backend result, `Semantic` the semantic tree, `Formats` the
-- tests on identifiers and hashes, and `Pinning` who pinned a meaning.
pub mod Evidence
pub mod Json
pub mod Backing
pub mod Result
pub mod Semantic
pub mod Formats
pub mod Pinning
