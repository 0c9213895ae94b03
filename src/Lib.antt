-- ===== src/Lib.antt =====
-- A verification library for nlreq, the attestation layer under src/nlreq of the repository: the
-- program takes a requirement in controlled language, collects evidence for it from solvers, model
-- checkers, tests and reviews, and decides whether it may be accepted and whether a proof object
-- about it may close. The library models the parts that decide; the parts that parse languages, run
-- external tools or write files are left out.
--
-- The parts, and where they stand:
-- * Models (src/nlreq/models.py): the data that all parts share, with the guards that run when it is
--   constructed. Backing and Result are the backend result and `_validate_evidence_backing`, Pinning
--   the review, ensemble and pinning records, Semantic the semantic tree, Formats the two regular
--   expressions and `str.strip`, over code points, and Json the values of a field of type `Any`.
-- * Status (src/nlreq/status.py): `decide_status`, from an evidence object and a pinning record.
-- * Closure (src/nlreq/proof_closure.py): Producers is the catalog of evidence producers, Plan the
--   three functions that route the premises of a requirement to backends, Premise the judgement of
--   one route against the results (`_evaluate_premise`), Proof the proof object and the gate that
--   reads it. A result of Models and the tree of Models.Semantic are what it works on.
-- * Agreement (src/nlreq/backend_agreement.py): whether the results of several backends on one
--   question agree, which the closure reads. Observation is what is compared, Values the equality of
--   JSON values, Comparison the two modes. A reason stands for the text that prints it.
-- * Coverage (src/nlreq/coverage_alignment.py): the gate on the coverage manifest of version 2.
-- * Bounds (src/nlreq/numeric_literal.py): `numeric_bounds_conflict`.
-- * Impact (src/nlreq/impact.py): the modules that a requirement reaches along the call graph, and
--   their comparison with an estimate.
-- * Review (src/nlreq/review_workflow.py): opening and approving a review, and its status.
-- * Drift (src/nlreq/spec_drift.py and the registry entry of src/nlreq/system_spec.py): which modules
--   are out of date, and the marking of their specifications.
-- * Replay (src/nlreq/trace_replay.py, with the contract of src/nlreq/system_spec.py): a
--   specification's expectations against the traces of the code; Replay.Alignment is
--   `classify_spec_code_alignment` of src/nlreq/trace_validation.py.
-- * Gate (src/nlreq/gate.py): `build_hard_gate_report`. Records holds the policy, the waivers and the
--   report, Paths the matching of scopes, Findings the raw findings of a package, Waiving the
--   evaluation of one finding under the policy and the waivers. The package index is the record of
--   src/nlreq/adoption.py that it reads.
-- * PinGate (src/nlreq/gate.py): the default-deny rule for machine-pinned statuses, for Gate.
-- * Waivers (src/nlreq/policy_governance.py): the audit of the waivers of the gate and the governance
--   report over the CI gate of src/nlreq/ci_pr_gate.py.
-- * Signed (src/nlreq/signed_evidence.py, with the digests of src/nlreq/jsonutil.py): signing, the
--   registry of producers and the verification of an envelope.
-- * Store (src/nlreq/artifact_store.py): the artifact store, its index, the export of a bundle for
--   replay and the verification of a bundle. Signed judges the envelopes of a bundle. The files are
--   the interface `FileSystem` with its laws, and Store.Memory is an instance of it.
-- * Cache (src/nlreq/verification_cache.py): the index of verification results, and the plan that
--   spreads the tasks without a result over slots. Slots is the choice of a slot.
-- * Budget (src/nlreq/verification_budget.py): budgets, assumptions and how an outcome counts.
-- * Prelude holds what the parts share: Boolean tests, lists, keys, texts, dicts as association lists
--   in insertion order, and the result of a function that may raise. Tests applies each theorem to a
--   concrete input.
--
-- Conventions. A pydantic validator is a function from the record to an option or to a result whose
-- error names the raise; a function that mutates a caller's list returns what it appends. Raises are
-- values. The one loop without a structural bound is that of `analyze_source_impact`: it runs on
-- fuel, one run more than there are edges, and each run that changes the set reaches one more callee.
--
-- Parameters stand for code outside the repository: SHA-256, HMAC and `json.dumps` (Digests, the
-- `hash_at` of Drift, the keys of Cache, the codec of Signed), the files (Store), `fnmatchcase` and
-- `as_posix` (Gate), the call graph that an adapter extracts, `fractions.Fraction` as an interface of
-- a dense order (Bounds.Order, with ratios of natural numbers as an instance), floats (Coverage),
-- datetimes, `str` of a JSON value, and the decimal digits of Unicode. Not modelled: adapters,
-- parsers, language models, solver encodings, packages and the command line, which parse, print and
-- run external tools; the replay of a requirement, the coverage report of version 1, the end-to-end
-- gate, the contradictions between claims and the freshness lockfile.
pub mod Prelude
pub mod Models
pub mod Status
pub mod Closure
pub mod Agreement
pub mod Bounds
pub mod Impact
pub mod Review
pub mod Replay
pub mod Waivers
pub mod Budget
pub mod PinGate
pub mod Gate
pub mod Drift
pub mod Signed
pub mod Store
pub mod Cache
pub mod Coverage
pub mod Tests
