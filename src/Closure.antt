-- ===== src/Closure.antt =====
-- proof_closure.py: does the evidence at hand discharge every premise of a requirement?
-- `Producers` is the catalog of who may emit which level, `Plan` routes each premise to a backend,
-- `Premise` judges one route, `Proof` assembles the proof object and has its gate.
pub mod Producers
pub mod Plan
pub mod Premise
pub mod Proof
