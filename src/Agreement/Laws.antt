-- ===== src/Agreement/Laws.antt =====
-- When backend_agreement.py reports a disagreement, and when that blocks.
use attestation_layer.Prelude.{◌≡◌, ◌⊎◌, List, [], ◌∷◌, Memᴰ}
use attestation_layer.Models.Result.{BackendResult}
use attestation_layer.Agreement.Observation.{BackendAgreementObservation}
use attestation_layer.Agreement.Comparison.{BackendAgreementMode}
use attestation_layer.Agreement.Conflict.{Conflict}

-- `a` stands before `b`.
pub Before : {A : Type 0} → A → A → List A → Type 0
Before a b [] = ⊥
Before a b (x ∷ xs) = ((a ≡ x) × Memᴰ b xs) ⊎ Before a b xs

-- Two results in order whose observations are in conflict.
pub Clash :
    (BackendResult → BackendAgreementObservation)
    → BackendAgreementMode
    → List BackendResult
    → Type 0
unfolding Before
Clash observe mode results =
    (a : BackendResult) × (b : BackendResult) × Before a b results
    × Conflict mode (observe a) (observe b)

module _ (observe : BackendResult → BackendAgreementObservation) (mode : BackendAgreementMode) where
  abbrev After : BackendResult → List BackendResult → Type 0
  After a rest = (b : BackendResult) × Memᴰ b rest × Conflict mode (observe a) (observe b)
