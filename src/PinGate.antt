-- ===== src/PinGate.antt =====
-- gate.py: `_machine_pin_accepts`, the rule by which the hard gate lets a machine-pinned status pass
-- for a change of low-risk paths. `fnmatchcase` and `Path(...).as_posix()` are parameters.
pub mod Laws
use attestation_layer.Prelude.{
  String, Bool, true, false, not, ◌==◌, Option, none, some, List, [], ◌∷◌, any, is_empty,
  if◌then◌else◌,
}
use attestation_layer.Models.Evidence.{FinalStatus}
use attestation_layer.Status.{StatusView, is_human_accepted}

pub record GateMachinePinRules : Type 0 where
  pub enabled : Bool
  pub allowed_changed_path_patterns : List String
  pub block_changed_path_patterns : List String

-- the default of `block_changed_path_patterns`
unfoldable pub default_blocked : List String
default_blocked =
    "**/auth/**" ∷ "**/authentication/**" ∷ "**/authz/**" ∷ "**/funds/**" ∷ "**/payments/**"
    ∷ "**/wallet/**" ∷ "**/transfer/**" ∷ "**/signing/**" ∷ "**/crypto/**" ∷ []

-- `GateMachinePinRules()`
unfoldable pub default_rules : GateMachinePinRules
unfolding default_blocked
default_rules = record {
  enabled = false;
  allowed_changed_path_patterns = [];
  block_changed_path_patterns = default_blocked;
}

abbrev pub is_pinned_member : FinalStatus → Bool
is_pinned_member FinalStatus.machine_pinned_pending_review = true
is_pinned_member _ = false

-- `is_machine`
pub is_machine_status : StatusView → Bool
is_machine_status (StatusView.member s) = is_pinned_member s
is_machine_status (StatusView.text s) = s == "MACHINE_PINNED_PENDING_REVIEW"
is_machine_status StatusView.other = false

module _ (fnmatch : String → String → Bool) (normalize : String → String) where
  -- `_matches_any`
  abbrev pub matches_any : String → List String → Bool
  matches_any value patterns = any (λ p. fnmatch (normalize value) (normalize p)) patterns

  -- `any(fnmatchcase(normalized, _normalize_path(pattern)) ...)`, where the path is normalized
  abbrev pub is_listed : String → List String → Bool
  is_listed normalized patterns = any (λ p. fnmatch normalized (normalize p)) patterns

  -- the loop over the changed paths
  pub accepts_paths : GateMachinePinRules → List String → Bool
  accepts_paths rules [] = true
  accepts_paths rules (path ∷ rest) =
      let later = accepts_paths rules rest in
      if matches_any (normalize path) rules.block_changed_path_patterns
      then false
      else if not (is_listed (normalize path) rules.allowed_changed_path_patterns)
      then false
      else later

  -- the tests on a status that is not `None`
  pub accepts_status : StatusView → List String → GateMachinePinRules → Bool
  accepts_status status paths rules =
      if is_human_accepted status
      then false
      else if not (is_machine_status status)
      then false
      else if not rules.enabled
      then false
      else if is_empty paths
      then false
      else accepts_paths rules paths

  -- `_machine_pin_accepts`
  unfoldable pub machine_pin_accepts : Option StatusView → List String → GateMachinePinRules → Bool
  unfolding accepts_status accepts_paths is_machine_status
  machine_pin_accepts none paths rules = false
  machine_pin_accepts (some status) paths rules = accepts_status status paths rules
