-- ===== src/Models/Semantic.antt =====
-- models.py: the nodes of a requirement's semantic tree, with the guards on their shape.
pub mod Laws
use attestation_layer.Prelude.{
  ℕ, String, Bool, true, false, not, ◌&&◌, ◌||◌, Option, none, some, List, [], ◌∷◌, length, mem,
  ltb, num_eq, is_none, Dict, ◌==◌, if◌then◌else◌,
}
use attestation_layer.Models.Json.{Number, Fields}
use attestation_layer.Models.Evidence.{EvidenceLevel}

pub data RefKind : Type 0 where
  identifier number string : RefKind

-- `text` is `str(value)`.
pub record ValueRef : Type 0 where
  pub kind : RefKind
  pub text : String

pub data TimeUnit : Type 0 where
  second minute hour day block : TimeUnit

pub record TemporalBound : Type 0 where
  pub value : Number
  pub unit : TimeUnit

-- The fields of a node that hold no node. Spans, provenance, confidence and annotations are left
-- out: no function of the model reads them.
pub record NodeInfo : Type 0 where
  pub node_id : String
  pub kind : String
  pub name : Option String
  pub target : Option String
  pub args : List ValueRef
  pub value : Option ValueRef
  pub temporal_bound : Option TemporalBound
  pub metadata : Fields

mutual
  -- The slots are the fields `premise`, `obligation`, `action` and `must`, then `left` and `right`,
  -- then `children` and `scope`.
  pub data Node : Type 0 where
    node : NodeInfo → Slot → Slot → Slot → Slot → Operand → Operand → Nodes → Nodes → Node

  pub data Slot : Type 0 where
    absent : Slot
    present : Node → Slot

  pub data Operand : Type 0 where
    no_operand : Operand
    node_operand : Node → Operand
    value_operand : ValueRef → Operand

  pub data Nodes : Type 0 where
    no_nodes : Nodes
    node_and : Node → Nodes → Nodes

abbrev pub to_list : Nodes → List Node
to_list no_nodes = []
to_list (node_and n ns) = n ∷ to_list ns

abbrev pub info_of : Node → NodeInfo
info_of (node i p o a m l r cs sc) = i

abbrev pub premise_of : Node → Slot
premise_of (node i p o a m l r cs sc) = p

abbrev pub obligation_of : Node → Slot
obligation_of (node i p o a m l r cs sc) = o

abbrev pub must_of : Node → Slot
must_of (node i p o a m l r cs sc) = m

abbrev pub children_of : Node → List Node
children_of (node i p o a m l r cs sc) = to_list cs

abbrev is_absent : Slot → Bool
is_absent absent = true
is_absent (present n) = false

abbrev is_operand : Operand → Bool
is_operand no_operand = false
is_operand _ = true

-- `not text`, of an optional text
abbrev pub is_falsy : Option String → Bool
is_falsy none = true
is_falsy (some s) = s == ""

abbrev named_kinds : List String
named_kinds = "forall" ∷ "exists" ∷ "entity_scope" ∷ "module_scope" ∷ []

abbrev reference_kinds : List String
reference_kinds =
    "state_ref" ∷ "action" ∷ "call" ∷ "event" ∷ "transition" ∷ "pre_state" ∷ "post_state"
    ∷ "invariant" ∷ "state_delta" ∷ "system_spec_ref" ∷ "code_symbol_ref" ∷ "trace_ref"
    ∷ "policy_ref" ∷ []

abbrev binary_kinds : List String
binary_kinds =
    "comparison" ∷ "membership" ∷ "eq" ∷ "neq" ∷ "lt" ∷ "lte" ∷ "gt" ∷ "gte" ∷ "increase"
    ∷ "decrease" ∷ []

-- `SemanticNode.validate_node_shape`, of one node: true where it raises
pub is_malformed : Node → Bool
is_malformed (node i p o a m l r cs sc) =
    i.kind == "rule" && (is_absent p || is_absent o)
    || i.kind == "action_obligation" && (is_absent a || is_absent m)
    || i.kind == "not" && not (num_eq (length (to_list cs)) 1)
    || mem i.kind ("implies" ∷ "iff" ∷ []) && not (num_eq (length (to_list cs)) 2)
    || mem i.kind named_kinds && is_falsy i.name
    || i.kind == "predicate" && is_falsy i.name
    || mem i.kind reference_kinds && is_falsy i.name && is_falsy i.target
    || mem i.kind binary_kinds && ltb (length i.args) 2 && not (is_operand l && is_operand r)
    || i.kind == "within" && is_none i.temporal_bound

pub data ApprovalStatus : Type 0 where
  approved needs_review rejected : ApprovalStatus

pub record Approval : Type 0 where
  pub status : ApprovalStatus
  pub approved_by : Option String
  pub approved_at : Option String
  pub self_audit : Bool

pub record RequirementSource : Type 0 where
  pub original_text : Option String
  pub controlled_text : String
  pub controlled_text_approval : Option Approval

pub record RequiredEvidence : Type 0 where
  pub claim_path : String
  pub minimum_level : EvidenceLevel

pub data BindingConfidence : Type 0 where
  generic_symbol_table manual_override adapter_resolved llm_suggested : BindingConfidence

pub record SymbolBinding : Type 0 where
  pub adapter : String
  pub symbol : String
  pub symbol_type : String
  pub confidence : BindingConfidence

-- `RequirementIRV2`
pub record RequirementIr : Type 0 where
  pub requirement_id : String
  pub title : String
  pub source : RequirementSource
  pub semantic_ir : Node
  pub bindings : Dict SymbolBinding
  pub assumptions : List (Dict String)
  pub required_evidence : List RequiredEvidence

-- `RequirementIRV2.validate_semantic_root`, behind the guard of the root node itself
unfoldable pub check_root : RequirementIr → Option RequirementIr
unfolding is_malformed
check_root r =
    if is_malformed r.semantic_ir
    then none
    else if not ((info_of r.semantic_ir).kind == "rule")
    then none
    else some r
