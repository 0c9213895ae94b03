-- ===== src/Models/Semantic/Laws.antt =====
-- What the guards say of a requirement's root node.
use attestation_layer.Prelude.{◌≡◌, true, false, some, arith, refl, ◌==◌}
use attestation_layer.Models.Semantic.{
  Node, node, absent, present, RequirementIr, info_of, premise_of, obligation_of, is_malformed,
  check_root,
}

rule_node :
    (n : Node)
    → is_malformed n ≡ false
    → ((info_of n).kind == "rule") ≡ true
    → (p : Node) × (o : Node) × (premise_of n ≡ present p) × (obligation_of n ≡ present o)
unfolding is_malformed
rule_node (node i (present p) (present o) a m l r cs sc) h k = (p, o, refl, refl)
rule_node (node i (present p) absent a m l r cs sc) h k = absurd (ground arith)
rule_node (node i absent o a m l r cs sc) h k = absurd (ground arith)

root_facts :
    (r : RequirementIr)
    → check_root r ≡ some r
    → (is_malformed r.semantic_ir ≡ false) × (((info_of r.semantic_ir).kind == "rule") ≡ true)
unfolding check_root
root_facts r h = ground arith

-- A requirement that is constructed has a premise and an obligation.
pub rule_slots :
    (r : RequirementIr)
    → check_root r ≡ some r
    → (p : Node) × (o : Node) × (premise_of r.semantic_ir ≡ present p)
      × (obligation_of r.semantic_ir ≡ present o)
rule_slots r h = let f = root_facts r h in rule_node r.semantic_ir f.0 f.1
