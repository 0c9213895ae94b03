-- ===== src/Agreement/Values.antt =====
-- backend_agreement.py: the comparison `==` of the JSON values that two results record.
use attestation_layer.Prelude.{
  suc, ◌*◌, String, Bool, true, false, ◌&&◌, ◌||◌, ◌==◌, num_eq, not, if◌then◌else◌,
}
use attestation_layer.Models.Json.{Number, Value, Items, Fields, get, has_key}

-- equality of fractions, of which 0 has two signs
unfoldable pub same_number : Number → Number → Bool
same_number a b =
    num_eq (a.numerator * suc b.denominator_pred) (b.numerator * suc a.denominator_pred)
    && (num_eq a.numerator 0 || (if a.negative then b.negative else not b.negative))

-- `True` is 1 and `False` is 0.
abbrev number_of_bool : Bool → Number
number_of_bool b = record {
  negative = false;
  numerator = (if b then 1 else 0);
  denominator_pred = 0;
}

abbrev equals_number : Number → Value → Bool
equals_number n (Value.bool b) = same_number n (number_of_bool b)
equals_number n (Value.num m) = same_number n m
equals_number n _ = false

abbrev is_null : Value → Bool
is_null Value.null = true
is_null _ = false

abbrev equals_text : String → Value → Bool
equals_text s (Value.str t) = s == t
equals_text s _ = false

-- the keys of the first dict are keys of the second
unfoldable pub keys_within : Fields → Fields → Bool
keys_within Fields.done e = true
keys_within (Fields.field k v d) e = has_key k e && keys_within d e

-- `v == w`; dicts are equal if they have the same keys with equal values, in any order.
unfoldable mutual
  pub same_value : Value → Value → Bool
  same_value Value.null w = is_null w
  same_value (Value.bool b) w = equals_number (number_of_bool b) w
  same_value (Value.num n) w = equals_number n w
  same_value (Value.str s) w = equals_text s w
  same_value (Value.arr xs) (Value.arr ys) = same_items xs ys
  same_value (Value.arr xs) _ = false
  same_value (Value.obj d) (Value.obj e) = fields_within d e && keys_within e d
  same_value (Value.obj d) _ = false

  pub same_items : Items → Items → Bool
  same_items Items.nil Items.nil = true
  same_items Items.nil (Items.item w ws) = false
  same_items (Items.item v vs) Items.nil = false
  same_items (Items.item v vs) (Items.item w ws) = same_value v w && same_items vs ws

  pub fields_within : Fields → Fields → Bool
  fields_within Fields.done e = true
  fields_within (Fields.field k v d) e =
      (has_key k e && same_value v (get k e)) && fields_within d e

-- `==` of two dicts
unfoldable pub same_fields : Fields → Fields → Bool
same_fields d e = fields_within d e && keys_within e d
