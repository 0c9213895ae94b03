-- ===== src/Models/Json.antt =====
-- The values that a pydantic field of type `Any` holds once it is read from JSON.
use attestation_layer.Prelude.{ℕ, String, Bool, true, false, ◌&&◌, ◌||◌, ◌==◌, if◌then◌else◌}

-- A number is an exact fraction, given by sign, numerator and denominator less one.
pub record Number : Type 0 where
  pub negative : Bool
  pub numerator : ℕ
  pub denominator_pred : ℕ

mutual
  pub data Value : Type 0 where
    null : Value
    bool : Bool → Value
    num : Number → Value
    str : String → Value
    arr : Items → Value
    obj : Fields → Value

  pub data Items : Type 0 where
    nil : Items
    item : Value → Items → Items

  pub data Fields : Type 0 where
    done : Fields
    field : String → Value → Fields → Fields

-- `d.get(k)`; the missing key and the stored `None` are told apart by `has_key`
unfoldable pub get : String → Fields → Value
get k done = null
get k (field j v d) = if j == k then v else get k d

-- `k in d`
unfoldable pub has_key : String → Fields → Bool
has_key k done = false
has_key k (field j v d) = j == k || has_key k d

-- `all(p(x) for x in items)`
pub all_items : (Value → Bool) → Items → Bool
all_items p nil = true
all_items p (item v vs) = p v && all_items p vs

-- `any(p(x) for x in items)`
pub any_item : (Value → Bool) → Items → Bool
any_item p nil = false
any_item p (item v vs) = p v || any_item p vs

-- `v is True`
abbrev pub is_true : Value → Bool
is_true (bool b) = b
is_true _ = false
