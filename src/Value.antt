-- ===== src/Value.antt =====
-- The values that a model's structured parameters are made of, as Python sees them.
use ai_workflow_control_plan.Common.{
  ℕ, suc, ◌+◌, ◌/◌, ◌%◌, ◌^◌, ◌≤◌, Bool, not, String, arith, ◌==◌,
}
use ai_workflow_control_plan.Common.Int.{ℤ}

-- A key of a mapping: a text, or a value of another type.
pub data Key : Type 0 where
  text : String → Key
  other_key : Key

-- A tuple is the list of its elements. A float is its IEEE 754 bit pattern, and `other` is a value
-- of any further type.
mutual
  pub data Value : Type 0 where
    null other : Value
    bool : Bool → Value
    int : ℤ → Value
    float : ℕ → Value
    str : String → Value
    list : Items → Value
    object : Fields → Value

  pub data Items : Type 0 where
    nil : Items
    cons : Value → Items → Items

  pub data Fields : Type 0 where
    end : Fields
    field : Key → Value → Fields → Fields

-- `math.isfinite`: the exponent of a double is not all ones.
pub is_finite : ℕ → Bool
is_finite bits = not ((bits / 2 ^ 52) % 2048 == 2047)

-- `len` of a list and of a mapping.
unfoldable pub count_items : Items → ℕ
count_items nil = 0
count_items (cons v vs) = suc (count_items vs)

unfoldable pub count_fields : Fields → ℕ
count_fields end = 0
count_fields (field k v fs) = suc (count_fields fs)

-- The number of values in a tree.
unfoldable mutual
  pub size : Value → ℕ
  size (list vs) = suc (size_items vs)
  size (object fs) = suc (size_fields fs)
  size null = 1
  size other = 1
  size (bool b) = 1
  size (int z) = 1
  size (float bits) = 1
  size (str s) = 1

  pub size_items : Items → ℕ
  size_items nil = 0
  size_items (cons v vs) = size v + size_items vs

  pub size_fields : Fields → ℕ
  size_fields end = 0
  size_fields (field k v fs) = size v + size_fields fs

size_pos : (v : Value) → 1 ≤ size v
unfolding size
size_pos (list vs) = omega arith
size_pos v = omega arith

pub count_items-le-size : (vs : Items) → count_items vs ≤ size_items vs
unfolding size count_items
count_items-le-size nil = omega arith
count_items-le-size (cons v vs) = omega (arith, size_pos v, count_items-le-size vs)

pub count_fields-le-size : (fs : Fields) → count_fields fs ≤ size_fields fs
unfolding size count_fields
count_fields-le-size end = omega arith
count_fields-le-size (field k v fs) = omega (arith, size_pos v, count_fields-le-size fs)
