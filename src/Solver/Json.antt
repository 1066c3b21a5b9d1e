-- ===== src/Solver/Json.antt =====
-- The values that validateEnvironmentConfig (solver/src/utils/config.ts) is given: what JSON.parse makes, and
-- undefined, which a property that is not there has.
use example_liquidity_layer.Prelude.{
  Bool, List, Option, Result, String, [], false, if◌then◌else◌, none, not, ok, some, throw, true,
  type_error, ℕ, ◌&&◌, ◌*◌, ◌^◌, ◌∷◌,
}
use example_liquidity_layer.Prelude.Int.{le_ℤ, lt_ℤ, pos, ℤ}
use text.Mathlib.Text.{◌==◌ as text_eq}

-- A finite double is an integer over a power of two; the other ones of JSON are too large.
pub data Double : Type 0 where
  finite : (numerator : ℤ) (shift : ℕ) → Double
  infinite : (negative : Bool) → Double

mutual
  pub data Value : Type 0 where
    undefined null : Value
    bool : Bool → Value
    number : Double → Value
    string : String → Value
    array : Items → Value
    object : Fields → Value

  pub data Items : Type 0 where
    nil : Items
    cons : Value → Items → Items

  pub data Fields : Type 0 where
    end : Fields
    field : String → Value → Fields → Fields

abbrev pub items : Items → List Value
items nil = []
items (cons v vs) = v ∷ items vs

abbrev pub fields : Fields → List (String × Value)
fields end = []
fields (field k v fs) = (k, v) ∷ fields fs

unfoldable pub lookup : String → List (String × Value) → Value
lookup k [] = undefined
lookup k ((j, v) ∷ fs) = if text_eq j k then v else lookup k fs

-- `v.k`; undefined and null have no properties.
unfoldable pub property : Value → String → Result Value
unfolding lookup
property undefined k = throw type_error
property null k = throw type_error
property (object fs) k = ok (lookup k (fields fs))
property (bool b) k = ok undefined
property (number d) k = ok undefined
property (string s) k = ok undefined
property (array vs) k = ok undefined

-- `Object.keys(v)` with the values. A text or an array has its indices; of these the first is enough here.
unfoldable pub entries : Value → Result (List (String × Value))
entries undefined = throw type_error
entries null = throw type_error
entries (object fs) = ok (fields fs)
entries (bool b) = ok []
entries (number d) = ok []
entries (string s) = ok (if text_eq s "" then [] else ("0", string s) ∷ [])
entries (array nil) = ok []
entries (array (cons v vs)) = ok (("0", v) ∷ [])

abbrev pub is_undefined : Value → Bool
is_undefined undefined = true
is_undefined _ = false

-- `Array.isArray`
unfoldable pub as_array : Value → Option (List Value)
as_array (array vs) = some (items vs)
as_array _ = none

-- `typeof v === "number"`
abbrev pub as_number : Value → Option Double
as_number (number d) = some d
as_number _ = none

abbrev pub as_text : Value → Option String
as_text (string s) = some s
as_text _ = none

-- `d <= 0`, `d < 0`, `d > 1` and `d === n`
unfoldable pub le_zero : Double → Bool
le_zero (finite m k) = le_ℤ m (pos 0)
le_zero (infinite negative) = negative

unfoldable pub lt_zero : Double → Bool
lt_zero (finite m k) = lt_ℤ m (pos 0)
lt_zero (infinite negative) = negative

unfoldable pub gt_one : Double → Bool
gt_one (finite m k) = lt_ℤ (pos (2 ^ k)) m
gt_one (infinite negative) = not negative

unfoldable pub is_number : Double → ℕ → Bool
is_number (finite m k) n = le_ℤ m (pos (n * 2 ^ k)) && le_ℤ (pos (n * 2 ^ k)) m
is_number (infinite negative) n = false
