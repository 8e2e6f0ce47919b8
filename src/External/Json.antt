-- ===== src/External/Json.antt =====
-- The values that `json.loads` gives, and what Python's `dict.get`, `int`, `bool`, `str` and
-- iteration do with them. What a float and a text turn into is a parameter.
use Prim.Native.String as Chars
use eve_build.Prelude.{
  Bool, true, false, not, Option, none, some, List, [], ◌∷◌, String, if◌then◌else◌, ◌==◌, string_eq,
}
use eve_build.Prelude.Int.{ℤ, pos, int_beq}
use eve_build.Prelude.Exc.{value_error, key_error, type_error, Result, ok, err}

-- Python's float, and the conversions that the program leaves to Python.
pub record Builtins : Type 1 where
  pub Float : Type 0
  -- `int(x)` raises for an infinity and a NaN.
  pub int_of_float : Float → Result ℤ
  pub int_of_text : String → Result ℤ
  pub bool_of_float : Float → Bool

-- Python without floats, in which no text is a number.
abbrev pub whole_numbers : Builtins
whole_numbers = record {
  Float = Unit {0};
  int_of_float = λ x. ok (pos 0);
  int_of_text = λ s. err (value_error "invalid literal for int()");
  bool_of_float = λ x. false;
}

module _ (python : Builtins) where
  open python use {Float, int_of_float, int_of_text, bool_of_float}

  mutual
    pub data Value : Type 0 where
      null : Value
      boolean : Bool → Value
      integer : ℤ → Value
      floating : Float → Value
      text : String → Value
      array : Values → Value
      object : Fields → Value

    pub data Values : Type 0 where
      nil : Values
      cons : Value → Values → Values

    -- The entries of an object, with unique keys.
    pub data Fields : Type 0 where
      end : Fields
      field : String → Value → Fields → Fields

  -- `d.get(key)`
  unfoldable pub get_field : String → Fields → Option Value
  get_field key end = none
  get_field key (field name value rest) = if name == key then some value else get_field key rest

  -- `d[key]`
  abbrev pub get_item : String → Fields → Result Value
  get_item key fields = elim (get_field key fields) [ none ↦ err key_error | some value ↦ ok value ]

  -- `int(value)`
  abbrev pub int_of : Value → Result ℤ
  int_of null = err type_error
  int_of (boolean b) = ok (pos (if b then 1 else 0))
  int_of (integer n) = ok n
  int_of (floating x) = int_of_float x
  int_of (text s) = int_of_text s
  int_of (array values) = err type_error
  int_of (object fields) = err type_error

  -- `bool(value)`
  abbrev pub bool_of : Value → Bool
  bool_of null = false
  bool_of (boolean b) = b
  bool_of (integer n) = not (int_beq n (pos 0))
  bool_of (floating x) = bool_of_float x
  bool_of (text s) = not (s == "")
  bool_of (array nil) = false
  bool_of (array (cons value values)) = true
  bool_of (object end) = false
  bool_of (object (field name value rest)) = true

  abbrev pub values_list : Values → List Value
  values_list nil = []
  values_list (cons value values) = value ∷ values_list values

  abbrev keys_list : Fields → List Value
  keys_list end = []
  keys_list (field name value rest) = text name ∷ keys_list rest

  abbrev characters : String → List Value
  characters Chars.[] = []
  characters (Chars.◌∷◌ c s) = text (Chars.◌∷◌ c "") ∷ characters s

  -- `for x in value`
  abbrev pub iterate : Value → Result (List Value)
  iterate (array values) = ok (values_list values)
  iterate (object fields) = ok (keys_list fields)
  iterate (text s) = ok (characters s)
  iterate null = err type_error
  iterate (boolean b) = err type_error
  iterate (integer n) = err type_error
  iterate (floating x) = err type_error
