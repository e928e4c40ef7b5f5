-- ===== src/Value.antt =====
-- Go's dynamic values: what `interface{}` and `map[string]interface{}` hold in
-- internal/models and internal/engine. `Go` collects what the code takes from Go's standard
-- library at types that have no counterpart here: floats, formatting, regular expressions.
use intelligent_workflows.Prelude.{
  ℕ, String, Bool, List, Option, none, some, Result, ◌==◌, if◌then◌else◌,
}

-- The signed integers of Go; `negsuc n` is -(n + 1).
pub data ℤ : Type 0 where
  pos : ℕ → ℤ
  negsuc : ℕ → ℤ

-- One constructor for each dynamic type that the code tells apart. A float is its bit pattern.
mutual
  pub data Value : Type 0 where
    null : Value
    bool : Bool → Value
    string : String → Value
    float64 float32 : ℕ → Value
    int int32 int64 : ℤ → Value
    uint uint32 uint64 : ℕ → Value
    time : ℕ → Value
    strings : List String → Value
    list : Items → Value
    objects : Objects → Value
    object : Fields → Value
    jsonb : Fields → Value  -- models.JSONB

  -- []interface{}
  pub data Items : Type 0 where
    nil : Items
    cons : Value → Items → Items

  -- []map[string]interface{}
  pub data Objects : Type 0 where
    no_objects : Objects
    more_objects : Fields → Objects → Objects

  -- map[string]interface{}, as an association list
  pub data Fields : Type 0 where
    empty : Fields
    field : String → Value → Fields → Fields

-- `m[k]`, with its second result
unfoldable pub get : String → Fields → Option Value
get k empty = none
get k (field j v m) = if j == k then some v else get k m

-- `m[k] = v`
unfoldable pub put : String → Value → Fields → Fields
put k v empty = field k v empty
put k v (field j w m) = if j == k then field k v m else field j w (put k v m)

-- `for k, v := range m { into[k] = v }`
unfoldable pub merge : Fields → Fields → Fields
merge empty into = into
merge (field k v m) into = put k v (merge m into)

-- What is called in the standard library.
pub record Go : Type 0 where
  pub sprint : Value → String  -- fmt.Sprintf("%v", x)
  pub type_name : Value → String  -- fmt.Sprintf("%T", x)
  pub float_lt : ℕ → ℕ → Bool  -- x < y at float64
  pub float_of_float32 : ℕ → ℕ  -- float64(x)
  pub float_of_int : ℤ → ℕ  -- float64(x)
  pub float_of_uint : ℕ → ℕ  -- float64(x)
  pub int64_of_float : ℕ → ℤ  -- int64(x), toward zero
  pub seconds_of : ℤ → ℕ  -- d.Seconds()
  pub duration_text : ℤ → String  -- d.String()
  pub match_string : String → String → Result Bool  -- regexp.MatchString
  pub parse_duration : String → Result ℤ  -- time.ParseDuration, in nanoseconds
