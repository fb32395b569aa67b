-- ===== src/Agent/Value.antt =====
-- agent/tool.go: JSON-like values (`any`), the arguments of tool calls and the schemas of tools.
-- A value is told apart by the Go type that a type switch or reflection sees. A map is a list of
-- keys with values, in which the first entry of a key counts; the nil map is `nil_map`.
use native.Mathlib.Decide.{ℕ_discrete}
use agentframe.Base.{
  ℕ, String, ◌≡◌, ap, ap₂, Bool, Option, none, some, List, ◌==◌, if◌then◌else◌, String-discrete,
  refl,
}
use agentframe.Base.Int.{ℤ}

mutual
  pub data Any : Type 0 where
    null : Any
    bool : Bool → Any
    text : String → Any
    -- int, int8, …, int64
    int : ℤ → Any
    -- uint, uint8, …, uint64
    uint : ℕ → Any
    -- float32 and float64, by their printed form
    float : String → Any
    -- map[string]any
    object : Fields → Any
    -- []any
    array : Items → Any
    -- []string
    strings : List String → Any
    -- a map of another type, a slice or array of another type, and any other type
    other_map other_slice other : String → Any

  pub data Items : Type 0 where
    end : Items
    item : Any → Items → Items

  pub data Fields : Type 0 where
    done : Fields
    field : String → Any → Fields → Fields

-- `map[string]any` as a field of a struct: it may be nil.
pub data AnyMap : Type 0 where
  nil_map : AnyMap
  map_of : Fields → AnyMap

pub Any-discrete : Discrete Any
Any-discrete = hlevel (ℕ_discrete, String-discrete)

pub AnyMap-discrete : Discrete AnyMap
AnyMap-discrete = hlevel (ℕ_discrete, String-discrete)

abbrev pub entries : AnyMap → Fields
entries nil_map = done
entries (map_of fs) = fs

-- `value, ok := m[key]`
unfoldable pub get_field : String → Fields → Option Any
get_field key done = none
get_field key (field k v fs) = if k == key then some v else get_field key fs

-- cloneJSONLikeValue: maps and slices of `any` are rebuilt, all else is shared.
unfoldable mutual
  pub clone_json_like_value : Any → Any
  clone_json_like_value (object fs) = object (clone_fields fs)
  clone_json_like_value (array xs) = array (clone_items xs)
  clone_json_like_value null = null
  clone_json_like_value (bool b) = bool b
  clone_json_like_value (text s) = text s
  clone_json_like_value (int n) = int n
  clone_json_like_value (uint n) = uint n
  clone_json_like_value (float s) = float s
  clone_json_like_value (strings ss) = strings ss
  clone_json_like_value (other_map s) = other_map s
  clone_json_like_value (other_slice s) = other_slice s
  clone_json_like_value (other s) = other s

  pub clone_items : Items → Items
  clone_items end = end
  clone_items (item x xs) = item (clone_json_like_value x) (clone_items xs)

  pub clone_fields : Fields → Fields
  clone_fields done = done
  clone_fields (field k v fs) = field k (clone_json_like_value v) (clone_fields fs)

mutual
  unfolding clone_json_like_value clone_items clone_fields

  clone_any-id : (x : Any) → clone_json_like_value x ≡ x
  clone_any-id (object fs) = ap object (clone_fields-id fs)
  clone_any-id (array xs) = ap array (clone_items-id xs)
  clone_any-id null = refl
  clone_any-id (bool b) = refl
  clone_any-id (text s) = refl
  clone_any-id (int n) = refl
  clone_any-id (uint n) = refl
  clone_any-id (float s) = refl
  clone_any-id (strings ss) = refl
  clone_any-id (other_map s) = refl
  clone_any-id (other_slice s) = refl
  clone_any-id (other s) = refl

  clone_items-id : (xs : Items) → clone_items xs ≡ xs
  clone_items-id end = refl
  clone_items-id (item x xs) = ap₂ item (clone_any-id x) (clone_items-id xs)

  clone_fields-id : (fs : Fields) → clone_fields fs ≡ fs
  clone_fields-id done = refl
  clone_fields-id (field k v fs) = ap₂ (field k) (clone_any-id v) (clone_fields-id fs)

pub clone_map : AnyMap → AnyMap
clone_map nil_map = nil_map
clone_map (map_of fs) = map_of (clone_fields fs)

pub clone_map-id : (m : AnyMap) → clone_map m ≡ m
unfolding clone_map
clone_map-id nil_map = refl
clone_map-id (map_of fs) = ap map_of (clone_fields-id fs)

pub record ToolDefinition : Type 0 where
  pub name : String
  pub description : String
  pub input_schema : AnyMap

pub record ToolCall : Type 0 where
  pub id : String
  pub name : String
  pub arguments : AnyMap

unfoldable pub clone_tool_definition : ToolDefinition → ToolDefinition
unfolding clone_map
clone_tool_definition d = record d { input_schema = clone_map d.input_schema }

unfoldable pub clone_tool_call : ToolCall → ToolCall
unfolding clone_map
clone_tool_call c = record c { arguments = clone_map c.arguments }

pub clone_tool_definition-id : (d : ToolDefinition) → clone_tool_definition d ≡ d
unfolding clone_tool_definition
clone_tool_definition-id d = λ i. record d { input_schema = clone_map-id d.input_schema i }

pub clone_tool_call-id : (c : ToolCall) → clone_tool_call c ≡ c
unfolding clone_tool_call
clone_tool_call-id c = λ i. record c { arguments = clone_map-id c.arguments i }

pub ToolCall-discrete : Discrete ToolCall
ToolCall-discrete = hlevel (AnyMap-discrete, String-discrete)

pub data ToolFailureReason : Type 0 where
  unknown_tool invalid_arguments executor_error suspended no_reason : ToolFailureReason

pub record ToolResult : Type 0 where
  pub call_id : String
  pub name : String
  pub content : String
  pub is_error : Bool
  pub failure_reason : ToolFailureReason
