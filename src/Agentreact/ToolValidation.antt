-- ===== src/Agentreact/ToolValidation.antt =====
-- agentreact/tool_validation.go: the arguments of a tool call against the tool's input schema.
use agentframe.Base.{
  String, Bool, true, false, ◌&&◌, not, Option, none, some, List, [], ◌∷◌, ◌==◌, if◌then◌else◌,
  is_some,
}
use agentframe.Agent.Value.{
  Any, null, bool, text, int, uint, float, object, array, strings, other_map, other_slice, Items,
  end, item, Fields, done, field, AnyMap, entries, get_field, ToolDefinition, ToolCall, ToolResult,
  ToolFailureReason, unknown_tool, invalid_arguments, executor_error, suspended, no_reason,
}
use agentframe.Agent.Errors.{GoError, message}
use agentframe.Agent.Lifecycle.{◌then_check◌}
use agentframe.Agent.Interfaces.{Host}

-- A value, or the error of a parse.
pub data Parsed (A : Type 0) : Type 0 where
  parsed : A → Parsed A
  malformed : String → Parsed A

later_or : Option ToolDefinition → Option ToolDefinition → Option ToolDefinition
later_or (some d) other = some d
later_or none other = other

-- indexToolDefinitions and a lookup in the index: the last definition of a name counts
unfoldable pub find_definition : String → List ToolDefinition → Option ToolDefinition
unfolding later_or
find_definition name [] = none
find_definition name (d ∷ ds) =
    later_or (find_definition name ds) (if d.name == name then some d else none)

-- `schema[key]`, which is nil if there is no such key
value_or_nil : Option Any → Any
value_or_nil none = null
value_or_nil (some v) = v

prepend : String → Parsed (List String) → Parsed (List String)
prepend s (parsed ss) = parsed (s ∷ ss)
prepend s (malformed e) = malformed e

text_items : Items → Parsed (List String)
unfolding prepend
text_items end = parsed []
text_items (item (text s) rest) = prepend s (text_items rest)
text_items (item _ rest) = malformed "input schema \"required\" entries must be strings"

unfoldable pub parse_required_fields : Any → Parsed (List String)
unfolding text_items
parse_required_fields null = parsed []
parse_required_fields (strings ss) = parsed ss
parse_required_fields (array xs) = text_items xs
parse_required_fields _ = malformed "input schema \"required\" must be an array"

unfoldable pub parse_additional_properties : Any → Parsed Bool
parse_additional_properties null = parsed true
parse_additional_properties (bool b) = parsed b
parse_additional_properties _ = malformed "input schema \"additionalProperties\" must be a bool"

unfoldable pub as_string_any_map : Any → Option Fields
as_string_any_map (object fs) = some fs
as_string_any_map _ = none

type_name : Option Any → Parsed (Option String)
type_name none = parsed none
type_name (some (text s)) = parsed (some s)
type_name (some _) = malformed "input schema property \"type\" must be a string"

type_of_map : Option Fields → Parsed (Option String)
unfolding type_name
type_of_map none = malformed "input schema \"properties\" entries must be objects"
type_of_map (some fs) = type_name (get_field "type" fs)

-- `none` stands for a property without a type
unfoldable pub parse_property_type : Any → Parsed (Option String)
unfolding type_of_map
parse_property_type schema = type_of_map (as_string_any_map schema)

unfoldable pub is_integer : Any → Bool
is_integer (int n) = true
is_integer (uint n) = true
is_integer _ = false

unfoldable pub is_number : Any → Bool
is_number (int n) = true
is_number (uint n) = true
is_number (float s) = true
is_number _ = false

is_text : Any → Bool
is_text (text s) = true
is_text _ = false

is_bool : Any → Bool
is_bool (bool b) = true
is_bool _ = false

-- reflect.Map
is_map : Any → Bool
is_map (object fs) = true
is_map (other_map s) = true
is_map _ = false

-- reflect.Array and reflect.Slice
is_slice : Any → Bool
is_slice (array xs) = true
is_slice (strings ss) = true
is_slice (other_slice s) = true
is_slice _ = false

unfoldable pub matches_tool_argument_type : String → Any → Bool
unfolding is_text is_bool is_map is_slice
matches_tool_argument_type expected value =
    if expected == "string"
    then is_text value
    else if expected == "boolean"
    then is_bool value
    else if expected == "number"
    then is_number value
    else if expected == "integer"
    then is_integer value
    else if expected == "object"
    then is_map value
    else if expected == "array"
    then is_slice value
    else true

keys : Fields → List String
keys done = []
keys (field k v fs) = k ∷ keys fs

is_present : Option Any → Bool
is_present none = false
is_present (some v) = true

unfoldable pub first_missing : List String → Fields → Option GoError
unfolding is_present
first_missing [] arguments = none
first_missing (f ∷ fs) arguments =
    let rest = first_missing fs arguments in
    if is_present (get_field f arguments) then rest else some (message "missing required argument")

check_type : Parsed (Option String) → Any → Option GoError
check_type (malformed e) value = some (message e)
check_type (parsed none) value = none
check_type (parsed (some expected)) value =
    if matches_tool_argument_type expected value then none else some (message "argument must be")

-- one round of the loop over the keys: the property of the key, if the schema has one
check_argument : Option Any → Bool → Any → Option GoError
unfolding check_type
check_argument none closed value = if closed then some (message "unknown argument") else none
check_argument (some schema) closed value = check_type (parse_property_type schema) value

-- `closed`: the schema has properties and allows no others
unfoldable pub check_arguments : List String → Fields → Bool → Fields → Option GoError
unfolding check_argument value_or_nil
check_arguments [] properties closed arguments = none
check_arguments (k ∷ ks) properties closed arguments =
    let rest = check_arguments ks properties closed arguments in
    check_argument (get_field k properties) closed (value_or_nil (get_field k arguments))
    then_check rest

or_no_fields : Option Fields → Fields
or_no_fields none = done
or_no_fields (some fs) = fs

-- the loops, once the schema's own entries are parsed
check_against :
    (List String → List String)
    → Option Fields
    → Fields
    → Parsed (List String)
    → Parsed Bool
    → Option GoError
unfolding or_no_fields keys
check_against sort properties arguments (malformed e) allowed = some (message e)
check_against sort properties arguments (parsed required) (malformed e) =
    first_missing required arguments then_check some (message e)
check_against sort properties arguments (parsed required) (parsed allowed) =
    first_missing required arguments
    then_check check_arguments (sort (keys arguments)) (or_no_fields properties)
        (is_some properties && not allowed) arguments

is_empty_map : Fields → Bool
is_empty_map done = true
is_empty_map (field k v fs) = false

-- validateToolArguments; `sort` is sort.Strings
unfoldable pub validate_tool_arguments :
    (List String → List String) → AnyMap → AnyMap → Option GoError
unfolding check_against is_empty_map value_or_nil
validate_tool_arguments sort schema arguments =
    if is_empty_map (entries schema)
    then none
    else check_against sort
        (as_string_any_map (value_or_nil (get_field "properties" (entries schema))))
        (entries arguments)
        (parse_required_fields (value_or_nil (get_field "required" (entries schema))))
        (parse_additional_properties
          (value_or_nil (get_field "additionalProperties" (entries schema))))

unfoldable pub reason_text : ToolFailureReason → String
reason_text unknown_tool = "unknown_tool"
reason_text invalid_arguments = "invalid_arguments"
reason_text executor_error = "executor_error"
reason_text suspended = "suspended"
reason_text no_reason = ""

-- normalizedToolErrorResult, for an error that is not nil
unfoldable pub normalized_tool_error_result :
    {W : Type 0} → Host W → ToolCall → ToolFailureReason → GoError → ToolResult
normalized_tool_error_result host call reason e = record {
  call_id = call.id;
  name = call.name;
  content = host.sprintf "%s: %s" (reason_text reason ∷ host.error_text e ∷ []);
  is_error = true;
  failure_reason = reason;
}
