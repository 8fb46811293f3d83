-- ===== src/Bridge/Message.antt =====
-- internal/browserbridge/bridge.go: a message as encoding/json decodes it, the functions that read
-- a value from it, and the requests that are made of these values.
use godown.Base.{
  ◌/◌, ◌^◌, zero, suc, ℕ, Bool, false, Option, none, some, List, [], ◌∷◌, String, Dict, insert,
  str_eq, if◌then◌else◌,
}
use godown.Base.Int.{ℤ, pos, negsuc}
use godown.Core.Task.{StringMap}

-- `number n k` is n / 10 ^ k. A key stands once in an object, as in the map that it is decoded to.
mutual
  pub data Value : Type 0 where
    null : Value
    text : String → Value
    number : ℤ → ℕ → Value
    bool : Bool → Value
    object : Fields → Value
    array : Items → Value

  pub data Fields : Type 0 where
    empty_object : Fields
    with_field : (name : String) (value : Value) (rest : Fields) → Fields

  pub data Items : Type 0 where
    empty_array : Items
    with_item : (first : Value) (rest : Items) → Items

-- `message[key]`; a key that is missing gives nil, as null does.
unfoldable pub value_at : String → Fields → Value
value_at key empty_object = null
value_at key (with_field name value rest) = if str_eq name key then value else value_at key rest

abbrev pub text_of : Value → String
text_of (text s) = s
text_of _ = ""

abbrev pub bool_of : Value → Bool
bool_of (bool b) = b
bool_of _ = false

-- A conversion to an integer drops what stands after the point. A number that no int holds has no
-- result that Go fixes; it stands here as the integer that it is.
abbrev pub truncate : ℤ → ℕ → ℤ
truncate (pos n) k = pos (n / 10 ^ k)
truncate (negsuc n) k = elim (suc n / 10 ^ k) [ zero ↦ pos 0 | suc m ↦ negsuc m ]

abbrev pub int_of : Value → ℤ
int_of (number n k) = truncate n k
int_of _ = pos 0

-- A type assertion to map[string]any: `none` where the value is no object.
abbrev pub object_of : Value → Option Fields
object_of (object fields) = some fields
object_of _ = none

abbrev pub items_of : Value → Items
items_of (array items) = items
items_of _ = empty_array

unfoldable pub string_value : String → Fields → String
unfolding value_at
string_value key message = text_of (value_at key message)

unfoldable pub int_value : String → Fields → ℤ
unfolding value_at
int_value key message = int_of (value_at key message)

unfoldable pub bool_value : String → Fields → Bool
unfolding value_at
bool_value key message = bool_of (value_at key message)

-- The fields of an object that are texts; a value of another type is left out.
unfoldable pub string_fields : Fields → Dict String
string_fields empty_object = []
string_fields (with_field name (text s) rest) = insert name s (string_fields rest)
string_fields (with_field name _ rest) = string_fields rest

abbrev pub string_map_of : Value → StringMap
string_map_of (object empty_object) = none
string_map_of (object fields) = some (string_fields fields)
string_map_of _ = none

unfoldable pub string_map_value : String → Fields → StringMap
unfolding value_at string_fields
string_map_value key message = string_map_of (value_at key message)

pub record MergeResourceRequest : Type 0 where
  pub url : String
  pub filename : String
  pub mime : String
  pub size : ℤ
  pub headers : StringMap
  pub supports_range : Bool

pub record CreateTaskRequest : Type 0 where
  pub url : String
  pub title : String
  pub path : String
  pub headers : StringMap
  pub resources : List MergeResourceRequest
  pub size : ℤ
  pub supports_range : Bool
  pub pre_block_num : ℤ
  pub source : String

pub record PairRequest : Type 0 where
  pub request_id : String
  pub protocol_version : ℤ
  pub extension_version : String
  pub client_kind : String
  pub remote_addr : String

unfoldable pub resource_of : Fields → MergeResourceRequest
unfolding string_value int_value bool_value string_map_value
resource_of resource = record {
  url = string_value "url" resource;
  filename = string_value "filename" resource;
  mime = string_value "mime" resource;
  size = int_value "size" resource;
  headers = string_map_value "headers" resource;
  supports_range = bool_value "supportsRange" resource;
}

-- An item that is no object is passed over.
unfoldable pub resources_of : Items → List MergeResourceRequest
unfolding resource_of
resources_of empty_array = []
resources_of (with_item (object resource) rest) = resource_of resource ∷ resources_of rest
resources_of (with_item _ rest) = resources_of rest

unfoldable pub merge_resources_value : String → Fields → List MergeResourceRequest
unfolding value_at resources_of
merge_resources_value key message = resources_of (items_of (value_at key message))

-- The request of a create_task message with a payload.
unfoldable pub create_request : Fields → Fields → CreateTaskRequest
unfolding string_value int_value bool_value string_map_value merge_resources_value
create_request message payload = record {
  url = string_value "url" payload;
  title = string_value "title" message;
  path = string_value "path" payload;
  headers = string_map_value "headers" payload;
  resources = merge_resources_value "resources" payload;
  size = int_value "size" payload;
  supports_range = bool_value "supportsRange" payload;
  pre_block_num = int_value "preBlockNum" payload;
  source = string_value "source" message;
}

unfoldable pub pair_request : String → Fields → String → PairRequest
unfolding string_value int_value
pair_request request_id message remote_addr = record {
  request_id = request_id;
  protocol_version = int_value "protocolVersion" message;
  extension_version = string_value "extensionVersion" message;
  client_kind = string_value "clientKind" message;
  remote_addr = remote_addr;
}
