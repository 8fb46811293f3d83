-- ===== src/Bridge/Reply.antt =====
-- internal/browserbridge/bridge.go: what is sent to the extension.
use godown.Base.{
  ℕ, ◌/◌, Bool, true, false, not, ◌&&◌, ◌||◌, List, [], ◌∷◌, String, str_eq, leb, if◌then◌else◌,
}
use godown.Base.Int.{ℤ, pos}
use godown.Core.Task.{TaskStatus, TaskSnapshot, Percent, completed, seeding, is_live, is_waiting}
use godown.Bridge.Message.{
  bool, number, text, array, object, Items, empty_array, with_item, Fields, empty_object,
  with_field,
}
use Prim.Native.String.{slice, len}

-- The payload of a message, by its type.
pub data Reply : Type 0 where
  pair_result : (request_id : String) (approved : Bool) (token message : String) → Reply
  create_task_result : (request_id : String) (created : Bool) (task_id message : String) → Reply
  task_action_result : (request_id : String) (done : Bool) (message : String) → Reply
  hello_ack : Reply
  error : (request_id code message : String) → Reply

abbrev pub protocol_version : ℤ
protocol_version = pos 1

-- A field that is written only where its text is not empty.
abbrev pub field_if : String → String → Fields → Fields
field_if name s rest = if str_eq s "" then rest else with_field name (text s) rest

abbrev action_names : Items
action_names = with_item (text "toggle_pause") (
    with_item (text "redownload") (
      with_item (text "open_file")
        (with_item (text "open_folder") (with_item (text "cancel") empty_array))))

abbrev capabilities : Fields
capabilities = with_field "taskSnapshots" (bool true) (
    with_field "createTask" (bool true)
      (with_field "taskActions" (array action_names) empty_object))

unfoldable pub payload : Reply → Fields
payload (pair_result request_id approved token message) = with_field "type" (text "pair_result") (
    with_field "requestId" (text request_id) (
      with_field "ok" (bool approved)
        (field_if "token" token (field_if "message" message empty_object))))
payload (create_task_result request_id created task_id message) =
    with_field "type" (text "create_task_result") (
      with_field "requestId" (text request_id) (
        with_field "ok" (bool created)
          (field_if "taskId" task_id (field_if "message" message empty_object))))
payload (task_action_result request_id done message) =
    with_field "type" (text "task_action_result") (
      with_field "requestId" (text request_id)
        (with_field "ok" (bool done) (field_if "message" message empty_object)))
payload hello_ack = with_field "type" (text "hello_ack") (
    with_field "protocolVersion" (number protocol_version 0) (
      with_field "appVersion" (text "go-win32")
        (with_field "capabilities" (object capabilities) empty_object)))
payload (error request_id code message) = with_field "type" (text "error") (
    with_field "code" (text code)
      (with_field "message" (text message) (field_if "requestId" request_id empty_object)))

-- A task as the extension is shown it.
pub record Row : Type 0 where
  pub task_id : String
  pub title : String
  pub status : TaskStatus
  pub progress : Percent
  pub received_bytes : ℤ
  pub file_size : ℤ
  pub speed : ℤ
  pub created_at : ℕ  -- in milliseconds
  pub can_pause : Bool
  pub can_open_file : Bool
  pub can_open_folder : Bool
  pub file_ext : String
  pub pack_name : String
  pub output_file : String

abbrev pub is_finished : TaskStatus → Bool
is_finished completed = true
is_finished seeding = true
is_finished _ = false

abbrev pub without_dot : String → String
without_dot ext = if leb (len ext) 1 then "" else slice ext 1 (len ext)

module _ (join : String → String → String) (exists : String → Bool)
    (extension : String → String) where
  unfoldable pub row_of : TaskSnapshot → Row
  row_of t = record {
    task_id = t.id;
    title = t.title;
    status = t.status;
    progress = t.progress;
    received_bytes = t.received;
    file_size = t.file_size;
    speed = t.speed;
    created_at = t.created_at / 1000000;
    can_pause = is_live t.status || is_waiting t.status;
    can_open_file = is_finished t.status && exists (join t.path t.title);
    can_open_folder = not (str_eq t.path "") && exists t.path;
    file_ext = without_dot (extension t.title);
    pack_name = t.pack_id;
    output_file = join t.path t.title;
  }

  unfoldable pub rows_of : List TaskSnapshot → List Row
  unfolding row_of
  rows_of [] = []
  rows_of (t ∷ ts) = row_of t ∷ rows_of ts

abbrev pub request_id_of : Reply → String
request_id_of (pair_result request_id approved token message) = request_id
request_id_of (create_task_result request_id created task_id message) = request_id
request_id_of (task_action_result request_id done message) = request_id
request_id_of hello_ack = ""
request_id_of (error request_id code message) = request_id

abbrev pub token_of : Reply → String
token_of (pair_result request_id approved token message) = token
token_of _ = ""
