-- ===== src/Bridge/Session/Frame.antt =====
-- What a message leaves of the bridge: all but the scheduler.
use godown.Base.{◌≡◌, Option, String, arith, Option-cases, inl, inr}
use godown.Core.Scheduler.{Scheduler}
use godown.Bridge.Message.{Value, Fields, string_value, CreateTaskRequest}
use godown.Bridge.State.{System, Session, Bridge}
use godown.Bridge.Session.{
  decoded, take_action, handle_task_action, create_with, handle_create_task, serve, handle_fields,
  handle_message,
}

abbrev pub KeepsRest : Bridge → Bridge → Type 0
KeepsRest b c = c ≡ record b { scheduler = c.scheduler }

module _ (system : System) where
  take_action-KeepsRest :
      (action task_id request_id : String) (scheduler : Scheduler) (b : Bridge) (s : Session)
      → KeepsRest b (take_action system action task_id request_id scheduler b s).0
  unfolding take_action
  take_action-KeepsRest action task_id request_id scheduler b s = ground arith

  task_action-KeepsRest :
      (request_id : String) (message : Fields) (b : Bridge) (s : Session)
      → KeepsRest b (handle_task_action system request_id message b s).0
  unfolding handle_task_action
  task_action-KeepsRest request_id message b s = grind (arith, take_action-KeepsRest)

  create_with-KeepsRest :
      (request : CreateTaskRequest) (request_id : String) (b : Bridge) (s : Session)
      → KeepsRest b (create_with system request request_id b s).0
  unfolding create_with
  create_with-KeepsRest request request_id b s = ground arith

  create_task-KeepsRest :
      (request_id : String) (message : Fields) (b : Bridge) (s : Session)
      → KeepsRest b (handle_create_task system request_id message b s).0
  unfolding handle_create_task
  create_task-KeepsRest request_id message b s = grind (arith, create_with-KeepsRest)

  fields-KeepsRest :
      (kind request_id : String) (message : Fields) (b : Bridge) (s : Session)
      → KeepsRest b (handle_fields system kind request_id message b s).0
  unfolding handle_fields serve
  fields-KeepsRest kind request_id message b s = ground (
    arith,
    task_action-KeepsRest request_id message b s,
    create_task-KeepsRest request_id message b s,
  )

  pub message-KeepsRest :
      (raw : Option Value) (b : Bridge) (s : Session)
      → KeepsRest b (handle_message system raw b s).0
  unfolding handle_message
  message-KeepsRest raw b s = elim (Option-cases (decoded raw)) [
    | inl e ↦ ground arith
    | inr (message, e) ↦ ground (
      arith,
      fields-KeepsRest (string_value "type" message) (string_value "requestId" message) message b s,
    )
  ]
