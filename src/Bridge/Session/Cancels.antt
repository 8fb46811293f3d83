-- ===== src/Bridge/Session/Cancels.antt =====
-- Which messages take a task from the scheduler.
use godown.Base.{
  ◌≡◌, ◌&&◌, not, if◌then◌else◌, sym, subst, Bool, true, false, Option, none, some, String, str_eq,
  arith, has, Bool-cases, Option-cases, inl, inr, eq_iff, str_eq→eq,
}
use godown.Core.Output.Moves.{Result-cases}
use godown.Core.Scheduler.{Scheduler}
use godown.Core.Scheduler.Keeping.{KeepsTask, add-has, has-toggle_pause, has-remove, redownload-has}
use godown.Bridge.Message.{
  Value, Fields, object_of, value_at, string_value, CreateTaskRequest, create_request,
}
use godown.Bridge.State.{System, Session, Bridge}
use godown.Bridge.Session.{
  decoded, take_action, handle_task_action, create_with, handle_create_task, serve, handle_fields,
  handle_message,
}

-- The scheduler of the bridge has the task.
abbrev pub is_there : String → Option Scheduler → Bool
is_there id none = false
is_there id (some scheduler) = has id scheduler.tasks

-- A request, under an id of its own, to cancel the task.
abbrev pub asks_to_cancel : String → Fields → Bool
asks_to_cancel id message =
    str_eq (string_value "type" message) "task_action"
    && (str_eq (string_value "action" message) "cancel"
        && (str_eq (string_value "taskId" message) id
            && not (str_eq (string_value "requestId" message) "")))

module _ (system : System) (id : String) (waits : KeepsTask id system.wait_gap)
    (keeps : KeepsTask id system.files_gap) where
  cancels_there :
      (action task_id request_id : String) (scheduler : Scheduler) (b : Bridge) (s : Session)
      → "cancel" ≡ action
      → has id scheduler.tasks ≡ true
      → is_there id (take_action system action task_id request_id scheduler b s).0.scheduler
        ≡ not (str_eq task_id id)
  unfolding take_action
  cancels_there action task_id request_id scheduler b s same there =
      subst
        (λ a.
          is_there id (take_action system a task_id request_id scheduler b s).0.scheduler
          ≡ not (str_eq task_id id))
        same (ground (arith, has-remove system.host id task_id scheduler))

  spares_there :
      (action task_id request_id : String) (scheduler : Scheduler) (b : Bridge) (s : Session)
      → str_eq action "cancel" ≡ false
      → b.scheduler ≡ some scheduler
      → has id scheduler.tasks ≡ true
      → is_there id (take_action system action task_id request_id scheduler b s).0.scheduler ≡ true
  unfolding take_action
  spares_there action task_id request_id scheduler b s other e there = ground (
    arith,
    has-toggle_pause system.host id task_id scheduler,
    redownload-has system.host id task_id system.wait_gap system.files_gap scheduler waits keeps
        there,
  )

  take_action_there :
      (action task_id request_id : String) (scheduler : Scheduler) (b : Bridge) (s : Session)
      → b.scheduler ≡ some scheduler
      → has id scheduler.tasks ≡ true
      → is_there id (take_action system action task_id request_id scheduler b s).0.scheduler
        ≡ not (str_eq action "cancel" && str_eq task_id id)
  take_action_there action task_id request_id scheduler b s e there =
      elim (Bool-cases (str_eq action "cancel")) [
        | inl same ↦ ground (
          arith,
          cancels_there action task_id request_id scheduler b s
              (sym (str_eq→eq action "cancel" same)) there,
          same,
        )
        | inr other ↦
            ground (arith, spares_there action task_id request_id scheduler b s other e there)
      ]

  task_action_there :
      (request_id : String) (message : Fields) (b : Bridge) (s : Session)
      → str_eq id "" ≡ false
      → is_there id b.scheduler ≡ true
      → is_there id (handle_task_action system request_id message b s).0.scheduler
        ≡ not (
            str_eq (string_value "action" message) "cancel"
            && (str_eq (string_value "taskId" message) id && not (str_eq request_id "")))
  unfolding handle_task_action
  task_action_there request_id message b s named there = elim (Option-cases b.scheduler) [
    | inl e ↦ ground arith
    | inr (scheduler, e) ↦ ground (
      arith,
      eq_iff (string_value "taskId" message) "",
      eq_iff (string_value "taskId" message) id,
      take_action_there (string_value "action" message) (string_value "taskId" message) request_id
          scheduler b s e,
    )
  ]

  create_with_there :
      (request : CreateTaskRequest) (request_id : String) (b : Bridge) (s : Session)
      → is_there id b.scheduler ≡ true
      → is_there id (create_with system request request_id b s).0.scheduler ≡ true
  unfolding create_with
  create_with_there request request_id b s there = elim (Option-cases b.create_task) [
    | inl e ↦ ground arith
    | inr (create, e) ↦ elim (Option-cases b.scheduler) [
      | inl none_there ↦ ground arith
      | inr (scheduler, here) ↦ elim (Result-cases (create request)) [
        | inr (x, failed) ↦ ground arith
        | inl (t, made) ↦ ground (arith, add-has system.host id t scheduler)
      ]
    ]
  ]

  create_task_there :
      (request_id : String) (message : Fields) (b : Bridge) (s : Session)
      → is_there id b.scheduler ≡ true
      → is_there id (handle_create_task system request_id message b s).0.scheduler ≡ true
  unfolding handle_create_task
  create_task_there request_id message b s there =
      elim (Option-cases (object_of (value_at "payload" message))) [
        | inl e ↦ ground arith
        | inr (payload, e) ↦
            ground (arith, create_with_there (create_request message payload) request_id b s there)
      ]

  acts_there :
      (kind request_id : String) (message : Fields) (b : Bridge) (s : Session)
      → "task_action" ≡ kind
      → is_there id (handle_fields system kind request_id message b s).0.scheduler
        ≡ is_there id (
            if s.authenticated
            then (handle_task_action system request_id message b s).0.scheduler
            else b.scheduler)
  unfolding handle_fields serve
  acts_there kind request_id message b s same =
      subst
        (λ k.
          is_there id (handle_fields system k request_id message b s).0.scheduler
          ≡ is_there id (
              if s.authenticated
              then (handle_task_action system request_id message b s).0.scheduler
              else b.scheduler))
        same (ground arith)

  others_there :
      (kind request_id : String) (message : Fields) (b : Bridge) (s : Session)
      → str_eq kind "task_action" ≡ false
      → is_there id b.scheduler ≡ true
      → is_there id (handle_fields system kind request_id message b s).0.scheduler ≡ true
  unfolding handle_fields serve
  others_there kind request_id message b s other there =
      ground (arith, create_task_there request_id message b s there)

  fields_there :
      (kind request_id : String) (message : Fields) (b : Bridge) (s : Session)
      → str_eq id "" ≡ false
      → is_there id b.scheduler ≡ true
      → is_there id (handle_fields system kind request_id message b s).0.scheduler
        ≡ not (
            s.authenticated
            && (str_eq kind "task_action"
                && (str_eq (string_value "action" message) "cancel"
                    && (str_eq (string_value "taskId" message) id && not (str_eq request_id "")))))
  fields_there kind request_id message b s named there =
      elim (Bool-cases (str_eq kind "task_action")) [
        | inl same ↦ ground (
          arith,
          same,
          acts_there kind request_id message b s (sym (str_eq→eq kind "task_action" same)),
          task_action_there request_id message b s named there,
        )
        | inr other ↦ ground (arith, others_there kind request_id message b s other there)
      ]

  -- Of a task that the scheduler has: it is gone after a message exactly where the client is
  -- authenticated and the message is a task_action with the action "cancel", the id of the task,
  -- and an id of the request. No other message takes it away, whatever it says and to whatever
  -- task, if what the rest of the program does while Redownload waits and removes files keeps the
  -- task, and its id is not empty.
  pub message_cancels_exactly :
      (message : Fields) (raw : Option Value) (b : Bridge) (s : Session)
      → decoded raw ≡ some message
      → str_eq id "" ≡ false
      → is_there id b.scheduler ≡ true
      → is_there id (handle_message system raw b s).0.scheduler
        ≡ not (s.authenticated && asks_to_cancel id message)
  unfolding handle_message
  message_cancels_exactly message raw b s e named there =
      rw (e, handle_message)
        (fields_there (string_value "type" message) (string_value "requestId" message) message b s
          named there)
