-- ===== src/Ui/Notifications.antt =====
-- internal/ui/notifications.go: which changes of the tasks are told to the user.
pub mod Known
pub mod Changes
use godown.Base.{
  Bool, true, false, not, ◌&&◌, ◌||◌, Option, none, some, List, [], ◌∷◌, String, str_eq, concat,
  Dict, lookup, insert, if◌then◌else◌,
}
use godown.Core.Task.{
  TaskStatus, waiting, running, seeding, paused, completed, failed, canceled, other, TaskSnapshot,
}

abbrev pub eq_status : TaskStatus → TaskStatus → Bool
eq_status waiting waiting = true
eq_status running running = true
eq_status seeding seeding = true
eq_status paused paused = true
eq_status completed completed = true
eq_status failed failed = true
eq_status canceled canceled = true
eq_status (other a) (other b) = str_eq a b
eq_status _ _ = false

pub data NotificationKind : Type 0 where
  info error : NotificationKind

pub record Notification : Type 0 where
  pub kind : NotificationKind
  pub title : String
  pub message : String

pub record Tracker : Type 0 where
  pub status_by_id : Dict TaskStatus

abbrev pub put_status : TaskSnapshot → Dict TaskStatus → Dict TaskStatus
put_status task statuses = insert task.id task.status statuses

abbrev pub put_statuses : List TaskSnapshot → Dict TaskStatus → Dict TaskStatus
put_statuses [] statuses = statuses
put_statuses (task ∷ tasks) statuses = put_statuses tasks (put_status task statuses)

unfoldable pub new_tracker : List TaskSnapshot → Tracker
new_tracker initial = record { status_by_id = put_statuses initial [] }

abbrev pub is_terminal : TaskStatus → Bool
is_terminal status = eq_status status completed || eq_status status failed

-- The case of the status; a status that is not terminal has no notification.
abbrev pub notification_for : TaskSnapshot → Notification
notification_for task =
    if eq_status task.status completed
    then record { kind = info; title = "下载完成"; message = task.title }
    else record {
      kind = error;
      title = "下载失败";
      message =
          if str_eq task.error "" then task.title else concat (concat task.title "\r\n") task.error;
    }

-- Whether a task is passed over: it is new, unchanged, or not at an end.
abbrev pub is_skipped : Option TaskStatus → TaskStatus → Bool
is_skipped none status = true
is_skipped (some previous) status = eq_status previous status || not (is_terminal status)

unfoldable pub notify_each : Dict TaskStatus → List TaskSnapshot → List Notification
notify_each previous [] = []
notify_each previous (task ∷ tasks) =
    let rest = notify_each previous tasks in
    if is_skipped (lookup task.id previous) task.status then rest else notification_for task ∷ rest

-- Update of a tracker that is there; the nil tracker tells nothing.
unfoldable pub update : List TaskSnapshot → Tracker → Tracker × List Notification
unfolding notify_each
update tasks t = (new_tracker tasks, notify_each t.status_by_id tasks)
