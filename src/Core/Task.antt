-- ===== src/Core/Task.antt =====
-- internal/core/model.go: the data of a task. An `int64` is an integer with no bound, a time is a
-- number of nanoseconds, and a `float64` percentage is the exact fraction that the code computes.
use godown.Base.{
  ℕ, ◌≡◌, ◌&&◌, refl, Bool, true, false, str_eq, Option, none, some, [], ◌∷◌, String, Dict, arith,
  lookup, if◌then◌else◌, String_discrete, ℕ_discrete,
}
use godown.Base.Int.{ℤ, pos, ltb_ℤ}

-- `other` is any further string, which a stored task may hold.
pub data TaskStatus : Type 0 where
  waiting running seeding paused completed failed canceled : TaskStatus
  other : String → TaskStatus

pub TaskStatus-discrete : Discrete TaskStatus
TaskStatus-discrete = hlevel String_discrete

-- `percent n d` is float64(n) / float64(d) * 100, with no rounding.
pub data Percent : Type 0 where
  percent : ℤ → ℤ → Percent

abbrev pub zero_percent : Percent
zero_percent = percent (pos 0) (pos 1)

abbrev pub full_percent : Percent
full_percent = percent (pos 1) (pos 1)

-- `none` is the nil map.
abbrev pub StringMap : Type 0
StringMap = Option (Dict String)

pub record Stage : Type 0 where
  pub id : String
  pub index : ℕ
  pub kind : String
  pub status : TaskStatus
  pub progress : Percent
  pub received : ℤ
  pub speed : ℤ
  pub error : String
  pub url : String
  pub file_size : ℤ
  pub headers : StringMap
  pub proxy_url : String
  pub block_num : ℤ
  pub max_retries : ℤ
  pub supports_range : Bool
  pub state : StringMap

pub record Task : Type 0 where
  pub id : String
  pub pack_id : String
  pub title : String
  pub url : String
  pub status : TaskStatus
  pub path : String
  pub file_size : ℤ
  pub received : ℤ
  pub speed : ℤ
  pub progress : Percent
  pub detail : String
  pub created_at : ℕ
  pub error : String
  pub uses_slot : Bool
  pub stage : Stage

Percent-discrete : Discrete Percent
Percent-discrete = hlevel ℕ_discrete

Stage-discrete : Discrete Stage
Stage-discrete = hlevel (String_discrete, ℕ_discrete)

pub Task-discrete : Discrete Task
Task-discrete = hlevel (String_discrete, ℕ_discrete)

abbrev pub within : Dict String → Dict String → Bool
within [] l = true
within ((k, v) ∷ m) l = elim (lookup k l) [ none ↦ false | some w ↦ str_eq v w ] && within m l

-- `reflect.DeepEqual` on two maps, which have no order; nil is no empty map.
abbrev pub same_map : StringMap → StringMap → Bool
same_map none none = true
same_map (some m) (some l) = within m l && within l m
same_map _ _ = false

-- A task without its two maps.
abbrev pub without_maps : Task → Task
without_maps t = record t { stage = record t.stage { headers = none; state = none } }

-- `reflect.DeepEqual` on two tasks is this on their maps, and equality on the rest.
abbrev pub same_maps : Task → Task → Bool
same_maps t u = same_map t.stage.headers u.stage.headers && same_map t.stage.state u.stage.state

-- The random identifier and the time are arguments.
unfoldable pub new_task : String → ℕ → String → String → String → String → ℤ → Stage → Task
new_task id now pack_id title raw_url path file_size stage = record {
  id = id;
  pack_id = pack_id;
  title = title;
  url = raw_url;
  status = waiting;
  path = path;
  file_size = file_size;
  received = pos 0;
  speed = pos 0;
  progress = zero_percent;
  detail = "";
  created_at = now;
  error = "";
  uses_slot = true;
  stage = stage;
}

unfoldable pub new_stage : String → String → String → ℤ → ℤ → ℤ → Bool → StringMap → String → Stage
new_stage id kind raw_url file_size block_num max_retries supports_range headers proxy_url =
    record {
      id = id;
      index = 1;
      kind = kind;
      status = waiting;
      progress = zero_percent;
      received = pos 0;
      speed = pos 0;
      error = "";
      url = raw_url;
      file_size = file_size;
      headers = headers;
      proxy_url = proxy_url;
      block_num = block_num;
      max_retries = if ltb_ℤ max_retries (pos 0) then pos 0 else max_retries;
      supports_range = supports_range;
      state = none;
    }

-- A read from a map gives "" where the key is missing or the map is nil.
abbrev pub read : String → StringMap → String
read k none = ""
read k (some m) = elim (lookup k m) [ none ↦ "" | some v ↦ v ]

copy_entries : Dict String → Dict String
copy_entries [] = []
copy_entries ((k, v) ∷ m) = (k, v) ∷ copy_entries m

unfoldable pub clone_string_map : StringMap → StringMap
unfolding copy_entries
clone_string_map none = none
clone_string_map (some m) = some (copy_entries m)

unfoldable pub clone_task : Task → Task
clone_task t = record t {
  stage = record t.stage {
    headers = clone_string_map t.stage.headers;
    state = clone_string_map t.stage.state;
  };
}

copy_entries_id : (m : Dict String) → copy_entries m ≡ m
unfolding copy_entries
copy_entries_id [] = refl
copy_entries_id ((k, v) ∷ m) = ground (arith, copy_entries_id m)

pub clone_string_map_id : (m : StringMap) → clone_string_map m ≡ m
unfolding clone_string_map
clone_string_map_id none = refl
clone_string_map_id (some m) = ground (arith, copy_entries_id m)

-- A clone has the content of the task that it was made from.
pub clone_task_id : (t : Task) → clone_task t ≡ t
unfolding clone_task
clone_task_id t = rw (clone_string_map_id t.stage.headers, clone_string_map_id t.stage.state)

-- StatusRunning or StatusSeeding: the tests that the scheduler makes of a task with a worker.
abbrev pub is_live : TaskStatus → Bool
is_live running = true
is_live seeding = true
is_live _ = false

abbrev pub is_waiting : TaskStatus → Bool
is_waiting waiting = true
is_waiting _ = false

abbrev pub is_paused : TaskStatus → Bool
is_paused paused = true
is_paused _ = false

abbrev pub is_completed : TaskStatus → Bool
is_completed completed = true
is_completed _ = false

-- `""` in the fields that may be left out stands as in the source; a missing status or slot flag
-- is `none`.
pub record ProgressUpdate : Type 0 where
  pub received : ℤ
  pub file_size : ℤ
  pub speed : ℤ
  pub progress : Percent
  pub detail : String
  pub status : Option TaskStatus
  pub stage_state : Dict String
  pub uses_slot : Option Bool

pub record TaskSnapshot : Type 0 where
  pub id : String
  pub pack_id : String
  pub title : String
  pub url : String
  pub status : TaskStatus
  pub path : String
  pub output_path : String
  pub file_size : ℤ
  pub received : ℤ
  pub speed : ℤ
  pub progress : Percent
  pub detail : String
  pub error : String
  pub created_at : ℕ
