-- ===== src/Plugins/Command.antt =====
-- internal/pluginhost/manager.go: the command that a plugin is started with.
use godown.Base.{Bool, ◌||◌, List, [], ◌∷◌, ◌++◌, String, Dict, concat, if◌then◌else◌}
use godown.Plugins.Manifest.{Manifest}

-- The functions of paths: `has_separator` says that one of the two separators is in a text.
pub record PathTests : Type 0 where
  pub is_abs : String → Bool
  pub join : String → String → String
  pub exists : String → Bool  -- os.Stat gives no error
  pub has_separator : String → Bool

pub record Command : Type 0 where
  pub executable : String
  pub args : List String
  pub dir : String
  pub env : List String

-- A name that stands alone and is no file of the plugin is looked up in the PATH.
unfoldable pub executable_path : PathTests → String → String → String
executable_path paths dir executable =
    let candidate = paths.join dir executable in
    if paths.is_abs executable
    then executable
    else if paths.exists candidate || paths.has_separator executable
    then candidate
    else executable

unfoldable pub env_entries : Dict String → List String
env_entries [] = []
env_entries ((key, value) ∷ env) = concat key (concat "=" value) ∷ env_entries env

-- `environ` is os.Environ.
unfoldable pub command_of : PathTests → List String → Manifest → String → Command
command_of paths environ m dir = record {
  executable = executable_path paths dir m.executable;
  args = m.args ++ "--stdio" ∷ [];
  dir = dir;
  env = environ ++ env_entries m.env;
}
