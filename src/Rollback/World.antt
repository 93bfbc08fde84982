-- ===== src/Rollback/World.antt =====
-- The files and the environment that rann_agent/core/rollback_engine.py changes, and what it asks of the
-- system.
use rann_agent.Prelude.{ℕ, String, Bool, Option, none, some}
use rann_agent.Exec.{Exec, raise, modify}
use rann_agent.Dict.{Dict, insert, delete}

-- The content of a file, as `read_text` finds it.
pub data FileState : Type 0 where
  text : String → FileState
  unreadable : FileState

pub record World : Type 0 where
  pub files : Dict FileState
  pub env : Dict String

-- How a command ends: `subprocess.run` returns, or raises (a timeout, for one).
pub data Command : Type 0 where
  returned : (code : ℕ) (stderr : String) → Command
  raised : String → Command

-- What the engine relies on of the system: `Path.resolve`, `hash`, `subprocess.run` in a shell and of
-- `git checkout`, `shutil.rmtree` and whether there is a directory, and the exceptions of writing and of
-- removing a file, as their texts. `command_failed` and the others are the texts of errors.
pub record System : Type 0 where
  pub resolve : String → String
  pub hash : String → String
  pub shell : String → World → Command × World
  pub git_checkout : String → World → Command × World
  pub directory_exists : String → World → Bool
  pub rmtree : String → World → Option String × World
  pub write_error : String → World → Option String
  pub unlink_error : String → World → Option String
  pub command_failed : String → String
  pub git_failed : String → String
  pub steps_failed : ℕ → String
  pub steps_not_executed : ℕ → String
  pub bad_value : String

abbrev fail_or : {A : Type 0} → Option String → Exec World String A → Exec World String A
fail_or none act = act
fail_or (some e) act = raise e

module _ (sys : System) where
  -- `path.parent.mkdir(...)` and `path.write_text(content)`
  unfoldable pub write_text : String → String → Exec World String (Unit {0})
  unfolding insert
  write_text path content w =
      fail_or (sys.write_error path w)
        (modify (λ v. record v { files = insert path (text content) v.files })) w

  -- `path.unlink()`
  unfoldable pub unlink : String → Exec World String (Unit {0})
  unfolding delete
  unlink path w =
      fail_or (sys.unlink_error path w) (modify (λ v. record v { files = delete path v.files })) w
