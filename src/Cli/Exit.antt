-- ===== src/Cli/Exit.antt =====
-- cli/saka/main.go: how a command ends. A message of fatal is kept as the values that it prints.
use saka.Base.{ℕ, String, Option, none, some}
use saka.Types.{Error}
use saka.Config.Load.{LoadError}
use saka.Engine.{NewError}
use saka.Cli.Flags.{FlagError}

-- What fatal is called with.
pub data Fatal : Type 0 where
  no_query : Fatal
  not_one_url : Fatal
  load_failed : LoadError → Fatal
  new_failed : NewError → Fatal
  failed : Error → Fatal
  unreadable : String → Fatal
  bad_base64 : Fatal
  key_size : ℕ → Fatal
  not_generated : Fatal
  unwritable : String → Fatal
  unsigned : Fatal
  interrupted : Fatal

-- The end of the process: main returns, a FlagSet with ExitOnError has shown its help or
-- refused a flag, usage and os.Exit(1), fatal, a panic; or the process goes on for good.
pub data Status : Type 0 where
  returned : Status
  shown_help : Status
  flag_error : FlagError → Status
  usage : Status
  fatal : Fatal → Status
  panicked : Status
  hangs : Status

-- The exit code, where there is one.
unfoldable pub exit_code : Status → Option ℕ
exit_code returned = some 0
exit_code shown_help = some 0
exit_code (flag_error x) = some 2
exit_code usage = some 1
exit_code (fatal x) = some 1
exit_code panicked = some 2
exit_code hangs = none

pub record Run : Type 0 where
  pub stdout : String
  pub status : Status

abbrev pub exits : Status → Run
exits status = record { stdout = ""; status = status }
