-- ===== src/Cli/Files.antt =====
-- The files that cli/saka reads and writes: os.ReadFile and os.WriteFile. A write that fails
-- leaves the files as they are.
use saka.Base.{Bool, String, Option, none, some, Dict, get, put, if◌then◌else◌}

-- The files with their contents, and the paths that can be read and written.
pub record Disk : Type 0 where
  pub files : Dict String
  pub may_read : String → Bool
  pub may_write : String → Bool

-- `none` is an error.
unfoldable pub read_file : Disk → String → Option String
read_file d path = if d.may_read path then get d.files path else none

unfoldable pub write_file : Disk → String → String → Option Disk
write_file d path content =
    if d.may_write path then some (record d { files = put d.files path content }) else none

-- A write whose error is ignored.
unfoldable pub write_anyway : Disk → String → String → Disk
unfolding write_file
write_anyway d path content = elim (write_file d path content) [ none ↦ d | some d' ↦ d' ]
