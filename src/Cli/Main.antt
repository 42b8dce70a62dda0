-- ===== src/Cli/Main.antt =====
-- cli/saka/main.go: main.
use saka.Base.{ℕ, ◌⊎◌, inl, inr, String, Option, List, [], ◌∷◌, ℤ, str_eq, if◌then◌else◌}
use saka.Types.Contract.{Searcher}
use saka.Engine.{Engine}
use saka.Cli.Exit.{Fatal, Status, usage}
use saka.Cli.Files.{Disk}
use saka.Cli.Output.{Printing}
use saka.Cli.Exit.{Run}
use saka.Cli.Search.{run_search}
use saka.Cli.Page.{do_fetch}
use saka.Cli.Keys.{Ring, KeysEnd, do_keys}
use saka.Cli.Serve.{Service, do_serve}
use saka.Cli.Setup.{Setting, load_engine}

-- What the process takes from outside; `view` is an engine behind the interface Searcher.
pub record Program : Type 0 where
  pub setting : Setting
  pub printing : Printing
  pub ring : Ring
  pub parse_int : String → Option ℤ
  pub view : Engine → Searcher

-- What a command comes to.
pub data Process : Type 0 where
  prints : Run → Process
  keeps : KeysEnd → Process
  runs : Service → Process
  ends : Status → Process

module _ (p : Program) where
  -- loadEngine at event `k`, as the commands take it.
  unfoldable pub new_engine : ℕ → String → Searcher ⊎ Fatal
  unfolding load_engine
  new_engine k path = elim (load_engine p.setting path k) [ inr x ↦ inr x | inl e ↦ inl (p.view e) ]

  -- main on os.Args behind the program's name, from event `k`.
  unfoldable pub main : List String → Disk → ℕ → Process
  unfolding new_engine run_search do_fetch do_serve do_keys
  main [] d k = ends usage
  main (cmd ∷ args) d k =
      if str_eq cmd "keys"
      then keeps (do_keys p.ring p.parse_int args d k)
      else if str_eq cmd "search"
      then prints (run_search p.printing p.parse_int (new_engine k) args)
      else if str_eq cmd "fetch"
      then prints (do_fetch p.printing p.parse_int (new_engine k) args)
      else if str_eq cmd "serve"
      then runs (do_serve p.ring p.parse_int (new_engine k) args d)
      else ends usage
