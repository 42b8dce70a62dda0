-- ===== src/Fetch/DiskCache.antt =====
-- fetch/diskcache.go: the directory of cached pages. The file system is a map from paths to files
-- with their times of change; a call of it that fails is one that finds no file, and what a failed
-- write leaves is no part of the model. sha256, hex and the JSON of a page are parameters.
pub mod Store
use saka.Base.{
  ℕ, suc, ◌+◌, ◌-◌, Bool, true, false, not, String, ◌<>◌, Option, none, some, List, [], ◌∷◌, ltb,
  str_eq, Dict, get, put, ℤ, pos, negsuc, if◌then◌else◌,
}
use saka.Types.{Page}

pub record File : Type 0 where
  pub bytes : String
  pub mod_time : ℕ

abbrev pub Files : Type 0
Files = Dict File

-- os.Remove
unfoldable pub remove : Files → String → Files
remove [] path = []
remove (f ∷ fs) path = let rest = remove fs path in if str_eq f.0 path then rest else f ∷ rest

-- The JSON of a page: Marshal and Unmarshal.
pub record Codec : Type 0 where
  pub marshal : Page → Option String
  pub unmarshal : String → Option Page

pub record DiskCache : Type 0 where
  pub dir : String
  pub ttl : ℤ

-- A time that is longer than the time to live, which may be negative.
abbrev pub outlives : ℤ → ℕ → Bool
outlives (pos n) age = ltb n age
outlives (negsuc n) age = true

-- Whether a file has outlived the cache's time to live.
unfoldable pub is_expired : DiskCache → ℕ → File → Bool
is_expired c now f = outlives c.ttl (now - f.mod_time)

pub record Lookup : Type 0 where
  pub files : Files
  pub page : Option Page

module _ (key : String → String) (codec : Codec) where
  -- Get at time `now`; `key` is the path of a URL's file. An expired file and a file that does
  -- not decode are removed.
  unfoldable pub read : DiskCache → Files → String → ℕ → Lookup
  unfolding is_expired
  read c files raw_url now = elim (get files (key raw_url)) [
    | none ↦ record { files = files; page = none }
    | some f ↦
        if is_expired c now f
        then record { files = remove files (key raw_url); page = none }
        else elim (codec.unmarshal f.bytes) [
          | none ↦ record { files = remove files (key raw_url); page = none }
          | some page ↦ record { files = files; page = some page }
        ]
  ]

  -- Put at time `now`: written beside and renamed, so the file is there whole or not at all.
  unfoldable pub write : DiskCache → Files → String → Page → ℕ → Files
  write c files raw_url page now = elim (codec.marshal page) [
    | none ↦ files
    | some b ↦ put files (key raw_url) (record { bytes = b; mod_time = now })
  ]

-- GC: the files that are left, and the number removed. `is_json` says which paths lie under the
-- directory and end in .json.
pub record Collected : Type 0 where
  pub files : Files
  pub removed : ℕ

unfoldable pub gc : (String → Bool) → DiskCache → Files → ℕ → Collected
unfolding is_expired
gc is_json c [] now = record { files = []; removed = 0 }
gc is_json c (f ∷ fs) now =
    let rest = gc is_json c fs now in
    if is_json f.0
    then if is_expired c now f.1
      then record { files = rest.files; removed = suc rest.removed }
      else record { files = f ∷ rest.files; removed = rest.removed }
    else record { files = f ∷ rest.files; removed = rest.removed }
