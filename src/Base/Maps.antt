-- ===== src/Base/Maps.antt =====
-- A Go map with string keys, as an association list in which a key stands once.
use Prim.Native.String.{String}
use mathlib.Core.Path.{◌≡◌, refl, subst}
use mathlib.Core.Logic.{inl, inr}
use mathlib.Core.Option.{Option, none, some}
use mathlib.Core.List.{List, [], ◌∷◌}
use native.Mathlib.Omega.{arith}
use text.Mathlib.TextEquality.{eq_iff}
use saka.Base.Tests.{if◌then◌else◌, Bool-cases}
use saka.Base.Lists.{All}
use saka.Base.Text.{str_eq}

abbrev pub Dict {ℓ} : Type ℓ → Type ℓ
Dict V = List (String × V)

module _ {ℓ} {V : Type ℓ} where
  -- `m[key]`, and whether the key is there.
  unfoldable pub get : Dict V → String → Option V
  get [] key = none
  get (entry ∷ m) key = let later = get m key in if str_eq entry.0 key then some entry.1 else later

  -- `m[key] = value`
  unfoldable pub put : Dict V → String → V → Dict V
  put [] key value = (key, value) ∷ []
  put (entry ∷ m) key value =
      let later = put m key value in if str_eq entry.0 key then (key, value) ∷ m else entry ∷ later

  pub get-put :
      (m : Dict V) (key other : String) (value : V)
      → get (put m key value) other ≡ (if str_eq key other then some value else get m other)
  unfolding get put
  get-put [] key other value = refl
  get-put ((old, w) ∷ m) key other value =
      ground (arith, get-put m key other value, eq_iff old other, eq_iff old key, eq_iff key other)

-- What holds of every entry holds of the entry of each key.
pub get-All {ℓ κ} :
    {V : Type ℓ} (P : String × V → Type κ) (m : Dict V) (key : String) (value : V)
    → All P m
    → get m key ≡ some value
    → P (key, value)
unfolding get
get-All P [] key value h e = absurd (ground arith)
get-All P ((old, w) ∷ m) key value (h, hs) e = elim (Bool-cases (str_eq old key)) [
  | inl same ↦
      let name : old ≡ key = (eq_iff old key).0 same in
      let val : w ≡ value = ground arith in subst P (λ i. (name i, val i)) h
  | inr other ↦ get-All P m key value hs (ground arith)
]

pub All-put {ℓ κ} :
    {V : Type ℓ} (P : String × V → Type κ) (m : Dict V) (key : String) (value : V)
    → All P m
    → P (key, value)
    → All P (put m key value)
unfolding put
All-put P [] key value h p = (p, tt)
All-put P ((old, w) ∷ m) key value (h, hs) p = elim (Bool-cases (str_eq old key)) [
  | inl same ↦ rw same (p, hs)
  | inr other ↦ rw other (h, All-put P m key value hs p)
]
