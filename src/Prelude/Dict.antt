-- ===== src/Prelude/Dict.antt =====
-- Python's `dict` with string keys, as a list of entries in insertion order: the JSON columns of
-- the database and the table of settings.
use mathlib.Core.Path.{◌≡◌, refl}
use mathlib.Core.Bool.{Bool}
use mathlib.Core.Option.{Option, none, some}
use mathlib.Core.List.{List, [], ◌∷◌}
use Prim.Native.String.{String}
use Prim.Native.Nat.{ℕ}
use native.Mathlib.Omega.{arith}
use text.Mathlib.Text.{◌==◌ as str_eq}
use text.Mathlib.TextEquality.{eq_iff}
use palworld_manager.Prelude.Tests.{if◌then◌else◌}

-- What a JSON column or a setting can hold.
pub data Json : Type 0 where
  null : Json
  bool : Bool → Json
  int : ℕ → Json
  negative : ℕ → Json
  str : String → Json
  other : Json

abbrev pub Dict : Type 0
Dict = List (String × Json)

-- `d.get(key)`
abbrev pub get : String → Dict → Option Json
get k [] = none
get k ((j, v) ∷ d) = let rest = get k d in if str_eq j k then some v else rest

-- `d[key] = value`
abbrev pub put : String → Json → Dict → Dict
put k v [] = (k, v) ∷ []
put k v ((j, w) ∷ d) = let rest = put k v d in if str_eq j k then (k, v) ∷ d else (j, w) ∷ rest

-- `d.update(entries)`
abbrev pub update : Dict → Dict → Dict
update d [] = d
update d ((k, v) ∷ entries) = update (put k v d) entries

-- `column or {}`
abbrev pub or_empty : Option Dict → Dict
or_empty none = []
or_empty (some d) = d

pub get-put :
    (k j : String) (v : Json) (d : Dict)
    → get j (put k v d) ≡ (if str_eq k j then some v else get j d)
get-put k j v [] = refl
get-put k j v ((i, w) ∷ d) = ground (arith, eq_iff k j, eq_iff i k, eq_iff i j, get-put k j v d)
