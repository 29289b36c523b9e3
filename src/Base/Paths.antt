-- ===== src/Base/Paths.antt =====
-- `std::path` on Unix: a path is the list of its components, without the empty ones and `.`.
use Prim.Native.Char.{code}
use Prim.Native.String.{String}
use mathlib.Core.Bool.{Bool, true, false}
use mathlib.Core.List.{List, [], ◌∷◌, ◌++◌}
use text.Mathlib.Text.{◌==◌ as str_eq}
use igrisv.Base.Tests.{◌==◌, if◌then◌else◌}
use igrisv.Base.Lists.{any}

-- An absolute path, by the components after its root.
abbrev pub PathBuf : Type 0
PathBuf = List String

abbrev pub is_absolute : String → Bool
is_absolute String.[] = false
is_absolute (String.◌∷◌ c s) = code c == 47

abbrev and_part : String → List String → List String
and_part String.[] ps = ps
and_part (String.◌∷◌ c s) ps = if str_eq (String.◌∷◌ c s) "." then ps else String.◌∷◌ c s ∷ ps

abbrev parts_from : String → String × List String
parts_from String.[] = ("", [])
parts_from (String.◌∷◌ c s) =
    let rest = parts_from s in
    if code c == 47 then ("", and_part rest.0 rest.1) else (String.◌∷◌ c rest.0, rest.1)

-- `components`, of a relative path.
unfoldable pub parts : String → List String
parts s = let cut = parts_from s in and_part cut.0 cut.1

-- Whether a component is `Component::ParentDir`. There is no `Component::Prefix` on Unix.
abbrev pub is_parent_dir : String → Bool
is_parent_dir c = str_eq c ".."

abbrev pub climbs : String → Bool
climbs rel = any is_parent_dir (parts rel)

-- `starts_with`, component by component.
abbrev pub path_starts_with : PathBuf → PathBuf → Bool
path_starts_with p [] = true
path_starts_with [] (r ∷ rs) = false
path_starts_with (c ∷ p) (r ∷ rs) = if str_eq c r then path_starts_with p rs else false

-- `join` on Unix: an absolute path takes the place of the first.
abbrev pub join_path : PathBuf → String → PathBuf
join_path p s = if is_absolute s then parts s else p ++ parts s
