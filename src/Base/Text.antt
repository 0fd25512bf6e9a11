-- ===== src/Base/Text.antt =====
-- What the operator uses of `strings`, `path/filepath` and `strconv`.
pub mod Decimal
use Prim.Native.Char.{Char, code}
use Prim.Native.Nat.{ℕ}
use Prim.Native.String.{String, ◌++◌}
use mathlib.Core.Bool.{Bool, true, false, ◌||◌, ◌&&◌, not}
use mathlib.Core.List.{List, [], ◌∷◌, reverse}
use text.Mathlib.Text.{◌==◌, starts_with}
use cita_node_operator.Base.Tests.{if◌then◌else◌, ◌=ℕ◌}

abbrev cons_head : Char → List String → List String
cons_head c [] = String.◌∷◌ c "" ∷ []
cons_head c (s ∷ ss) = String.◌∷◌ c s ∷ ss

-- `strings.Split(s, "/")`
unfoldable pub split : String → List String
split String.[] = "" ∷ []
split (String.◌∷◌ c s) =
    let rest = split s in if code c =ℕ b'/' then "" ∷ rest else cons_head c rest

-- `strings.Split(s, "\t")[0]`
unfoldable pub before_tab : String → String
before_tab String.[] = ""
before_tab (String.◌∷◌ c s) =
    let rest = before_tab s in if code c =ℕ 9 then "" else String.◌∷◌ c rest

-- `strings.Contains(s, part)`
unfoldable pub contains : String → String → Bool
contains String.[] part = part == ""
contains (String.◌∷◌ c s) part = starts_with (String.◌∷◌ c s) part || contains s part

-- One element of the path in `filepath.Clean`, over the elements kept so far, the last one first.
clean_step : Bool → List String → String → List String
clean_step rooted [] part =
    if part == "" || part == "." || (part == ".." && rooted) then [] else part ∷ []
clean_step rooted (top ∷ kept) part =
    if part == "" || part == "."
    then top ∷ kept
    else if part == ".." && not (top == "..")
    then kept
    else part ∷ top ∷ kept

clean_parts : Bool → List String → List String → List String
clean_parts rooted kept [] = reverse kept
clean_parts rooted kept (part ∷ parts) = clean_parts rooted (clean_step rooted kept part) parts

join_parts : List String → String
join_parts [] = ""
join_parts (part ∷ []) = part
join_parts (part ∷ more ∷ parts) = part ++ "/" ++ join_parts (more ∷ parts)

clean_relative : String → String
clean_relative path = if path == "" then "." else path

-- `filepath.Clean`
unfoldable pub clean : String → String
unfolding clean_step clean_parts join_parts clean_relative
clean path =
    if starts_with path "/"
    then "/" ++ join_parts (clean_parts true [] (split path))
    else clean_relative (join_parts (clean_parts false [] (split path)))

-- `filepath.Join(a, b)`: empty elements are ignored.
unfoldable pub join : String → String → String
unfolding clean split
join a b =
    if a == ""
    then if b == "" then "" else clean b
    else if b == ""
    then clean a
    else clean (a ++ "/" ++ b)

last_name : String → List String → String
last_name name [] = name
last_name name (part ∷ parts) = last_name (if part == "" then name else part) parts

-- `filepath.Base`: the last element that is not empty.
unfoldable pub base : String → String
unfolding last_name split
base path = if path == "" then "." else last_name "/" (split path)
