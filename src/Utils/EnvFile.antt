-- ===== src/Utils/EnvFile.antt =====
-- hardhat/utils/envFile.ts: variables in a file of `KEY=value` lines. The file is its text, if there is
-- one; a write leaves a new text.
pub mod Lines
pub mod Trimming
pub mod RoundTrip
use rayls_sovereign_contract.Base.{
  ℕ, ◌≡◌, ◌||◌, Option, none, some, List, [], ◌∷◌, ◌++◌, length, drop, nat_beq, get_or,
  if◌then◌else◌,
}
use rayls_sovereign_contract.Base.Text.{
  Text, codes, split, join, trim, trim_start, starts_with, truthy,
}

abbrev pub get_env_entry_prefix : Text → Text
get_env_entry_prefix key = key ++ codes "="

-- A piece that ends at a line end, without the `\r` that goes with the `\n`.
unfoldable pub without_return : Text → Text
without_return [] = []
without_return (c ∷ []) = if nat_beq c 13 then [] else c ∷ []
without_return (c ∷ d ∷ s) = c ∷ without_return (d ∷ s)

-- The last piece has no line end.
unfoldable pub pieces_without_return : List Text → List Text
unfolding without_return
pieces_without_return [] = []
pieces_without_return (l ∷ []) = l ∷ []
pieces_without_return (l ∷ m ∷ ls) = without_return l ∷ pieces_without_return (m ∷ ls)

-- `if (lines[lines.length - 1] === "") lines.pop()`
unfoldable pub pop_empty : List Text → List Text
pop_empty [] = []
pop_empty ([] ∷ []) = []
pop_empty ((c ∷ s) ∷ []) = (c ∷ s) ∷ []
pop_empty (l ∷ m ∷ ls) = l ∷ pop_empty (m ∷ ls)

-- `envContent.split(/\r?\n/)`, without an empty last line
unfoldable pub lines_of : Text → List Text
unfolding split pieces_without_return pop_empty
lines_of content = pop_empty (pieces_without_return (split 10 content))

abbrev pub read_env_file_lines : Option Text → Option (List Text)
read_env_file_lines none = none
read_env_file_lines (some content) = some (lines_of content)

-- `value.length > 0 ? value : undefined`
abbrev pub non_empty : Text → Option Text
non_empty [] = none
non_empty (c ∷ s) = some (c ∷ s)

-- What a trimmed line says of the key: nothing, or its value.
unfoldable pub entry_of : Text → Text → Option (Option Text)
unfolding starts_with trim
entry_of entry_prefix line =
    let value = non_empty (trim (drop (length entry_prefix) line)) in
    if starts_with line (codes "#")
    then none
    else if starts_with line entry_prefix
    then some value
    else none

-- The first line that says something decides.
abbrev pub found_or : Option (Option Text) → Option Text → Option Text
found_or none rest = rest
found_or (some value) rest = value

unfoldable pub get_in_lines : Text → List Text → Option Text
unfolding entry_of
get_in_lines entry_prefix [] = none
get_in_lines entry_prefix (line ∷ lines) =
    found_or (if truthy (some (trim line)) then entry_of entry_prefix (trim line) else none)
      (get_in_lines entry_prefix lines)

unfoldable pub get_env_variable_from_file : Option Text → Text → Option Text
unfolding get_in_lines lines_of
get_env_variable_from_file none key = none
get_env_variable_from_file (some content) key =
    get_in_lines (get_env_entry_prefix key) (lines_of content)

-- The entry takes the place of the first line of the key, or the last place.
unfoldable pub upsert_in_lines : Text → Text → List Text → List Text
unfolding starts_with trim_start
upsert_in_lines entry_prefix entry [] = entry ∷ []
upsert_in_lines entry_prefix entry (line ∷ lines) =
    let rest = upsert_in_lines entry_prefix entry lines in
    if starts_with (trim_start line) entry_prefix then entry ∷ lines else line ∷ rest

abbrev pub render : List Text → Text
render lines = join (codes "\n") lines ++ codes "\n"

unfoldable pub upsert_env_variable : Option Text → Text → Text → Text
unfolding upsert_in_lines lines_of join
upsert_env_variable file key value = render (
    upsert_in_lines (get_env_entry_prefix key) (get_env_entry_prefix key ++ value)
      (get_or (read_env_file_lines file) []))
