-- ===== src/Utils/EnvFile/RoundTrip.antt =====
-- What is read after a write, in hardhat/utils/envFile.ts.
use rayls_sovereign_contract.Base.{
  ◌≡◌, ◌≢◌, ◌∙◌, inl, inr, refl, ap, sym, Bool, true, false, Option, none, some, List, [], ◌∷◌,
  ◌++◌, map, All, contains, contains-append, Bool-cases, nat_beq, nat_eq, get_or, if◌then◌else◌,
}
use rayls_sovereign_contract.Base.Text.{
  Text, codes, is_space, trim, trim_start, trim_end, starts_with, truthy,
}
use rayls_sovereign_contract.Utils.EnvFile.{
  get_env_entry_prefix, without_return, lines_of, read_env_file_lines, entry_of, non_empty,
  found_or, get_in_lines, get_env_variable_from_file, upsert_in_lines, render, upsert_env_variable,
}
use rayls_sovereign_contract.Utils.EnvFile.Lines.{IsLine, lines_of-render, lines_of-IsLine}
use rayls_sovereign_contract.Utils.EnvFile.Trimming.{
  trim-without_return, starts_with-trim_end, trim_end-append, starts_with-append, drop-append,
  trim_end-trimmed, append_ne_nil,
}

-- A key: not empty, it does not begin with white space or with `#`, and is of one line.
abbrev pub IsKey : Text → Type 0
IsKey [] = ⊥
IsKey (c ∷ k) = (is_space c ≡ false) × (nat_beq c b'#' ≡ false) × (contains (c ∷ k) 10 ≡ false)

-- A value: not empty, it is trimmed, and is of one line.
abbrev pub IsValue : Text → Type 0
IsValue v = (v ≢ []) × (trim v ≡ v) × (contains v 10 ≡ false)

-- A line that does not start with the prefix says nothing of the key.
entry_of-other :
    (p line : Text) → starts_with (trim_start line) p ≡ false → entry_of p (trim line) ≡ none
unfolding entry_of trim
entry_of-other p line h = elim (Bool-cases (starts_with (trim_end (trim_start line)) p)) [
  | inl c ↦ let bad : true ≡ false = sym (starts_with-trim_end (trim_start line) p c) ∙ h in cc
  | inr c ↦ rw c (either (starts_with (trim_end (trim_start line)) (codes "#")))
]
  where
    either : (b : Bool) → ◌≡◌ {A = Option (Option Text)} (if b then none else none) none
    either true = refl
    either false = refl

module _ (key value : Text) (k : IsKey key) (v : IsValue value) where
  abbrev entry_prefix : Text
  entry_prefix = get_env_entry_prefix key

  abbrev entry : Text
  entry = entry_prefix ++ value

  trim-entry :
      (s : Text)
      → IsKey s
      → trim (get_env_entry_prefix s ++ value) ≡ get_env_entry_prefix s ++ value
  unfolding trim trim_start
  trim-entry [] h = absurd h
  trim-entry (c ∷ s) (space, hash, line) =
      rw space (trim_end-append (c ∷ (s ++ codes "=")) value v.0 (trim_end-trimmed value v.1))

  not_comment :
      (s : Text) → IsKey s → starts_with (get_env_entry_prefix s ++ value) (codes "#") ≡ false
  unfolding starts_with
  not_comment [] h = absurd h
  not_comment (c ∷ s) (space, hash, line) = rw hash refl

  non_empty-value : (u : Text) → u ≢ [] → non_empty u ≡ some u
  non_empty-value [] h = absurd (h refl)
  non_empty-value (c ∷ u) h = refl

  entry_of-entry : entry_of entry_prefix entry ≡ some (some value)
  unfolding entry_of
  entry_of-entry =
      rw
        (
          not_comment key k,
          starts_with-append entry_prefix value,
          drop-append entry_prefix value,
          v.1,
        )
        (ap some (non_empty-value value v.0))

  entry-found : (rest : List Text) → get_in_lines entry_prefix (entry ∷ rest) ≡ some value
  unfolding get_in_lines
  entry-found rest = rw (trim-entry key k) (
      ap (λ o. found_or o (get_in_lines entry_prefix rest))
        (not_blank entry (append_ne_nil entry_prefix value v.0)))
    where
      not_blank :
          (t : Text)
          → t ≢ []
          → (if truthy (some t) then entry_of entry_prefix entry else none) ≡ some (some value)
      not_blank [] n = absurd (n refl)
      not_blank (c ∷ t) n = entry_of-entry

  -- The lines before the one that is replaced say nothing of the key.
  get-upsert :
      (lines : List Text)
      → get_in_lines entry_prefix (upsert_in_lines entry_prefix entry lines) ≡ some value
  unfolding get_in_lines upsert_in_lines
  get-upsert [] = entry-found []
  get-upsert (line ∷ lines) = elim (Bool-cases (starts_with (trim_start line) entry_prefix)) [
    | inl c ↦ rw c (entry-found lines)
    | inr c ↦
        rw (c, entry_of-other entry_prefix line c)
          (skipped (truthy (some (trim line))) (get-upsert lines))
  ]
    where
      skipped :
          (b : Bool) {rest : Option Text}
          → rest ≡ some value
          → found_or (if b then none else none) rest ≡ some value
      skipped true h = h
      skipped false h = h

  entry-IsLine : IsLine entry
  entry-IsLine = of_key key k
    where
      of_key : (s : Text) → IsKey s → IsLine (get_env_entry_prefix s ++ value)
      of_key [] h = absurd h
      of_key (c ∷ s) (space, hash, line) =
          contains-append (get_env_entry_prefix (c ∷ s)) value 10
          ∙ rw (contains-append (c ∷ s) (codes "=") 10, line) v.2

  upsert-IsLine :
      (lines : List Text) → All IsLine lines → All IsLine (upsert_in_lines entry_prefix entry lines)
  unfolding upsert_in_lines
  upsert-IsLine [] h = (entry-IsLine, tt)
  upsert-IsLine (line ∷ lines) h = elim (Bool-cases (starts_with (trim_start line) entry_prefix)) [
    | inl c ↦ rw c (entry-IsLine, h.1)
    | inr c ↦ rw c (h.0, upsert-IsLine lines h.1)
  ]

  -- The `\r` that a second reading drops does not matter.
  get-without_return :
      (p : Text) (lines : List Text)
      → get_in_lines p (map without_return lines) ≡ get_in_lines p lines
  unfolding get_in_lines
  get-without_return p [] = refl
  get-without_return p (line ∷ lines) =
      rw (trim-without_return line, get-without_return p lines) refl

  -- What is read of a file that was written with these lines.
  get-render :
      (lines : List Text)
      → All IsLine lines
      → get_in_lines entry_prefix lines ≡ some value
      → get_in_lines entry_prefix (lines_of (render lines)) ≡ some value
  unfolding get_in_lines
  get-render [] h e = cc
  get-render (l ∷ ls) h e =
      ap (get_in_lines entry_prefix) (lines_of-render l ls h)
      ∙ get-without_return entry_prefix (l ∷ ls)
      ∙ e

  lines_before-IsLine : (file : Option Text) → All IsLine (get_or (read_env_file_lines file) [])
  lines_before-IsLine none = tt
  lines_before-IsLine (some content) = lines_of-IsLine content

  -- Whatever the file holds, or if there is none, `getEnvVariableFromFile` finds under a key the value
  -- that `upsertEnvVariable` wrote under it, where the key is not empty, does not begin with white
  -- space or with `#` and has no `\n` in it, and the value is not empty, is trimmed, and has no `\n`
  -- in it.
  pub get_env_variable_from_file-upsert_env_variable :
      (file : Option Text)
      → get_env_variable_from_file (some (upsert_env_variable file key value)) key ≡ some value
  unfolding get_env_variable_from_file upsert_env_variable
  get_env_variable_from_file-upsert_env_variable file =
      let lines = get_or (read_env_file_lines file) [] in
      get-render (upsert_in_lines entry_prefix entry lines)
        (upsert-IsLine lines (lines_before-IsLine file)) (get-upsert lines)
