-- ===== src/Client/Hints.antt =====
-- `write_marked_block` and the entries of `.gitignore` in crates/aichan/src/main.rs.
use ai_channel.Prelude.{
  ℕ, Bool, true, false, not, ◌&&◌, Option, none, some, List, [], ◌∷◌, ◌++◌, any, if◌then◌else◌,
}
use ai_channel.Prelude.Text.{Text, text, text_eq, strip_prefix, strip_suffix, is_empty}
use ai_channel.Client.Lines.{trim_start_matches, lines}

abbrev pub begin_marker : Text
begin_marker = text "<!-- BEGIN AICHAN -->"

abbrev pub end_marker : Text
end_marker = text "<!-- END AICHAN -->"

abbrev cons_before : ℕ → Option (Text × Text) → Option (Text × Text)
cons_before c none = none
cons_before c (some (before, after)) = some (c ∷ before, after)

-- `str::find`: what stands before the first match, and what follows it
unfoldable pub find_text : Text → Text → Option (Text × Text)
find_text needle [] = elim (strip_prefix needle []) [ none ↦ none | some after ↦ some ([], after) ]
find_text needle (c ∷ s) =
    let rest = cons_before c (find_text needle s) in
    elim (strip_prefix needle (c ∷ s)) [ none ↦ rest | some after ↦ some ([], after) ]

unfoldable pub block_of : Text → Text
block_of body = begin_marker ++ (text "\n" ++ (body ++ (end_marker ++ text "\n")))

-- `ends_with('\n')`
abbrev pub ends_line : Text → Bool
ends_line s = elim (strip_suffix (text "\n") s) [ none ↦ false | some before ↦ true ]

abbrev appended : Text → Text → Text
appended block existing =
    if is_empty existing
    then block
    else if ends_line existing
    then existing ++ (text "\n" ++ block)
    else existing ++ (text "\n" ++ (text "\n" ++ block))

abbrev replaced : Text → Text → Option (Text × Text) → Option (Text × Text) → Text
replaced block existing (some opened) (some closed) =
    opened.0 ++ (block ++ trim_start_matches b'\n' closed.1)
replaced block existing _ _ = appended block existing

-- The file that `write_marked_block` writes; a file that is not there is empty.
unfoldable pub write_marked_block : Text → Text → Text
write_marked_block body existing =
    replaced (block_of body) existing (find_text begin_marker existing)
      (find_text end_marker existing)

abbrev pub ignored_entries : List Text
ignored_entries =
    text ".aichan/identity.json"
    ∷ text ".aichan/device.json"
    ∷ text ".aichan/memory.json"
    ∷ text ".aichan/backup.json"
    ∷ text ".aichan/recipient-key-cache.json"
    ∷ text ".aichan/inbox-cache/"
    ∷ text ".aichan/peer-messages/"
    ∷ text ".aichan/transcripts/"
    ∷ []

-- the body of the loop over the entries
unfoldable pub add_entry : Text → Text → Text
add_entry gitignore entry =
    let whole =
      if not (ends_line gitignore) && not (is_empty gitignore)
      then gitignore ++ text "\n"
      else gitignore in
    if any (λ line. text_eq line entry) (lines gitignore)
    then gitignore
    else whole ++ (entry ++ text "\n")

unfoldable pub add_entries : Text → List Text → Text
add_entries gitignore [] = gitignore
add_entries gitignore (entry ∷ entries) = add_entries (add_entry gitignore entry) entries
