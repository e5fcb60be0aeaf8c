-- ===== src/Client/Lines.antt =====
-- The string functions of Rust's standard library that only crates/aichan/src/main.rs uses.
use ai_channel.Prelude.{ℕ, Option, none, some, List, [], ◌∷◌, ◌++◌, ◌==◌, if◌then◌else◌}
use ai_channel.Prelude.Text.{Text, text, split, strip_suffix, is_whitespace, is_empty}

-- `str::trim_start_matches` of a character
unfoldable pub trim_start_matches : ℕ → Text → Text
trim_start_matches c [] = []
trim_start_matches c (d ∷ s) = let rest = trim_start_matches c s in if d == c then rest else d ∷ s

abbrev pub or_whole : Text → Option Text → Text
or_whole s none = s
or_whole s (some t) = t

-- the parts of a text that was split at line feeds, without the carriage return before each line
-- feed and without an empty last part
unfoldable pub line_parts : List Text → List Text
line_parts [] = []
line_parts (t ∷ []) = if is_empty t then [] else t ∷ []
line_parts (t ∷ u ∷ ts) = or_whole t (strip_suffix (text "\r") t) ∷ line_parts (u ∷ ts)

-- `str::lines`
unfoldable pub lines : Text → List Text
lines s = line_parts (split b'\n' s)

-- the words of a text, with the word that has begun
unfoldable pub words_from : Text → Text → List Text
words_from word [] = if is_empty word then [] else word ∷ []
words_from word (c ∷ s) =
    let more = words_from (word ++ c ∷ []) s in
    let rest = words_from [] s in
    if is_whitespace c then (if is_empty word then rest else word ∷ rest) else more

-- `str::split_whitespace`
unfoldable pub split_whitespace : Text → List Text
split_whitespace s = words_from [] s
