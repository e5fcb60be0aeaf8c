-- ===== src/Client/Upgrade/Archive.antt =====
-- A safe entry of a release archive stays below the directory that it is extracted to.
use ai_channel.Prelude.{
  ◌≡◌, refl, ◌∙◌, ap, true, false, List, [], ◌∷◌, ◌++◌, any, arith, inl, inr, Bool-cases,
  if◌then◌else◌,
}
use ai_channel.Prelude.Text.{Text, text, text_eq, split, starts_with}
use ai_channel.Client.Upgrade.{is_normal, release_archive_entry_is_safe}

-- How the operating system resolves the components of a relative path from a directory, which is given by the
-- names of its own path, the last one first: `..` leaves the directory that was reached.
abbrev pub parent : List Text → List Text
parent [] = []
parent (name ∷ names) = names

unfoldable pub resolve : List Text → List Text → List Text
resolve dir [] = dir
resolve dir (part ∷ parts) =
    let stays = resolve dir parts in
    let up = resolve (parent dir) parts in
    let down = resolve (part ∷ dir) parts in
    if is_normal part then down else if text_eq (text "..") part then up else stays

-- An entry that starts with a slash is resolved from the root, every other one from the directory.
unfoldable pub resolve_entry : List Text → Text → List Text
resolve_entry dir entry =
    if starts_with (text "/") entry
    then resolve [] (split b'/' entry)
    else resolve dir (split b'/' entry)

-- The names that are reached by descending only.
descent : List Text → List Text → List Text
descent names [] = names
descent names (part ∷ parts) =
    let down = descent (part ∷ names) parts in
    let stays = descent names parts in if is_normal part then down else stays

resolve_below :
    (parts dir names : List Text)
    → any (text_eq (text "..")) parts ≡ false
    → resolve (names ++ dir) parts ≡ descent names parts ++ dir
unfolding resolve descent
resolve_below [] dir names h = refl
resolve_below (part ∷ parts) dir names h = elim (Bool-cases (is_normal part)) [
  | inl n ↦ ground (arith, n, h, resolve_below parts dir (part ∷ names))
  | inr n ↦ ground (arith, n, h, resolve_below parts dir names)
]

descent_grows :
    (parts names : List Text) (name : Text)
    → (first : Text) × (rest : List Text) × (descent (name ∷ names) parts ≡ first ∷ rest)
unfolding descent
descent_grows [] names name = (name, names, refl)
descent_grows (part ∷ parts) names name = elim (Bool-cases (is_normal part)) [
  | inl n ↦
      let (first, rest, e) = descent_grows parts (name ∷ names) part in
      (first, rest, ground (arith, n, e))
  | inr n ↦
      let (first, rest, e) = descent_grows parts names name in (first, rest, ground (arith, n, e))
]

descent_nonempty :
    (parts : List Text)
    → any is_normal parts ≡ true
    → (first : Text) × (rest : List Text) × (descent [] parts ≡ first ∷ rest)
unfolding descent
descent_nonempty [] h = absurd (ground (arith, h))
descent_nonempty (part ∷ parts) h = elim (Bool-cases (is_normal part)) [
  | inl n ↦
      let (first, rest, e) = descent_grows parts [] part in (first, rest, ground (arith, n, e))
  | inr n ↦
      let (first, rest, e) = descent_nonempty parts (ground (arith, n, h)) in
      (first, rest, ground (arith, n, e))
]

-- A safe entry names, from any directory, a path strictly below that directory, also where a path
-- that starts with a slash is resolved from the root.
pub release_archive_entry_is_safe_below :
    (entry : Text) (dir : List Text)
    → release_archive_entry_is_safe entry ≡ true
    → (first : Text) × (rest : List Text) × (resolve_entry dir entry ≡ first ∷ (rest ++ dir))
unfolding release_archive_entry_is_safe resolve_entry
release_archive_entry_is_safe_below entry dir safe =
    let parts = split b'/' entry in
    let relative : starts_with (text "/") entry ≡ false = ground (arith, safe) in
    let none_up : any (text_eq (text "..")) parts ≡ false = ground (arith, safe) in
    let (first, rest, e) = descent_nonempty parts (ground (arith, safe)) in
    (first, rest, rw relative (resolve_below parts dir [] none_up ∙ ap (λ names. names ++ dir) e))
