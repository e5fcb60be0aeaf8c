-- ===== src/Client/Url.antt =====
-- The paths and queries that crates/aichan/src/main.rs requests: `query_escape`, `discover_path`, and
-- those of `publish_search` and `download_activity_events`.
pub mod Escape
use ai_channel.Prelude.{
  ℕ, ◌+◌, ◌-◌, ◌/◌, ◌%◌, Bool, not, ◌&&◌, ◌||◌, Option, none, some, List, [], ◌∷◌, ◌++◌, map, ltb,
  leb, ◌==◌, if◌then◌else◌, retain,
}
use ai_channel.Prelude.Text.{Text, text, as_bytes, trim, is_empty, decimal}

-- one digit of `{:02X}`
unfoldable pub upper_hex : ℕ → ℕ
upper_hex d = if ltb d 10 then b'0' + d else b'A' + (d - 10)

unfoldable pub is_unreserved : ℕ → Bool
is_unreserved b =
    (leb b'A' b && leb b b'Z')
    || (leb b'a' b && leb b b'z')
    || (leb b'0' b && leb b b'9')
    || b == b'-'
    || b == b'_'
    || b == b'.'
    || b == b'~'

-- the `match` of `query_escape`
unfoldable pub escape_byte : ℕ → Text
unfolding is_unreserved upper_hex
escape_byte b =
    if is_unreserved b
    then b ∷ []
    else if b == b' '
    then b'+' ∷ []
    else b'%' ∷ upper_hex (b / 16) ∷ upper_hex (b % 16) ∷ []

unfoldable pub escape_bytes : List ℕ → Text
escape_bytes [] = []
escape_bytes (b ∷ bytes) = escape_byte b ++ escape_bytes bytes

unfoldable pub query_escape : Text → Text
query_escape value = escape_bytes (as_bytes value)

-- `limit.clamp(low, high)`
abbrev pub clamp : ℕ → ℕ → ℕ → ℕ
clamp low high n = if ltb n low then low else if ltb high n then high else n

-- `Vec::join`
unfoldable pub join_with : Text → List Text → Text
join_with sep [] = []
join_with sep (t ∷ []) = t
join_with sep (t ∷ u ∷ ts) = t ++ (sep ++ join_with sep (u ∷ ts))

-- the tags that `discover_path` sends
unfoldable pub escaped_tags : List Text → List Text
escaped_tags tags = map query_escape (retain (λ tag. not (is_empty tag)) (map trim tags))

abbrev tags_part : List Text → Text
tags_part [] = []
tags_part (t ∷ ts) = text "&tags=" ++ join_with (text ",") (t ∷ ts)

abbrev seed_part : Option Text → Text
seed_part none = []
seed_part (some seed) =
    if is_empty (trim seed) then [] else text "&seed=" ++ query_escape (trim seed)

unfoldable pub discover_path : List Text → ℕ → Option Text → Text
discover_path tags limit seed =
    text "/v1/discover?limit="
    ++ (decimal (clamp 1 25 limit) ++ (tags_part (escaped_tags tags) ++ seed_part seed))

abbrev tag_part : Option Text → Text
tag_part none = []
tag_part (some tag) = text "&tag=" ++ query_escape tag

-- the path of `publish_search`
unfoldable pub search_path : ℕ → Option Text → Text
search_path limit tag = text "/v1/publish/search?limit=" ++ (decimal limit ++ tag_part tag)

abbrev cursor_part : Option Text → Text
cursor_part none = []
cursor_part (some cursor) = text "&cursor=" ++ query_escape cursor

-- the path of `download_activity_events`
unfoldable pub activity_path : Text → Option Text → ℕ → Text
activity_path bucket_id cursor limit =
    text "/v1/activity?bucket="
    ++ (query_escape bucket_id ++ (text "&limit=" ++ (decimal limit ++ cursor_part cursor)))
