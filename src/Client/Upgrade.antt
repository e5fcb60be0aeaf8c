-- ===== src/Client/Upgrade.antt =====
-- `aichan upgrade` of crates/aichan/src/main.rs. The answers of GitHub, the digest, `tar` and the
-- writes of the new binary are arguments.
pub mod Archive
pub mod Laws
use Prim.Native.Nat.{compare}
use ai_channel.Prelude.{
  ℕ, ◌-◌, ◌/◌, ◌%◌, Bool, true, false, not, ◌&&◌, Option, none, some, List, [], ◌∷◌, ◌++◌, ◌==◌,
  leb, all, any, find, drop, length, if◌then◌else◌, ◌+◌,
}
use ai_channel.Prelude.Order.{Ordering, then_with}
use ai_channel.Prelude.Text.{
  Text, text, text_eq, trim, is_empty, split, parse_usize, to_ascii_lowercase, byte_len,
  starts_with,
}
use ai_channel.Prelude.Result.{Result, ok, ◌>>=◌, ◌>>◌, context, ensure, map_err}
use ai_channel.Core.Device.{is_ascii_hexdigit}
use ai_channel.Client.Lines.{trim_start_matches, lines, split_whitespace}
use ai_channel.Client.Url.{join_with}

abbrev pub project_repo_url : Text
project_repo_url = text "https://github.com/aftershower/AI_channel"

abbrev pub project_repo_slug : Text
project_repo_slug = text "aftershower/AI_channel"

pub data UpgradeSource : Type 0 where
  auto : UpgradeSource
  release : UpgradeSource
  cargo : UpgradeSource

pub record UpgradeArgs : Type 0 where
  pub git : Text
  pub source : UpgradeSource
  pub branch : Option Text
  pub rev : Option Text
  pub dry_run : Bool
  pub verbose : Bool

abbrev is_none : Option Text → Bool
is_none none = true
is_none (some t) = false

abbrev tries_release : UpgradeSource → Bool
tries_release auto = true
tries_release release = true
tries_release cargo = false

unfoldable pub should_try_release_upgrade : UpgradeArgs → Bool
should_try_release_upgrade args =
    tries_release args.source
    && text_eq args.git project_repo_url
    && is_none args.branch
    && is_none args.rev

abbrev name_of : UpgradeSource → Bool → Text
name_of auto tries = if tries then text "release_then_cargo" else text "cargo"
name_of release tries = text "release"
name_of cargo tries = text "cargo"

unfoldable pub upgrade_strategy_name : UpgradeArgs → Text
upgrade_strategy_name args = name_of args.source (should_try_release_upgrade args)

abbrev flag : Text → Option Text → List Text
flag name none = []
flag name (some value) = name ∷ value ∷ []

unfoldable pub upgrade_command_parts : UpgradeArgs → List Text
upgrade_command_parts args =
    text "cargo"
    ∷ text "install"
    ∷ text "--git"
    ∷ args.git
    ∷ (flag (text "--branch") args.branch
        ++ (flag (text "--rev") args.rev
            ++ (text "aichan" ∷ text "--locked" ∷ text "--force" ∷ [])))

unfoldable pub latest_release_api_url : Text
latest_release_api_url =
    text "https://api.github.com/repos/" ++ (project_repo_slug ++ text "/releases/latest")

abbrev target_of : Text → Text → Option Text
target_of os arch =
    if text_eq os (text "macos") && text_eq arch (text "aarch64")
    then some (text "aarch64-apple-darwin")
    else if text_eq os (text "macos") && text_eq arch (text "x86_64")
    then some (text "x86_64-apple-darwin")
    else if text_eq os (text "linux") && text_eq arch (text "x86_64")
    then some (text "x86_64-unknown-linux-gnu")
    else none

abbrev asset_of : Text → Option Text → Option Text
asset_of version none = none
asset_of version (some target) =
    some (text "aichan-" ++ (version ++ (text "-" ++ (target ++ text ".tar.gz"))))

unfoldable pub release_asset_name_for : Text → Text → Text → Option Text
release_asset_name_for version os arch = asset_of version (target_of os arch)

pub record Version : Type 0 where
  pub major : ℕ
  pub minor : ℕ
  pub patch : ℕ

abbrev version_of : Option ℕ → Option ℕ → Option ℕ → Option Version
version_of (some major) (some minor) (some patch) =
    some (record { major = major; minor = minor; patch = patch })
version_of _ _ _ = none

abbrev version_parts : List Text → Option Version
version_parts (major ∷ minor ∷ patch ∷ []) =
    version_of (parse_usize major) (parse_usize minor) (parse_usize patch)
version_parts _ = none

unfoldable pub parse_release_version : Text → Option Version
parse_release_version version = version_parts (split b'.' (trim_start_matches b'v' (trim version)))

-- the order of tuples
unfoldable pub compare_versions : Version → Version → Ordering
compare_versions v w =
    then_with (compare v.major w.major)
      (then_with (compare v.minor w.minor) (compare v.patch w.patch))

abbrev both_versions : Option Version → Option Version → Option Ordering
both_versions (some v) (some w) = some (compare_versions v w)
both_versions _ _ = none

unfoldable pub release_version_order : Text → Text → Option Ordering
unfolding compare_versions
release_version_order release_tag current_version =
    both_versions (parse_release_version release_tag) (parse_release_version current_version)

-- the closure of `checksum_from_sha256sums`
abbrev checksum_of_words : Text → List Text → Option Text
checksum_of_words asset_name (checksum ∷ name ∷ rest) =
    if text_eq (trim_start_matches b'*' name) asset_name
      && byte_len checksum == 64
      && all is_ascii_hexdigit checksum
    then some (to_ascii_lowercase checksum)
    else none
checksum_of_words asset_name _ = none

-- `find_map` over the lines
unfoldable pub checksum_in : Text → List Text → Option Text
checksum_in asset_name [] = none
checksum_in asset_name (line ∷ more) = elim (checksum_of_words asset_name (split_whitespace line)) [
  | some checksum ↦ some checksum
  | none ↦ checksum_in asset_name more
]

unfoldable pub checksum_from_sha256sums : Text → Text → Option Text
checksum_from_sha256sums sums asset_name = checksum_in asset_name (lines sums)

-- one digit of `{:02x}`
abbrev lower_hex : ℕ → ℕ
lower_hex d = if leb d 9 then b'0' + d else b'a' + (d - 10)

abbrev hex_digits : List ℕ → Text
hex_digits [] = []
hex_digits (b ∷ bytes) = lower_hex (b / 16) ∷ lower_hex (b % 16) ∷ hex_digits bytes

-- of the SHA-256 digest of the bytes
unfoldable pub sha256_hex : (List ℕ → List ℕ) → List ℕ → Text
sha256_hex sha256 bytes = hex_digits (sha256 bytes)

-- the parts of `Path::components` that matter: the empty ones and `.` in the middle are no components
abbrev pub is_normal : Text → Bool
is_normal part =
    not (is_empty part) && not (text_eq part (text ".")) && not (text_eq part (text ".."))

-- on Unix, where a path has no prefix
unfoldable pub release_archive_entry_is_safe : Text → Bool
release_archive_entry_is_safe entry =
    not (is_empty (trim entry))
    && not (starts_with (text "/") entry)
    && not (any (text_eq (text "..")) (split b'/' entry))
    && any is_normal (split b'/' entry)

-- `validate_release_archive_entries`, on what `tar` lists
unfoldable pub validate_release_archive_entries : List Text → Result (Unit {0})
validate_release_archive_entries [] = ok tt
validate_release_archive_entries (entry ∷ entries) = do
  ensure (release_archive_entry_is_safe entry)
      (text "release archive contains unsafe path " ++ entry)
  validate_release_archive_entries entries

-- `text_tail`, on the text of the output
unfoldable pub text_tail : Text → ℕ → Text
text_tail output max_lines =
    join_with (text "\n") (drop (length (lines output) - max_lines) (lines output))

pub record GitHubReleaseAsset : Type 0 where
  pub name : Text
  pub browser_download_url : Text

pub record GitHubRelease : Type 0 where
  pub tag_name : Text
  pub assets : List GitHubReleaseAsset

pub record ReleaseUpgradeOutcome : Type 0 where
  pub upgraded : Bool
  pub source : Text
  pub current_version : Text
  pub latest_version : Text
  pub asset_name : Option Text
  pub checksum : Option Text
  pub installed_path : Option Text
  pub message : Text

-- What the upgrade calls: GitHub, the digest, and what happens with the archive after it is verified.
pub record ReleaseHost : Type 0 where
  pub fetch_latest_release : Result GitHubRelease
  pub github_get_bytes : Text → Result (List ℕ)
  pub from_utf8 : List ℕ → Result Text
  pub sha256 : List ℕ → List ℕ
  -- the archive in a new temporary directory, and the lines of `tar -tzf` on it
  pub list_archive : List ℕ → Result (List Text)
  -- `tar -xzf`, and whether the directory then holds an `aichan`
  pub extract_archive : List ℕ → Result Bool
  -- the path of that `aichan`
  pub extracted_binary : Text
  -- the path of the binary that was replaced
  pub install_release_binary : List ℕ → Result Text
  pub os : Text
  pub arch : Text

module _ (host : ReleaseHost) where
  -- `extract_release_archive`
  unfoldable pub extract_release_archive : List ℕ → Result Bool
  extract_release_archive archive = do
    entries ← host.list_archive archive
    validate_release_archive_entries entries
    host.extract_archive archive

  abbrev up_to_date : Text → Text → ReleaseUpgradeOutcome
  up_to_date current latest = record {
    upgraded = false;
    source = text "release";
    current_version = current;
    latest_version = latest;
    asset_name = none;
    checksum = none;
    installed_path = none;
    message = text "aichan is already up to date";
  }

  -- the download, the checks and the installation of a newer release
  unfoldable pub install_release : GitHubRelease → Text → Text → Result ReleaseUpgradeOutcome
  unfolding extract_release_archive
  install_release found current latest = do
    asset_name ←
        context (release_asset_name_for latest host.os host.arch)
          (text "release upgrade is not supported on this platform yet")
    archive_asset ←
        context (find (λ asset. text_eq asset.name asset_name) found.assets)
          (text "latest release does not include " ++ asset_name)
    checksum_asset ←
        context (find (λ asset. text_eq asset.name (text "SHA256SUMS")) found.assets)
          (text "latest release does not include SHA256SUMS")
    archive ← host.github_get_bytes archive_asset.browser_download_url
    sums_bytes ← host.github_get_bytes checksum_asset.browser_download_url
    sums ← map_err (λ e. text "release SHA256SUMS is not UTF-8") (host.from_utf8 sums_bytes)
    expected ←
        context (checksum_from_sha256sums sums asset_name)
          (text "SHA256SUMS does not contain " ++ asset_name)
    ensure (text_eq (sha256_hex host.sha256 archive) expected) (
        text "checksum mismatch for "
        ++ (asset_name
            ++ (text ": expected "
                ++ (expected ++ (text ", got " ++ sha256_hex host.sha256 archive)))))
    exists ← extract_release_archive archive
    ensure exists
        (text "release archive did not contain an aichan binary at " ++ host.extracted_binary)
    installed ← host.install_release_binary archive
    ok (record {
      upgraded = true;
      source = text "release";
      current_version = current;
      latest_version = latest;
      asset_name = some asset_name;
      checksum = some (sha256_hex host.sha256 archive);
      installed_path = some installed;
      message = text "aichan upgrade completed";
    })

  abbrev is_newer : Option Ordering → Bool
  is_newer (some Ordering.gt) = true
  is_newer _ = false

  -- with the version of the running program
  unfoldable pub upgrade_from_release : Text → Result ReleaseUpgradeOutcome
  unfolding install_release
  upgrade_from_release current = host.fetch_latest_release >>= λ found.
      let latest = trim_start_matches b'v' found.tag_name in
      if is_newer (release_version_order found.tag_name current)
      then install_release found current latest
      else ok (up_to_date current latest)
