-- ===== src/Client/Upgrade/Laws.antt =====
-- An upgrade installs only what was verified.
use ai_channel.Prelude.{
  ℕ, ◌≡◌, ap, sym, ◌∙◌, true, some, List, [], ◌∷◌, find, All, arith, inl, inr, Option-cases,
}
use ai_channel.Prelude.Order.{Ordering}
use ai_channel.Prelude.Text.{Text, text, text_eq, text_eq→eq}
use ai_channel.Prelude.Result.{
  ok, bind-ok, check-ok, context-ok, map_err, map_err-ok, ensure, ensure-ok, context,
}
use ai_channel.Client.Lines.{trim_start_matches}
use ai_channel.Client.Upgrade.{
  GitHubRelease, GitHubReleaseAsset, ReleaseHost, ReleaseUpgradeOutcome, release_version_order,
  release_asset_name_for, checksum_from_sha256sums, sha256_hex, release_archive_entry_is_safe,
  validate_release_archive_entries, extract_release_archive, install_release, upgrade_from_release,
}

-- the first asset of this name in the release
abbrev IsAssetOf : GitHubRelease → Text → GitHubReleaseAsset → Type 0
IsAssetOf release name asset = find (λ a. text_eq a.name name) release.assets ≡ some asset

-- What an upgrade that installed has checked: the archive and the checksums are what was downloaded
-- from the addresses of the release's own assets.
pub record IsVerified (host : ReleaseHost) (current : Text) (outcome : ReleaseUpgradeOutcome)
    : Type 0 where
  pub found : GitHubRelease
  pub asset_name : Text
  pub archive_asset : GitHubReleaseAsset
  pub checksum_asset : GitHubReleaseAsset
  pub sums_bytes : List ℕ
  pub sums : Text
  pub archive : List ℕ
  pub entries : List Text
  pub path : Text
  pub fetched : host.fetch_latest_release ≡ ok found
  pub newer : release_version_order found.tag_name current ≡ some Ordering.gt
  pub platform :
      release_asset_name_for (trim_start_matches b'v' found.tag_name) host.os host.arch
      ≡ some asset_name
  pub archive_listed : IsAssetOf found asset_name archive_asset
  pub checksums_listed : IsAssetOf found (text "SHA256SUMS") checksum_asset
  pub archive_downloaded : host.github_get_bytes archive_asset.browser_download_url ≡ ok archive
  pub sums_downloaded : host.github_get_bytes checksum_asset.browser_download_url ≡ ok sums_bytes
  pub sums_decoded : host.from_utf8 sums_bytes ≡ ok sums
  pub same_checksum :
      checksum_from_sha256sums sums asset_name ≡ some (sha256_hex host.sha256 archive)
  pub listed : host.list_archive archive ≡ ok entries
  pub safe : All (λ entry. release_archive_entry_is_safe entry ≡ true) entries
  pub extracted : host.extract_archive archive ≡ ok true
  pub installed : host.install_release_binary archive ≡ ok path
  pub reported : outcome ≡ record {
    upgraded = true;
    source = text "release";
    current_version = current;
    latest_version = trim_start_matches b'v' found.tag_name;
    asset_name = some asset_name;
    checksum = some (sha256_hex host.sha256 archive);
    installed_path = some path;
    message = text "aichan upgrade completed";
  }

all_safe :
    (entries : List Text)
    → validate_release_archive_entries entries ≡ ok tt
    → All (λ entry. release_archive_entry_is_safe entry ≡ true) entries
unfolding validate_release_archive_entries
all_safe [] h = tt
all_safe (entry ∷ entries) h =
    let (safe, rest) = check-ok (ensure (release_archive_entry_is_safe entry) _) _ tt h in
    (ensure-ok _ _ safe, all_safe entries rest)

module _ (host : ReleaseHost) (current : Text) where
  install_release-IsVerified :
      (found : GitHubRelease) (outcome : ReleaseUpgradeOutcome)
      → host.fetch_latest_release ≡ ok found
      → release_version_order found.tag_name current ≡ some Ordering.gt
      → install_release host found current (trim_start_matches b'v' found.tag_name) ≡ ok outcome
      → IsVerified host current outcome
  unfolding install_release extract_release_archive
  install_release-IsVerified found outcome f n h =
      let latest = trim_start_matches b'v' found.tag_name in
      let (asset_name, p, h1) =
        bind-ok (context (release_asset_name_for latest host.os host.arch) _) _ outcome h in
      let (archive_asset, a, h2) =
        bind-ok (context (find (λ asset. text_eq asset.name asset_name) found.assets) _) _ outcome
          h1 in
      let (checksum_asset, c, h3) =
        bind-ok (context (find (λ asset. text_eq asset.name (text "SHA256SUMS")) found.assets) _) _
          outcome h2 in
      let (archive, d, h4) =
        bind-ok (host.github_get_bytes archive_asset.browser_download_url) _ outcome h3 in
      let (sums_bytes, e, h5) =
        bind-ok (host.github_get_bytes checksum_asset.browser_download_url) _ outcome h4 in
      let (sums, u, h6) = bind-ok (map_err _ (host.from_utf8 sums_bytes)) _ outcome h5 in
      let (expected, x, h7) =
        bind-ok (context (checksum_from_sha256sums sums asset_name) _) _ outcome h6 in
      let (same, h8) =
        check-ok (ensure (text_eq (sha256_hex host.sha256 archive) expected) _) _ outcome h7 in
      let (exists, extracted, h9) = bind-ok (extract_release_archive host archive) _ outcome h8 in
      let (found_binary, h9') = check-ok (ensure exists _) _ outcome h9 in
      let (path, i, h10) = bind-ok (host.install_release_binary archive) _ outcome h9' in
      let (entries, l, rest) = bind-ok (host.list_archive archive) _ exists extracted in
      let (checked, done) = check-ok (validate_release_archive_entries entries) _ exists rest in
      record {
        found = found;
        asset_name = asset_name;
        archive_asset = archive_asset;
        checksum_asset = checksum_asset;
        sums_bytes = sums_bytes;
        sums = sums;
        archive = archive;
        entries = entries;
        path = path;
        fetched = f;
        newer = n;
        platform = context-ok _ _ asset_name p;
        archive_listed = context-ok _ _ archive_asset a;
        checksums_listed = context-ok _ _ checksum_asset c;
        archive_downloaded = d;
        sums_downloaded = e;
        sums_decoded = map_err-ok _ (host.from_utf8 sums_bytes) sums u;
        same_checksum =
            context-ok _ _ expected x
            ∙ ap (λ t. some t)
                (sym (text_eq→eq (sha256_hex host.sha256 archive) expected (ensure-ok _ _ same)));
        listed = l;
        safe = all_safe entries checked;
        extracted = done ∙ ap (λ b. ok b) (ensure-ok _ _ found_binary);
        installed = i;
        reported = ground (arith, h10);
      }

  -- Where an upgrade from a release reports that it has upgraded, the release is newer than the
  -- running program; the archive that was installed is the download of the release's asset for this
  -- platform, and has the checksum that the download of the release's SHA256SUMS asset gives for it;
  -- every entry of it is a safe path; and the report names that asset, its checksum and the path of
  -- the installed binary.
  pub upgrade_from_release-IsVerified :
      (outcome : ReleaseUpgradeOutcome)
      → upgrade_from_release host current ≡ ok outcome
      → outcome.upgraded ≡ true
      → IsVerified host current outcome
  unfolding upgrade_from_release
  upgrade_from_release-IsVerified outcome h upgraded =
      let (found, f, rest) = bind-ok host.fetch_latest_release _ outcome h in
      elim (Option-cases (release_version_order found.tag_name current)) [
        | inl n ↦ absurd (ground (arith, n, rest, upgraded))
        | inr (Ordering.lt, n) ↦ absurd (ground (arith, n, rest, upgraded))
        | inr (Ordering.eq, n) ↦ absurd (ground (arith, n, rest, upgraded))
        | inr (Ordering.gt, n) ↦
            install_release-IsVerified found outcome f n (ground (arith, n, rest))
      ]
