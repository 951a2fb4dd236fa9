-- ===== src/Secrets/Engine/Listing.antt =====
-- Listing: ListByPath of the repository, and ListPaths, ListVersions and GetMetadata of the engine.
use knxvault.Prelude.{
  is_empty, ℕ, Bool, true, false, ◌&&◌, ◌||◌, not, Option, List, [], ◌∷◌, Text, codes, str_eq,
  Text-discrete, has_prefix, elem, ltb, ◌==◌, if◌then◌else◌,
}
use knxvault.Errors.{Result, ok, err, fail, internal, forbidden, not_found}
use knxvault.Secrets.Store.{SecretVersion, Store, get_version}
use knxvault.Secrets.Paths.{is_reserved}
use knxvault.Secrets.Engine.{KvEnv, default_max_versions, reserved_error, not_configured}
pub mod Filters

-- The order < of strings, byte by byte.
unfoldable pub text_lt : Text → Text → Bool
text_lt s [] = false
text_lt [] (d ∷ t) = true
text_lt (c ∷ s) (d ∷ t) = ltb c d || (c == d && text_lt s t)

-- The comparison given to sort.Slice.
unfoldable pub stands_before : SecretVersion → SecretVersion → Bool
unfolding text_lt
stands_before a b = if str_eq a.path b.path then ltb a.version b.version else text_lt a.path b.path

unfoldable pub sort_in : SecretVersion → List SecretVersion → List SecretVersion
sort_in x [] = x ∷ []
sort_in x (y ∷ ys) = if stands_before y x then y ∷ sort_in x ys else x ∷ y ∷ ys

-- The entries whose path has the prefix, sorted into what is listed already.
unfoldable pub list_by_path : Store → Text → List SecretVersion
unfolding sort_in stands_before
list_by_path [] prefix = []
list_by_path ((_, sv) ∷ s) prefix =
    let rest = list_by_path s prefix in if has_prefix sv.path prefix then sort_in sv rest else rest

-- The loop of ListPaths.
unfoldable pub unique_paths : List Text → List SecretVersion → List Text
unique_paths seen [] = []
unique_paths seen (sv ∷ versions) = elim (is_reserved sv.path || elem Text-discrete sv.path seen) [
  | true ↦ unique_paths seen versions
  | false ↦ sv.path ∷ unique_paths (sv.path ∷ seen) versions
]

-- ListPaths
unfoldable pub list_paths : KvEnv → Store → Text → Result (List Text)
list_paths env s prefix =
    if not env.has_repo
    then fail internal not_configured
    else if is_reserved prefix
    then fail forbidden reserved_error
    else ok (unique_paths [] (list_by_path s prefix))

-- VersionMetadata
pub record VersionMetadata : Type 0 where
  pub version : ℕ
  pub created_at : ℕ
  pub destroyed : Bool
  pub ttl_seconds : Option ℕ

-- The loop of ListVersions.
unfoldable pub metadata_of : Text → List SecretVersion → List VersionMetadata
metadata_of path [] = []
metadata_of path (sv ∷ versions) =
    let rest = metadata_of path versions in
    if str_eq sv.path path
    then record {
      version = sv.version;
      created_at = sv.created_at;
      destroyed = sv.destroyed;
      ttl_seconds = sv.ttl_seconds;
    }
      ∷ rest
    else rest

-- ListVersions
unfoldable pub list_versions : KvEnv → Store → Text → Result (List VersionMetadata)
unfolding metadata_of
list_versions env s path =
    if not env.has_repo
    then fail internal not_configured
    else if is_reserved path
    then fail forbidden reserved_error
    else let out = metadata_of path (list_by_path s path) in
      if is_empty out then fail not_found (codes "secret path not found") else ok out

-- PathMetadata
pub record PathMetadata : Type 0 where
  pub path : Text
  pub current_version : ℕ
  pub versions : List VersionMetadata
  pub max_versions : ℕ
  pub labels : List (Text × Text)

-- The loop of GetMetadata over the versions.
unfoldable pub current_of : ℕ → List VersionMetadata → ℕ
current_of current [] = current
current_of current (v ∷ versions) =
    current_of (if ltb current v.version && not v.destroyed then v.version else current) versions

unfoldable pub has_version : ℕ → List VersionMetadata → Bool
has_version version [] = false
has_version version (v ∷ versions) = v.version == version || has_version version versions

-- The labels of the target version; none where it is 0 or cannot be read.
unfoldable pub labels_of : Store → Text → ℕ → List (Text × Text)
labels_of s path target =
    if target == 0 then [] else elim (get_version s path target) [ err e ↦ [] | ok sv ↦ sv.labels ]

-- GetMetadata
unfoldable pub get_metadata : KvEnv → Store → Text → ℕ → Result PathMetadata
unfolding current_of has_version labels_of
get_metadata env s path version = elim (list_versions env s path) [
  | err e ↦ err e
  | ok versions ↦
      if ltb 0 version && not (has_version version versions)
      then fail not_found (codes "secret version not found")
      else let current = current_of 0 versions in
        ok (record {
          path = path;
          current_version = current;
          versions = versions;
          max_versions = default_max_versions;
          labels = labels_of s path (if ltb 0 version then version else current);
        })
]
