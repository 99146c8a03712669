-- ===== src/Pier/Artifact.antt =====
-- SaucepanServer/task-server/shared/wire/piercode.go: the artifact of a campaign, its hash, its
-- cache and its transport.
pub mod Verified
pub mod Fetch
use saucepan.Common.{
  ℕ, ◌+◌, ◌*◌, ◌-◌, ◌^◌, ◌/◌, String, Bool, true, false, ◌&&◌, ◌||◌, not, Option, none, some, List,
  [], ◌∷◌, ltb, leb, ◌==◌, nat_eq, string_eq, if◌then◌else◌, all, length, Mapping, lookup, insert,
  delete,
}
use saucepan.Common.Int.{ℤ, pos, ltb_ℤ}
use saucepan.Common.Text.{codes}
use saucepan.Pier.Actions.{Bytes}
use saucepan.Pier.Address.{Url, parse_artifact_url}
use Prim.Native.String.{◌++◌ as join}

pub record PierCodeRef : Type 0 where
  pub sha256 : String
  pub url : String
  pub size_bytes : ℤ

abbrev pub max_artifact_bytes : ℕ
max_artifact_bytes = 8 * 2 ^ 20

abbrev pub is_hex_digit : ℕ → Bool
is_hex_digit c = leb b'0' c && leb c b'9' || leb b'a' c && leb c b'f'

-- A text of another length in bytes than in code points has one that is no hex digit.
unfoldable pub is_sha256_hex : String → Bool
is_sha256_hex s = length (codes s) == 64 && all is_hex_digit (codes s)

pub data ArtifactError : Type 0 where
  nil_ref bad_sha256 bad_url bad_size empty too_big wrong_size wrong_hash : ArtifactError
  read_failed no_url fetch_failed mkdir_failed write_failed rename_failed : ArtifactError

abbrev pub or_else : Option ArtifactError → Option ArtifactError → Option ArtifactError
or_else none later = later
or_else (some e) _ = some e

abbrev pub is_zero : ℤ → Bool
is_zero n = not (ltb_ℤ n (pos 0)) && not (ltb_ℤ (pos 0) n)

abbrev pub is_size : ℕ → ℤ → Bool
is_size n size = not (ltb_ℤ (pos n) size) && not (ltb_ℤ size (pos n))

-- What the system calls of a fetch come to: whether Stat, ReadFile, MkdirAll and Rename
-- succeed, what a failing WriteFile leaves, and the answer of `get`.
pub data WriteOutcome : Type 0 where
  complete : WriteOutcome
  broken : Option Bytes → WriteOutcome

pub record Calls : Type 0 where
  pub stat_ok : Bool
  pub read_ok : Bool
  pub mkdir_ok : Bool
  pub rename_ok : Bool
  pub write : WriteOutcome
  pub get : String → Option Bytes

-- A call of `get` is recorded with its URL.
pub record Disk : Type 0 where
  pub files : Mapping Bytes
  pub fetched : List String

pub data Fetched : Type 0 where
  at_path : String → Fetched
  failed : ArtifactError → Fetched

abbrev pub tmp_path : String → String
tmp_path path = join path ".tmp"

abbrev pub put : String → Option Bytes → Mapping Bytes → Mapping Bytes
put path none files = files
put path (some b) files = insert path b files

-- The verified bytes go to a temporary file, which then takes the path's place.
unfoldable pub write_file : WriteOutcome → Bool → String → Bytes → Disk → Disk × Fetched
write_file (broken left) rename_ok path b d =
    (record d { files = put (tmp_path path) left d.files }, failed write_failed)
write_file complete false path b d =
    (record d { files = insert (tmp_path path) b d.files }, failed rename_failed)
write_file complete true path b d =
    (record d { files = insert path b (delete (tmp_path path) d.files) }, at_path path)

unfoldable pub commit : Calls → String → Bytes → Disk → Disk × Fetched
unfolding write_file
commit calls path b d =
    if not calls.mkdir_ok
    then (d, failed mkdir_failed)
    else write_file calls.write calls.rename_ok path b d

abbrev pub cached_at : Calls → String → Disk → Option Bytes
cached_at calls path d = if calls.stat_ok then lookup path d.files else none

-- net/url, by what ParseRequestURI gives, and sha256 in hexadecimal, of the standard library.
module _ (parse_request_uri : String → Option Url) (digest : Bytes → String) where
  unfoldable pub validate_ref : PierCodeRef → Option ArtifactError
  unfolding is_sha256_hex parse_artifact_url
  validate_ref r =
      if not (is_sha256_hex r.sha256)
      then some bad_sha256
      else if not (r.url == "") && not (parse_artifact_url parse_request_uri r.url)
      then some bad_url
      else if ltb_ℤ r.size_bytes (pos 0)
      then some bad_size
      else none

  -- The nil receiver first.
  unfoldable pub validate : Option PierCodeRef → Option ArtifactError
  unfolding validate_ref
  validate none = some nil_ref
  validate (some r) = validate_ref r

  unfoldable pub check_bytes : PierCodeRef → Bytes → Option ArtifactError
  check_bytes r b =
      if length b == 0
      then some empty
      else if ltb max_artifact_bytes (length b)
      then some too_big
      else if not (is_zero r.size_bytes) && not (is_size (length b) r.size_bytes)
      then some wrong_size
      else if not (digest b == r.sha256)
      then some wrong_hash
      else none

  unfoldable pub verify_artifact_bytes : PierCodeRef → Bytes → Option ArtifactError
  unfolding validate_ref check_bytes
  verify_artifact_bytes r b = or_else (validate_ref r) (check_bytes r b)

  unfoldable pub fetch_miss : Calls → PierCodeRef → String → Disk → Disk × Fetched
  fetch_miss calls r path d =
      if r.url == ""
      then (d, failed no_url)
      else let d' : Disk = record d { fetched = r.url ∷ d.fetched } in
        elim (calls.get r.url) [
          | none ↦ (d', failed fetch_failed)
          | some b ↦ elim (verify_artifact_bytes r b) [
            | some e ↦ (d', failed e)
            | none ↦ commit calls path b d'
          ]
        ]

  unfoldable pub use_cached : Calls → PierCodeRef → String → Bytes → Disk → Disk × Fetched
  use_cached calls r path b d =
      if not calls.read_ok
      then (d, failed read_failed)
      else elim (verify_artifact_bytes r b) [ some e ↦ (d, failed e) | none ↦ (d, at_path path) ]

  -- `cache_path` is filepath.Join(cacheDir, sha + ".wasm").
  unfoldable pub fetch_verified_artifact :
      (String → String) → Calls → PierCodeRef → Disk → Disk × Fetched
  fetch_verified_artifact cache_path calls r d = elim (validate_ref r) [
    | some e ↦ (d, failed e)
    | none ↦
        let path = cache_path r.sha256 in
        elim (cached_at calls path d) [
          | some b ↦ use_cached calls r path b d
          | none ↦ fetch_miss calls r path d
        ]
  ]
