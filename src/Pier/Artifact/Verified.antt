-- ===== src/Pier/Artifact/Verified.antt =====
-- SaucepanServer/task-server/shared/wire/piercode.go: the bytes that pass the checks of an
-- artifact, and the file that they are written to.
use Prim.Native.String.{len}
use text.Mathlib.TextPositions.{len-append}
use saucepan.Common.{
  ◌≤◌, ◌<◌, String, ◌≡◌, ◌≢◌, refl, ◌⊎◌, inl, inr, ap, ◌∙◌, sym, Bool, true, false, ◌||◌, Option,
  none, some, arith, ◌==◌, nat_eq, string_eq, length, Mapping, lookup, insert, delete,
  lookup-insert, eq_iff, eq_refl, Bool-cases,
}
use saucepan.Pier.Actions.{Bytes}
use saucepan.Pier.Address.{Url}
use saucepan.Pier.Artifact.{
  PierCodeRef, ArtifactError, validate_ref, check_bytes, verify_artifact_bytes, Calls, Disk,
  Fetched, at_path, failed, tmp_path, put, commit, write_file, is_zero, is_size, mkdir_failed,
  write_failed, rename_failed, WriteOutcome, complete, broken, max_artifact_bytes, is_sha256_hex,
  or_else, bad_sha256,
}

pub tmp_path_other : (path : String) → tmp_path path ≢ path
tmp_path_other path same = absurd (omega (arith, len-append path ".tmp", ap len same))

pub lookup-insert_self :
    (path : String) (b : Bytes) (files : Mapping Bytes) → lookup path (insert path b files) ≡ some b
lookup-insert_self path b files = lookup-insert path path b files ∙ rw (eq_refl path) refl

pub lookup-insert_other :
    (path key : String) (b : Bytes) (files : Mapping Bytes)
    → key ≢ path
    → lookup path (insert key b files) ≡ lookup path files
lookup-insert_other path key b files other =
    let away : (key == path) ≡ false = ground (arith, eq_iff key path) in
    lookup-insert key path b files ∙ rw away refl

-- Nothing but the temporary file has changed.
abbrev pub Untouched : String → Disk → Disk → Type 0
Untouched path d d' =
    (other : String) → other ≢ tmp_path path → lookup other d'.files ≡ lookup other d.files

pub put-Untouched :
    (path : String) (left : Option Bytes) (d : Disk)
    → Untouched path d (record d { files = put (tmp_path path) left d.files })
put-Untouched path none d other different = refl
put-Untouched path (some b) d other different =
    lookup-insert_other other (tmp_path path) b d.files (λ e. different (sym e))

-- What a step towards the file comes to: the bytes at the path, or an error and nothing there.
abbrev pub Result : String → Bytes → Disk → Disk × Fetched → Type 0
Result path b d (d', result) =
    ((result ≡ at_path path) × (lookup path d'.files ≡ some b))
    ⊎ ((e : ArtifactError) × (result ≡ failed e) × Untouched path d d')

pub write_file-Result :
    (w : WriteOutcome) (rename_ok : Bool) (path : String) (b : Bytes) (d : Disk)
    → Result path b d (write_file w rename_ok path b d)
unfolding write_file
write_file-Result (broken left) rename_ok path b d =
    inr (write_failed, refl, put-Untouched path left d)
write_file-Result complete false path b d = inr (rename_failed, refl, put-Untouched path (some b) d)
write_file-Result complete true path b d =
    inl (refl, lookup-insert_self path b (delete (tmp_path path) d.files))

pub commit-Result :
    (calls : Calls) (path : String) (b : Bytes) (d : Disk) → Result path b d (commit calls path b d)
unfolding commit
commit-Result calls path b d = elim (Bool-cases calls.mkdir_ok) [
  | inr no_dir ↦ rw no_dir (inr (mkdir_failed, refl, λ other different. refl))
  | inl made ↦ rw made (write_file-Result calls.write calls.rename_ok path b d)
]

-- What the reference says of the bytes.
pub record IsArtifact (digest : Bytes → String) (r : PierCodeRef) (b : Bytes) : Type 0 where
  pub hash : digest b ≡ r.sha256
  pub is_hex : is_sha256_hex r.sha256 ≡ true
  pub some_bytes : 0 < length b
  pub capped : length b ≤ max_artifact_bytes
  pub size : (is_zero r.size_bytes || is_size (length b) r.size_bytes) ≡ true

module _ (uri : String → Option Url) (digest : Bytes → String) where
  abbrev pub verify : PierCodeRef → Bytes → Option ArtifactError
  verify = verify_artifact_bytes uri digest

  pub or_else-none : (x y : Option ArtifactError) → or_else x y ≡ none → (x ≡ none) × (y ≡ none)
  or_else-none x y e = ground arith

  pub validate_ref-hex :
      (r : PierCodeRef) → validate_ref uri digest r ≡ none → is_sha256_hex r.sha256 ≡ true
  unfolding validate_ref
  validate_ref-hex r ok = elim (Bool-cases (is_sha256_hex r.sha256)) [
    | inl hex ↦ hex
    | inr other ↦
        let refused : validate_ref uri digest r ≡ some bad_sha256 = rw (other, validate_ref) refl in
        absurd (cc)
  ]

  pub check_bytes-IsArtifact :
      (r : PierCodeRef) (b : Bytes)
      → is_sha256_hex r.sha256 ≡ true
      → check_bytes uri digest r b ≡ none
      → IsArtifact digest r b
  unfolding check_bytes
  check_bytes-IsArtifact r b hex ok = record {
    hash = ground (arith, eq_iff (digest b) r.sha256);
    is_hex = hex;
    some_bytes = ground arith;
    capped = ground arith;
    size = ground arith;
  }

  pub verify-IsArtifact : (r : PierCodeRef) (b : Bytes) → verify r b ≡ none → IsArtifact digest r b
  unfolding verify_artifact_bytes
  verify-IsArtifact r b ok =
      let (valid, checked) =
        or_else-none (validate_ref uri digest r) (check_bytes uri digest r b) ok in
      check_bytes-IsArtifact r b (validate_ref-hex r valid) checked
