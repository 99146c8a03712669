-- ===== src/Pier/Tests.antt =====
-- Examples on a small machine: a guest that posts to the board and asks for a next exposure.
use saucepan.Common.{
  String, ◌≡◌, ◌≢◌, ◌↔◌, refl, ◌⊎◌, true, false, Option, none, some, List, [], ◌∷◌, arith, ◌==◌,
  nat_eq, string_eq, if◌then◌else◌, All, In, length, take, lookup, insert, ap,
}
use saucepan.Common.Float.{milli}
use saucepan.Common.Int.{pos}
use saucepan.Pier.Actions.{Bytes, Record, grant_allows, check_record_grant}
use saucepan.Pier.Capture.{
  NextCapturePayload, NextCaptureBounds, validate_next_capture, WithinBounds,
  validate_next_capture-WithinBounds,
}
use saucepan.Pier.Host.{Memory, Codec, RunnerJob, Host, new_host, emit, board_read}
use saucepan.Pier.Host.Emit.{Permitted, Answered, emit-Answered}
use saucepan.Pier.Host.Confined.{Call, emits, reads_board, run_calls, run_calls-Permitted}
use saucepan.Pier.Host.Recv.{IsBuffer, drain, board_read-drain}
use saucepan.Pier.Consent.{Store, allowed, approve, allows, parsed, load, allows_each, dedupe}
use saucepan.Pier.Consent.Allows.{approve-allows}
use saucepan.Pier.Address.{Ip, v4, Url, dial_each, connected, IsOutside, dial_each-public}
use saucepan.Pier.Artifact.{
  PierCodeRef, ArtifactError, Calls, complete, Disk, at_path, failed, fetch_verified_artifact,
  validate_ref, fetch_miss, verify_artifact_bytes, commit, check_bytes, is_sha256_hex,
}
use saucepan.Pier.Artifact.Verified.{IsArtifact, Untouched}
use saucepan.Pier.Artifact.Fetch.{fetch_verified_artifact-IsArtifact, fetch_verified_artifact_again}
use saucepan.Common.Sort.{sort_by, insert_all, insert_by}
use saucepan.Pier.Runner.{
  Machine, returned, run, run_job, validate_job, check_consent, run_artifact, run_compiled,
  check_imports,
}
use saucepan.Pier.Runner.Gates.{Blocked, Cleared, run-Cleared}

-- A memory of one buffer.
abbrev cell : Memory
cell = record { M = Bytes; read = λ m ptr n. some (take n m); write = λ m ptr b. some b }

abbrev read_short : Bytes → Option Record
read_short [] = none
read_short (a ∷ payload) = some (record {
  action = if a == 1 then "board_post" else if a == 2 then "next_capture" else "state";
  payload = payload;
  ok = false;
  msg = "";
})

abbrev short_capture : Bytes → Option (NextCapturePayload milli)
short_capture [] = none
short_capture (seconds ∷ _) =
    some (record { exposure_sec = some (pos seconds); gain = none; filter = none })

abbrev short_codec : Codec milli
short_codec = record {
  read_record = read_short;
  read_capture = short_capture;
  can_write = λ r. true;
  read_frame = λ path. none;
  nan = pos 0;
}

abbrev bounds : NextCaptureBounds milli
bounds = record {
  min_exposure_sec = pos 0;
  max_exposure_sec = pos 60;
  min_gain = pos 0;
  max_gain = pos 0;
  allowed_filters = "V" ∷ "R" ∷ [];
}

abbrev job : RunnerJob milli cell short_codec
job = record {
  frame_path = "";
  grants = ("board_post", true) ∷ ("board_read", true) ∷ ("next_capture", true) ∷ [];
  board_notes = some (5 ∷ 6 ∷ 7 ∷ []);
  campaign_piers = none;
  next_capture_bounds = bounds;
}

abbrev host : Host milli cell short_codec
host = new_host milli cell short_codec job

-- One exposure that is too long, then one that is not.
abbrev calls : List (Bytes × Call milli cell short_codec)
calls =
    (1 ∷ 9 ∷ [], emits true 0 2)
    ∷ (2 ∷ 90 ∷ [], emits true 0 2)
    ∷ (2 ∷ 30 ∷ [], emits true 0 2)
    ∷ ([], reads_board)
    ∷ []

run_calls-Permitted_example :
    All
      (Permitted milli cell short_codec job)
      (run_calls milli cell short_codec calls (new_host milli cell short_codec job)).written
run_calls-Permitted_example = run_calls-Permitted milli cell short_codec job calls

-- The two that were within the grants and limits got out.
two_written : length (run_calls milli cell short_codec calls host).written ≡ 2
unfolding board_read grant_allows emit check_record_grant validate_next_capture
two_written = refl

emit-Answered_example :
    Answered milli cell short_codec
      (1 ∷ 9 ∷ [])
      0
      2
      host
      (emit milli cell short_codec true (1 ∷ 9 ∷ []) 0 2 host)
emit-Answered_example = emit-Answered milli cell short_codec true (1 ∷ 9 ∷ []) 0 2 host

take-length : (b : Bytes) → take (length b) b ≡ b
take-length [] = refl
take-length (x ∷ b) = ap (λ r. x ∷ r) (take-length b)

cell-IsBuffer : IsBuffer milli cell short_codec 0 2
cell-IsBuffer m bytes fits = (bytes, refl, ap (λ b. some b) (take-length bytes))

board_read-drain_example :
    let (h', n) = board_read milli cell short_codec host in
    (n ≡ 3) × (drain milli cell short_codec 4 0 2 [] h' ≡ some (5 ∷ 6 ∷ 7 ∷ []))
unfolding grant_allows
board_read-drain_example =
    board_read-drain milli cell short_codec 0 2 [] host (5 ∷ 6 ∷ 7 ∷ []) cell-IsBuffer (omega arith)
      refl refl (omega arith)

validate_next_capture-WithinBounds_example :
    let p : NextCapturePayload milli = record {
      exposure_sec = some (pos 30);
      gain = some (pos 2);
      filter = some "R";
    } in
    (validate_next_capture milli bounds p ≡ none) ↔ WithinBounds milli bounds p
validate_next_capture-WithinBounds_example =
    validate_next_capture-WithinBounds milli bounds
      (record { exposure_sec = some (pos 30); gain = some (pos 2); filter = some "R" })

abbrev store : Store
store = approve 1 "old" ("board_read" ∷ []) (record { version = 1; campaigns = [] })

approve-allows_example :
    ((want : List String)
      → (allows "new" want (approve 2 "new" ("board_post" ∷ "" ∷ "board_post" ∷ []) store)
          ≡ allowed)
        ↔ All (λ a. In a ("board_post" ∷ "" ∷ "board_post" ∷ []) × (a ≢ "")) want)
    × ((other : String) (want : List String)
        → other ≢ "new"
        → allows other want (approve 2 "new" ("board_post" ∷ "" ∷ "board_post" ∷ []) store)
          ≡ allows other want store)
approve-allows_example = approve-allows 2 "new" ("board_post" ∷ "" ∷ "board_post" ∷ []) store

-- A name that resolves to a public address and to a private one.
abbrev addresses : List Ip
addresses = v4 93 184 216 34 ∷ v4 192 168 0 1 ∷ []

dial_each-public_example :
    let (tried, result) = dial_each (λ ip. false) addresses in
    All (λ ip. IsOutside ip × In ip addresses) tried
    × ((ip : Ip) → result ≡ connected ip → In ip tried × (false ≡ true))
dial_each-public_example = dial_each-public (λ ip. false) addresses

abbrev hash : String
hash = "0123456789abcdef0123456789abcdef0123456789abcdef0123456789abcdef"

abbrev uri : String → Option Url
uri raw = some (record {
  scheme = "https";
  host = "example.org";
  has_user = false;
  hostname = "example.org";
  ip = none;
})

abbrev digest : Bytes → String
digest b = if length b == 3 then hash else "other"

abbrev reference : PierCodeRef
reference = record { sha256 = hash; url = "https://example.org/a.wasm"; size_bytes = pos 3 }

abbrev online : Calls
online = record {
  stat_ok = true;
  read_ok = true;
  mkdir_ok = true;
  rename_ok = true;
  write = complete;
  get = λ url. some (0 ∷ 97 ∷ 115 ∷ []);
}

abbrev offline : Calls
offline = record online { get = λ url. none }

abbrev disk : Disk
disk = record { files = []; fetched = [] }

fetch_verified_artifact-IsArtifact_example :
    let (d', result) = fetch_verified_artifact uri digest (λ sha. sha) online reference disk in
    ((b : Bytes) × (result ≡ at_path hash)
      × (lookup hash d'.files ≡ some b)
      × IsArtifact digest reference b)
    ⊎ ((e : ArtifactError) × (result ≡ failed e)
        × (lookup hash d'.files ≡ lookup hash disk.files)
        × Untouched hash disk d')
fetch_verified_artifact-IsArtifact_example =
    fetch_verified_artifact-IsArtifact uri digest (λ sha. sha) online reference disk

fetch_verified_artifact_again_example :
    let (d', result) = fetch_verified_artifact uri digest (λ sha. sha) online reference disk in
    fetch_verified_artifact uri digest (λ sha. sha) offline reference d' ≡ (d', result)
unfolding fetch_verified_artifact validate_ref lookup fetch_miss verify_artifact_bytes commit
fetch_verified_artifact_again_example =
    fetch_verified_artifact_again uri digest (λ sha. sha) online offline reference disk refl refl
      refl

abbrev machine : Machine milli cell short_codec uri digest
machine = record {
  stdin = some (record {
    campaign_id = "new";
    artifact_path = "a.wasm";
    artifact_sha256 = hash;
    pier_code_disabled = false;
    host = job;
  });
  stat = λ path. some true;
  consent_path_ok = true;
  consent = parsed (approve 2 "new" ("board_post" ∷ "board_read" ∷ "next_capture" ∷ []) store);
  read_file = λ path. some (0 ∷ 97 ∷ 115 ∷ []);
  wasi_ok = true;
  compile = λ b. some (record { imports = ("saucepan", "emit") ∷ []; exports = "run" ∷ [] });
  register_ok = true;
  instantiate_ok = true;
  starting = λ b. [];
  running = λ b. calls;
  ending = λ b. returned;
}

run-Cleared_example :
    let r = run milli cell short_codec uri digest machine in
    Blocked milli cell short_codec uri digest r
    ⊎ Cleared milli cell short_codec uri digest machine r
run-Cleared_example = run-Cleared milli cell short_codec uri digest machine

-- This one is not blocked.
ran : length (run milli cell short_codec uri digest machine).written ≡ 2
unfolding run run_job validate_job validate_ref check_consent load allows lookup insert approve
    sort_by insert_all insert_by run_artifact verify_artifact_bytes check_bytes run_compiled
    check_imports board_read emit check_record_grant grant_allows validate_next_capture allows_each
    dedupe is_sha256_hex
ran = refl
