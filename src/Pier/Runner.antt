-- ===== src/Pier/Runner.antt =====
-- SaucepanServer/task-server/cmd/saucepan-runner/main.go and sandbox.go: one run of a campaign's
-- artifact, behind its gates.
pub mod Consented
pub mod Gates
use saucepan.Common.{
  ℕ, String, Bool, true, false, ◌&&◌, ◌||◌, not, Option, none, some, List, [], ◌∷◌, ◌==◌, nat_eq,
  string_eq, if◌then◌else◌, any, Mapping,
}
use saucepan.Common.Float.{Float}
use saucepan.Common.Int.{pos}
use saucepan.Common.Sort.{sort_by}
use saucepan.Pier.Actions.{Bytes, Record}
use saucepan.Pier.Address.{Url}
use saucepan.Pier.Artifact.{PierCodeRef, ArtifactError, validate_ref, verify_artifact_bytes}
use saucepan.Common.Text.{string_lt}
use saucepan.Pier.Consent.{
  ConsentFile, Store, load, Consent, allowed, no_consent, not_approved, allows,
}
use saucepan.Pier.Host.{Memory, Codec, RunnerJob, Host, new_host}
use saucepan.Pier.Host.Confined.{Call, run_calls}

abbrev pub host_func_names : List String
host_func_names = "emit" ∷ "log" ∷ "frame_stat" ∷ "board_read" ∷ "list_piers" ∷ "recv" ∷ []

-- Whether the imports, by module and name, are all allowed.
unfoldable pub check_imports : List (String × String) → Bool
check_imports [] = true
check_imports ((module_name, name) ∷ imports) =
    if module_name == "wasi_snapshot_preview1"
    then check_imports imports
    else if module_name == "saucepan"
    then (if not (any (λ n. n == name) host_func_names) then false else check_imports imports)
    else false

pub data JobError : Type 0 where
  no_campaign no_artifact artifact_missing artifact_irregular no_hash : JobError
  bad_hash frame_missing frame_irregular : JobError

pub data RunError : Type 0 where
  undecodable no_consent_path no_consent_file : RunError
  invalid : JobError → RunError
  refused : Consent → RunError
  unreadable wasi_failed uncompilable bad_import no_run unregistered : RunError
  unverified : ArtifactError → RunError
  uninstantiable timed_out trapped rejected : RunError

-- What the run ends with. A skip is written as a done with a reason, and is told apart here.
pub data Terminal : Type 0 where
  skipped done : Terminal
  failed : RunError → Terminal

-- A compiled module: its imports and its exported functions.
pub record Compiled : Type 0 where
  pub imports : List (String × String)
  pub exports : List String

pub data Ending : Type 0 where
  returned deadline trap : Ending

abbrev pub is_granted : String × Bool → Bool
is_granted (_, granted) = granted

abbrev pub granted_names : Mapping Bool → List String
granted_names [] = []
granted_names ((action, granted) ∷ rest) =
    let names = granted_names rest in if granted then action ∷ names else names

module _ (fl : Float) (mem : Memory) (codec : Codec fl) (parse_request_uri : String → Option Url)
    (digest : Bytes → String) where
  pub record Job : Type 0 where
    pub campaign_id : String
    pub artifact_path : String
    pub artifact_sha256 : String
    pub pier_code_disabled : Bool
    pub host : RunnerJob fl mem codec

  -- The machine: the files by path (whether regular), the consent file, the wasm runtime, and
  -- what the artifact does when it is run.
  pub record Machine : Type 0 where
    pub stdin : Option Job
    pub stat : String → Option Bool
    pub consent_path_ok : Bool
    pub consent : ConsentFile
    pub read_file : String → Option Bytes
    pub wasi_ok : Bool
    pub compile : Bytes → Option Compiled
    pub register_ok : Bool
    pub instantiate_ok : Bool
    -- the host calls of its start function and of `run`
    pub starting : Bytes → List (mem.M × Call fl mem codec)
    pub running : Bytes → List (mem.M × Call fl mem codec)
    pub ending : Bytes → Ending

  -- The records that the guest got written, the runner's own last one, and the exit code.
  pub record Run : Type 0 where
    pub written : List Record
    pub terminal : Terminal
    pub code : ℕ

  abbrev pub fail : RunError → Run
  fail e = record { written = []; terminal = failed e; code = 1 }

  abbrev pub ref_of : Job → PierCodeRef
  ref_of job = record { sha256 = job.artifact_sha256; url = ""; size_bytes = pos 0 }

  abbrev pub check_frame : Machine → String → Option JobError
  check_frame machine path = if path == "" then none else elim (machine.stat path) [
    | none ↦ some frame_missing
    | some regular ↦ if not regular then some frame_irregular else none
  ]

  unfoldable pub validate_job : Machine → Job → Option JobError
  validate_job machine job =
      if job.campaign_id == ""
      then some no_campaign
      else if job.artifact_path == ""
      then some no_artifact
      else elim (machine.stat job.artifact_path) [
        | none ↦ some artifact_missing
        | some regular ↦
            if not regular
            then some artifact_irregular
            else if job.artifact_sha256 == ""
            then some no_hash
            else elim (validate_ref parse_request_uri digest (ref_of job)) [
              | some _ ↦ some bad_hash
              | none ↦ check_frame machine job.host.frame_path
            ]
      ]

  abbrev pub consent_error : Consent → Option RunError
  consent_error allowed = none
  consent_error no_consent = some (refused no_consent)
  consent_error (not_approved a) = some (refused (not_approved a))

  unfoldable pub check_consent : Machine → Job → Option RunError
  check_consent machine job =
      if not machine.consent_path_ok then some no_consent_path else elim (load machine.consent) [
        | none ↦ some no_consent_file
        | some store ↦
            consent_error
              (allows job.campaign_id (sort_by string_lt (granted_names job.host.grants)) store)
      ]

  -- The records of a guest that ran, and how it ended.
  abbrev pub finish : Ending → Host fl mem codec → Run
  finish deadline h = record { written = h.written; terminal = failed timed_out; code = 1 }
  finish trap h = record { written = h.written; terminal = failed trapped; code = 1 }
  finish returned h =
      if h.saw_error
      then record { written = h.written; terminal = failed rejected; code = 1 }
      else record { written = h.written; terminal = done; code = 0 }

  unfoldable pub run_compiled : Machine → Job → Bytes → Compiled → Run
  run_compiled machine job artifact compiled =
      if not (check_imports compiled.imports)
      then fail bad_import
      else if not (any (λ n. n == "run") compiled.exports)
      then fail no_run
      else if not machine.register_ok
      then fail unregistered
      else let started =
          run_calls fl mem codec (machine.starting artifact) (new_host fl mem codec job.host) in
        if not machine.instantiate_ok
        then record { written = started.written; terminal = failed uninstantiable; code = 1 }
        else finish (machine.ending artifact)
            (run_calls fl mem codec (machine.running artifact) started)

  unfoldable pub run_artifact : Machine → Job → Run
  run_artifact machine job = elim (machine.read_file job.artifact_path) [
    | none ↦ fail unreadable
    | some artifact ↦ elim (verify_artifact_bytes parse_request_uri digest (ref_of job) artifact) [
      | some e ↦ fail (unverified e)
      | none ↦ if not machine.wasi_ok then fail wasi_failed else elim (machine.compile artifact) [
        | none ↦ fail uncompilable
        | some compiled ↦ run_compiled machine job artifact compiled
      ]
    ]
  ]

  -- From the kill switch on.
  unfoldable pub run_job : Machine → Job → Run
  run_job machine job =
      if job.pier_code_disabled
      then record { written = []; terminal = skipped; code = 0 }
      else elim (validate_job machine job) [
        | some e ↦ fail (invalid e)
        | none ↦ elim (check_consent machine job) [
          | some e ↦ fail e
          | none ↦ run_artifact machine job
        ]
      ]

  unfoldable pub run : Machine → Run
  run machine = elim machine.stdin [ none ↦ fail undecodable | some job ↦ run_job machine job ]
