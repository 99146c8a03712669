-- ===== src/Pier/Runner/Gates.antt =====
-- What must hold for a run to have any effect.
use saucepan.Common.{
  String, ◌≡◌, ◌≢◌, refl, ◌⊎◌, inl, inr, sym, subst, true, false, Option, some, [], ◌==◌, nat_eq,
  string_eq, any, All, Bool-cases, Option-cases,
}
use saucepan.Common.Float.{Float}
use saucepan.Pier.Actions.{Bytes}
use saucepan.Pier.Address.{Url}
use saucepan.Pier.Artifact.{verify_artifact_bytes}
use saucepan.Pier.Artifact.Verified.{IsArtifact, verify-IsArtifact}
use saucepan.Pier.Host.{Memory, Codec, Host, new_host}
use saucepan.Pier.Host.Emit.{Permitted}
use saucepan.Pier.Host.Confined.{run_calls, new_host-IsConfined, run_calls-IsConfined}
use saucepan.Pier.Runner.{
  check_imports, done, Compiled, Ending, returned, deadline, trap, Job, Machine, Run, ref_of,
  validate_job, check_consent, finish, run_compiled, run_artifact, run_job, run,
}
use saucepan.Pier.Runner.Consented.{Consented, check_consent-Consented}

module _ (fl : Float) (mem : Memory) (codec : Codec fl) (uri : String → Option Url)
    (digest : Bytes → String) where
  abbrev pub MachineState : Type 0
  MachineState = Machine fl mem codec uri digest

  abbrev pub RunnerTask : Type 0
  RunnerTask = Job fl mem codec uri digest

  abbrev pub Outcome : Type 0
  Outcome = Run fl mem codec uri digest

  -- No record of a guest.
  abbrev pub Blocked : Outcome → Type 0
  Blocked r = (r.written ≡ []) × (r.terminal ≢ done)

  abbrev AllPermitted : RunnerTask → Outcome → Type 0
  AllPermitted job r = All (Permitted fl mem codec job.host) r.written

  finish-AllPermitted :
      (job : RunnerTask) (e : Ending) (h : Host fl mem codec)
      → All (Permitted fl mem codec job.host) h.written
      → AllPermitted job (finish fl mem codec uri digest e h)
  finish-AllPermitted job returned h p = elim (Bool-cases h.saw_error) [
    | inl bad ↦ rw bad p
    | inr good ↦ rw good p
  ]
  finish-AllPermitted job deadline h p = p
  finish-AllPermitted job trap h p = p

  run_compiled-cases :
      (machine : MachineState) (job : RunnerTask) (artifact : Bytes) (compiled : Compiled)
      → let r = run_compiled fl mem codec uri digest machine job artifact compiled in
        Blocked r ⊎ ((check_imports compiled.imports ≡ true) × AllPermitted job r)
  unfolding run_compiled
  run_compiled-cases machine job artifact compiled =
      let starting = machine.starting artifact in
      let host = new_host fl mem codec job.host in
      let first =
        run_calls-IsConfined fl mem codec job.host starting host
          (new_host-IsConfined fl mem codec job.host) in
      let started = run_calls fl mem codec starting host in
      let second =
        run_calls-IsConfined fl mem codec job.host (machine.running artifact) started first in
      elim (Bool-cases (check_imports compiled.imports)) [
        | inr foreign ↦ rw foreign (inl (refl, λ e. absurd (cc)))
        | inl fine ↦ elim (Bool-cases (any (λ n. n == "run") compiled.exports)) [
          | inr missing ↦ rw (fine, missing) (inl (refl, λ e. absurd (cc)))
          | inl exported ↦ elim (Bool-cases machine.register_ok) [
            | inr down ↦ rw (fine, exported, down) (inl (refl, λ e. absurd (cc)))
            | inl up ↦ elim (Bool-cases machine.instantiate_ok) [
              | inr broken ↦ rw (fine, exported, up, broken) (inr (refl, first.1))
              | inl ready ↦
                  rw (fine, exported, up, ready)
                    (inr (
                      refl,
                      finish-AllPermitted job (machine.ending artifact)
                          (run_calls fl mem codec (machine.running artifact) started) second.1,
                    ))
            ]
          ]
        ]
      ]

  -- The bytes that ran: those of the job's file, which hash to the job's digest, and a module
  -- that imports nothing but what it may.
  pub record Loaded (machine : MachineState) (job : RunnerTask) : Type 0 where
    pub artifact : Bytes
    pub compiled : Compiled
    pub read : machine.read_file job.artifact_path ≡ some artifact
    pub verified : IsArtifact digest (ref_of fl mem codec uri digest job) artifact
    pub built : machine.compile artifact ≡ some compiled
    pub imports : check_imports compiled.imports ≡ true

  run_artifact-cases :
      (machine : MachineState) (job : RunnerTask)
      → let r = run_artifact fl mem codec uri digest machine job in
        Blocked r ⊎ (Loaded machine job × AllPermitted job r)
  unfolding run_artifact run_compiled
  run_artifact-cases machine job =
      let ref = ref_of fl mem codec uri digest job in
      elim (Option-cases (machine.read_file job.artifact_path)) [
        | inl missing ↦ rw (missing, run_artifact) (inl (refl, λ e. absurd (cc)))
        | inr (artifact, read) ↦
            elim (Option-cases (verify_artifact_bytes uri digest ref artifact)) [
              | inr (e, bad) ↦ rw (read, run_artifact, bad) (inl (refl, λ e. absurd (cc)))
              | inl good ↦ elim (Bool-cases machine.wasi_ok) [
                | inr down ↦ rw (read, run_artifact, good, down) (inl (refl, λ e. absurd (cc)))
                | inl up ↦ elim (Option-cases (machine.compile artifact)) [
                  | inl broken ↦
                      rw (read, run_artifact, good, up, broken) (inl (refl, λ e. absurd (cc)))
                  | inr (compiled, built) ↦
                      let same : run_artifact fl mem codec uri digest machine job
                          ≡ run_compiled fl mem codec uri digest machine job artifact compiled =
                        rw (read, run_artifact, good, up, built) refl in
                      elim (run_compiled-cases machine job artifact compiled) [
                        | inl blocked ↦ inl (subst Blocked (sym same) blocked)
                        | inr (fine, permitted) ↦ inr (
                          record {
                            artifact = artifact;
                            compiled = compiled;
                            read = read;
                            verified = verify-IsArtifact uri digest ref artifact good;
                            built = built;
                            imports = fine;
                          },
                          subst (AllPermitted job) (sym same) permitted,
                        )
                      ]
                ]
              ]
            ]
      ]

  -- Everything that stands behind a run with an effect.
  pub record Cleared (machine : MachineState) (r : Outcome) : Type 0 where
    pub job : RunnerTask
    pub given : machine.stdin ≡ some job
    pub enabled : job.pier_code_disabled ≡ false
    pub consented : Consented fl mem codec uri digest machine job
    pub loaded : Loaded machine job
    pub permitted : AllPermitted job r

  run_job-cases :
      (machine : MachineState) (job : RunnerTask)
      → machine.stdin ≡ some job
      → let r = run_job fl mem codec uri digest machine job in Blocked r ⊎ Cleared machine r
  unfolding run_job validate_job run_artifact run_compiled
  run_job-cases machine job given = elim (Bool-cases job.pier_code_disabled) [
    | inl off ↦ rw (off, run_job) (inl (refl, λ e. absurd (cc)))
    | inr on ↦ elim (Option-cases (validate_job fl mem codec uri digest machine job)) [
      | inr (e, bad) ↦ rw (on, run_job, bad) (inl (refl, λ e. absurd (cc)))
      | inl valid ↦ elim (Option-cases (check_consent fl mem codec uri digest machine job)) [
        | inr (e, bad) ↦ rw (on, run_job, valid, bad) (inl (refl, λ e. absurd (cc)))
        | inl agreed ↦
            let same : run_job fl mem codec uri digest machine job
                ≡ run_artifact fl mem codec uri digest machine job =
              rw (on, run_job, valid, agreed) refl in
            elim (run_artifact-cases machine job) [
              | inl blocked ↦ inl (subst Blocked (sym same) blocked)
              | inr (loaded, permitted) ↦ inr (record {
                job = job;
                given = given;
                enabled = on;
                consented = check_consent-Consented fl mem codec uri digest machine job agreed;
                loaded = loaded;
                permitted = subst (AllPermitted job) (sym same) permitted;
              })
            ]
      ]
    ]
  ]

  -- Every run of the runner, on any machine and with any guest, either leaves no record of the guest and does not end in `done`; or the kill switch of its job is off, the operator's consent file covers every action that the job grants, the code that ran is the job's file, of 1 byte to 8 MiB, hashing to the job's digest and importing only what the runner allows, and each record that left is permitted by the job (a small state, or a granted action of the menu within the limits).
  pub run-Cleared :
      (machine : MachineState)
      → let r = run fl mem codec uri digest machine in Blocked r ⊎ Cleared machine r
  unfolding run run_job validate_job
  run-Cleared machine = elim (Option-cases machine.stdin) [
    | inl nothing ↦ rw (nothing, run) (inl (refl, λ e. absurd (cc)))
    | inr (job, given) ↦
        let same : run fl mem codec uri digest machine
            ≡ run_job fl mem codec uri digest machine job =
          rw (given, run) refl in
        subst (λ r. Blocked r ⊎ Cleared machine r) (sym same) (run_job-cases machine job given)
  ]
