-- ===== src/Pier/Artifact/Fetch.antt =====
-- What a fetch leaves in the cache.
use saucepan.Common.{
  String, ◌≡◌, refl, ◌⊎◌, inl, inr, ap, ◌∙◌, sym, subst, true, Option, none, some, ◌∷◌, arith, ◌==◌,
  nat_eq, string_eq, lookup, Bool-cases, Option-cases,
}
use saucepan.Pier.Actions.{Bytes}
use saucepan.Pier.Address.{Url}
use saucepan.Pier.Artifact.{
  PierCodeRef, ArtifactError, validate_ref, check_bytes, verify_artifact_bytes, Calls, Disk,
  Fetched, at_path, failed, commit, read_failed, no_url, fetch_failed, fetch_miss, use_cached,
  cached_at, fetch_verified_artifact,
}
use saucepan.Pier.Artifact.Verified.{
  tmp_path_other, Untouched, Result, commit-Result, IsArtifact, verify, or_else-none,
  verify-IsArtifact,
}

module _ (uri : String → Option Url) (digest : Bytes → String) where
  -- Verified bytes at the path; or an error, and every file but the temporary one as it was.
  abbrev pub Outcome : Calls → PierCodeRef → String → Disk → Disk × Fetched → Type 0
  Outcome calls r path d (d', result) =
      ((b : Bytes) × (result ≡ at_path path)
        × (lookup path d'.files ≡ some b)
        × (verify uri digest r b ≡ none))
      ⊎ ((e : ArtifactError) × (result ≡ failed e) × Untouched path d d')

  use_cached-Outcome :
      (calls : Calls) (r : PierCodeRef) (path : String) (b : Bytes) (d : Disk)
      → lookup path d.files ≡ some b
      → Outcome calls r path d (use_cached uri digest calls r path b d)
  unfolding use_cached
  use_cached-Outcome calls r path b d there = elim (Bool-cases calls.read_ok) [
    | inr unread ↦ rw unread (inr (read_failed, refl, λ other different. refl))
    | inl read ↦ elim (Option-cases (verify uri digest r b)) [
      | inl good ↦
          let same : use_cached uri digest calls r path b d ≡ (d, at_path path) =
            rw (read, use_cached, good) refl in
          subst (Outcome calls r path d) (sym same) (inl (b, refl, there, good))
      | inr (e, bad) ↦
          let same : use_cached uri digest calls r path b d ≡ (d, failed e) =
            rw (read, use_cached, bad) refl in
          subst (Outcome calls r path d) (sym same) (inr (e, refl, λ other different. refl))
    ]
  ]

  stored-Outcome :
      (calls : Calls) (r : PierCodeRef) (path : String) (b : Bytes) (d : Disk)
      (result : Disk × Fetched)
      → verify uri digest r b ≡ none
      → Result path b d result
      → Outcome calls r path d result
  stored-Outcome calls r path b d (d', result) good (inl (e, there)) = inl (b, e, there, good)
  stored-Outcome calls r path b d (d', result) good (inr failure) = inr failure

  fetch_miss-Outcome :
      (calls : Calls) (r : PierCodeRef) (path : String) (d : Disk)
      → Outcome calls r path d (fetch_miss uri digest calls r path d)
  unfolding fetch_miss
  fetch_miss-Outcome calls r path d = elim (Bool-cases (r.url == "")) [
    | inl nowhere ↦ rw nowhere (inr (no_url, refl, λ other different. refl))
    | inr somewhere ↦
        let asked : Disk = record d { fetched = r.url ∷ d.fetched } in
        elim (Option-cases (calls.get r.url)) [
          | inl silent ↦
              let same : fetch_miss uri digest calls r path d ≡ (asked, failed fetch_failed) =
                rw (somewhere, fetch_miss, silent) refl in
              subst (Outcome calls r path d) (sym same)
                (inr (fetch_failed, refl, λ other different. refl))
          | inr (b, got) ↦ elim (Option-cases (verify uri digest r b)) [
            | inr (e, bad) ↦
                let same : fetch_miss uri digest calls r path d ≡ (asked, failed e) =
                  rw (somewhere, fetch_miss, got, bad) refl in
                subst (Outcome calls r path d) (sym same) (inr (e, refl, λ other different. refl))
            | inl good ↦
                let same : fetch_miss uri digest calls r path d ≡ commit calls path b asked =
                  rw (somewhere, fetch_miss, got, good) refl in
                subst (Outcome calls r path d) (sym same) (
                  stored-Outcome calls r path b d (commit calls path b asked) good
                    (commit-Result calls path b asked))
          ]
        ]
  ]

  fetch-Outcome :
      (cache_path : String → String) (calls : Calls) (r : PierCodeRef) (d : Disk)
      → Outcome calls r
          (cache_path r.sha256)
          d
          (fetch_verified_artifact uri digest cache_path calls r d)
  unfolding fetch_verified_artifact
  fetch-Outcome cache_path calls r d = elim (Option-cases (validate_ref uri digest r)) [
    | inr (e, bad) ↦ rw (bad, fetch_verified_artifact) (inr (e, refl, λ other different. refl))
    | inl valid ↦ elim (Option-cases (cached_at calls (cache_path r.sha256) d)) [
      | inl missing ↦
          let same : fetch_verified_artifact uri digest cache_path calls r d
              ≡ fetch_miss uri digest calls r (cache_path r.sha256) d =
            rw (valid, fetch_verified_artifact, missing) refl in
          subst (Outcome calls r (cache_path r.sha256) d) (sym same)
            (fetch_miss-Outcome calls r (cache_path r.sha256) d)
      | inr (b, hit) ↦
          let same : fetch_verified_artifact uri digest cache_path calls r d
              ≡ use_cached uri digest calls r (cache_path r.sha256) b d =
            rw (valid, fetch_verified_artifact, hit) refl in
          subst (Outcome calls r (cache_path r.sha256) d) (sym same)
            (use_cached-Outcome calls r (cache_path r.sha256) b d (ground arith))
    ]
  ]

  -- A path is only handed out for the bytes that the campaign named: whatever the network answers and whichever system call fails, a fetch either gives the cache path of the hash, with a file there of 1 byte to 8 MiB that hashes to it and has the named size if there is one; or it gives an error, and every file but the temporary one beside the path is as before, that at the path included.
  pub fetch_verified_artifact-IsArtifact :
      (cache_path : String → String) (calls : Calls) (r : PierCodeRef) (d : Disk)
      → let path = cache_path r.sha256 in
        let (d', result) = fetch_verified_artifact uri digest cache_path calls r d in
        ((b : Bytes) × (result ≡ at_path path)
          × (lookup path d'.files ≡ some b)
          × IsArtifact digest r b)
        ⊎ ((e : ArtifactError) × (result ≡ failed e)
            × (lookup path d'.files ≡ lookup path d.files)
            × Untouched path d d')
  fetch_verified_artifact-IsArtifact cache_path calls r d =
      elim (fetch-Outcome cache_path calls r d) [
        | inl (b, e, there, good) ↦ inl (b, e, there, verify-IsArtifact uri digest r b good)
        | inr (e, same, kept) ↦ inr (
          e,
          same,
          kept (cache_path r.sha256) (λ h. tmp_path_other (cache_path r.sha256) (sym h)),
          kept,
        )
      ]

  verify-valid :
      (r : PierCodeRef) (b : Bytes)
      → verify uri digest r b ≡ none
      → validate_ref uri digest r ≡ none
  unfolding verify_artifact_bytes
  verify-valid r b ok =
      (or_else-none uri digest (validate_ref uri digest r) (check_bytes uri digest r b) ok).0

  fetch-hit :
      (cache_path : String → String) (later : Calls) (r : PierCodeRef) (d : Disk) (b : Bytes)
      → lookup (cache_path r.sha256) d.files ≡ some b
      → verify uri digest r b ≡ none
      → later.stat_ok ≡ true
      → later.read_ok ≡ true
      → fetch_verified_artifact uri digest cache_path later r d ≡ (d, at_path (cache_path r.sha256))
  unfolding fetch_verified_artifact use_cached
  fetch-hit cache_path later r d b there good seen read =
      let hit : cached_at later (cache_path r.sha256) d ≡ some b = rw seen there in
      rw (verify-valid r b good, fetch_verified_artifact, hit, read, good) refl

  -- A second fetch of the same reference is free: once a fetch has succeeded, every later one on that disk, with a file system that can be read and any network, gives the same path, asks the network for nothing and changes no file.
  pub fetch_verified_artifact_again :
      (cache_path : String → String) (calls later : Calls) (r : PierCodeRef) (d : Disk)
      → (fetch_verified_artifact uri digest cache_path calls r d).1 ≡ at_path (cache_path r.sha256)
      → later.stat_ok ≡ true
      → later.read_ok ≡ true
      → let (d', result) = fetch_verified_artifact uri digest cache_path calls r d in
        fetch_verified_artifact uri digest cache_path later r d' ≡ (d', result)
  fetch_verified_artifact_again cache_path calls later r d ok seen read =
      elim (fetch-Outcome cache_path calls r d) [
        | inr (e, same, kept) ↦ absurd (cc)
        | inl (b, e, there, good) ↦
            let (d', result) = fetch_verified_artifact uri digest cache_path calls r d in
            fetch-hit cache_path later r d' b there good seen read ∙ ap (λ q. (d', q)) (sym ok)
      ]
