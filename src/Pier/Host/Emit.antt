-- ===== src/Pier/Host/Emit.antt =====
-- What leaves the sandbox: the records that the guest gets written.
use saucepan.Common.{
  ℕ, ◌≤◌, ◌≡◌, ◌≢◌, refl, ◌⊎◌, inl, inr, Bool, true, false, ◌&&◌, none, some, [], ◌∷◌, ◌++◌, arith,
  ltb, ◌==◌, string_eq, Bool-cases, Option-cases, length, eq_iff, lookup, subst, sym,
}
use saucepan.Common.Float.{Float}
use saucepan.Pier.Actions.{
  Bytes, Record, action_state, action_next_capture, action_done, action_error, is_terminal,
  is_pier_code_action, check_record_grant, grant_allows, is_on,
}
use saucepan.Pier.Capture.{
  NextCapturePayload, validate_next_capture, WithinBounds, validate_next_capture-WithinBounds,
}
use saucepan.Pier.Host.{
  max_state_bytes, Memory, Codec, RunnerJob, Host, read_mem, forward, capture_payload, emit_capture,
  emit_record, emit, mark_error,
}

module _ (fl : Float) (mem : Memory) (codec : Codec fl) where
  abbrev pub Payload : Bytes → (NextCapturePayload fl → Type 0) → Type 0
  Payload payload P =
      (p : NextCapturePayload fl) × (capture_payload fl mem codec payload ≡ some p) × P p

  -- What a record may be under the job's grants and limits: a small state, or an action of the
  -- menu that is granted and, for a capture, within the limits.
  abbrev pub Permitted : RunnerJob fl mem codec → Record → Type 0
  Permitted job rec =
      ((rec.action ≡ action_state) × (length rec.payload ≤ max_state_bytes))
      ⊎ ((rec.action ≢ action_state)
          × (rec.action ≢ action_done)
          × (rec.action ≢ action_error)
          × (is_pier_code_action rec.action ≡ true)
          × (is_on (lookup rec.action job.grants) ≡ true)
          × (rec.action ≡ action_next_capture
              → Payload rec.payload (WithinBounds fl job.next_capture_bounds)))

  abbrev pub HostState : Type 0
  HostState = Host fl mem codec

  -- Either the record was written, and the guest is told 0, or nothing was and it is told 1.
  abbrev pub Outcome : Record → HostState → HostState × ℕ → Type 0
  Outcome rec h (h', code) =
      ((code ≡ 0) × (h' ≡ record h { written = h.written ++ rec ∷ [] }) × Permitted h.job rec)
      ⊎ ((code ≡ 1) × ((h' ≡ h) ⊎ (h' ≡ record h { saw_error = true })))

  forward-Outcome :
      (stdout_ok : Bool) (rec : Record) (h : HostState)
      → Permitted h.job rec
      → Outcome rec h (forward fl mem codec stdout_ok rec h)
  unfolding forward
  forward-Outcome stdout_ok rec h p = elim (Bool-cases (codec.can_write rec && stdout_ok)) [
    | inl wrote ↦ rw wrote (inl (refl, refl, p))
    | inr failed ↦ rw failed (inr (refl, inr refl))
  ]

  grant-parts :
      (rec : Record) (h : HostState)
      → check_record_grant rec h.job.grants ≡ none
      → (rec.action == action_state) ≡ false
      → is_terminal rec.action ≡ false
      → (is_pier_code_action rec.action ≡ true) × (is_on (lookup rec.action h.job.grants) ≡ true)
  unfolding check_record_grant grant_allows
  grant-parts rec h ok s t = elim (Bool-cases (is_pier_code_action rec.action)) [
    | inl listed ↦ (listed, ground arith)
    | inr unlisted ↦ absurd (ground arith)
  ]

  emit_capture-Outcome :
      (stdout_ok : Bool) (rec : Record) (h : HostState)
      → (Payload rec.payload (WithinBounds fl h.job.next_capture_bounds) → Permitted h.job rec)
      → Outcome rec h (emit_capture fl mem codec stdout_ok rec h)
  unfolding emit_capture
  emit_capture-Outcome stdout_ok rec h permit =
      elim (Option-cases (capture_payload fl mem codec rec.payload)) [
        | inl bad ↦ rw (bad, emit_capture) (inr (refl, inr refl))
        | inr (p, read) ↦
            elim (Option-cases (validate_next_capture fl h.job.next_capture_bounds p)) [
              | inr (e, refused) ↦ rw (read, emit_capture, refused) (inr (refl, inr refl))
              | inl valid ↦
                  let same : emit_capture fl mem codec stdout_ok rec h
                      ≡ forward fl mem codec stdout_ok rec h =
                    rw (read, emit_capture, valid) refl in
                  subst (Outcome rec h) (sym same) (
                    forward-Outcome stdout_ok rec h (
                      permit (
                        p,
                        read,
                        (validate_next_capture-WithinBounds fl h.job.next_capture_bounds p).0 valid,
                      )))
            ]
      ]

  -- An action of the menu that is granted.
  granted-Outcome :
      (stdout_ok : Bool) (rec : Record) (h : HostState)
      → (rec.action == action_state) ≡ false
      → is_terminal rec.action ≡ false
      → check_record_grant rec h.job.grants ≡ none
      → Outcome rec h (emit_record fl mem codec stdout_ok rec h)
  unfolding emit_record
  granted-Outcome stdout_ok rec h other plain granted =
      let (listed, on) = grant-parts rec h granted other plain in
      let permit : (rec.action ≡ action_next_capture
            → Payload rec.payload (WithinBounds fl h.job.next_capture_bounds))
          → Permitted h.job rec =
        λ within. inr (
          λ e. absurd (ground (arith, eq_iff rec.action action_state)),
          λ e. absurd (ground (arith, eq_iff rec.action action_done)),
          λ e. absurd (ground (arith, eq_iff rec.action action_error)),
          listed,
          on,
          within,
        ) in
      elim (Bool-cases (rec.action == action_next_capture)) [
        | inl capture ↦
            let same : emit_record fl mem codec stdout_ok rec h
                ≡ emit_capture fl mem codec stdout_ok rec h =
              rw (other, emit_record, plain, granted, capture) refl in
            subst (Outcome rec h) (sym same)
              (emit_capture-Outcome stdout_ok rec h (λ w. permit (λ _. w)))
        | inr harmless ↦
            let same : emit_record fl mem codec stdout_ok rec h
                ≡ forward fl mem codec stdout_ok rec h =
              rw (other, emit_record, plain, granted, harmless) refl in
            subst (Outcome rec h) (sym same) (
              forward-Outcome stdout_ok rec h
                (permit (λ e. absurd (ground (arith, eq_iff rec.action action_next_capture)))))
      ]

  -- By the action: a state, a record of the runner's own, or another.
  pub emit_record-Outcome :
      (stdout_ok : Bool) (rec : Record) (h : HostState)
      → Outcome rec h (emit_record fl mem codec stdout_ok rec h)
  unfolding emit_record
  emit_record-Outcome stdout_ok rec h = elim (Bool-cases (rec.action == action_state)) [
    | inl state ↦ elim (Bool-cases (ltb max_state_bytes (length rec.payload))) [
      | inl big ↦ rw (state, emit_record, big) (inr (refl, inl refl))
      | inr small ↦
          let same : emit_record fl mem codec stdout_ok rec h
              ≡ forward fl mem codec stdout_ok rec h =
            rw (state, emit_record, small) refl in
          subst (Outcome rec h) (sym same) (
            forward-Outcome stdout_ok rec h
              (inl (ground (arith, eq_iff rec.action action_state), ground arith)))
    ]
    | inr other ↦ elim (Bool-cases (is_terminal rec.action)) [
      | inl terminal ↦ rw (other, emit_record, terminal) (inr (refl, inl refl))
      | inr plain ↦ elim (Option-cases (check_record_grant rec h.job.grants)) [
        | inr (e, refused) ↦ rw (other, emit_record, plain, refused) (inr (refl, inr refl))
        | inl granted ↦ granted-Outcome stdout_ok rec h other plain granted
      ]
    ]
  ]

  -- The answer 0 and a record read at that place, permitted and written; or the answer 1 and
  -- nothing written.
  abbrev pub Answered : mem.M → ℕ → ℕ → HostState → HostState × ℕ → Type 0
  Answered m ptr n h (h', code) =
      ((code ≡ 0)
        × ((raw : Bytes) × (rec : Record) × (read_mem fl mem codec m ptr n ≡ some raw)
            × (codec.read_record raw ≡ some rec)
            × Permitted h.job rec
            × (h' ≡ record h { written = h.written ++ rec ∷ [] })))
      ⊎ ((code ≡ 1) × ((h' ≡ h) ⊎ (h' ≡ record h { saw_error = true })))

  answer :
      (m : mem.M) (ptr n : ℕ) (h : HostState) (raw : Bytes) (rec : Record) (result : HostState × ℕ)
      → read_mem fl mem codec m ptr n ≡ some raw
      → codec.read_record raw ≡ some rec
      → Outcome rec h result
      → Answered m ptr n h result
  answer m ptr n h raw rec (h', code) read parsed (inl (c, w, p)) =
      inl (c, (raw, rec, read, parsed, p, w))
  answer m ptr n h raw rec (h', code) read parsed (inr o) = inr o

  -- What a guest's emit comes to, with any bytes in any memory: either a record is read from them that the job permits, it alone is written and the guest is told 0; or nothing is written, at most the error mark of the run is set, and the guest is told 1.
  pub emit-Answered :
      (stdout_ok : Bool) (m : mem.M) (ptr n : ℕ) (h : HostState)
      → Answered m ptr n h (emit fl mem codec stdout_ok m ptr n h)
  unfolding emit
  emit-Answered stdout_ok m ptr n h = elim (Option-cases (read_mem fl mem codec m ptr n)) [
    | inl missing ↦ rw (missing, emit) (inr (refl, inr refl))
    | inr (raw, read) ↦ elim (Option-cases (codec.read_record raw)) [
      | inl bad ↦
          let same : emit fl mem codec stdout_ok m ptr n h ≡ mark_error fl mem codec h =
            rw (read, emit, bad) refl in
          subst (Answered m ptr n h) (sym same) (inr (refl, inr refl))
      | inr (rec, parsed) ↦
          let same : emit fl mem codec stdout_ok m ptr n h
              ≡ emit_record fl mem codec stdout_ok rec h =
            rw (read, emit, parsed) refl in
          subst (Answered m ptr n h) (sym same) (
            answer m ptr n h raw rec (emit_record fl mem codec stdout_ok rec h) read parsed
              (emit_record-Outcome stdout_ok rec h))
    ]
  ]
