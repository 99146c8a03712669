-- ===== src/Pier/Host/Confined.antt =====
-- A whole run of a guest: any sequence of calls.
use saucepan.Common.{
  ℕ, ◌≡◌, refl, inl, inr, Bool, List, [], ◌∷◌, arith, string_eq, All, All-append, Option-cases,
  subst, sym,
}
use saucepan.Common.Float.{Float}
use saucepan.Pier.Actions.{Record}
use saucepan.Pier.Host.{
  Memory, Codec, RunnerJob, Host, new_host, read_mem, emit_record, emit, frame_stat, board_read,
  list_piers, recv,
}
use saucepan.Pier.Host.Emit.{Permitted, Outcome, emit_record-Outcome}

module _ (fl : Float) (mem : Memory) (codec : Codec fl) where
  -- The calls of the six host functions; log changes nothing.
  pub data Call : Type 0 where
    emits : Bool → ℕ → ℕ → Call
    reads_stat : ℕ → ℕ → Call
    reads_board lists_piers : Call
    receives : ℕ → ℕ → Call

  -- A guest that runs: it may write its memory as it likes between two calls.
  abbrev pub call : mem.M → Call → Host fl mem codec → Host fl mem codec
  call m (emits stdout_ok ptr n) h = (emit fl mem codec stdout_ok m ptr n h).0
  call m (reads_stat ptr n) h = (frame_stat fl mem codec m ptr n h).0
  call m reads_board h = (board_read fl mem codec h).0
  call m lists_piers h = (list_piers fl mem codec h).0
  call m (receives ptr dst_cap) h = (recv fl mem codec m ptr dst_cap h).1

  abbrev pub run_calls : List (mem.M × Call) → Host fl mem codec → Host fl mem codec
  run_calls [] h = h
  run_calls ((m, c) ∷ calls) h = run_calls calls (call m c h)

  abbrev pub IsConfined : RunnerJob fl mem codec → Host fl mem codec → Type 0
  IsConfined job h = (h.job ≡ job) × All (Permitted fl mem codec job) h.written

  Outcome-IsConfined :
      (job : RunnerJob fl mem codec) (rec : Record) (h : Host fl mem codec)
      (result : Host fl mem codec × ℕ)
      → Outcome fl mem codec rec h result
      → IsConfined job h
      → IsConfined job result.0
  Outcome-IsConfined job rec h (h', code) (inl (_, e, p)) (same, all) =
      subst (IsConfined job) (sym e) (
        same,
        All-append (Permitted fl mem codec job) h.written (rec ∷ [])
            (subst (λ j. Permitted fl mem codec j rec) same p, tt) all,
      )
  Outcome-IsConfined job rec h (h', code) (inr (_, inl e)) c = subst (IsConfined job) (sym e) c
  Outcome-IsConfined job rec h (h', code) (inr (_, inr e)) c = subst (IsConfined job) (sym e) c

  emit-IsConfined :
      (job : RunnerJob fl mem codec) (stdout_ok : Bool) (m : mem.M) (ptr n : ℕ)
      (h : Host fl mem codec)
      → IsConfined job h
      → IsConfined job (emit fl mem codec stdout_ok m ptr n h).0
  unfolding emit
  emit-IsConfined job stdout_ok m ptr n h c = elim (Option-cases (read_mem fl mem codec m ptr n)) [
    | inl missing ↦ rw (missing, emit) c
    | inr (raw, read) ↦ elim (Option-cases (codec.read_record raw)) [
      | inl bad ↦ rw (read, emit, bad) c
      | inr (rec, parsed) ↦
          let same : emit fl mem codec stdout_ok m ptr n h
              ≡ emit_record fl mem codec stdout_ok rec h =
            rw (read, emit, parsed) refl in
          subst (λ r. IsConfined job r.0) (sym same)
            (Outcome-IsConfined job rec h (emit_record fl mem codec stdout_ok rec h)
              (emit_record-Outcome fl mem codec stdout_ok rec h) c)
    ]
  ]

  call-IsConfined :
      (job : RunnerJob fl mem codec) (m : mem.M) (c : Call) (h : Host fl mem codec)
      → IsConfined job h
      → IsConfined job (call m c h)
  unfolding frame_stat board_read list_piers recv
  call-IsConfined job m (emits stdout_ok ptr n) h k = emit-IsConfined job stdout_ok m ptr n h k
  call-IsConfined job m (reads_stat ptr n) h k = ground arith
  call-IsConfined job m reads_board h k = ground arith
  call-IsConfined job m lists_piers h k = ground arith
  call-IsConfined job m (receives ptr dst_cap) h k = ground arith

  pub new_host-IsConfined :
      (job : RunnerJob fl mem codec) → IsConfined job (new_host fl mem codec job)
  new_host-IsConfined job = (refl, tt)

  pub run_calls-IsConfined :
      (job : RunnerJob fl mem codec) (calls : List (mem.M × Call)) (h : Host fl mem codec)
      → IsConfined job h
      → IsConfined job (run_calls calls h)
  run_calls-IsConfined job [] h k = k
  run_calls-IsConfined job ((m, c) ∷ calls) h k =
      run_calls-IsConfined job calls (call m c h) (call-IsConfined job m c h k)

  -- The sandbox holds: whatever calls a guest makes, in any order and with any memory contents, each record that it gets written is either a state of at most 64 KiB, or an action of the menu that the job grants (never one of the runner's own `done` and `error`) and, if it asks for the next capture, a request within the job's limits.
  pub run_calls-Permitted :
      (job : RunnerJob fl mem codec) (calls : List (mem.M × Call))
      → All (Permitted fl mem codec job) (run_calls calls (new_host fl mem codec job)).written
  run_calls-Permitted job calls =
      (run_calls-IsConfined job calls (new_host fl mem codec job) (new_host-IsConfined job)).1
