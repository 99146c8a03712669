-- ===== src/Pier/Host.antt =====
-- SaucepanServer/task-server/cmd/saucepan-runner/host.go: the functions that the runner lends to
-- the guest.
pub mod Emit
pub mod Confined
pub mod Recv
use saucepan.Common.{
  ℕ, ◌+◌, ◌*◌, ◌-◌, ◌^◌, ◌%◌, String, Bool, true, false, ◌&&◌, ◌||◌, not, Option, none, some, List,
  [], ◌∷◌, ◌++◌, ltb, leb, ◌==◌, nat_eq, string_eq, if◌then◌else◌, length, take, drop, Mapping,
}
use saucepan.Common.Float.{Float}
use saucepan.Pier.Actions.{
  Bytes, Record, action_state, action_next_capture, action_read_frame, action_board_read,
  action_list_piers, is_terminal, check_record_grant, grant_allows, GrantRefusal,
}
use saucepan.Pier.Capture.{
  NextCapturePayload, NextCaptureBounds, validate_next_capture, CaptureError,
}

abbrev pub max_state_bytes : ℕ
max_state_bytes = 64 * 2 ^ 10

abbrev pub uint32 : ℕ → ℕ
uint32 n = n % 2 ^ 32

-- The linear memory of a guest, of the wasm runtime.
pub record Memory : Type 1 where
  pub M : Type 0
  pub read : M → ℕ → ℕ → Option Bytes
  pub write : M → ℕ → Bytes → Option M

-- encoding/json on the records of the protocol, and the FITS reader.
pub record Codec (fl : Float) : Type 0 where
  pub read_record : Bytes → Option Record
  pub read_capture : Bytes → Option (NextCapturePayload fl)
  -- json.Marshal of a record: it fails on a payload that is no JSON.
  pub can_write : Record → Bool
  pub read_frame : String → Option (Bytes → fl.F)
  pub nan : fl.F

module _ (fl : Float) (mem : Memory) (codec : Codec fl) where
  -- The fields of RunnerJob that the host functions read; the notes and the roster as the JSON
  -- that json.Marshal makes of them.
  pub record RunnerJob : Type 0 where
    pub frame_path : String
    pub grants : Mapping Bool
    pub board_notes : Option Bytes
    pub campaign_piers : Option Bytes
    pub next_capture_bounds : NextCaptureBounds fl

  pub record Host : Type 0 where
    pub job : RunnerJob
    -- the records written so far
    pub written : List Record
    pub frame : Option (Bytes → fl.F)
    pub frame_done : Bool
    pub ret : Bytes
    pub ret_pos : ℕ
    pub saw_error : Bool

  abbrev pub new_host : RunnerJob → Host
  new_host job = record {
    job = job;
    written = [];
    frame = none;
    frame_done = false;
    ret = [];
    ret_pos = 0;
    saw_error = false;
  }

  -- nil for no bytes, and for a read outside of the memory
  unfoldable pub read_mem : mem.M → ℕ → ℕ → Option Bytes
  read_mem m ptr n = if n == 0 then none else mem.read m ptr n

  abbrev pub mark_error : Host → Host × ℕ
  mark_error h = (record h { saw_error = true }, 1)

  -- The Boolean: whether stdout takes the line.
  unfoldable pub forward : Bool → Record → Host → Host × ℕ
  forward stdout_ok rec h =
      if codec.can_write rec && stdout_ok
      then (record h { written = h.written ++ rec ∷ [] }, 0)
      else mark_error h

  -- A next_capture payload as it is decoded: the zero value for none.
  abbrev pub capture_payload : Bytes → Option (NextCapturePayload fl)
  capture_payload payload =
      if ltb 0 (length payload)
      then codec.read_capture payload
      else some (record { exposure_sec = none; gain = none; filter = none })

  unfoldable pub emit_capture : Bool → Record → Host → Host × ℕ
  unfolding forward
  emit_capture stdout_ok rec h = elim (capture_payload rec.payload) [
    | none ↦ mark_error h
    | some p ↦ elim (validate_next_capture fl h.job.next_capture_bounds p) [
      | some _ ↦ mark_error h
      | none ↦ forward stdout_ok rec h
    ]
  ]

  -- What emit does with the record it has read.
  unfoldable pub emit_record : Bool → Record → Host → Host × ℕ
  unfolding forward emit_capture
  emit_record stdout_ok rec h =
      if rec.action == action_state
      then (if ltb max_state_bytes (length rec.payload) then (h, 1) else forward stdout_ok rec h)
      else if is_terminal rec.action
      then (h, 1)
      else elim (check_record_grant rec h.job.grants) [
        | some _ ↦ mark_error h
        | none ↦
            if rec.action == action_next_capture
            then emit_capture stdout_ok rec h
            else forward stdout_ok rec h
      ]

  unfoldable pub emit : Bool → mem.M → ℕ → ℕ → Host → Host × ℕ
  unfolding read_mem emit_record
  emit stdout_ok m ptr n h = elim (read_mem m ptr n) [
    | none ↦ mark_error h
    | some raw ↦ elim (codec.read_record raw) [
      | none ↦ mark_error h
      | some rec ↦ emit_record stdout_ok rec h
    ]
  ]

  -- The frame is read once, on the first call that is granted and has a key.
  abbrev pub load_frame : Host → Host
  load_frame h = if h.frame_done then h else record h {
    frame_done = true;
    frame = if h.job.frame_path == "" then none else codec.read_frame h.job.frame_path;
  }

  abbrev pub stat_of : Option (Bytes → fl.F) → Bytes → fl.F
  stat_of none key = codec.nan
  stat_of (some stat) key = stat key

  unfoldable pub frame_stat : mem.M → ℕ → ℕ → Host → Host × fl.F
  unfolding read_mem
  frame_stat m key_ptr key_len h =
      if not (grant_allows h.job.grants action_read_frame)
      then (h, codec.nan)
      else elim (read_mem m key_ptr key_len) [
        | none ↦ (h, codec.nan)
        | some key ↦ (load_frame h, stat_of (load_frame h).frame key)
      ]

  unfoldable pub stage : Option Bytes → Host → Host × ℕ
  stage none h = (h, 0)
  stage (some b) h = (record h { ret = b; ret_pos = 0 }, uint32 (length b))

  unfoldable pub board_read : Host → Host × ℕ
  unfolding stage
  board_read h =
      if not (grant_allows h.job.grants action_board_read)
      then (h, 0)
      else stage h.job.board_notes h

  unfoldable pub list_piers : Host → Host × ℕ
  unfolding stage
  list_piers h =
      if not (grant_allows h.job.grants action_list_piers)
      then (h, 0)
      else stage h.job.campaign_piers h

  abbrev pub chunk_of : ℕ → Host → Bytes
  chunk_of dst_cap h =
      let chunk = drop h.ret_pos h.ret in
      if ltb dst_cap (uint32 (length chunk)) then take dst_cap chunk else chunk

  unfoldable pub recv : mem.M → ℕ → ℕ → Host → mem.M × Host × ℕ
  recv m dst_ptr dst_cap h =
      if leb (length h.ret) h.ret_pos || dst_cap == 0
      then (m, h, 0)
      else elim (mem.write m dst_ptr (chunk_of dst_cap h)) [
        | none ↦ (m, h, 0)
        | some m' ↦ (
          m',
          record h { ret_pos = h.ret_pos + length (chunk_of dst_cap h) },
          uint32 (length (chunk_of dst_cap h)),
        )
      ]
