-- ===== src/Pier/Host/Recv.antt =====
-- Draining what board_read and list_piers have staged.
use saucepan.Common.{
  ℕ, zero, suc, ◌+◌, ◌-◌, ◌^◌, ◌≤◌, ◌<◌, ◌≡◌, refl, inl, inr, true, false, ◌||◌, Option, none, some,
  List, [], ◌∷◌, ◌++◌, arith, ltb, leb, ◌==◌, nat_eq, Bool-cases, if◌then◌else◌, length, take, drop,
  length-drop, length-take, subst, sym, ap, ◌∙◌, min,
}
use saucepan.Common.Float.{Float}
use saucepan.Pier.Actions.{Bytes, action_board_read, grant_allows}
use saucepan.Pier.Host.{Memory, Codec, Host, read_mem, board_read, recv, uint32, chunk_of}

module _ {ℓ} {A : Type ℓ} where
  drop-nil : (n : ℕ) → drop {A = A} n [] ≡ []
  drop-nil zero = refl
  drop-nil (suc n) = refl

  take-all : (n : ℕ) (xs : List A) → length xs ≤ n → take n xs ≡ xs
  take-all zero [] h = refl
  take-all zero (x ∷ xs) h = absurd (omega arith)
  take-all (suc n) [] h = refl
  take-all (suc n) (x ∷ xs) h = ap (λ r. x ∷ r) (take-all n xs (omega arith))

  drop-all : (n : ℕ) (xs : List A) → length xs ≤ n → drop n xs ≡ []
  drop-all zero [] h = refl
  drop-all zero (x ∷ xs) h = absurd (omega arith)
  drop-all (suc n) [] h = refl
  drop-all (suc n) (x ∷ xs) h = drop-all n xs (omega arith)

  drop-drop : (a b : ℕ) (xs : List A) → drop b (drop a xs) ≡ drop (a + b) xs
  drop-drop zero b xs = ap (λ n. drop n xs) (omega arith)
  drop-drop (suc a) b [] = drop-nil b ∙ sym (drop-nil (suc a + b))
  drop-drop (suc a) b (x ∷ xs) =
      let next : suc (a + b) ≡ suc a + b = omega arith in
      drop-drop a b xs ∙ ap (λ n. drop n (x ∷ xs)) next

  drop-length-take : (n : ℕ) (xs : List A) → take n xs ++ drop (length (take n xs)) xs ≡ xs
  drop-length-take zero xs = refl
  drop-length-take (suc n) [] = refl
  drop-length-take (suc n) (x ∷ xs) = ap (λ r. x ∷ r) (drop-length-take n xs)

module _ (fl : Float) (mem : Memory) (codec : Codec fl) where
  -- A guest's loop: receive into one buffer until nothing comes, and join the pieces; `none` if
  -- the fuel runs out or its own memory cannot be read.
  abbrev pub join : Option Bytes → Option Bytes → Option Bytes
  join (some a) (some b) = some (a ++ b)
  join _ _ = none

  abbrev pub drain : ℕ → ℕ → ℕ → mem.M → Host fl mem codec → Option Bytes
  drain zero ptr room m h = none
  drain (suc fuel) ptr room m h =
      let (m', h', n) = recv fl mem codec m ptr room h in
      let rest = drain fuel ptr room m' h' in
      if n == 0 then some [] else join (read_mem fl mem codec m' ptr n) rest

  -- A guest's buffer takes up to `room` bytes, and they are read back.
  abbrev pub IsBuffer : ℕ → ℕ → Type 0
  IsBuffer ptr room =
      (m : mem.M) (bytes : Bytes)
      → length bytes ≤ room
      → (m' : mem.M) × (mem.write m ptr bytes ≡ some m')
        × (mem.read m' ptr (length bytes) ≡ some bytes)

  chunk :
      (room : ℕ) (h : Host fl mem codec)
      → length h.ret < 2 ^ 32
      → chunk_of fl mem codec room h ≡ take room (drop h.ret_pos h.ret)
  chunk room h short =
      let size = length-drop h.ret_pos h.ret in
      elim (Bool-cases (ltb room (uint32 (length (drop h.ret_pos h.ret))))) [
        | inl cut ↦ rw cut refl
        | inr whole ↦ rw whole (sym (take-all room (drop h.ret_pos h.ret) (ground (arith, size))))
      ]

  abbrev piece : ℕ → Host fl mem codec → Bytes
  piece room h = take room (drop h.ret_pos h.ret)

  abbrev advance : ℕ → Host fl mem codec → Host fl mem codec
  advance room h = record h { ret_pos = h.ret_pos + length (piece room h) }

  length-piece :
      (room : ℕ) (h : Host fl mem codec)
      → length (piece room h) ≡ min room (length h.ret - h.ret_pos)
  length-piece room h =
      omega (arith, length-take room (drop h.ret_pos h.ret), length-drop h.ret_pos h.ret)

  recv-piece :
      (ptr room : ℕ) (m m' : mem.M) (h : Host fl mem codec)
      → length h.ret < 2 ^ 32
      → h.ret_pos < length h.ret
      → 0 < room
      → mem.write m ptr (piece room h) ≡ some m'
      → recv fl mem codec m ptr room h ≡ (m', advance room h, length (piece room h))
  unfolding recv
  recv-piece ptr room m m' h short left fits wrote =
      let opened : (leb (length h.ret) h.ret_pos || room == 0) ≡ false = ground arith in
      let size : uint32 (length (piece room h)) ≡ length (piece room h) =
        ground (arith, length-piece room h) in
      let cut = chunk room h short in
      let wrote_chunk : mem.write m ptr (chunk_of fl mem codec room h) ≡ some m' =
        subst (λ b. mem.write m ptr b ≡ some m') (sym cut) wrote in
      rw (opened, recv, wrote_chunk)
        (ap (λ (b : Bytes). (m', record h { ret_pos = h.ret_pos + length b }, uint32 (length b)))
            cut
          ∙ ap (λ n. (m', advance room h, n)) size)

  recv-end :
      (ptr room : ℕ) (m : mem.M) (h : Host fl mem codec)
      → length h.ret ≤ h.ret_pos
      → recv fl mem codec m ptr room h ≡ (m, h, 0)
  unfolding recv
  recv-end ptr room m h done =
      let closed : (leb (length h.ret) h.ret_pos || room == 0) ≡ true = ground arith in
      rw (closed, recv) refl

  drain-rest :
      (fuel ptr room : ℕ) (m : mem.M) (h : Host fl mem codec)
      → IsBuffer ptr room
      → length h.ret < 2 ^ 32
      → 0 < room
      → length h.ret - h.ret_pos < fuel
      → drain fuel ptr room m h ≡ some (drop h.ret_pos h.ret)
  unfolding read_mem
  drain-rest zero ptr room m h buffer short fits enough = absurd (omega arith)
  drain-rest (suc fuel) ptr room m h buffer short fits enough =
      elim (Bool-cases (leb (length h.ret) h.ret_pos)) [
        | inl done ↦
            let same = recv-end ptr room m h (ground arith) in
            rw same (ap (λ b. some b) (sym (drop-all h.ret_pos h.ret (ground arith))))
        | inr left ↦
            let (m', wrote, read) = buffer m (piece room h) (ground (arith, length-piece room h)) in
            let same = recv-piece ptr room m m' h short (ground arith) fits wrote in
            let size = length-piece room h in
            let some_left : (length (piece room h) == 0) ≡ false = ground (arith, size) in
            let rest =
              drain-rest fuel ptr room m' (advance room h) buffer short fits
                (ground (arith, size)) in
            rw (same, some_left, read, rest)
              (ap (λ b. some (piece room h ++ b))
                  (sym (drop-drop h.ret_pos (length (piece room h)) h.ret))
                ∙ ap (λ b. some b) (drop-length-take room (drop h.ret_pos h.ret)))
      ]

  -- A guest reads the whole board: with the grant, and a batch of notes below 4 GiB, board_read tells its exact length, and a loop of recv into any buffer of the guest that can hold a byte returns the batch byte for byte, within as many calls as it has bytes and one more.
  pub board_read-drain :
      (ptr room : ℕ) (m : mem.M) (h : Host fl mem codec) (notes : Bytes)
      → IsBuffer ptr room
      → 0 < room
      → grant_allows h.job.grants action_board_read ≡ true
      → h.job.board_notes ≡ some notes
      → length notes < 2 ^ 32
      → let (h', n) = board_read fl mem codec h in
        (n ≡ length notes) × (drain (suc (length notes)) ptr room m h' ≡ some notes)
  unfolding board_read
  board_read-drain ptr room m h notes buffer fits granted given short =
      let staged : board_read fl mem codec h
          ≡ (record h { ret = notes; ret_pos = 0 }, uint32 (length notes)) =
        rw (granted, board_read, given) refl in
      rw staged (
        ground arith,
        drain-rest (suc (length notes)) ptr room m (record h { ret = notes; ret_pos = 0 }) buffer
            short fits (omega arith),
      )
