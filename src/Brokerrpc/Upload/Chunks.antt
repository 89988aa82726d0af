-- ===== src/Brokerrpc/Upload/Chunks.antt =====
-- The writer loop of internal/brokerrpc/upload.go and the chunks that it writes.
use ocu_rclone_filestore.Base.{
  ℕ, zero, suc, ◌≤◌, ◌<◌, ◌≡◌, refl, ap, ◌∙◌, arith, Text, Option, none, some, GoError, wrap, List,
  [], ◌∷◌, ◌++◌, append_assoc, append-nil, length, take, length-take, All, All-map, ◌⊎◌, Bool-cases,
  inl, inr, is_empty, true, false,
}
use ocu_rclone_filestore.Brokerrpc.Reader.{
  Reader, deliver, idle, fault, read, reads, payload, ending, leftover,
}
use ocu_rclone_filestore.Brokerrpc.Reader.Leftover.{
  payload-leftover, ending-leftover, reads-leftover,
}
use ocu_rclone_filestore.Brokerrpc.Upload.{Written, write_file_part, source_chunk_size, run_writer}

-- The bytes of the chunks, one after another.
abbrev pub concat : List Text → Text
concat [] = []
concat (c ∷ cs) = c ++ concat cs

abbrev pub source_error : Option GoError → Option GoError
source_error none = none
source_error (some e) = some (wrap "read source: %w" [] e)

-- A chunk that holds bytes, and no more than the chunk size.
abbrev pub FitsChunk : ℕ → Text → Type 0
FitsChunk chunk c = (0 < length c) × (length c ≤ chunk)

-- With an open pipe the loop ends, and appends to the chunks before it what streams the source.
abbrev Streams : ℕ → Reader → List Text → Option Written → Type 0
Streams chunk src before result =
    (out : List Text) × (result
      ≡ some (record { chunks = before ++ out; error = source_error (ending src) }))
    × (concat out ≡ payload src)
    × All (FitsChunk chunk) out

stream-skip :
    (chunk : ℕ) (bs : Text) (r : Reader) (before : List Text) (result : Option Written)
    → take chunk bs ≡ []
    → Streams chunk (leftover chunk bs r) before result
    → Streams chunk (deliver bs ∷ r) before result
unfolding ending
stream-skip chunk bs r before result e (out, h, c, f) = (
  out,
  h
      ∙ ap (λ t. some (record { chunks = before ++ out; error = source_error t }))
          (ending-leftover chunk bs r),
  c ∙ rw e at (payload-leftover chunk bs r),
  f,
)

stream-write :
    (chunk : ℕ) (bs : Text) (r : Reader) (before : List Text) (result : Option Written)
    → 0 < length (take chunk bs)
    → Streams chunk (leftover chunk bs r) (before ++ take chunk bs ∷ []) result
    → Streams chunk (deliver bs ∷ r) before result
unfolding ending
stream-write chunk bs r before result some_bytes (out, h, c, f) = (
  take chunk bs ∷ out,
  h ∙ rw (append_assoc before (take chunk bs ∷ []) out, ending-leftover chunk bs r),
  ap (◌++◌ (take chunk bs)) c ∙ payload-leftover chunk bs r,
  ((some_bytes, omega (arith, length-take chunk bs)), f),
)

is_empty→[] : (t : Text) → is_empty t ≡ true → t ≡ []
is_empty→[] [] h = refl
is_empty→[] (c ∷ t) h = cc

is_empty→pos : (t : Text) → is_empty t ≡ false → 0 < length t
is_empty→pos [] h = cc
is_empty→pos (c ∷ t) h = omega arith

write_file_part-Streams :
    (chunk fuel : ℕ) (src : Reader) (before : List Text)
    → 0 < chunk
    → reads src < fuel
    → Streams chunk src before (write_file_part chunk fuel src none before)
unfolding write_file_part read reads payload ending
write_file_part-Streams chunk zero src before pos enough = absurd (omega arith)
write_file_part-Streams chunk (suc fuel) [] before pos enough =
    ([], rw (append-nil before), refl, tt)
write_file_part-Streams chunk (suc fuel) (idle ∷ r) before pos enough =
    write_file_part-Streams chunk fuel r before pos (omega arith)
write_file_part-Streams chunk (suc fuel) (fault e ∷ r) before pos enough =
    ([], rw (append-nil before), refl, tt)
write_file_part-Streams chunk (suc fuel) (deliver bs ∷ r) before pos enough =
    let less = reads-leftover chunk bs r pos in
    elim (Bool-cases (is_empty (take chunk bs))) [
      | inl e ↦ rw e (
          stream-skip chunk bs r before _ (is_empty→[] (take chunk bs) e)
            (write_file_part-Streams chunk fuel (leftover chunk bs r) before pos (omega arith)))
      | inr e ↦ rw e (
          stream-write chunk bs r before _ (is_empty→pos (take chunk bs) e) (
            write_file_part-Streams chunk fuel (leftover chunk bs r) (before ++ take chunk bs ∷ [])
              pos (omega arith)))
    ]

source_chunk_size-pos : (ceiling : ℕ) → 0 < source_chunk_size ceiling
unfolding source_chunk_size
source_chunk_size-pos ceiling = ground arith

-- A piece that holds bytes: no more than the ceiling, or one for a ceiling of zero.
abbrev pub FitsCeiling : ℕ → Text → Type 0
FitsCeiling ceiling c = (0 < length c) × ((length c ≤ ceiling) ⊎ ((ceiling ≡ 0) × (length c ≡ 1)))

FitsChunk-FitsCeiling :
    (ceiling : ℕ) (c : Text) → FitsChunk (source_chunk_size ceiling) c → FitsCeiling ceiling c
unfolding source_chunk_size
FitsChunk-FitsCeiling zero c (pos, fits) = (pos, inr (refl, omega arith))
FitsChunk-FitsCeiling (suc n) c (pos, fits) = (pos, inl (ground arith))

-- When the sender reads the whole body, the writer ends, with the source's own fault or none; the
-- bytes it has written are those of the source up to there, and each piece holds at least one byte
-- and at most the message ceiling (or one byte, for a ceiling of zero).
pub run_writer-chunks :
    (ceiling : ℕ) (src : Reader)
    → (out : List Text) × (run_writer ceiling src none
        ≡ some (record { chunks = out; error = source_error (ending src) }))
      × (concat out ≡ payload src)
      × All (FitsCeiling ceiling) out
unfolding run_writer
run_writer-chunks ceiling src =
    let (out, ends, whole, fits) =
      write_file_part-Streams (source_chunk_size ceiling) (suc (reads src)) src []
        (source_chunk_size-pos ceiling) (omega arith) in
    (out, ends, whole, All-map (FitsChunk-FitsCeiling ceiling) out fits)
