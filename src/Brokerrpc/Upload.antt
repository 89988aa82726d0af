-- ===== src/Brokerrpc/Upload.antt =====
-- internal/brokerrpc/upload.go: the fileUpload transport. The writer goroutine feeds a pipe that the
-- HTTP sender reads; the sender may close it early, so `send` also tells how many writes it takes
-- (`none`: all of them): the header of the params field, the field, the header of the file part, and
-- the chunks. Marshalling the params and building the request, which fail for a malformed URL alone,
-- and the closing boundary, which fails only with a closed pipe, are left out.
pub mod Chunks
pub mod Verdict
use Prim.Native.String.{String}
use ocu_rclone_filestore.Base.{
  ℕ, zero, suc, ◌-◌, Text, Option, none, some, Bool, true, false, not, ◌&&◌, GoError, sentinel,
  wrap, is, Sentinel, Result, ok, err, List, [], ◌∷◌, ◌++◌, ltb, if◌then◌else◌, length, is_empty,
}
use ocu_rclone_filestore.Base.Int.{ℤ}
use ocu_rclone_filestore.Brokerrpc.Intent.{Op, stamp_auth_meta}
use ocu_rclone_filestore.Brokerrpc.Messages.{Fields, WireRequest}
use ocu_rclone_filestore.Brokerrpc.Reader.{
  Reader, Outcome, going, eof, failed, ReadResult, read, reads, payload, ending,
}
use ocu_rclone_filestore.Brokerrpc.Status.{Seconds, max_error_body_bytes}
use ocu_rclone_filestore.Brokerrpc.Client.{
  Client, Ack, Reply, responded, request, is_failure, failure,
}

unfoldable pub source_chunk_size : ℕ → ℕ
source_chunk_size ceiling = if ltb ceiling 1 then 1 else ceiling

-- The chunks written to the file part so far, and the error of the writer.
pub record Written : Type 0 where
  pub chunks : List Text
  pub error : Option GoError

abbrev pub refuses : Option ℕ → Bool
refuses (some zero) = true
refuses (some (suc n)) = false
refuses none = false

abbrev pub one_less : Option ℕ → Option ℕ
one_less none = none
one_less (some n) = some (n - 1)

-- How the writer goes on after a read: `rest` is the rest of the loop.
abbrev pub after_read : List Text → Outcome → Option Written → Option Written
after_read chunks going rest = rest
after_read chunks eof rest = some (record { chunks = chunks; error = none })
after_read chunks (failed e) rest =
    some (record { chunks = chunks; error = some (wrap "read source: %w" [] e) })

-- The loop of writeUploadMultipart over the source; the last argument but one is what the pipe still
-- takes. A read with no bytes writes nothing. `none` means that the fuel ran out.
unfoldable pub write_file_part : ℕ → ℕ → Reader → Option ℕ → List Text → Option Written
unfolding read
write_file_part chunk zero src pipe chunks = none
write_file_part chunk (suc fuel) src pipe chunks =
    let result = read chunk src in
    let skipped = write_file_part chunk fuel result.rest pipe chunks in
    let written =
      write_file_part chunk fuel result.rest (one_less pipe) (chunks ++ result.bytes ∷ []) in
    if is_empty result.bytes
    then after_read chunks result.outcome skipped
    else if refuses pipe
    then some (record {
      chunks = chunks;
      error = some (wrap "write file chunk: %w" [] (sentinel Sentinel.closed_pipe));
    })
    else after_read (chunks ++ result.bytes ∷ []) result.outcome written

unfoldable pub is_pipe_closure : GoError → Bool
is_pipe_closure e = is e Sentinel.closed_pipe

-- io.ReadAll over the first `limit` bytes of a body: the fault that it meets, if any.
unfoldable pub limited_fault : ℕ → Reader → Option GoError
unfolding ending payload
limited_fault limit r = if ltb (length (payload r)) limit then ending r else none

abbrev pub write_verdict : Option GoError → Result Ack
write_verdict none = ok tt
write_verdict (some e) =
    if is_pipe_closure e then ok tt else err (wrap "brokerrpc: fileUpload write body: %w" [] e)

abbrev pub success_verdict : Option GoError → Option GoError → Result Ack
success_verdict (some e) write_err = err (wrap "brokerrpc: fileUpload read response body: %w" [] e)
success_verdict none write_err = write_verdict write_err

-- The verdict of an upload from the reply and the writer's error.
unfoldable pub upload_verdict : (Text → Option Seconds) → Reply → Option GoError → Result Ack
unfolding limited_fault is_pipe_closure
upload_verdict parse_float (Reply.failed e) write_err = err (wrap "brokerrpc: fileUpload: %w" [] e)
upload_verdict parse_float (responded r) write_err =
    if is_failure r.status
    then err (failure parse_float r)
    else success_verdict (limited_fault max_error_body_bytes r.body) write_err

abbrev pub writer_error : Option Written → Option GoError
writer_error none = none
writer_error (some written) = written.error

-- A write in front of the file part, and the rest of the writer with what the pipe still takes.
abbrev pub pipe_write : String → Option ℕ → (Option ℕ → Option Written) → Option Written
pipe_write format pipe rest =
    if refuses pipe
    then some
        (record { chunks = []; error = some (wrap format [] (sentinel Sentinel.closed_pipe)) })
    else rest (one_less pipe)

-- writeUploadMultipart, with fuel for each event and byte of the source and one round more.
unfoldable pub run_writer : ℕ → Reader → Option ℕ → Option Written
unfolding write_file_part source_chunk_size reads
run_writer ceiling src pipe = pipe_write "create params field: %w" pipe (λ p1.
    pipe_write "write params field: %w" p1 (λ p2.
      pipe_write "create file part: %w" p2
        (λ p3. write_file_part (source_chunk_size ceiling) (suc (reads src)) src p3 [])))

module _ {W : Type 0} (send : WireRequest → Reader → W → W × Reply × Option ℕ)
    (parse_float : Text → Option Seconds) (multipart : Text) where
  unfoldable pub upload : Client → Text → Reader → ℤ → Bool → W → W × Result Ack
  unfolding upload_verdict run_writer request stamp_auth_meta
  upload c path src total_bytes overwrite w = elim (stamp_auth_meta Op.file_upload) [
    | err e ↦ (w, err e)
    | ok am ↦
        let (w', reply, pipe) =
          send (request c Op.file_upload multipart am (Fields.upload path total_bytes overwrite))
            src w in
        (
          w',
          upload_verdict parse_float reply (writer_error (run_writer c.message_ceiling src pipe)),
        )
  ]
