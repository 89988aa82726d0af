-- ===== src/Brokerrpc/Download/Bounded.antt =====
-- The bounded reader of internal/brokerrpc/download.go, read by a consumer to the end.
use Prim.Native.Nat.{min}
use ocu_rclone_filestore.Base.{
  ℕ, zero, suc, ◌+◌, ◌-◌, ◌≤◌, ◌<◌, ◌≡◌, refl, sym, ap, ◌∙◌, arith, Text, Option, none, some,
  GoError, Result, ok, err, [], ◌∷◌, ◌++◌, append_assoc, append-nil, length, take, length-append,
  length-take, ltb, leb, if◌then◌else◌, Bool-cases, inl, inr, Bool, true, false,
}
use ocu_rclone_filestore.Brokerrpc.Reader.{
  Reader, deliver, idle, fault, read, reads, payload, ending, leftover, read_all,
}
use ocu_rclone_filestore.Brokerrpc.Reader.Leftover.{
  payload-leftover, ending-leftover, reads-leftover,
}
use ocu_rclone_filestore.Brokerrpc.Download.{
  BoundedBody, over_cap_err, probe, bounded_read, consume, drain, read_on, new_bounded_body,
}

-- What a body is worth under a cap: its bytes if they fit and no fault comes, else an error.
abbrev ended : Option GoError → Text → Result Text
ended none bytes = ok bytes
ended (some e) bytes = err e

unfoldable pub content : ℕ → GoError → Reader → Result Text
unfolding payload ending
content room over r =
    if leb (length (payload r)) room then ended (ending r) (payload r) else err over

abbrev prepend : Text → Result Text → Result Text
prepend got (ok bytes) = ok (got ++ bytes)
prepend got (err e) = err e

probe-content :
    (over : GoError) (r : Reader) (got : Text) (rest : Option (Result Text))
    → consume (got ++ (probe over r).bytes) (probe over r).outcome rest
      ≡ some (prepend got (content 0 over r))
unfolding probe content
probe-content over [] got rest = refl
probe-content over (idle ∷ r) got rest = probe-content over r got rest
probe-content over (fault e ∷ r) got rest = refl
probe-content over (deliver [] ∷ r) got rest = probe-content over r got rest
probe-content over (deliver (c ∷ bs) ∷ r) got rest = ground arith

length-payload-leftover :
    (n : ℕ) (bs : Text) (r : Reader)
    → length (take n bs) + length (payload (leftover n bs r)) ≡ length (payload (deliver bs ∷ r))
length-payload-leftover n bs r =
    sym (length-append (take n bs) (payload (leftover n bs r)))
    ∙ ap length (payload-leftover n bs r)

prepend-ended :
    (e : Option GoError) (got first rest : Text)
    → prepend (got ++ first) (ended e rest) ≡ prepend got (ended e (first ++ rest))
prepend-ended none got first rest = ap ok (append_assoc got first rest)
prepend-ended (some e) got first rest = refl

-- The content after a read of `n` bytes, with these in front, is the content before it.
content-leftover :
    (room n : ℕ) (over : GoError) (bs : Text) (r : Reader) (got : Text)
    → n ≤ room
    → prepend (got ++ take n bs) (content (room - length (take n bs)) over (leftover n bs r))
      ≡ prepend got (content room over (deliver bs ∷ r))
unfolding content
content-leftover room n over bs r got h =
    let total = length-payload-leftover n bs r in
    elim (Bool-cases (leb (length (payload (deliver bs ∷ r))) room)) [
      | inl fits ↦
          let less : leb (length (payload (leftover n bs r))) (room - length (take n bs)) ≡ true =
            ground (arith, total, length-take n bs) in
          rw (fits, less, ending-leftover n bs r)
            (prepend-ended (ending r) got (take n bs) (payload (leftover n bs r))
              ∙ ap (λ t. prepend got (ended (ending r) t)) (payload-leftover n bs r))
      | inr over_cap ↦
          let more : leb (length (payload (leftover n bs r))) (room - length (take n bs)) ≡ false =
            ground (arith, total, length-take n bs) in
          rw (over_cap, more)
    ]

abbrev body_of : Reader → ℕ → ℕ → Bool → BoundedBody
body_of r room limit ranged = record { body = r; remaining = room; limit = limit; ranged = ranged }

bounded_read-suc :
    (n room limit : ℕ) (ranged : Bool) (r : Reader)
    → bounded_read n (body_of r (suc room) limit ranged)
      ≡ read_on (body_of r (suc room) limit ranged) (read (min n (suc room)) r)
unfolding bounded_read
bounded_read-suc n room limit ranged r = let e : leb (suc room) 0 ≡ false = ground arith in rw e

bounded_read-zero :
    (n limit : ℕ) (ranged : Bool) (r : Reader)
    → bounded_read n (body_of r 0 limit ranged)
      ≡ read_on (body_of r 0 limit ranged) (probe (over_cap_err ranged limit) r)
unfolding bounded_read
bounded_read-zero n limit ranged r = refl

content-idle :
    (room : ℕ) (over : GoError) (r : Reader) (got : Text)
    → prepend (got ++ []) (content (room - 0) over r) ≡ prepend got (content room over (idle ∷ r))
unfolding content
content-idle room over r got = let e : room - 0 ≡ room = omega arith in rw (e, append-nil got)

content-end :
    (room : ℕ) (over : GoError) (got : Text) → ok (got ++ []) ≡ prepend got (content room over [])
unfolding content
content-end room over got = ground arith

content-fault :
    (room : ℕ) (over e : GoError) (r : Reader) (got : Text)
    → err e ≡ prepend got (content room over (fault e ∷ r))
unfolding content
content-fault room over e r got = ground arith

content-read_all :
    (limit : ℕ) (over : GoError) (r : Reader)
    → prepend [] (content limit over r)
      ≡ (if ltb limit (length (payload r)) then err over else read_all r)
unfolding content read_all
content-read_all limit over r = ground arith

drain_from :
    (n fuel room limit : ℕ) (ranged : Bool) (r : Reader) (got : Text)
    → 0 < n
    → reads r < fuel
    → drain n fuel (body_of r room limit ranged) got
      ≡ some (prepend got (content room (over_cap_err ranged limit) r))
unfolding drain read reads
drain_from n zero room limit ranged r got pos enough = absurd (omega arith)
drain_from n (suc fuel) zero limit ranged r got pos enough =
    rw (bounded_read-zero n limit ranged r) (
      probe-content (over_cap_err ranged limit) r got (
        drain n fuel (read_on (body_of r 0 limit ranged) (probe (over_cap_err ranged limit) r)).1
          (got ++ (probe (over_cap_err ranged limit) r).bytes)))
drain_from n (suc fuel) (suc room) limit ranged [] got pos enough =
    rw (bounded_read-suc n room limit ranged [])
      (ap some (content-end (suc room) (over_cap_err ranged limit) got))
drain_from n (suc fuel) (suc room) limit ranged (idle ∷ r) got pos enough =
    rw (bounded_read-suc n room limit ranged (idle ∷ r)) (
      drain_from n fuel (suc room - 0) limit ranged r (got ++ []) pos (omega arith)
      ∙ ap some (content-idle (suc room) (over_cap_err ranged limit) r got))
drain_from n (suc fuel) (suc room) limit ranged (fault e ∷ r) got pos enough =
    rw (bounded_read-suc n room limit ranged (fault e ∷ r))
      (ap some (content-fault (suc room) (over_cap_err ranged limit) e r got))
drain_from n (suc fuel) (suc room) limit ranged (deliver bs ∷ r) got pos enough =
    let m = min n (suc room) in
    rw (bounded_read-suc n room limit ranged (deliver bs ∷ r)) (
      drain_from n fuel (suc room - length (take m bs)) limit ranged (leftover m bs r)
        (got ++ take m bs) pos (omega (arith, reads-leftover m bs r (omega arith)))
      ∙ ap some (content-leftover (suc room) m (over_cap_err ranged limit) bs r got (omega arith)))

-- A consumer that reads at least a byte at a time, with fuel for each event and byte of the body,
-- gets from a bounded reader exactly this: an over-delivery error when the body holds more than the
-- limit, the body's fault when one comes first, and otherwise the whole body.
pub drain-content :
    (n fuel limit : ℕ) (ranged : Bool) (r : Reader)
    → 0 < n
    → reads r < fuel
    → drain n fuel (new_bounded_body r ranged limit) []
      ≡ some
          (if ltb limit (length (payload r)) then err (over_cap_err ranged limit) else read_all r)
drain-content n fuel limit ranged r pos enough =
    drain_from n fuel limit limit ranged r [] pos enough
    ∙ ap some (content-read_all limit (over_cap_err ranged limit) r)
