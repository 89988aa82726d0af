-- ===== src/Brokerrpc/Reader/Leftover.antt =====
-- What is left of a reader after one read: its bytes, its end, and its measure.
use ocu_rclone_filestore.Base.{
  ℕ, ◌<◌, ◌≡◌, sym, ◌∙◌, arith, Text, inl, inr, Bool-cases, leb, ◌∷◌, ◌++◌, append_assoc, length,
  take, drop, length-drop, take-append-drop, take_all,
}
use ocu_rclone_filestore.Brokerrpc.Reader.{Reader, deliver, payload, ending, leftover, reads}

pub payload-leftover :
    (n : ℕ) (bs : Text) (r : Reader)
    → take n bs ++ payload (leftover n bs r) ≡ payload (deliver bs ∷ r)
unfolding payload
payload-leftover n bs r = elim (Bool-cases (leb (length bs) n)) [
  | inl e ↦ rw (e, take_all n bs (ground arith))
  | inr e ↦
      rw e (sym (append_assoc (take n bs) (drop n bs) (payload r)) ∙ rw (take-append-drop n bs))
]

pub ending-leftover : (n : ℕ) (bs : Text) (r : Reader) → ending (leftover n bs r) ≡ ending r
unfolding ending
ending-leftover n bs r = ground arith

pub reads-leftover :
    (n : ℕ) (bs : Text) (r : Reader) → 0 < n → reads (leftover n bs r) < reads (deliver bs ∷ r)
unfolding reads
reads-leftover n bs r h = ground (arith, length-drop n bs)
