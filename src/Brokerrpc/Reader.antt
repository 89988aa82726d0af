-- ===== src/Brokerrpc/Reader.antt =====
-- A Go `io.Reader` as the sequence of what it will deliver: bytes, a result `(0, nil)`, or a fault
-- that every later read repeats. Past the last event each read is `io.EOF`. A reader that returns
-- bytes and an error together delivers them here in two reads, which `io.Reader` allows too.
pub mod Leftover
use ocu_rclone_filestore.Base.{
  Text, GoError, Option, none, some, List, [], ◌∷◌, ◌++◌, ℕ, zero, suc, ◌+◌, take, drop, length,
  leb, if◌then◌else◌, Result, ok, err,
}

pub data Event : Type 0 where
  deliver : Text → Event
  idle : Event
  fault : GoError → Event

abbrev pub Reader : Type 0
Reader = List Event

-- The error of one read: nil, io.EOF, or another.
pub data Outcome : Type 0 where
  going eof : Outcome
  failed : GoError → Outcome

pub record ReadResult : Type 0 where
  pub bytes : Text
  pub outcome : Outcome
  pub rest : Reader

-- What is left of an event after `n` of its bytes.
abbrev pub leftover : ℕ → Text → Reader → Reader
leftover n bs r = if leb (length bs) n then r else deliver (drop n bs) ∷ r

-- reader.Read(p) with len(p) = n.
unfoldable pub read : ℕ → Reader → ReadResult
read n [] = record { bytes = []; outcome = eof; rest = [] }
read n (idle ∷ r) = record { bytes = []; outcome = going; rest = r }
read n (fault e ∷ r) = record { bytes = []; outcome = failed e; rest = fault e ∷ r }
read n (deliver bs ∷ r) = record { bytes = take n bs; outcome = going; rest = leftover n bs r }

-- All the bytes up to the first fault.
unfoldable pub payload : Reader → Text
payload [] = []
payload (idle ∷ r) = payload r
payload (fault e ∷ r) = []
payload (deliver bs ∷ r) = bs ++ payload r

-- How the reader ends: at io.EOF, or with the first fault.
unfoldable pub ending : Reader → Option GoError
ending [] = none
ending (idle ∷ r) = ending r
ending (fault e ∷ r) = some e
ending (deliver bs ∷ r) = ending r

-- The reads that a consumer can make before the reader ends: one for each event and byte.
unfoldable pub reads : Reader → ℕ
reads [] = 0
reads (idle ∷ r) = suc (reads r)
reads (fault e ∷ r) = suc (reads r)
reads (deliver bs ∷ r) = suc (length bs + reads r)

-- io.ReadAll
unfoldable pub read_all : Reader → Result Text
unfolding payload ending
read_all r = elim (ending r) [ none ↦ ok (payload r) | some e ↦ err e ]
