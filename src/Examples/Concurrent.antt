-- ===== src/Examples/Concurrent.antt =====
-- Calls of one object that interleave.
use ocu_rclone_filestore.Base.{
  ℕ, Text, codes, ◌≡◌, ◌⊎◌, refl, none, message, Result, ok, err, List, [], ◌∷◌, ◌==◌, All,
  if◌then◌else◌,
}
use ocu_rclone_filestore.Base.Int.{ℤ, pos}
use ocu_rclone_filestore.Brokerrpc.Messages.{ReadMetadataResponse}
use ocu_rclone_filestore.Ocufs.Meta.{classify_read_metadata}
use ocu_rclone_filestore.Ocufs.Interface.{BrokerClient, TimeParser, parse_mtime}
use ocu_rclone_filestore.Ocufs.Fs.{Object}
use ocu_rclone_filestore.Ocufs.Object.{resolve, resolve_verdict}
use ocu_rclone_filestore.Ocufs.Lazy.{object_and_error}
use ocu_rclone_filestore.Ocufs.Shared.{
  to_mod_time, to_size, to_open, Stage, called, answered, uploading, updated, unknown, already,
  missing, fetch, settle, read, upload, clear, here, other, Reach, begin, later,
}
use ocu_rclone_filestore.Ocufs.Shared.Updates.{HasUpdated}
use ocu_rclone_filestore.Ocufs.Shared.Untorn.{SameFile, IsWhole, SnapshotIsWhole, calls-AreUntorn}
use ocu_rclone_filestore.Ocufs.Shared.Steady.{AgreesWith, calls-AgreeWithResolve}

abbrev zero_times : TimeParser
zero_times = record { rfc3339_nano = λ t. none; rfc3339 = λ t. none }

abbrev version : Text → ℤ → ReadMetadataResponse
version uuid size = record {
  file = record {
    path = codes "/a";
    size = size;
    mtime = [];
    mode = [];
    sha = [];
    mime = [];
    uuid = uuid;
  };
  directory = record { path = []; mode = []; mtime = [] };
}

abbrev refuses {ℓ} : {A : Type ℓ} → Result A
refuses = err (message "not here" [])

-- The world counts the uploads of the one file; each makes a new version.
abbrev versions : BrokerClient ℕ
versions = record {
  list_directory_stream = λ p f s w. (w, s, none);
  read_metadata = λ p w.
      (w, ok (if w == 0 then version (codes "one") (pos 3) else version (codes "two") (pos 5)));
  download = λ u w. (w, refuses);
  download_range = λ u o n w. (w, refuses);
  upload = λ p content n o w. (1, ok tt);
  copy_file = λ p q w. (w, refuses);
  move_file = λ p q w. (w, refuses);
  remove_file = λ p w. (w, refuses);
  make_directory = λ p w. (w, refuses);
  remove_directory = λ p w. (w, refuses);
  move_directory = λ p q w. (w, refuses);
}

-- The broker of a file that nobody writes.
abbrev steady : BrokerClient ℕ
steady = record versions { read_metadata = λ p w. (w, ok (version (codes "one") (pos 3))) }

abbrev bare : Object
bare = record {
  fs = 1;
  remote = codes "a";
  path = codes "/a";
  uuid = [];
  size = pos 0;
  mtime = none;
  mode = [];
  sha = [];
  mime = [];
}

abbrev three_calls : List Stage
three_calls = called to_mod_time ∷ uploading [] (pos 5) ∷ called to_open ∷ []

-- An Update comes and goes while a resolve waits for the broker; the answer then settles, and a later
-- Open finds it.
abbrev overtaken :
    (w : ℕ) × (o : Object) × (sts : List Stage) × Reach versions zero_times 0 bare three_calls w o
      sts
unfolding resolve_verdict classify_read_metadata parse_mtime
overtaken = (
  _,
  _,
  _,
  later
      (later
        (later
          (later
            (later
              (later
                (later
                  (later (later (later begin (here (unknown refl))) (here (missing refl)))
                    (here fetch))
                  (other (here (upload refl))))
                (other (here clear)))
              (here settle))
            (here read))
          (other (other (here (unknown refl)))))
        (other (other (here (already refl)))))
      (other (other (here read))),
)

-- The Update has returned, and yet Open has the uuid and the size from before it.
open_behind_update :
    (overtaken.2
      ≡ answered to_mod_time overtaken.1 ∷ updated none ∷ answered to_open overtaken.1 ∷ [])
    × (overtaken.1.uuid ≡ codes "one")
    × (overtaken.1.size ≡ pos 3)
unfolding resolve_verdict classify_read_metadata parse_mtime
open_behind_update = (refl, refl, refl)

calls-AreUntorn_example :
    SameFile bare overtaken.1
    × IsWhole versions zero_times bare (λ n. HasUpdated n three_calls overtaken.2) overtaken.1
    × All
        (SnapshotIsWhole versions zero_times bare (λ n. HasUpdated n three_calls overtaken.2))
        overtaken.2
calls-AreUntorn_example =
    calls-AreUntorn versions zero_times bare 0 overtaken.0 overtaken.1 three_calls overtaken.2
      (tt, (tt, (tt, tt))) overtaken.3

abbrev two_calls : List Stage
two_calls = called to_size ∷ called to_open ∷ []

-- Both calls fetch before either settles.
abbrev both_fetch :
    (w : ℕ) × (o : Object) × (sts : List Stage) × Reach steady zero_times 0 bare two_calls w o sts
unfolding resolve_verdict classify_read_metadata parse_mtime
both_fetch = (
  _,
  _,
  _,
  later
      (later
        (later
          (later
            (later
              (later
                (later
                  (later (later (later begin (here (unknown refl))) (other (here (unknown refl))))
                    (here (missing refl)))
                  (other (here (missing refl))))
                (here fetch))
              (other (here fetch)))
            (other (here settle)))
          (other (here read)))
        (here settle))
      (here read),
)

both_fetch_alike : both_fetch.2 ≡ answered to_size both_fetch.1 ∷ answered to_open both_fetch.1 ∷ []
unfolding resolve_verdict classify_read_metadata parse_mtime
both_fetch_alike = refl

calls-AgreeWithResolve_example :
    ((both_fetch.1 ≡ bare)
      ⊎ (both_fetch.1 ≡ (object_and_error (resolve steady zero_times bare 7)).0))
    × All (AgreesWith bare (object_and_error (resolve steady zero_times bare 7))) both_fetch.2
calls-AgreeWithResolve_example =
    calls-AgreeWithResolve steady zero_times bare (ok (version (codes "one") (pos 3))) 0
      both_fetch.0 7 both_fetch.1 two_calls both_fetch.2 (tt, (tt, tt)) (λ w. refl) refl
      both_fetch.3
