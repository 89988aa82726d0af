-- ===== src/Examples/Backend.antt =====
-- The backend of backend/ocufs over the wired client, at concrete paths and calls.
use ocu_rclone_filestore.Base.{
  ℕ, Text, codes, Bool, true, false, Option, none, some, ◌≡◌, ◌↔◌, refl, List, [], ◌∷◌, ◌++◌, All,
}
use ocu_rclone_filestore.Base.Int.{pos}
use ocu_rclone_filestore.Brokerrpc.Messages.{WireRequest}
use ocu_rclone_filestore.Brokerrpc.Reader.{Reader}
use ocu_rclone_filestore.Brokerrpc.Client.{Reply}
use ocu_rclone_filestore.Ocufs.Interface.{BrokerClient, Encoder, TimeParser}
use ocu_rclone_filestore.Ocufs.Fs.{new_object, unresolved, Fs, Object}
use ocu_rclone_filestore.Ocufs.Lazy.{AgreesWith, object_and_error, resolve-AgreesWith}
use ocu_rclone_filestore.Ocufs.Object.{resolve}
use ocu_rclone_filestore.Ocufs.Paths.{abs_path, clean_path, immediate_child_remote, child_remote}
use ocu_rclone_filestore.Ocufs.Children.{path_parts, immediate_child_remote_iff}
use ocu_rclone_filestore.Ocufs.Wired.{broker_client}
use ocu_rclone_filestore.Ocufs.Session.{
  Call, list_of, put_at, size_of, steps, IsProper, record_http, record_send,
}
use ocu_rclone_filestore.Ocufs.Session.Scoped.{session_requests-IsProper}
use ocu_rclone_filestore.Examples.Transport.{
  two_pieces, a_client, counting_http, two_page_codec, seconds, same, file_at,
}

abbrev plain : Encoder
plain = record { from_standard_path = same; to_standard_path = same }

abbrev no_times : TimeParser
no_times = record { rfc3339_nano = λ t. none; rfc3339 = λ t. none }

abbrev taking_send : WireRequest → Reader → ℕ → ℕ × Reply × Option ℕ
taking_send req src n = let (n', reply) = counting_http req n in (n', reply, none)

abbrev broker : BrokerClient ℕ
broker = broker_client counting_http taking_send seconds two_page_codec same (codes "form") a_client

abbrev mount_fs : Bool → Fs
mount_fs read_only = record { address = 1; root = codes "/"; read_only = read_only }

abbrev elsewhere : Fs
elsewhere = record { address = 2; root = codes "/"; read_only = false }

abbrev an_object : Object
an_object = record {
  fs = 2;
  remote = codes "a";
  path = codes "/a";
  uuid = [];
  size = pos 3;
  mtime = none;
  mode = [];
  sha = [];
  mime = [];
}

abbrev some_calls : List Call
some_calls = list_of [] ∷ put_at two_pieces (codes "b") (pos 3) ∷ size_of an_object ∷ []

session_requests-IsProper_example :
    All
      (IsProper a_client true)
      (steps
        (broker_client
          (record_http counting_http)
          (record_send taking_send)
          seconds
          two_page_codec
          same
          (codes "form")
          a_client)
        plain
        no_times
        (mount_fs true)
        some_calls
        ([], 0)).0
session_requests-IsProper_example =
    session_requests-IsProper counting_http taking_send seconds two_page_codec same (codes "form")
      a_client plain no_times (mount_fs true) some_calls 0

immediate_child_remote_iff_example :
    (immediate_child_remote plain (codes "d") (clean_path (codes "/d/")) (file_at (codes "//d/./x"))
      ≡ some (codes "d/x"))
    ↔ ((n : Text) × (path_parts (codes "//d/./x") ≡ path_parts (codes "/d/") ++ n ∷ [])
        × (child_remote plain (codes "d") (some n) ≡ some (codes "d/x")))
immediate_child_remote_iff_example =
    immediate_child_remote_iff plain (codes "d") (codes "/d/") (codes "//d/./x") (codes "d/x")
      (file_at (codes "//d/./x")) refl

-- An entry two segments below is left out, and one whose name starts like the directory too.
drops_deeper : immediate_child_remote plain [] (codes "/d") (file_at (codes "/d/x/y")) ≡ none
unfolding immediate_child_remote
drops_deeper = refl

drops_sibling : immediate_child_remote plain [] (codes "/d") (file_at (codes "/dx")) ≡ none
unfolding immediate_child_remote
drops_sibling = refl

resolve-AgreesWith_example :
    ((new_object broker plain no_times (mount_fs true) (codes "a") 0).0
      ≡ (resolve broker no_times
          (unresolved (mount_fs true) (codes "a") (abs_path plain (codes "/") (codes "a")) (pos 3))
          0).0)
    × AgreesWith (new_object broker plain no_times (mount_fs true) (codes "a") 0).1 (
        object_and_error (
          resolve broker no_times
            (unresolved
              (mount_fs true)
              (codes "a")
              (abs_path plain (codes "/") (codes "a"))
              (pos 3))
            0))
resolve-AgreesWith_example =
    resolve-AgreesWith broker plain no_times (mount_fs true) (codes "a") (pos 3) 0
