-- ===== src/Examples/Opening.antt =====
-- An Open with a window, of a file of five bytes.
use ocu_rclone_filestore.Base.{ℕ, codes, refl, arith, Option, none, ok, List, [], ◌∷◌}
use ocu_rclone_filestore.Base.Int.{pos}
use ocu_rclone_filestore.Brokerrpc.Messages.{WireRequest}
use ocu_rclone_filestore.Brokerrpc.Reader.{Reader, deliver, payload, ending}
use ocu_rclone_filestore.Brokerrpc.Client.{Reply, HttpResponse, responded}
use ocu_rclone_filestore.Ocufs.Interface.{TimeParser}
use ocu_rclone_filestore.Ocufs.Fs.{Object}
use ocu_rclone_filestore.Ocufs.Object.{OpenOption, seek}
use ocu_rclone_filestore.Ocufs.Opened.{Delivers, by_seek, open_window-Delivers}
use ocu_rclone_filestore.Examples.Transport.{a_client, two_page_codec, seconds, same}

abbrev no_times : TimeParser
no_times = record { rfc3339_nano = λ t. none; rfc3339 = λ t. none }

abbrev five_bytes : Object
five_bytes = record {
  fs = 1;
  remote = codes "a";
  path = codes "/a";
  uuid = codes "u";
  size = pos 5;
  mtime = none;
  mode = [];
  sha = [];
  mime = [];
}

abbrev last_three : HttpResponse
last_three = record {
  status = 200;
  retry_after = [];
  content_length = none;
  body = deliver (codes "cd") ∷ deliver (codes "e") ∷ [];
}

abbrev window_http : WireRequest → ℕ → ℕ × Reply
window_http req w = (w, responded last_three)

abbrev no_send : WireRequest → Reader → ℕ → ℕ × Reply × Option ℕ
no_send req content w = (w, responded last_three, none)

abbrev from_two : List OpenOption
from_two = seek (pos 2) ∷ []

open_window-Delivers_example :
    Delivers window_http no_send seconds two_page_codec same [] a_client no_times 4 five_bytes
      from_two 0
      (ok (codes "cde"))
unfolding payload ending
open_window-Delivers_example =
    open_window-Delivers window_http no_send seconds two_page_codec same [] a_client no_times
      five_bytes from_two 4 2 0 refl (omega arith) 3 (codes "cde")
      (by_seek 5 (refl, omega arith, omega arith, refl) tt)
      (λ k e. (0, last_three, refl, refl, refl, refl, refl))
