-- ===== src/Ocufs/Opened.antt =====
-- Open of backend/ocufs/object.go with a window, over the broker client, up to the bytes that a
-- consumer reads.
use ocu_rclone_filestore.Base.{
  ℕ, zero, suc, ◌-◌, ◌^◌, ◌%◌, Bool-cases, inl, inr, leb, subst, ◌<◌, ◌≡◌, refl, ap, sym, ◌∙◌,
  arith, Text, true, false, Option, none, some, Result, ok, err, List, [], ◌∷◌, length, length-take,
  take, drop, ltb, is_empty, if◌then◌else◌,
}
use ocu_rclone_filestore.Base.Int.{ℤ, pos, negsuc}
use ocu_rclone_filestore.Brokerrpc.Intent.{Op}
use ocu_rclone_filestore.Brokerrpc.Messages.{Fields, WireRequest}
use ocu_rclone_filestore.Brokerrpc.Reader.{Reader, reads, payload, ending, read_all}
use ocu_rclone_filestore.Brokerrpc.Status.{Seconds}
use ocu_rclone_filestore.Brokerrpc.Client.{
  Client, Reply, HttpResponse, responded, request, json_content, is_failure,
}
use ocu_rclone_filestore.Brokerrpc.Ops.{Codec}
use ocu_rclone_filestore.Brokerrpc.Download.{
  BoundedBody, download_range, do_download, download_verdict, declares_over, drain, over_cap_err,
  new_bounded_body,
}
use ocu_rclone_filestore.Brokerrpc.Download.Bounded.{drain-content}
use ocu_rclone_filestore.Brokerrpc.Download.Window.{read_only_metadata, download_range_cases}
use ocu_rclone_filestore.Ocufs.Interface.{TimeParser}
use ocu_rclone_filestore.Ocufs.Fs.{Object}
use ocu_rclone_filestore.Ocufs.Object.{
  OpenOption, Window, full, part, seek, range, other, open_window, length_to_end, open_object,
  resolve, fetch,
}
use ocu_rclone_filestore.Ocufs.Wired.{broker_client}

length_to_end_lem :
    (size off : ℕ)
    → size < 2 ^ 63
    → off < 2 ^ 63
    → length_to_end (pos size) (pos off) ≡ pos (size - off)
unfolding length_to_end
length_to_end_lem size off size_fits off_fits = elim (Bool-cases (leb off size)) [
  | inl within ↦
      let small : ltb ((size - off) % 2 ^ 64) (2 ^ 63) ≡ true = ground arith in
      rw within (rw small (ap pos (omega arith)))
  | inr past ↦
      let large : ltb (2 ^ 64 - 1 - (off - size - 1) % 2 ^ 64) (2 ^ 63) ≡ false = ground arith in
      rw past (rw large (ap pos (ground arith)))
]

-- The rest of an object of this size from the offset on; nothing past its end.
abbrev pub IsRest : ℤ → ℕ → ℕ → ℕ → Type 0
IsRest size off len whole =
    (size ≡ pos whole) × (whole < 2 ^ 63) × (off < 2 ^ 63) × (len ≡ whole - off)

-- No option asks for a window, and none is mandatory.
abbrev pub AreIgnored : List OpenOption → Type 0
AreIgnored [] = Unit
AreIgnored (other false ∷ rest) = AreIgnored rest
AreIgnored (other true ∷ rest) = ⊥
AreIgnored (seek offset ∷ rest) = ⊥
AreIgnored (range decode ∷ rest) = ⊥

-- The options ask for this window of an object of this size: the last one that asks for a window
-- decides, by an offset and a length, or by an offset alone, for the rest of the object.
pub data AsksFor (size : ℤ) (off len : ℕ) : List OpenOption → Type 0 where
  by_range :
      {decode : ℤ → ℤ × ℤ} {rest : List OpenOption}
      → decode size ≡ (pos off, pos len)
      → AreIgnored rest
      → AsksFor size off len (range decode ∷ rest)
  by_open_range :
      {decode : ℤ → ℤ × ℤ} {rest : List OpenOption} (whole : ℕ)
      → decode size ≡ (pos off, negsuc zero)
      → IsRest size off len whole
      → AreIgnored rest
      → AsksFor size off len (range decode ∷ rest)
  by_seek :
      {rest : List OpenOption} (whole : ℕ)
      → IsRest size off len whole
      → AreIgnored rest
      → AsksFor size off len (seek (pos off) ∷ rest)
  overruled_range :
      {decode : ℤ → ℤ × ℤ} {rest : List OpenOption}
      → AsksFor size off len rest
      → AsksFor size off len (range decode ∷ rest)
  overruled_seek :
      {offset : ℤ} {rest : List OpenOption}
      → AsksFor size off len rest
      → AsksFor size off len (seek offset ∷ rest)
  ignored :
      {rest : List OpenOption}
      → AsksFor size off len rest
      → AsksFor size off len (other false ∷ rest)

AreIgnored-open_window :
    (size : ℤ) (rest : List OpenOption) (window : Window)
    → AreIgnored rest
    → open_window size rest window ≡ ok window
unfolding open_window
AreIgnored-open_window size [] window h = refl
AreIgnored-open_window size (other false ∷ rest) window h =
    AreIgnored-open_window size rest window h
AreIgnored-open_window size (other true ∷ rest) window h = absurd h
AreIgnored-open_window size (seek offset ∷ rest) window h = absurd h
AreIgnored-open_window size (range decode ∷ rest) window h = absurd h

IsRest-length_to_end :
    (size : ℤ) (off len whole : ℕ)
    → IsRest size off len whole
    → length_to_end size (pos off) ≡ pos len
IsRest-length_to_end size off len whole (e, fits, off_fits, rest) =
    ap (λ s. length_to_end s (pos off)) e
    ∙ length_to_end_lem whole off fits off_fits
    ∙ ap pos (sym rest)

AsksFor-open_window :
    (size : ℤ) (off len : ℕ) (options : List OpenOption) (window : Window)
    → AsksFor size off len options
    → open_window size options window ≡ ok (part (pos off) (pos len))
unfolding open_window
AsksFor-open_window size off len options window (by_range {rest} e h) =
    rw e (AreIgnored-open_window size rest (part (pos off) (pos len)) h)
AsksFor-open_window size off len options window (by_open_range {rest} whole e is_rest h) =
    rw (e, IsRest-length_to_end size off len whole is_rest)
      (AreIgnored-open_window size rest (part (pos off) (pos len)) h)
AsksFor-open_window size off len options window (by_seek {rest} whole is_rest h) =
    rw (IsRest-length_to_end size off len whole is_rest)
      (AreIgnored-open_window size rest (part (pos off) (pos len)) h)
AsksFor-open_window size off len options window (overruled_range {rest} a) =
    AsksFor-open_window size off len rest _ a
AsksFor-open_window size off len options window (overruled_seek {rest} a) =
    AsksFor-open_window size off len rest _ a
AsksFor-open_window size off len options window (ignored {rest} a) =
    AsksFor-open_window size off len rest window a

module _ {W : Type 0} (http : WireRequest → W → W × Reply)
    (send : WireRequest → Reader → W → W × Reply × Option ℕ) (parse_float : Text → Option Seconds)
    (json : Codec) (digest : Text → Text) (multipart : Text) (c : Client) (times : TimeParser) where
  -- The broker answers the download of a window of the uuid well, with these bytes to their end, and
  -- declares no more than the window.
  abbrev pub Serves : Text → ℕ → ℕ → Text → W → Type 0
  Serves uuid off len bytes w =
      (w' : W) × (r : HttpResponse) × (http
          (request c Op.file_download json_content read_only_metadata
            (Fields.download uuid (some (record { offset = pos off; length = pos len }))))
          w
        ≡ (w', responded r))
      × (is_failure r.status ≡ false)
      × (declares_over r.content_length len ≡ false)
      × (payload r.body ≡ bytes)
      × (ending r.body ≡ none)

  -- A consumer that drains what Open has given, `n` bytes at a time, gets this.
  abbrev pub Delivers : ℕ → Object → List OpenOption → W → Result Text → Type 0
  Delivers n o options w result =
      (w' : W) × (b : BoundedBody) × (open_object
          (broker_client http send parse_float json digest multipart c) times o options w
        ≡ (w', o, ok b))
      × ((fuel : ℕ) → reads b.body < fuel → drain n fuel b [] ≡ some result)

  range_served :
      (uuid : Text) (off len : ℕ) (w w' : W) (r : HttpResponse)
      → http
          (request c Op.file_download json_content read_only_metadata
            (Fields.download uuid (some (record { offset = pos off; length = pos (suc len) }))))
          w
        ≡ (w', responded r)
      → is_failure r.status ≡ false
      → declares_over r.content_length (suc len) ≡ false
      → download_range http parse_float c uuid (pos off) (pos (suc len)) w
        ≡ (w', ok (new_bounded_body r.body true (suc len)))
  unfolding do_download download_verdict
  range_served uuid off len w w' r answered well declared =
      (download_range_cases http parse_float c uuid off len w).3
      ∙ rw answered (ap (λ v. (w', v)) (rw (well, declared) refl))

  drained :
      (n fuel limit : ℕ) (r : Reader) (bytes : Text)
      → 0 < n
      → reads r < fuel
      → payload r ≡ bytes
      → ending r ≡ none
      → drain n fuel (new_bounded_body r true limit) []
        ≡ some (if ltb limit (length bytes) then err (over_cap_err true limit) else ok bytes)
  unfolding read_all
  drained n fuel limit r bytes positive enough content whole =
      drain-content n fuel limit true r positive enough
      ∙ rw⁻¹ content (
          ap
            (λ x.
              some (if ltb limit (length (payload r)) then err (over_cap_err true limit) else x))
            (rw (whole, read_all) refl))

  drained_empty :
      (n fuel : ℕ)
      → 0 < n
      → reads [] < fuel
      → drain n fuel (new_bounded_body [] false 0) [] ≡ some (ok [])
  unfolding reads payload read_all
  drained_empty n fuel positive enough = drain-content n fuel 0 false [] positive enough

  -- What a window of a length is worth, when the broker has these bytes for it.
  abbrev pub window_result : ℕ → Text → Result Text
  window_result zero bytes = ok []
  window_result (suc k) bytes =
      if ltb (suc k) (length bytes) then err (over_cap_err true (suc k)) else ok bytes

  module _ (o : Object) (options : List OpenOption) (n off : ℕ) (w : W)
      (known : is_empty o.uuid ≡ false) (positive : 0 < n) where
    opened :
        (window : Window)
        → open_window o.size options full ≡ ok window
        → open_object
            (broker_client http send parse_float json digest multipart c)
            times
            o
            options
            w
          ≡ (let (w', body) =
                fetch
                  (broker_client http send parse_float json digest multipart c)
                  times
                  o.uuid
                  window
                  w in
              (w', o, body))
    unfolding open_object resolve
    opened window asked = rw (known, known, asked) refl

    window_served :
        (len : ℕ) (bytes : Text)
        → open_window o.size options full ≡ ok (part (pos off) (pos (suc len)))
        → Serves o.uuid off (suc len) bytes w
        → Delivers n o options w
            (if ltb (suc len) (length bytes) then err (over_cap_err true (suc len)) else ok bytes)
    window_served len bytes asked (w', r, answered, well, declared, content, whole) = (
      w',
      new_bounded_body r.body true (suc len),
      opened (part (pos off) (pos (suc len))) asked
          ∙ ap (λ (q : W × Result BoundedBody). (q.0, o, q.1))
              (range_served o.uuid off len w w' r answered well declared),
      λ fuel enough. drained n fuel (suc len) r.body bytes positive enough content whole,
    )

    asked_window :
        (len : ℕ) (bytes : Text)
        → open_window o.size options full ≡ ok (part (pos off) (pos len))
        → ((k : ℕ) → len ≡ suc k → Serves o.uuid off len bytes w)
        → Delivers n o options w (window_result len bytes)
    asked_window zero bytes asked served = (
      w,
      new_bounded_body [] false 0,
      opened (part (pos off) (pos 0)) asked
          ∙ ap (λ (q : W × Result BoundedBody). (q.0, o, q.1))
              (download_range_cases http parse_float c o.uuid off 0 w).2,
      λ fuel enough. drained_empty n fuel positive enough,
    )
    asked_window (suc k) bytes asked served = window_served k bytes asked (served k refl)

    -- Open of an object with its uuid, whose options ask for a window, gives a body; a consumer that
    -- drains it, a byte or more at a time, has no bytes of an empty window, whatever the broker does;
    -- and of any other window, for which the broker answers well and declares no more, just the
    -- broker's bytes when they are no more than the window, and the over-delivery error when they are.
    pub open_window-Delivers :
        (len : ℕ) (bytes : Text)
        → AsksFor o.size off len options
        → ((k : ℕ) → len ≡ suc k → Serves o.uuid off len bytes w)
        → Delivers n o options w (window_result len bytes)
    open_window-Delivers len bytes asks served =
        asked_window len bytes (AsksFor-open_window o.size off len options full asks) served

    -- So a broker that honours the window has just its bytes read,
    pub honoured_window :
        (len : ℕ) (content : Text)
        → open_window o.size options full ≡ ok (part (pos off) (pos len))
        → ((k : ℕ) → len ≡ suc k → Serves o.uuid off len (take len (drop off content)) w)
        → Delivers n o options w (ok (take len (drop off content)))
    honoured_window zero content asked served =
        asked_window 0 [] asked (λ k e. absurd (omega arith))
    honoured_window (suc k) content asked served =
        let fits : ltb (suc k) (length (take (suc k) (drop off content))) ≡ false =
          ground (arith, length-take (suc k) (drop off content)) in
        subst (Delivers n o options w) (rw fits refl)
          (asked_window (suc k) (take (suc k) (drop off content)) asked served)

    -- and one that ignores it and sends a longer content from its start has it refused.
    pub ignored_window :
        (len : ℕ) (content : Text)
        → open_window o.size options full ≡ ok (part (pos off) (pos (suc len)))
        → suc len < length content
        → Serves o.uuid off (suc len) content w
        → Delivers n o options w (err (over_cap_err true (suc len)))
    ignored_window len content asked over served =
        let longer : ltb (suc len) (length content) ≡ true = ground arith in
        subst (Delivers n o options w) (rw longer refl)
          (asked_window (suc len) content asked (λ k e. served))

-- A seek asks for the rest of an object, up to its size, and for nothing past its end.
pub seek_window :
    (size off : ℕ)
    → size < 2 ^ 63
    → off < 2 ^ 63
    → open_window (pos size) (seek (pos off) ∷ []) full ≡ ok (part (pos off) (pos (size - off)))
unfolding open_window
seek_window size off size_fits off_fits =
    ap (λ (z : ℤ). ok (part (pos off) z)) (length_to_end_lem size off size_fits off_fits)
