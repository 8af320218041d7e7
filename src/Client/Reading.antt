-- ===== src/Client/Reading.antt =====
-- The client of sdk/go/pennant/client.go reads what the stream of internal/api/server.go writes.
use Prim.Native.String.{len, ◌++◌}
use pennant.Prelude.{
  ◌<◌, ◌≤◌, String, List, [], ◌∷◌, Bool, true, false, ◌≡◌, refl, sym, ap, ◌∙◌, ◌==◌, arith, All,
  subst, leb,
}
use pennant.Prelude.Int.{ℤ}
use pennant.Prelude.Texts.{
  trim_prefix, trim_space, has_prefix-append, trim_prefix-append, trim_space-space,
  cons-append-nonempty, has_prefix-cons_ne,
}
use pennant.Api.Frames.{Frame, id_line, event_line, data_line, stream_lines}
use pennant.Client.{
  Client, Decoder, Reader, max_scan_token_size, handle_event, dispatch, read_line, read_lines,
  parse_sse,
}
use text.Mathlib.TextLemmas.{append_assoc}
use Prim.Native.Char.{Char, code}

abbrev idle : Client → Reader
idle c = record { event = ""; text = ""; client = c }

e_not_i : Path Char "e" "i" → ⊥
e_not_i e = omega (arith, ap code e)

d_not_i : Path Char "d" "i" → ⊥
d_not_i e = omega (arith, ap code e)

e_not_d : Path Char "e" "d" → ⊥
e_not_d e = omega (arith, ap code e)

-- The value of a field, which a space separates from its name.
trim_field : (name s : String) → trim_space (trim_prefix (name ++ (" " ++ s)) name) ≡ trim_space s
trim_field name s = ap trim_space (trim_prefix-append name (" " ++ s)) ∙ trim_space-space s

fits_leb :
    (line : String) → len line < max_scan_token_size → leb max_scan_token_size (len line) ≡ false
fits_leb line h = ground arith

long_leb :
    (line : String) → max_scan_token_size ≤ len line → leb max_scan_token_size (len line) ≡ true
long_leb line h = ground arith

module _ (decoder : Decoder) where
  read_id : (s : String) (r : Reader) → read_line decoder ("id: " ++ s) r ≡ r
  unfolding read_line
  read_id s r =
      simp
        (
          cons-append-nonempty "i" "d: " s,
          has_prefix-cons_ne "e" "i" "d: " "vent:" s e_not_i,
          has_prefix-cons_ne "d" "i" "d: " "ata:" s d_not_i,
        )
        refl

  read_event :
      (s : String) (r : Reader)
      → read_line decoder ("event: " ++ s) r ≡ record r { event = trim_space s }
  unfolding read_line
  read_event s r =
      subst (λ l. read_line decoder l r ≡ record r { event = trim_space s })
        (sym (append_assoc "event:" " " s))
        (simp
          (
            cons-append-nonempty "e" "vent:" (" " ++ s),
            has_prefix-append "event:" (" " ++ s),
            trim_field "event:" s,
          )
          refl)

  read_data :
      (s : String) (r : Reader)
      → read_line decoder ("data: " ++ s) r ≡ record r { text = trim_space s }
  unfolding read_line
  read_data s r =
      subst (λ l. read_line decoder l r ≡ record r { text = trim_space s })
        (sym (append_assoc "data:" " " s))
        (simp
          (
            cons-append-nonempty "d" "ata:" (" " ++ s),
            has_prefix-cons_ne "e" "d" "ata:" "vent:" (" " ++ s) e_not_d,
            has_prefix-append "data:" (" " ++ s),
            trim_field "data:" s,
          )
          refl)

  module _ (format_int : ℤ → String) where
    -- What the client can take in: an event and a payload that no trim shortens, in lines that fit the scanner.
    pub record Fits (f : Frame) : Type 0 where
      pub event_there : (f.event == "") ≡ false
      pub text_there : (f.text == "") ≡ false
      pub event_trimmed : trim_space f.event ≡ f.event
      pub text_trimmed : trim_space f.text ≡ f.text
      pub id_fits : len (id_line format_int f) < max_scan_token_size
      pub event_fits : len (event_line format_int f) < max_scan_token_size
      pub data_fits : len (data_line format_int f) < max_scan_token_size

    -- The client after each frame's event, in order.
    abbrev pub handle_all : List Frame → Client → Client
    handle_all [] c = c
    handle_all (f ∷ fs) c = handle_all fs (handle_event decoder f.event f.text c)

    read_step :
        (line : String) (lines : List String) (r : Reader) {r' : Reader}
        → len line < max_scan_token_size
        → read_line decoder line r ≡ r'
        → read_lines decoder (line ∷ lines) r ≡ read_lines decoder lines r'
    unfolding read_lines
    read_step line lines r h e = simp (fits_leb line h) (ap (λ x. read_lines decoder lines x) e)

    read_blank :
        (f : Frame) (c : Client)
        → Fits f
        → read_line decoder ""
            (record { event = trim_space f.event; text = trim_space f.text; client = c })
          ≡ idle (handle_event decoder f.event f.text c)
    unfolding read_line dispatch
    read_blank f c fits =
        rw (fits.event_trimmed, fits.text_trimmed, fits.event_there, fits.text_there) refl

    read_frame :
        (f : Frame) (lines : List String) (c : Client)
        → Fits f
        → read_lines decoder
            (id_line format_int f ∷ event_line format_int f ∷ data_line format_int f ∷ "" ∷ lines)
            (idle c)
          ≡ read_lines decoder lines (idle (handle_event decoder f.event f.text c))
    read_frame f lines c fits =
        read_step (id_line format_int f) _ (idle c) fits.id_fits
          (read_id (format_int f.id) (idle c))
        ∙ read_step (event_line format_int f) _ (idle c) fits.event_fits
            (read_event f.event (idle c))
        ∙ read_step (data_line format_int f) _ _ fits.data_fits (read_data f.text _)
        ∙ read_step "" lines _ (omega arith) (read_blank f c fits)

    read_frames :
        (fs : List Frame) (c : Client)
        → All Fits fs
        → read_lines decoder (stream_lines format_int fs) (idle c) ≡ (idle (handle_all fs c), false)
    unfolding read_lines
    read_frames [] c h = refl
    read_frames (f ∷ fs) c h =
        read_frame f (stream_lines format_int fs) c h.0
        ∙ read_frames fs (handle_event decoder f.event f.text c) h.1

    -- From a stream of messages that fit, each with an event and a payload that no trim shortens and lines
    -- that the scanner takes, the client handles exactly these events, in their order, and ends without an error.
    pub parse_sse-stream_lines :
        (fs : List Frame) (c : Client)
        → All Fits fs
        → parse_sse decoder (stream_lines format_int fs) c ≡ (handle_all fs c, false)
    unfolding parse_sse
    parse_sse-stream_lines fs c h =
        ap (λ (out : Reader × Bool). (out.0.client, out.1)) (read_frames fs c h)

    -- A message whose data line is longer than the scanner's limit of 64 KiB ends the stream with an error before
    -- the client handles it, whatever comes after it.
    pub parse_sse_too_long :
        (f : Frame) (fs : List Frame) (c : Client)
        → len (id_line format_int f) < max_scan_token_size
        → len (event_line format_int f) < max_scan_token_size
        → max_scan_token_size ≤ len (data_line format_int f)
        → parse_sse decoder (stream_lines format_int (f ∷ fs)) c ≡ (c, true)
    parse_sse_too_long f fs c id_fits event_fits too_long =
        unfold parse_sse in
        ap (λ (out : Reader × Bool). (out.0.client, out.1))
          (read_step (id_line format_int f) _ (idle c) id_fits (read_id (format_int f.id) (idle c))
            ∙ read_step (event_line format_int f) _ (idle c) event_fits
                (read_event f.event (idle c))
            ∙ stopped (stream_lines format_int fs))
      where
        stopped :
            (lines : List String)
            → read_lines decoder
                (data_line format_int f ∷ "" ∷ lines)
                (record (idle c) { event = trim_space f.event })
              ≡ (record (idle c) { event = trim_space f.event }, true)
        stopped lines = unfold read_lines in simp (long_leb (data_line format_int f) too_long) refl
