-- ===== src/Client/EndToEnd.antt =====
-- From putFlagConfig of internal/api/server.go, through a stream, to what a client of sdk/go/pennant/client.go
-- evaluates.
use pennant.Prelude.{ℕ, String, some, List, [], ◌∷◌, ◌++◌, true, false, ◌≡◌, refl, ap, ◌∙◌, All}
use pennant.Prelude.Int.{ℤ, ltb_ℤ}
use pennant.Prelude.Dict.{get}
use pennant.Model.Types.{Flag, FlagConfig}
use pennant.Eval.Runtime.{Runtime, Context}
use pennant.Eval.Evaluate.{evaluate}
use pennant.Snapshot.Types.{Snapshot, ResolvedFlag}
use pennant.Snapshot.Builder.{resolve_flag}
use pennant.Stream.Types.{Subscriber}
use pennant.Api.Frames.{Frame, stream_lines}
use pennant.Api.Types.{Server, Wire, Call}
use pennant.Api.Changes.{put_message}
use pennant.Api.Delivery.{Connection, frame_of, forward}
use pennant.Api.Delivery.Connections.{Delivered}
use pennant.Client.{
  Client, Decoder, received, handle_put, handle_event, parse_sse, flag_of, flag_and_config,
  snapshot_store, detail_found, evaluate_detail,
}
use pennant.Client.Reading.{Fits, handle_all, parse_sse-stream_lines}

module _ (decoder : Decoder) where
  handle_all-snoc :
      (format_int : ℤ → String) (fs : List Frame) (f : Frame) (c : Client)
      → handle_all decoder format_int (fs ++ f ∷ []) c
        ≡ handle_event decoder f.event f.text (handle_all decoder format_int fs c)
  handle_all-snoc format_int [] f c = refl
  handle_all-snoc format_int (g ∷ fs) f c =
      handle_all-snoc format_int fs f (handle_event decoder g.event g.text c)

  pub handle_event-put :
      (text : String) (snap : Snapshot) (c : Client)
      → decoder.unmarshal_snapshot text ≡ some snap
      → handle_event decoder "put" text c ≡ received snap
  unfolding handle_event handle_put
  handle_event-put text snap c e = rw (e) refl

All-snoc :
    (P : Frame → Type 0) (fs : List Frame) (f : Frame) → All P fs → P f → All P (fs ++ f ∷ [])
All-snoc P [] f h p = (p, tt)
All-snoc P (g ∷ fs) f h p = (h.0, All-snoc P fs f h.1 p)

module _ (rt : Runtime) (fuel : ℕ) (wire : Wire rt.Float) (call : Call) where
  open rt use {Float}

  written-forward :
      (c : Connection) (version : ℤ) (snap : Snapshot)
      → ltb_ℤ c.sent_version version ≡ true
      → (forward wire call true (put_message version snap) c).written
        ≡ c.written ++ frame_of wire call (put_message version snap) ∷ []
  unfolding forward
  written-forward c version snap h = rw (h) refl

  evaluate_detail-received :
      (key : String) (ctx : Context Float) (snap : Snapshot) (rf : ResolvedFlag)
      → get key snap.flags ≡ some rf
      → evaluate_detail rt fuel (received snap) key ctx
        ≡ evaluate rt (snapshot_store snap) ctx fuel (flag_of rf) rf.config
  unfolding evaluate_detail
  evaluate_detail-received key ctx snap rf e =
      ap (λ o. detail_found rt fuel (snapshot_store snap) ctx (flag_and_config o)) e

  -- When a stored configuration was delivered to a stream's subscriber and the stream forwards its message without an error, being above
  -- the version of the stream's first frames, a client that reads the whole stream ends without a scanner error
  -- and evaluates the flag with the new configuration, on the delivered snapshot. All frames fit the client's
  -- scanner, and JSON decodes the snapshot that it encoded.
  pub evaluate_detail-forward :
      (decoder : Decoder) (format_int : ℤ → String) (s' : Server Float) (p env id key : String)
      (v : ℤ) (f : Flag) (cfg : FlagConfig) (sub : Subscriber Snapshot)
      (d : Delivered s' p env id key v f cfg sub) (conn : Connection) (c : Client)
      (ctx : Context Float)
      → decoder.unmarshal_snapshot (wire.encode_snapshot d.snap) ≡ some d.snap
      → ltb_ℤ conn.sent_version d.snap.version ≡ true
      → All (Fits decoder format_int) conn.written
      → Fits decoder format_int (frame_of wire call (put_message d.snap.version d.snap))
      → (parse_sse decoder
            (stream_lines format_int
              (forward wire call true (put_message d.snap.version d.snap) conn).written)
            c
          ≡ (received d.snap, false))
        × (evaluate_detail rt fuel (received d.snap) key ctx
            ≡ evaluate rt (snapshot_store d.snap) ctx fuel (flag_of (resolve_flag f cfg)) cfg)
  evaluate_detail-forward decoder format_int s' p env id key v f cfg sub d conn c ctx json newer
        fits fit =
      let frame : Frame = frame_of wire call (put_message d.snap.version d.snap) in
      (
        ap (λ fs. parse_sse decoder (stream_lines format_int fs) c)
              (written-forward conn d.snap.version d.snap newer)
            ∙ parse_sse-stream_lines decoder format_int (conn.written ++ frame ∷ []) c
                (All-snoc _ conn.written frame fits fit)
            ∙ ap (λ (x : Client). (x, false))
                (handle_all-snoc decoder format_int conn.written frame c
                  ∙ handle_event-put decoder frame.text d.snap _ json),
        evaluate_detail-received key ctx d.snap (resolve_flag f cfg) d.flag_there,
      )
