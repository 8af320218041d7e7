-- ===== src/Client/Agreement.antt =====
-- The SDK client of sdk/go/pennant/client.go and /sdk/v1/evaluate of internal/api/server.go evaluate alike on one
-- snapshot, although the server's flags have no description.
use pennant.Prelude.{ℕ, String, Option, none, some, ◌≡◌, refl, sym, ap, ◌∙◌, fun_ext, ◌>>=◌}
use pennant.Prelude.Dict.{get}
use pennant.Model.Types.{Flag, FlagConfig}
use pennant.Eval.Runtime.{Runtime, Context}
use pennant.Eval.Evaluate.{Outcome, evaluate}
use pennant.Eval.Evaluate.Descriptions.{undescribed_answer, undescribed_store, evaluate-undescribed}
use pennant.Snapshot.Types.{Snapshot, ResolvedFlag}
use pennant.SdkAuth.{SdkKeyRecord}
use pennant.Api.Types.{
  Server, Wire, Call, EvaluateRequest, Handled, respond, flag_missing, evaluation_body,
}
use pennant.Api.Delivery.{
  admitted, authenticate_sdk, build_for, bare_flag, bare_flag_and_config, server_store, eval_in,
  evaluate_found, evaluate_built, evaluate_decoded, evaluate_admitted, sdk_evaluate,
}
use pennant.Client.{
  received, flag_of, flag_and_config, snapshot_store, detail_found, evaluate_detail,
}

bare-undescribed :
    (o : Option ResolvedFlag) → undescribed_answer (flag_and_config o) ≡ bare_flag_and_config o
bare-undescribed none = refl
bare-undescribed (some rf) = refl

stores : (snap : Snapshot) → undescribed_store (snapshot_store snap) ≡ server_store snap
stores snap =
    ap (λ (g : String → Option (Flag × FlagConfig)). record (server_store snap) { get_flag = g })
      (fun_ext λ key. bare-undescribed (get key snap.flags))

module _ (rt : Runtime) (fuel : ℕ) where
  open rt use {Float}

  eval_in-evaluate :
      (snap : Snapshot) (rf : ResolvedFlag) (ctx : Context Float)
      → eval_in rt fuel snap (bare_flag rf) rf.config ctx
        ≡ evaluate rt (snapshot_store snap) ctx fuel (flag_of rf) rf.config
  unfolding eval_in
  eval_in-evaluate snap rf ctx =
      ap (λ store. evaluate rt store ctx fuel (bare_flag rf) rf.config) (sym (stores snap))
      ∙ evaluate-undescribed rt (snapshot_store snap) ctx fuel (flag_of rf) rf.config

  module _ (wire : Wire Float) (call : Call) where
    -- The server's response for the client's result: 404 for a flag that the snapshot lacks.
    abbrev pub response_for :
        Server Float → EvaluateRequest Float → Option ResolvedFlag → Outcome Float → Handled Float
    response_for s req none out = respond s 404 (flag_missing req.flag_key)
    response_for s req (some rf) out = respond s 200 (
        evaluation_body (record {
          flag_key = req.flag_key;
          variation_index = out.index;
          value = out.value;
          reason = out.reason;
        }))

    agree_found :
        (s : Server Float) (req : EvaluateRequest Float) (snap : Snapshot) (o : Option ResolvedFlag)
        → evaluate_found rt fuel wire call s req snap o ≡ (
            detail_found rt fuel (snapshot_store snap) req.context (flag_and_config o) >>= λ out.
            some (response_for s req o out))
    agree_found s req snap none = refl
    agree_found s req snap (some rf) =
        ap (λ o. o >>= λ out. some (response_for s req (some rf) out))
          (eval_in-evaluate snap rf req.context)

    -- For an admitted key and a decoded request, the server's evaluate endpoint answers from the snapshot that it
    -- builds with exactly what EvaluateDetail of a client that holds this snapshot returns: the same variation, value and
    -- reason with status 200, or 404 where the client says that the flag is not found.
    pub sdk_evaluate-evaluate_detail :
        (s : Server Float) (rec : SdkKeyRecord) (req : EvaluateRequest Float) (snap : Snapshot)
        → authenticate_sdk wire call s ≡ admitted rec
        → wire.decode_evaluate call.body ≡ some req
        → build_for wire call s rec ≡ some snap
        → sdk_evaluate rt fuel wire call s ≡ (
            evaluate_detail rt fuel (received snap) req.flag_key req.context >>= λ out.
            some (response_for s req (get req.flag_key snap.flags) out))
    unfolding sdk_evaluate evaluate_detail
    sdk_evaluate-evaluate_detail s rec req snap e1 e2 e3 =
        ap (evaluate_admitted rt fuel wire call s) e1
        ∙ ap (evaluate_decoded rt fuel wire call s rec) e2
        ∙ ap (evaluate_built rt fuel wire call s req) e3
        ∙ agree_found s req snap (get req.flag_key snap.flags)
