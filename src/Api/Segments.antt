-- ===== src/Api/Segments.antt =====
-- The handlers of internal/api/server.go for segments.
use pennant.Prelude.{String, ◌==◌, if◌then◌else◌}
use pennant.Model.Types.{Segment}
use pennant.Model.Validate.{validate_segment, validation_of}
use pennant.Store.Memory.Entries.{
  get_segment, list_segments, create_segment, update_segment, delete_segment,
}
use pennant.Api.Types.{
  Server, Wire, Call, Handled, respond, decoded, checked, validated, no_body, problem,
  segment_detail_body, segments_body,
}
use pennant.Api.Pages.{paginate}
use pennant.Api.Changes.{recorded, audit, publish_flag_change}
use pennant.Api.Projects.{with_store}

module _ {F : Type 0} (wire : Wire F) (call : Call) where
  unfoldable pub handle_list_segments : String → Server F → Handled F
  handle_list_segments project_key s =
      checked s 404 (list_segments s.store project_key)
        λ segs. respond s 200 (segments_body (paginate wire.atoi call.limit call.offset segs))

  unfoldable pub handle_create_segment : String → Server F → Handled F
  handle_create_segment project_key s = decoded s (wire.decode_segment call.body) λ seg.
      if seg.key == ""
      then respond s 400 (problem "segment key is required")
      else validated s (validation_of (validate_segment seg)) (
          checked s 409 (create_segment s.store project_key seg) λ m.
            respond
              (publish_flag_change wire call project_key (
                audit wire call project_key "create" "segment" seg.key "" (wire.encode_segment seg)
                  (with_store m s)))
              201 (segment_detail_body seg))

  unfoldable pub handle_get_segment : String → String → Server F → Handled F
  handle_get_segment project_key seg_key s =
      checked s 404 (get_segment s.store project_key seg_key)
        λ seg. respond s 200 (segment_detail_body seg)

  unfoldable pub handle_update_segment : String → String → Server F → Handled F
  handle_update_segment project_key seg_key s =
      let before = get_segment s.store project_key seg_key in
      decoded s (wire.decode_segment call.body) λ body.
        let seg : Segment = record body { key = seg_key } in
        validated s (validation_of (validate_segment seg)) (
          checked s 404 (update_segment s.store project_key seg) λ m.
            respond
              (publish_flag_change wire call project_key (
                audit wire call project_key "update" "segment" seg_key
                  (recorded wire.encode_segment before) (wire.encode_segment seg) (with_store m s)))
              200 (segment_detail_body seg))

  unfoldable pub handle_delete_segment : String → String → Server F → Handled F
  handle_delete_segment project_key seg_key s =
      let before = get_segment s.store project_key seg_key in
      checked s 404 (delete_segment s.store project_key seg_key) λ m.
        respond
          (publish_flag_change wire call project_key (
            audit wire call project_key "delete" "segment" seg_key
              (recorded wire.encode_segment before) "" (with_store m s)))
          204 no_body
