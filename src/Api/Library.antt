-- ===== src/Api/Library.antt =====
-- internal/api/handlers.go: the handlers of the routes under /metadata.
use Prim.Native.String.{◌++◌}
use music_p2p.Prelude.{String, [], none, some}
use music_p2p.Metadata as Meta
use music_p2p.Scoring.{Floats}
use music_p2p.Metadata.{TrackMetadata, add_local}
use music_p2p.Api.Models as Models
use music_p2p.Api.Models.{MetadataRequest, fail}
use music_p2p.Api.Server.{
  Outcome, value, error, Backends, Server, Reply, publishes, called, write_status, write_json,
}

unfoldable pub requested_metadata : MetadataRequest → TrackMetadata
requested_metadata req = record {
  cid = req.cid;
  meta_id = "";
  title = req.title;
  artist = req.artist;
  duration = req.duration;
  variants = [];
}

module _ (fl : Floats) (bk : Backends fl) where
  unfoldable pub handle_get_all_metadata : Server fl bk → Server fl bk × Reply fl bk
  handle_get_all_metadata s = elim s.meta [
    | none ↦ (s, write_json fl bk (Models.ok (Models.all_metadata [])))
    | some store ↦ (s, write_json fl bk (Models.ok (Models.all_metadata (Meta.all store))))
  ]

  unfoldable pub handle_search_metadata : String → Server fl bk → Server fl bk × Reply fl bk
  handle_search_metadata query s = elim s.meta [
    | none ↦ (s, write_json fl bk (Models.ok (Models.all_metadata [])))
    | some store ↦
        (s, write_json fl bk (Models.ok (Models.all_metadata (Meta.search bk.meta_io query store))))
  ]

  unfoldable pub handle_get_metadata : String → Server fl bk → Server fl bk × Reply fl bk
  handle_get_metadata cid s = elim s.meta [
    | none ↦ (s, write_status fl bk 404 (fail "not found"))
    | some store ↦ elim (Meta.get cid store) [
      | none ↦ (s, write_status fl bk 404 (fail ("metadata not found for CID " ++ cid)))
      | some m ↦ (s, write_json fl bk (Models.ok (Models.metadata m)))
    ]
  ]

  -- The error of `Publish` is dropped. The reply shows the metadata as they were before `AddLocal`,
  -- which works on a copy.
  unfoldable pub publish_metadata :
      MetadataRequest → Meta.Store → Server fl bk → Server fl bk × Reply fl bk
  publish_metadata req store s =
      let m = requested_metadata req in
      let saved : Server fl bk = record s { meta = some (add_local bk.meta_io m store) } in
      (called fl bk (publishes m) saved, write_status fl bk 201 (Models.ok (Models.metadata m)))

  unfoldable pub handle_publish_metadata :
      Outcome MetadataRequest → Server fl bk → Server fl bk × Reply fl bk
  handle_publish_metadata body s = elim s.meta [
    | none ↦ (s, write_status fl bk 503 (fail "metadata store not available"))
    | some store ↦ elim body [
      | error e ↦ (s, write_status fl bk 400 (fail ("invalid request: " ++ e)))
      | value req ↦ publish_metadata req store s
    ]
  ]
