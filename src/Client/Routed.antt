-- ===== src/Client/Routed.antt =====
-- The client's downloads against the server's routes (internal/client/downloader.go, internal/server/server.go).
use constelfs.Prelude.{String, Bool, List, ◌∷◌, Option, none, some, ◌≡◌, refl, inl, inr}
use constelfs.Prelude.Text.{concat}
use constelfs.Server.State.{FileVersion}
use constelfs.Server.Encryption.{Crypto}
use constelfs.Server.Router.{Handler, web, Mux, IsMux, routes, routes-chunks}
use constelfs.Client.Downloader.{
  Reply, replied, Source, chunk_failed, ok_body, download_chunk, gather_chunks, get_file_info,
  get_versions, last_of, of_versions, download,
}

-- The path that `downloadChunk` asks for.
abbrev pub status_path : String → String
status_path id = concat "/api/v1/chunks/" (concat id "/status")

abbrev by_handler :
    (Handler → String → Reply (List String)) → String → Option Handler → Reply (List String)
by_handler answers path none = replied 404 none
by_handler answers path (some h) = answers h path

-- A source whose chunks' states are asked for at the server's router.
abbrev pub through : Mux Handler → (Handler → String → Reply (List String)) → Source → Source
through mux answers source = record source {
  status = λ id. by_handler answers (status_path id) (mux routes (status_path id));
}

module _ (mux : Mux Handler) (laws : IsMux mux) (answers : Handler → String → Reply (List String))
    (source : Source) where
  download_chunk-unrouted :
      ((id : String) → ok_body (answers web (status_path id)) ≡ none)
      → (id : String) → download_chunk (through mux answers source) id ≡ none
  unfolding download_chunk
  download_chunk-unrouted missing id = elim (routes-chunks mux laws (concat id "/status")) [
    | inl e ↦ rw (e, download_chunk) refl
    | inr e ↦ rw (e, download_chunk) (rw (missing id, download_chunk) refl)
  ]

  -- Let the multiplexer call only handlers whose pattern matches, and let the directory of the web pages have no
  -- file under the path that the client asks for a chunk's replicas. Then `Download` of a file whose last
  -- version has a chunk fails at the first chunk, whatever else the server and the nodes answer.
  pub download-unrouted :
      (crypto : Crypto String) (id : String) (saves : Bool) (v : FileVersion)
      (vs : List FileVersion) (c : String) (cs : List String)
      → ((chunk : String) → ok_body (answers web (status_path chunk)) ≡ none)
      → get_file_info source id ≡ some (v ∷ vs)
      → get_versions source 1 id ≡ some (v ∷ vs)
      → (last_of source crypto v vs).chunk_ids ≡ c ∷ cs
      → download (through mux answers source) crypto id saves ≡ inl (chunk_failed 0)
  unfolding download gather_chunks get_file_info get_versions
  download-unrouted crypto id saves v vs c cs missing info versions listed =
      let fails = download_chunk-unrouted missing c in
      rw (info, download)
        (rw (versions, of_versions) (rw (listed, gather_chunks) rw (fails, gather_chunks) refl))
