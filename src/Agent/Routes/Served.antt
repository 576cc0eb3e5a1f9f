-- ===== src/Agent/Routes/Served.antt =====
-- What a storage node serves, over all its routes (internal/node/agent.go, chunk_handler.go).
use constelfs.Prelude.{
  ℕ, String, Bool, true, false, List, [], ◌∷◌, Option, none, some, All, lookup, ◌≡◌, refl, sym, ap,
  ◌∙◌, arith,
}
use constelfs.Prelude.Text.Names.{trim_prefix-concat}
use constelfs.Server.Nodes.{Method, get}
use constelfs.Server.Content.{Sent}
use constelfs.Server.Content.Delivery.{IsChunkName, IsChunkName-is_name}
use constelfs.Server.Router.{Mux, IsMux, IsComplete}
use constelfs.Agent.Chunks.Places.{Disk, join-chunks}
use constelfs.Agent.Chunks.{
  error, data_of, Faults, ReplicateRequest, handle_chunk, handle_download, handle_replicate,
}
use constelfs.Agent.Chunks.Contents.{
  is_key, Call, chunk_of, told, exchange, serve, told_all, serve-told_all,
}
use constelfs.Agent.Cluster.{by_path}
use constelfs.Agent.Routes.{
  Route, health, chunks, replicate, storage, Request, Answer, of_chunks, serve_route, serve_request,
  agent_routes, url, routes-url,
}

abbrev call_of : Faults → Request → Call
call_of faults r = record {
  faults = faults;
  method = r.method;
  url = r.path;
  query = r.chunk_id;
  body = r.body;
}

-- What the answer to a request tells of a chunk that was `before`.
abbrev told_by : Faults → Request → Answer → String → Option (List ℕ) → Option (List ℕ)
told_by faults r (of_chunks reply) id before =
    told (chunk_of (call_of faults r)) r.body reply id before
told_by faults r _ id before = before

-- The answer to a GET of a chunk of which this was told.
abbrev pub answer_for : (List ℕ → String) → Option (List ℕ) → Answer
answer_for sha256 none = of_chunks (error 404 "Chunk not found")
answer_for sha256 (some bytes) = of_chunks (data_of (sha256 bytes) bytes)

-- A GET of a chunk's path.
abbrev pub get_of : String → String → Option (List ℕ) → Option ReplicateRequest → Request
get_of id query body replicas = record {
  method = get;
  path = url id;
  chunk_id = query;
  body = body;
  replicas = replicas;
}

replicate-told :
    (root : List String) (send : String → List ℕ → String → ℕ → Sent) (faults : Faults) (d : Disk)
    (m : Method) (req : Option ReplicateRequest) (key : String) (body : Option (List ℕ))
    (id : String) (before : Option (List ℕ))
    → told key body (handle_replicate root send faults d m req) id before ≡ before
unfolding handle_replicate told
replicate-told root send faults d m req key body id before = ground arith

module _ (sha256 : List ℕ → String) (root : List String)
    (send : String → List ℕ → String → ℕ → Sent) (listed : Bool) (sized : String → Bool)
    (storage_path : String) (mux : Mux Route) where
  abbrev answer : Faults → Disk → Request → Disk × Answer
  answer = serve_request sha256 root send listed sized storage_path mux

  -- The disk after the requests.
  unfoldable pub serve_requests : Disk → List (Faults × Request) → Disk
  serve_requests d [] = d
  serve_requests d (r ∷ rs) = serve_requests (answer r.0 d r.1).0 rs

  -- What the answers to the requests tell of a chunk that was `before` at first.
  unfoldable pub told_requests :
      String → Disk → List (Faults × Request) → Option (List ℕ) → Option (List ℕ)
  unfolding told chunk_of
  told_requests id d [] before = before
  told_requests id d (r ∷ rs) before =
      let a = answer r.0 d r.1 in told_requests id a.0 rs (told_by r.0 r.1 a.1 id before)

  -- A request to the chunks' handler is about a name of a file, or has no name.
  abbrev IsNamed : Faults × Request → Type 0
  IsNamed (faults, r) =
      mux agent_routes r.path ≡ some chunks → is_key (chunk_of (call_of faults r)) ≡ true

  serve_route-told :
      (faults : Faults) (d : Disk) (r : Request) (route : Option Route) (id : String)
      → (route ≡ some chunks → is_key (chunk_of (call_of faults r)) ≡ true)
      → let a = serve_route sha256 root send listed sized storage_path faults d r route in
        lookup id a.0.chunks ≡ told_by faults r a.1 id (lookup id d.chunks)
  unfolding serve_route serve exchange told_all
  serve_route-told faults d r none id named = refl
  serve_route-told faults d r (some health) id named = refl
  serve_route-told faults d r (some chunks) id named =
      serve-told_all sha256 root d (call_of faults r ∷ []) id (named refl, tt)
  serve_route-told faults d r (some replicate) id named =
      sym (replicate-told root send faults d r.method r.replicas _ r.body id (lookup id d.chunks))
  serve_route-told faults d r (some storage) id named = refl

  serve_requests-told :
      (d : Disk) (rs : List (Faults × Request)) (id : String)
      → All IsNamed rs
      → lookup id (serve_requests d rs).chunks ≡ told_requests id d rs (lookup id d.chunks)
  unfolding serve_requests told_requests serve_request
  serve_requests-told d [] id named = refl
  serve_requests-told d (r ∷ rs) id named =
      serve_requests-told (answer r.0 d r.1).0 rs id named.1
      ∙ ap (told_requests id (answer r.0 d r.1).0 rs)
          (serve_route-told r.0 d r.1 (mux agent_routes r.1.path) id named.0)

  handle_chunk-answer :
      (faults : Faults) (d : Disk) (id query : String) (body : Option (List ℕ))
      (known : Option (List ℕ))
      → IsChunkName id
      → faults.read_fails ≡ false
      → faults.is_directory ≡ false
      → lookup id d.chunks ≡ known
      → of_chunks (handle_chunk sha256 root faults d get (url id) query body).1
        ≡ answer_for sha256 known
  unfolding handle_chunk handle_download
  handle_chunk-answer faults d id query body known h sound file e =
      let (upload, download, delete', empty, slash) = by_path sha256 root some id h in
      rw (trim_prefix-concat "/api/v1/chunks/" id) (
        rw (upload, download, delete', empty, slash, join-chunks root id (IsChunkName-is_name id h))
          (ground (arith, e, sound, file)))

  -- Let the multiplexer call only handlers whose pattern matches, and for a clean path some such handler. After any
  -- requests to the node, on any paths and whichever system calls fail, of which those for chunks name files without
  -- slashes, a GET of a chunk that the server names, on
  -- a clean path and without a read error, is answered with the bytes and their hash that the answers so
  -- far tell of it, or with 404 if they tell that there are none.
  pub serve_request-answer :
      (clean : String → Bool)
      → IsMux mux
      → IsComplete clean mux
      → (d : Disk) (rs : List (Faults × Request)) (faults : Faults) (id query : String)
        (body : Option (List ℕ)) (replicas : Option ReplicateRequest)
      → All IsNamed rs
      → IsChunkName id
      → clean (url id) ≡ true
      → faults.read_fails ≡ false
      → faults.is_directory ≡ false
      → (answer faults (serve_requests d rs) (get_of id query body replicas)).1
        ≡ answer_for sha256 (told_requests id d rs (lookup id d.chunks))
  unfolding serve_request serve_route
  serve_request-answer clean laws complete d rs faults id query body replicas named h tidy sound
        file =
      let found = routes-url mux clean laws complete id tidy in
      rw found (
        handle_chunk-answer faults (serve_requests d rs) id query body _ h sound file
          (serve_requests-told d rs id named))
