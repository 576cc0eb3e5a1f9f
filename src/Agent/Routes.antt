-- ===== src/Agent/Routes.antt =====
-- The HTTP server of a storage node: `startHTTPServer` of internal/node/agent.go. The multiplexer of net/http is a
-- parameter, as in `Server.Router`, and so are the faults of a request and SHA-256, as in `Agent.Chunks`.
pub mod Served
use mathlib.Core.Path.{subst}
use constelfs.Prelude.{
  ℕ, String, Bool, true, List, [], ◌∷◌, Option, none, some, ◌≡◌, refl, sym, ap, ◌∙◌, select,
  Option-cases, inl, inr,
}
use constelfs.Prelude.Text.{concat}
use constelfs.Prelude.Text.Names.{differ}
use constelfs.Server.Nodes.{Method}
use constelfs.Server.Content.{Sent}
use constelfs.Server.Router.{
  Mux, IsMux, IsComplete, IsAmong, is_match, is_match-differ, is_match-prefix, ends_with_slash,
}
use constelfs.Agent.Chunks.Places.{Disk}
use constelfs.Agent.Chunks.{Reply, Faults, ReplicateRequest, handle_chunk, handle_replicate}
use constelfs.Agent.Heartbeats.{StorageInfo, get_storage_info}

pub data Route : Type 0 where
  health : Route
  chunks : Route
  replicate : Route
  storage : Route

abbrev pub agent_routes : List (String × Route)
agent_routes =
    ("/health", health)
    ∷ ("/api/v1/chunks/", chunks)
    ∷ ("/api/v1/replicate", replicate)
    ∷ ("/api/v1/storage", storage)
    ∷ []

-- A request. `replicas` is what its body decodes to for `HandleReplicate`.
pub record Request : Type 0 where
  pub method : Method
  pub path : String
  pub chunk_id : String
  pub body : Option (List ℕ)
  pub replicas : Option ReplicateRequest

pub data Answer : Type 0 where
  not_found : Answer
  healthy : Answer
  of_chunks : Reply → Answer
  stored : StorageInfo → String → Answer

module _ (sha256 : List ℕ → String) (root : List String)
    (send : String → List ℕ → String → ℕ → Sent) (listed : Bool) (sized : String → Bool)
    (storage_path : String) where
  -- The handlers of the routes.
  unfoldable pub serve_route : Faults → Disk → Request → Option Route → Disk × Answer
  unfolding handle_chunk handle_replicate get_storage_info
  serve_route faults d r none = (d, not_found)
  serve_route faults d r (some health) = (d, healthy)
  serve_route faults d r (some chunks) =
      let (d', reply) = handle_chunk sha256 root faults d r.method r.path r.chunk_id r.body in
      (d', of_chunks reply)
  serve_route faults d r (some replicate) =
      (d, of_chunks (handle_replicate root send faults d r.method r.replicas))
  serve_route faults d r (some storage) = (d, stored (get_storage_info listed sized d) storage_path)

  unfoldable pub serve_request : Mux Route → Faults → Disk → Request → Disk × Answer
  unfolding serve_route
  serve_request mux faults d r = serve_route faults d r (mux agent_routes r.path)

abbrev pub url : String → String
url rest = concat "/api/v1/chunks/" rest

only_chunks :
    (rest : String)
    → select (λ (r : String × Route). is_match r.0 (url rest)) agent_routes
      ≡ (("/api/v1/chunks/", chunks) ∷ [])
unfolding differ ends_with_slash
only_chunks rest =
    rw
      (
        is_match-differ "/health" "/api/v1/chunks/" rest refl,
        is_match-prefix "/api/v1/chunks/" rest refl,
        is_match-differ "/api/v1/replicate" "/api/v1/chunks/" rest refl,
        is_match-differ "/api/v1/storage" "/api/v1/chunks/" rest refl,
      )
      refl

the_one : (h : Route) → IsAmong h (("/api/v1/chunks/", chunks) ∷ []) → h ≡ chunks
the_one h (inl same) = sym same
the_one h (inr other) = absurd other

-- A path under the chunks' pattern goes to their handler.
pub routes-url :
    (mux : Mux Route) (clean : String → Bool)
    → IsMux mux
    → IsComplete clean mux
    → (rest : String) → clean (url rest) ≡ true
    → mux agent_routes (url rest) ≡ some chunks
unfolding ends_with_slash
routes-url mux clean laws complete rest tidy = elim (Option-cases (mux agent_routes (url rest))) [
  | inl e ↦
      let unmatched = (complete.finds agent_routes (url rest) tidy e).1.0 in
      absurd (cc (is_match-prefix "/api/v1/chunks/" rest refl, unmatched))
  | inr (h, e) ↦
      let among = subst (IsAmong h) (only_chunks rest) (laws.picks agent_routes (url rest) h e) in
      e ∙ ap some (the_one h among)
]
