-- ===== src/Client/World.antt =====
-- The client against the server: what the handlers of internal/server and the nodes answer to the calls of
-- internal/client/uploader.go. The replications that the server starts run later, and the keys' bucket of the
-- database is not part of this state.
pub mod Calls
pub mod Chunk
pub mod Rounds
pub mod Stored
use constelfs.Prelude.{ℕ, suc, String, Bool, true, false, List, [], ◌∷◌, some}
use constelfs.Server.State.{
  Time, Server, Response, success, written, version_created, prepared, refused,
}
use constelfs.Server.Nodes.{post}
use constelfs.Server.Scheduler.{Floats, Sort}
use constelfs.Server.Storage.{handle_write, handle_confirm_write}
use constelfs.Server.Versions.{VersionSort}
use constelfs.Server.Files.{handle_create_version}
use constelfs.Server.Content.{Send, Sent, not_sent, answered}
use constelfs.Client.Requests.{
  Call, write, put_chunk, confirm, create, save_key, WriteAnswer, Answer, lost, garbled, decoded,
  Peer,
}

-- The server and the nodes, and how many calls were made.
pub record World (W : Type 0) : Type 0 where
  pub server : Server
  pub nodes : W
  pub made : ℕ

-- What encoding/json reads of an answer. `http.Error` writes a text that is no JSON object.
abbrev pub write_answer : Response → Answer WriteAnswer
write_answer (written (prepared id ids nodes addrs)) = decoded (record {
  success = true;
  chunk_id = id;
  chunk_ids = ids;
  nodes = nodes;
  node_addrs = addrs;
  error = "";
})
write_answer (written (refused e)) = decoded (record {
  success = false;
  chunk_id = "";
  chunk_ids = [];
  nodes = [];
  node_addrs = [];
  error = e;
})
write_answer _ = garbled

abbrev pub confirm_answer : Response → Answer Bool
confirm_answer success = decoded true
confirm_answer _ = garbled

abbrev pub create_answer : Response → Answer (Bool × String)
create_answer (version_created v) = decoded (true, "")
create_answer _ = garbled

module _ {W : Type 0} (f : Floats) (sort : Sort) (order : VersionSort) (send : Send W)
    (clock : ℕ → Time) where
  -- One call, at the clock's reading for its number.
  unfoldable pub call : World W → Call → World W
  unfolding handle_write handle_confirm_write handle_create_version
  call v (write req) = record v {
    server = (handle_write f sort v.server (clock v.made) post (some req)).0;
    made = suc v.made;
  }
  call v (put_chunk addr id bytes) = record v {
    nodes = (send v.nodes addr id bytes).0;
    made = suc v.made;
  }
  call v (confirm req) = record v {
    server = (handle_confirm_write v.server post (some req)).0;
    made = suc v.made;
  }
  call v (create req) = record v {
    server = (handle_create_version order v.server (clock v.made) post (some req)).0;
    made = suc v.made;
  }
  call v (save_key id key) = record v { made = suc v.made }

  unfoldable pub calls : World W → List Call → World W
  unfolding call
  calls v [] = v
  calls v (c ∷ cs) = calls (call v c) cs

  -- What the last of some calls gets.
  unfoldable pub at_last : {A : Type 0} → A → (World W → Call → A) → World W → List Call → A
  unfolding call
  at_last none_yet answer v [] = none_yet
  at_last none_yet answer v (c ∷ []) = answer v c
  at_last none_yet answer v (c ∷ d ∷ cs) = at_last none_yet answer (call v c) (d ∷ cs)

  abbrev pub on_write : World W → Call → Answer WriteAnswer
  on_write v (write req) =
      write_answer (handle_write f sort v.server (clock v.made) post (some req)).1
  on_write v _ = lost

  abbrev pub on_put : World W → Call → Sent
  on_put v (put_chunk addr id bytes) = (send v.nodes addr id bytes).1
  on_put v _ = not_sent

  abbrev pub on_confirm : World W → Call → Answer Bool
  on_confirm v (confirm req) = confirm_answer (handle_confirm_write v.server post (some req)).1
  on_confirm v _ = lost

  abbrev pub on_create : World W → Call → Answer (Bool × String)
  on_create v (create req) =
      create_answer (handle_create_version order v.server (clock v.made) post (some req)).1
  on_create v _ = lost

  -- The server and the nodes as the uploader meets them, from a state on.
  unfoldable pub served : World W → Peer
  unfolding at_last handle_write handle_confirm_write handle_create_version
  served v = record {
    on_write = at_last lost on_write v;
    on_put = at_last not_sent on_put v;
    on_confirm = at_last lost on_confirm v;
    on_create = at_last lost on_create v;
    on_key = λ made. answered 200;
  }
