-- ===== src/Client/World/Rounds.antt =====
-- The chunks of an upload that does not encrypt, at the server and the nodes (`Upload` of
-- internal/client/uploader.go).
use constelfs.Prelude.{
  true, ℕ, zero, suc, ◌≤◌, String, false, List, [], ◌∷◌, ◌++◌, Option, some, ◌≡◌, ◌≢◌, refl, ap,
  ◌∙◌, arith, pos, inr, Map,
}
use constelfs.Prelude.Text.Urls.{is_plain}
use constelfs.Server.State.{Time, Node, manager_nodes}
use constelfs.Server.Scheduler.{Floats, Sort, select_nodes}
use constelfs.Server.Scheduler.Known.{IsKnown}
use constelfs.Server.Storage.{new_chunk_id}
use constelfs.Server.Transfer.{Network}
use constelfs.Server.Versions.{VersionSort}
use constelfs.Server.Files.Deletion.{SameFiles, SameFiles-refl, SameFiles-trans}
use constelfs.Server.Downloads.{gather}
use constelfs.Server.Encryption.{Crypto}
use constelfs.Server.Content.{Send}
use constelfs.Server.Content.Delivery.{
  IsChunkName, new_chunk_id-IsChunkName, IsNetwork, IsApart, Holds,
}
use constelfs.Server.Content.Loop.{gather-Holds, new_chunk_id_inj}
use constelfs.Client.Requests.{Call, LocalFile, ChunkUploader}
use constelfs.Client.Uploader.{upload_rounds, upload_data, read_piece, after_chunk, with_chunk}
use constelfs.Client.Uploader.Rounds.{pieces}
use constelfs.Client.World.{World, calls, served}
use constelfs.Client.World.Chunk.{Delivers, upload_chunk-Delivers}

module _ {W : Type 0} (f : Floats) (sort : Sort) (order : VersionSort) (send : Send W)
    (clock : ℕ → Time) (fetch : W → Network) (up : IsNetwork send fetch)
    (apart : IsApart send fetch) (start : World W) (k : ℕ) (nodes : Map Node) (n : Node)
    (ns : List Node) (sel : select_nodes f sort nodes (pos (suc k)) [] ≡ n ∷ ns)
    (known : IsKnown nodes n) (file_id : String) where
  abbrev here : List Call → World W
  here cs = calls f sort order send clock start cs

  -- What the rounds leave, for the chunks' ids and the bytes that they read.
  pub record Gathers (v v' : World W) (ids : List String) (bytes : List ℕ) : Type 0 where
    pub same_files : SameFiles v.server v'.server
    pub managed : manager_nodes v'.server ≡ manager_nodes v.server
    pub later : v.made ≤ v'.made
    pub gathered : gather (fetch v'.nodes) v'.server ids ≡ inr bytes
    pub keeps :
        (other : String) (bytes' : List ℕ)
        → IsChunkName other
        → ((j : ℕ) → v.made ≤ j → other ≢ new_chunk_id file_id (clock j))
        → Holds fetch v.server v.nodes other bytes'
        → Holds fetch v'.server v'.nodes other bytes'

  module _ (inj : (a b : ℕ) → clock a ≡ clock b → a ≡ b) where
    Gathers-cons :
        is_plain file_id ≡ true
        → (v v' v'' : World W) (ids : List String) (bytes more : List ℕ)
        → let id = new_chunk_id file_id (clock v.made) in
          Delivers f sort order send clock fetch v v' id bytes
          → Gathers v' v'' ids more
          → Gathers v v'' (id ∷ ids) (bytes ++ more)
    Gathers-cons plain v v' v'' ids bytes more d g =
        let id = new_chunk_id file_id (clock v.made) in
        let fresh : (j : ℕ) → v'.made ≤ j → id ≢ new_chunk_id file_id (clock j) = λ j low e.
          omega
            (arith, d.later, inj v.made j (new_chunk_id_inj file_id (clock v.made) (clock j) e)) in
        record {
          same_files = SameFiles-trans d.same_files g.same_files;
          managed = g.managed ∙ d.managed;
          later = omega (arith, d.later, g.later);
          gathered =
              gather-Holds fetch v''.server v''.nodes id ids bytes more
                (g.keeps id bytes (new_chunk_id-IsChunkName file_id (clock v.made) plain) fresh
                  d.holds)
                g.gathered;
          keeps = λ other bytes' called differs h.
              g.keeps other bytes' called (λ j low. differs j (omega (arith, d.later)))
                (d.keeps other bytes' called (differs v.made (omega arith)) h);
        }

    module _ (crypto : Crypto String) (sha256 : List ℕ → String) (u : ChunkUploader)
        (file : LocalFile) (key : String) (nonces : ℕ → Option (List ℕ)) where
      -- Each piece is sent as it is.
      abbrev AreSentPlain : Type 0
      AreSentPlain =
          (i : ℕ) (piece : List ℕ) → upload_data crypto u.encrypt key (nonces i) piece ≡ some piece

      pub upload_rounds-Gathers :
          is_plain file_id ≡ true
          → ((i : ℕ) → file.unreadable i ≡ false)
          → AreSentPlain
          → (left i : ℕ) (last : String) (cs : List Call) → (here cs).server.nodes ≡ nodes
          → manager_nodes (here cs).server ≡ nodes
          → (cs' : List Call) × (ids : List String) × (hash : String) × (upload_rounds
                (served f sort order send clock start)
                crypto
                sha256
                u
                file
                file_id
                key
                nonces
                (pos (suc k))
                left
                i
                last
                cs
              ≡ (cs', inr (ids, hash)))
            × Gathers (here cs) (here cs') ids (pieces u file left i)
      unfolding upload_rounds pieces gather
      upload_rounds-Gathers safe readable plain zero i last cs same managed = (
        cs,
        [],
        last,
        refl,
        record {
          same_files = SameFiles-refl (here cs).server;
          managed = refl;
          later = omega arith;
          gathered = refl;
          keeps = λ other bytes called differs h. h;
        },
      )
      upload_rounds-Gathers safe readable plain (suc left) i last cs same managed =
          let peer = served f sort order send clock start in
          let piece = read_piece u file i in
          let (cs1, sent, d) =
            upload_chunk-Delivers f sort order send clock fetch k nodes n ns sel up apart known
              start file_id cs i piece (sha256 piece) safe same managed in
          let (cs', ids, hash, rest, g) =
            upload_rounds-Gathers safe readable plain left (suc i) (sha256 piece) cs1
              (d.same_files.nodes ∙ same) (d.managed ∙ managed) in
          let id = new_chunk_id file_id (clock (here cs).made) in
          (
            cs',
            id ∷ ids,
            hash,
            rw (readable i, upload_rounds)
                (rw (plain i piece, upload_rounds)
                  (ap
                      (λ r. after_chunk peer crypto sha256 u i r (
                        upload_rounds peer crypto sha256 u file file_id key nonces (pos (suc k))
                          left (suc i) (sha256 piece)))
                      sent
                    ∙ ap (λ r. with_chunk peer crypto sha256 u r id) rest)),
            Gathers-cons safe (here cs) (here cs1) (here cs') ids piece _ d g,
          )
