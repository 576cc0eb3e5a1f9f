-- ===== src/Agent/Cluster.antt =====
-- Node agents without faults, as the server's uploads and downloads meet them: `HandleChunkByPath` of
-- internal/node/chunk_handler.go behind the requests of `UploadToNode` and `DownloadChunk` in internal/server.
use constelfs.Prelude.{
  ℕ, String, true, false, List, [], Option, none, some, Map, lookup, insert, ◌≡◌, refl, arith,
  str_eq, eq_iff, lookup-insert, ◌&&◌, if◌then◌else◌, inl, inr, ap, Bool-cases, sym, ◌∙◌,
}
use constelfs.Prelude.Text.{concat}
use constelfs.Prelude.Text.Names.{has_char, has_char-differs, trim_prefix-concat}
use constelfs.Prelude.Text.Urls.{IsParser, is_clear, is_clear-concat}
use constelfs.Server.State.{Node}
use constelfs.Server.Nodes.{get, put}
use constelfs.Server.Storage.{node_addr}
use constelfs.Server.Transfer.{Network, Fetched, no_response, response}
use constelfs.Server.Content.{Send, Sent, not_sent, answered}
use constelfs.Server.Content.Delivery.{
  IsChunkName, IsChunkName-has, IsChunkName-is_clear, IsChunkName-is_name, IsNetwork, IsApart,
}
use constelfs.Agent.Chunks.Places.{Disk, join-chunks, join-temp}
use constelfs.Agent.Chunks.Contents.{temp_name-is_name}
use constelfs.Agent.Chunks.{
  temp_name, Reply, Faults, error, data_of, handle_chunk, handle_upload, handle_download,
}

abbrev empty_disk : Disk
empty_disk = record { temp = []; others = []; chunks = [] }

abbrev no_faults : Faults
no_faults = record {
  write_fails = false;
  rename_fails = false;
  read_fails = false;
  remove_fails = false;
  is_directory = false;
}

abbrev or_empty : Option Disk → Disk
or_empty none = empty_disk
or_empty (some d) = d

-- The disk of the node at an address.
abbrev pub disk_at : Map Disk → String → Disk
disk_at disks addr = or_empty (lookup addr disks)

-- The answer on the wire.
abbrev status : Reply → ℕ
status (error code text) = code
status _ = 200

abbrev bytes_of : Reply → Option (List ℕ)
bytes_of (data_of hash bytes) = some bytes
bytes_of _ = none

abbrev on_wire : Reply → Fetched
on_wire reply = response (status reply) (bytes_of reply)

abbrev url_of : String → String
url_of id = concat "/api/v1/chunks/" id

url_of-is_clear : (id : String) → IsChunkName id → is_clear (url_of id) ≡ true
unfolding is_clear
url_of-is_clear id h = is_clear-concat "/api/v1/chunks/" id ∙ IsChunkName-is_clear id h

-- The node's answer to a PUT, and its disk.
abbrev served_put : Map Disk → String → Disk × Reply → Map Disk × Sent
served_put disks addr (d, reply) = (insert addr d disks, answered (status reply))

-- `parse` is the agent's reading of the path of a URL.
module _ (sha256 : List ℕ → String) (root : List String) (parse : String → Option String) where
  -- The PUT of `UploadToNode` at the agent with this address.
  unfoldable pub put_chunk : Send (Map Disk)
  put_chunk disks addr id bytes = elim (parse (url_of id)) [
    | none ↦ (disks, not_sent)
    | some path ↦
        served_put disks addr
          (handle_chunk sha256 root no_faults (disk_at disks addr) put path "" (some bytes))
  ]

  -- The GET of `DownloadChunk` at the agent of the node.
  unfoldable pub get_chunk : Map Disk → Network
  get_chunk disks n id = elim (parse (url_of id)) [
    | none ↦ no_response
    | some path ↦
        on_wire
          (handle_chunk sha256 root no_faults (disk_at disks (node_addr n)) get path "" none).1
  ]

  put_chunk-plain :
      IsParser parse
      → (disks : Map Disk) (addr id : String) (bytes : List ℕ) → IsChunkName id
      → put_chunk disks addr id bytes
        ≡ served_put disks addr (
            handle_chunk sha256 root no_faults (disk_at disks addr) put (url_of id) "" (some bytes))
  unfolding put_chunk
  put_chunk-plain parses disks addr id bytes h =
      rw (parses.clear (url_of id) (url_of-is_clear id h), put_chunk) refl

  get_chunk-plain :
      IsParser parse
      → (disks : Map Disk) (n : Node) (id : String) → IsChunkName id
      → get_chunk disks n id
        ≡ on_wire
            (handle_chunk sha256 root no_faults
              (disk_at disks (node_addr n))
              get
              (url_of id)
              ""
              none).1
  unfolding get_chunk
  get_chunk-plain parses disks n id h =
      rw (parses.clear (url_of id) (url_of-is_clear id h), get_chunk) refl

  -- A chunk's name is none of the old routes.
  pub by_path :
      (id : String) (h : IsChunkName id)
      → (str_eq id "upload" ≡ false)
        × (str_eq id "download" ≡ false)
        × (str_eq id "delete" ≡ false)
        × (str_eq id "" ≡ false)
        × (str_eq id "/" ≡ false)
  unfolding has_char
  by_path id h = (
    has_char-differs b'_' id "upload" (IsChunkName-has id h) refl,
    has_char-differs b'_' id "download" (IsChunkName-has id h) refl,
    has_char-differs b'_' id "delete" (IsChunkName-has id h) refl,
    has_char-differs b'_' id "" (IsChunkName-has id h) refl,
    has_char-differs b'_' id "/" (IsChunkName-has id h) refl,
  )

  handle_chunk-put :
      (d : Disk) (id : String) (bytes : List ℕ)
      → IsChunkName id
      → let (d', reply) = handle_chunk sha256 root no_faults d put (url_of id) "" (some bytes) in
        (status reply ≡ 200) × (d'.chunks ≡ insert id bytes d.chunks)
  unfolding handle_chunk handle_upload
  handle_chunk-put d id bytes h =
      let (upload, download, delete', empty, slash) = by_path id h in
      let name = IsChunkName-is_name id h in
      rw (trim_prefix-concat "/api/v1/chunks/" id) (
        rw
          (
            upload,
            download,
            delete',
            empty,
            slash,
            join-chunks root id name,
            join-temp root (temp_name id) (temp_name-is_name id name),
          )
          (refl, refl))

  -- A GET of a chunk looks at that chunk only.
  abbrev read : Option (List ℕ) → Reply
  read none = error 404 "Chunk not found"
  read (some bytes) = data_of (sha256 bytes) bytes

  handle_chunk-get :
      (d : Disk) (id : String) (known : Option (List ℕ))
      → IsChunkName id
      → lookup id d.chunks ≡ known
      → (handle_chunk sha256 root no_faults d get (url_of id) "" none).1 ≡ read known
  unfolding handle_chunk handle_download
  handle_chunk-get d id known h e =
      let (upload, download, delete', empty, slash) = by_path id h in
      rw (trim_prefix-concat "/api/v1/chunks/" id) (
        rw (upload, download, delete', empty, slash, join-chunks root id (IsChunkName-is_name id h))
          (ground (arith, e)))

  -- What every disk has after a PUT.
  disk_at-put_chunk :
      IsParser parse
      → (disks : Map Disk) (addr id : String) (bytes : List ℕ) → IsChunkName id
      → (a other : String)
      → lookup other (disk_at (put_chunk disks addr id bytes).0 a).chunks ≡ (
          if str_eq addr a && str_eq id other
          then some bytes
          else lookup other (disk_at disks a).chunks)
  disk_at-put_chunk parses disks addr id bytes h a other =
      let d = disk_at disks addr in
      let d' = (handle_chunk sha256 root no_faults d put (url_of id) "" (some bytes)).0 in
      let stored = (handle_chunk-put d id bytes h).1 in
      let whose = lookup-insert addr a d' disks in
      let which = lookup-insert id other bytes d.chunks in
      rw (put_chunk-plain parses disks addr id bytes h) (elim (Bool-cases (str_eq addr a)) [
        | inl e ↦
            rw (whose, e)
              (rw stored (ground (arith, which, ap (disk_at disks) ((eq_iff addr a).0 e))))
        | inr e ↦ rw (whose, e) refl
      ])

  -- Agents that answer each request without a fault take a PUT of a chunk with a name that has an underscore, no slash
  -- and no character that means something in a URL, as `PrepareWrite` makes it of such an id. A GET of that chunk at that
  -- address then gives its bytes, and each other GET of such a name what it gave before.
  pub get_chunk-put_chunk :
      IsParser parse
      → (disks : Map Disk) (addr id : String) (bytes : List ℕ) (n : Node) (other : String)
      → IsChunkName id
      → IsChunkName other
      → let (after, sent) = put_chunk disks addr id bytes in
        (sent ≡ answered 200)
        × (get_chunk after n other ≡ (
            if str_eq addr (node_addr n) && str_eq id other
            then response 200 (some bytes)
            else get_chunk disks n other))
  get_chunk-put_chunk parses disks addr id bytes n other h k =
      let after = (put_chunk disks addr id bytes).0 in
      let held = disk_at-put_chunk parses disks addr id bytes h (node_addr n) other in
      let old = lookup other (disk_at disks (node_addr n)).chunks in
      (
        ap (λ (r : Map Disk × Sent). r.1) (put_chunk-plain parses disks addr id bytes h)
            ∙ ap answered (handle_chunk-put (disk_at disks addr) id bytes h).0,
        get_chunk-plain parses after n other k
            ∙ elim (Bool-cases (str_eq addr (node_addr n) && str_eq id other)) [
              | inl e ↦ rw e (
                  ap on_wire (
                    handle_chunk-get (disk_at after (node_addr n)) other (some bytes) k
                      (held ∙ rw e refl)))
              | inr e ↦ rw e (
                  ap on_wire
                    (handle_chunk-get (disk_at after (node_addr n)) other old k (held ∙ rw e refl))
                  ∙ sym (
                      get_chunk-plain parses disks n other k
                      ∙ ap on_wire
                          (handle_chunk-get (disk_at disks (node_addr n)) other old k refl)))
            ],
      )

  pub agents-IsNetwork : IsParser parse → IsNetwork put_chunk get_chunk
  agents-IsNetwork parses = record {
    accepts = λ w addr id bytes h.
        ap (λ (r : Map Disk × Sent). r.1) (put_chunk-plain parses w addr id bytes h)
        ∙ ap answered (handle_chunk-put (disk_at w addr) id bytes h).0;
    delivers = λ w addr id bytes h n e.
        (get_chunk-put_chunk parses w addr id bytes n id h h).1
        ∙ ground (arith, eq_iff addr (node_addr n), eq_iff id id, sym e);
    keeps = λ w addr id bytes h n other k differs.
        (get_chunk-put_chunk parses w addr id bytes n other h k).1
        ∙ ground (arith, eq_iff id other, differs);
  }

  pub agents-IsApart : IsParser parse → IsApart put_chunk get_chunk
  agents-IsApart parses = record {
    elsewhere = λ w addr id bytes h n other k differs.
        (get_chunk-put_chunk parses w addr id bytes n other h k).1
        ∙ ground (arith, eq_iff addr (node_addr n), differs);
  }
