-- ===== src/Examples/Boots.antt =====
-- The theorems on the start and the routes of a storage node, applied.
use constelfs.Prelude.{
  ℕ, ◌*◌, ◌<◌, ◌^◌, ◌↔◌, ◌≡◌, refl, String, Bool, true, false, List, [], ◌∷◌, Option, none, some,
  map, pos, All, lookup,
}
use constelfs.Prelude.Text.{concat}
use constelfs.Prelude.Text.Names.{has_char}
use constelfs.Prelude.Text.{trim_prefix}
use constelfs.Prelude.Text.Urls.{is_plain}
use constelfs.Agent.Chunks.Contents.{chunk_of}
use constelfs.Server.Nodes.{put}
use constelfs.Server.Content.{Sent, not_sent}
use constelfs.Agent.Chunks.Places.{Disk}
use constelfs.Agent.Chunks.{Faults}
use constelfs.Agent.Heartbeats.{encodes}
use constelfs.Agent.Startup.{
  Statfs, total_disk_space, System, intact, serving, is_interval, gauges, directories, boot,
}
use constelfs.Agent.Startup.Registration.{IsServedBy, boot_iff, total_disk_space_iff}
use constelfs.Agent.Routes.{Request, serve_request, url}
use constelfs.Agent.Routes.Served.{
  get_of, answer_for, serve_requests, told_requests, serve_request-answer,
}
use constelfs.Examples.Data.{full_server}
use constelfs.Examples.Beats.{config}
use constelfs.Examples.Placement.{numbers}
use constelfs.Examples.Routing.{first_match, first_match-IsMux, first_match-IsComplete}

abbrev volume : Statfs
volume = record { blocks = 1000; available = 400; block_size = 4096 }

total_disk_space_iff_example :
    (total_disk_space (some volume) ≡ pos (1000 * 4096)) ↔ (1000 * 4096 < 2 ^ 63)
total_disk_space_iff_example = total_disk_space_iff volume

abbrev sys : System
sys = record { cpus = 4; goroutines = 8; memory = 0; statfs = some volume }

abbrev makes : String → Option String
makes dir = none

abbrev line : ℕ → String
line code = "400 Bad Request"

abbrev join : String → String → String
join a b = concat a (concat "/" b)

boot_iff_example :
    let r = boot numbers makes join line intact true sys (some config) full_server 9000 in
    ((r.1 ≡ serving) ↔ (
      All (λ dir. makes dir ≡ none) (map (join config.storage_path) directories)
      × (intact ≡ intact)
      × (encodes (gauges numbers sys) ≡ true)
      × (is_interval config.heartbeat_interval ≡ true)
      × (true ≡ true)))
    × IsServedBy config (gauges numbers sys) intact 9000 full_server r.0 r.1
boot_iff_example = boot_iff numbers makes join line intact true sys config full_server 9000

abbrev no_hash : List ℕ → String
no_hash bytes = "h"

abbrev unsent : String → List ℕ → String → ℕ → Sent
unsent id bytes addr retry = not_sent

abbrev any_size : String → Bool
any_size name = true

abbrev sound : Faults
sound = record {
  write_fails = false;
  rename_fails = false;
  read_fails = false;
  remove_fails = false;
  is_directory = false;
}

abbrev root : List String
root = "data" ∷ []

abbrev empty : Disk
empty = record { temp = []; others = []; chunks = [] }

abbrev put_x : Request
put_x = record {
  method = put;
  path = url "f_chunk_1";
  chunk_id = "";
  body = some (1 ∷ 2 ∷ []);
  replicas = none;
}

abbrev requests : List (Faults × Request)
requests = (sound, put_x) ∷ []

serve_request-answer_example :
    let d = serve_requests no_hash root unsent true any_size "/data" first_match empty requests in
    (serve_request no_hash root unsent true any_size "/data" first_match sound d
      (get_of "f_chunk_1" "" none none)).1
    ≡ answer_for no_hash (
        told_requests no_hash root unsent true any_size "/data" first_match "f_chunk_1" empty
          requests none)
unfolding has_char lookup is_plain chunk_of trim_prefix
serve_request-answer_example =
    serve_request-answer no_hash root unsent true any_size "/data" first_match (λ path. true)
      first_match-IsMux first_match-IsComplete empty requests sound "f_chunk_1" "" none none
      ((λ same. refl), tt) refl refl refl refl
