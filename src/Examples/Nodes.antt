-- ===== src/Examples/Nodes.antt =====
-- Agents without faults that store below /data, and a parser that takes the texts without URL characters.
use constelfs.Prelude.{ℕ, String, List, [], ◌∷◌, Option, none, some, Map, refl, if◌then◌else◌}
use constelfs.Prelude.Text.Urls.{is_clear, IsParser}
use constelfs.Server.Transfer.{Network}
use constelfs.Server.Content.{Send}
use constelfs.Agent.Chunks.Places.{Disk}
use constelfs.Agent.Cluster.{put_chunk, get_chunk}

abbrev pub no_hash : List ℕ → String
no_hash bytes = ""

abbrev pub root : List String
root = "data" ∷ []

abbrev pub clear_only : String → Option String
clear_only s = if is_clear s then some s else none

pub clear_only-IsParser : IsParser clear_only
clear_only-IsParser = record { clear = λ s h. rw h refl }

abbrev pub put_all : Send (Map Disk)
put_all = put_chunk no_hash root clear_only

abbrev pub get_all : Map Disk → Network
get_all = get_chunk no_hash root clear_only
