-- ===== src/Chat/Tests/World.antt =====
-- A daemon, two hosts and the requests of the runs.
use zknode_autonomi_alpha.Prelude.{
  ◌≡◌, refl, true, false, none, List, [], ◌∷◌, Bytes, ok, codes, replicate, All, arith, ◌<◌, lookup,
  some, ==_refl, nat_Eq, list_Eq,
}
use zknode_autonomi_alpha.Files.{Files, Host, names, file, read_file, put_file, add_dirs}
use zknode_autonomi_alpha.Files.Laws.{
  IsWellFormed, IsWellFormed-put_file, IsWellFormed-add_dirs, file-put_file, has_dir-add_dirs,
}
use zknode_autonomi_alpha.Chat.{Chatd, ChatRequest, Group}
use zknode_autonomi_alpha.Chat.Mailbox.{Willing}
use zknode_autonomi_alpha.Chat.Store.{group_dir, meta_json, load_group_meta}
use zknode_autonomi_alpha.Chat.Tests.Codec.{
  wire, join_fields, group_fields, decode_group-encode_group,
}

abbrev pub daemon : Chatd
daemon = record {
  store_dir = codes "chat" ∷ [];
  ant_path = codes "ant";
  use_ant = false;
  fae_address = [];
  fae_model = [];
}

abbrev pub offloading : Chatd
offloading = record daemon { use_ant = true }

abbrev pub host : Host
host = record {
  refuses = λ s p. none;
  describe = λ e. codes "error";
  now_ms = 1000;
  random = 1 ∷ 2 ∷ 3 ∷ 4 ∷ 5 ∷ 6 ∷ 7 ∷ 8 ∷ 9 ∷ 10 ∷ 11 ∷ 12 ∷ 13 ∷ 14 ∷ 15 ∷ 16 ∷ [];
  ant = λ blob. ok (codes "addr");
  post = λ url body. ok (ok (codes "answer"));
}

abbrev pub later : Host
later = record host { now_ms = 2000; random = replicate 16 200 }

pub host-Willing : Willing host
host-Willing s p = refl

pub later-Willing : Willing later
later-Willing s p = refl

pub host-bytes : All (λ b. b < 256) host.random
host-bytes = omega arith

abbrev pub alice : Bytes
alice = 7 ∷ 17 ∷ []

abbrev pub bob : Bytes
bob = 8 ∷ 18 ∷ []

abbrev pub carol : Bytes
carol = 9 ∷ 19 ∷ []

-- A request by a user about a group, with a recipient, a content and members.
abbrev pub ask : Bytes → Bytes → Bytes → Bytes → List Bytes → ChatRequest
ask user_id recipient content group_id members = record {
  op = [];
  user_id = user_id;
  recipient = recipient;
  content = content;
  msg_type = codes "text";
  group_id = group_id;
  group_name = [];
  members = members;
}

abbrev pub hello : ChatRequest
hello = ask alice bob (codes "hello") [] []

abbrev pub look : ChatRequest
look = ask bob [] [] [] []

-- A group of two, and a store that holds it alone.
abbrev pub friends : Group
friends = record {
  id = codes "ab";
  name = codes "friends";
  owner = alice;
  members = alice ∷ bob ∷ [];
  created_at = 900;
}

abbrev pub alone : Group
alone = record friends { members = alice ∷ [] }

abbrev pub stored : Group → Files
stored g =
    let d = group_dir daemon (codes "ab") in
    put_file d meta_json (join_fields (group_fields g)) (add_dirs d [])

pub empty-IsWellFormed : IsWellFormed []
unfolding names lookup
empty-IsWellFormed = record { distinct = λ p. tt }

pub stored-IsWellFormed : (g : Group) → IsWellFormed (stored g)
stored-IsWellFormed g =
    let d = group_dir daemon (codes "ab") in
    IsWellFormed-put_file d meta_json (join_fields (group_fields g)) (add_dirs d [])
      (IsWellFormed-add_dirs d [] empty-IsWellFormed)

pub load-found :
    (g : Group) (fs : Files)
    → file fs (group_dir daemon (codes "ab")) meta_json ≡ some (join_fields (group_fields g))
    → load_group_meta wire daemon host (codes "ab") fs ≡ ok g
unfolding load_group_meta read_file
load-found g fs e = rw (e, load_group_meta, read_file) (decode_group-encode_group g)

pub load-stored : (g : Group) → load_group_meta wire daemon host (codes "ab") (stored g) ≡ ok g
load-stored g =
    let d = group_dir daemon (codes "ab") in
    let kept =
      file-put_file d meta_json (join_fields (group_fields g)) (add_dirs d []) d meta_json
        (has_dir-add_dirs d []) in
    let found : file (stored g) d meta_json ≡ some (join_fields (group_fields g)) =
      ground (arith, kept, ==_refl d, ==_refl meta_json) in
    load-found g (stored g) found
