-- ===== src/Chat/Store.antt =====
-- katzenpost/cmd/chatd/main.go: where things are stored, the group files, the membership lists of
-- the users, and the `ant` tool.
use zknode_autonomi_alpha.Prelude.{
  ℕ, Bool, ◌&&◌, ◌||◌, Option, none, some, List, [], ◌∷◌, ◌++◌, Bytes, Result, ok, err, codes, ◌==◌,
  nat_Eq, list_Eq, leb, if◌then◌else◌, contains,
}
use mathlib.Core.List.{reverse}
use zknode_autonomi_alpha.Hex
use zknode_autonomi_alpha.FilePath
use zknode_autonomi_alpha.FilePath.{DirPath}
use zknode_autonomi_alpha.Files.{Files, Host, done, fault, mkdir_all, write_file, read_file}
use zknode_autonomi_alpha.Chat.{Chatd, Wire, Group, Action, ◌>>◌, attempt}

-- newID
unfoldable pub new_id : Host → Bytes
new_id h = Hex.encode h.random

-- filepath.Join(c.storeDir, "user_" + hex.EncodeToString(userID))
unfoldable pub user_dir : Chatd → Bytes → DirPath
user_dir c user_id = FilePath.join c.store_dir (codes "user_" ++ Hex.encode user_id)

-- filepath.Join(c.storeDir, "group_" + groupID)
unfoldable pub group_dir : Chatd → Bytes → DirPath
group_dir c group_id = FilePath.join c.store_dir (codes "group_" ++ group_id)

abbrev pub meta_json : Bytes
meta_json = codes "meta.json"

abbrev pub groups_json : Bytes
groups_json = codes "groups.json"

abbrev pub message_file : Bytes → Bytes
message_file id = id ++ codes ".msg"

unfoldable pub is_member : Group → Bytes → Bool
is_member g user_id = contains g.members user_id

module _ (w : Wire) (c : Chatd) (h : Host) where
  -- loadGroupMeta
  unfoldable pub load_group_meta : Bytes → Files → Result Group
  load_group_meta group_id fs = elim (read_file h (group_dir c group_id) meta_json fs) [
    | fault e ↦ err (h.describe e)
    | done b ↦ w.decode_group b
  ]

  unfoldable pub save_group : DirPath → Result Bytes → Action (Unit {0})
  save_group dir (err e) fs = (err e, fs)
  save_group dir (ok b) fs = attempt h [] (write_file h dir meta_json b) fs

  -- writeGroupMeta
  unfoldable pub write_group_meta : Bytes → Group → Action (Unit {0})
  unfolding save_group
  write_group_meta group_id g = do
    let dir = group_dir c group_id
    attempt h [] (mkdir_all h dir)
    save_group dir (w.encode_group g)

  -- getUserGroups; the callers drop the error
  unfoldable pub get_user_groups : Bytes → Files → Option (List Bytes)
  get_user_groups user_id fs = elim (read_file h (user_dir c user_id) groups_json fs) [
    | fault e ↦ none
    | done b ↦ w.decode_ids b
  ]

  unfoldable pub or_no_groups : Option (List Bytes) → List Bytes
  or_no_groups none = []
  or_no_groups (some groups) = groups

  -- addUserGroup; the callers only log its error
  unfoldable pub add_user_group : Bytes → Bytes → Action (Unit {0})
  unfolding or_no_groups
  add_user_group user_id group_id fs =
      let groups = or_no_groups (get_user_groups user_id fs) in
      let dir = user_dir c user_id in
      if contains groups group_id
      then (ok tt, fs)
      else (attempt h [] (mkdir_all h dir)
            >> attempt h [] (write_file h dir groups_json (w.encode_ids (groups ++ group_id ∷ []))))
          fs

  -- for _, m := range members { c.addUserGroup(m, groupID) }
  unfoldable pub add_user_groups : List Bytes → Bytes → Files → Files
  add_user_groups [] group_id fs = fs
  add_user_groups (m ∷ ms) group_id fs =
      add_user_groups ms group_id (add_user_group m group_id fs).1

  other_ids : Bytes → List Bytes → List Bytes
  other_ids group_id [] = []
  other_ids group_id (g ∷ gs) =
      let rest = other_ids group_id gs in if g == group_id then rest else g ∷ rest

  -- removeUserGroup, whose error the caller drops
  unfoldable pub remove_user_group : Bytes → Bytes → Files → Files
  unfolding other_ids
  remove_user_group user_id group_id fs = elim (get_user_groups user_id fs) [
    | none ↦ fs
    | some groups ↦
        (attempt h []
          (write_file h (user_dir c user_id) groups_json (w.encode_ids (other_ids group_id groups)))
          fs).1
  ]

unfoldable pub is_space : ℕ → Bool
is_space c = c == 32 || (leb 9 c && leb c 13)

unfoldable pub skip_spaces : Bytes → Bytes
skip_spaces [] = []
skip_spaces (c ∷ s) = let rest = skip_spaces s in if is_space c then rest else c ∷ s

-- bytes.TrimSpace on ASCII
unfoldable pub trim_space : Bytes → Bytes
unfolding skip_spaces is_space
trim_space s = reverse (skip_spaces (reverse (skip_spaces s)))

-- storeAnt
unfoldable pub store_ant : Host → Bytes → Result Bytes
unfolding trim_space
store_ant h blob = elim (h.ant blob) [ err e ↦ err e | ok out ↦ ok (Hex.encode (trim_space out)) ]
