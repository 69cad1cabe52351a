-- ===== src/Chat/Layout.antt =====
-- Where chatd/main.go puts things: the directories of two users differ, and a message file is told
-- from the two JSON files by its name.
use zknode_autonomi_alpha.Prelude.{
  ℕ, ◌≡◌, ◌≢◌, ap, [], ◌∷◌, ◌++◌, Bytes, codes, nat_Eq, list_Eq, arith, All, All-append,
}
use zknode_autonomi_alpha.Hex
use zknode_autonomi_alpha.Hex.{IsByte, encode-injective, encode-All-ne}
use zknode_autonomi_alpha.FilePath.{DirPath, IsPlain, join-plain, ext, ext-append}
use zknode_autonomi_alpha.Files.{Host}
use zknode_autonomi_alpha.Chat.{Chatd}
use zknode_autonomi_alpha.Chat.Store.{user_dir, group_dir, message_file, new_id, meta_json}

pub user_dir_lem :
    (c : Chatd) (u : Bytes)
    → All IsByte u
    → user_dir c u ≡ (codes "user_" ++ Hex.encode u) ∷ c.store_dir
unfolding user_dir
user_dir_lem c u h = join-plain c.store_dir b'u' (codes "ser_" ++ Hex.encode u) (omega arith) (
    All-append (λ d. d ≢ b'/') (codes "user_") (Hex.encode u) (omega arith)
      (encode-All-ne u b'/' h (omega arith)))

pub group_dir_lem :
    (c : Chatd) (g : Bytes) → IsPlain g → group_dir c g ≡ (codes "group_" ++ g) ∷ c.store_dir
unfolding group_dir
group_dir_lem c g h =
    join-plain c.store_dir b'g' (codes "roup_" ++ g) (omega arith)
      (All-append (λ d. d ≢ b'/') (codes "group_") g (omega arith) h)

-- Two users with one directory are one user, if their IDs are made of bytes.
pub user_dir-injective :
    (c : Chatd) (u v : Bytes) → All IsByte u → All IsByte v → user_dir c u ≡ user_dir c v → u ≡ v
user_dir-injective c u v hu hv e =
    encode-injective u v hu hv (cc (user_dir_lem c u hu, user_dir_lem c v hv))

abbrev initial : DirPath → ℕ
initial [] = 0
initial ([] ∷ p) = 0
initial ((b ∷ s) ∷ p) = b

-- No group without a separator in its ID has the directory of a user, whose ID is made of bytes.
user_dir-ne-group_dir :
    (c : Chatd) (u g : Bytes) → All IsByte u → IsPlain g → user_dir c u ≢ group_dir c g
user_dir-ne-group_dir c u g hu hg e =
    omega (arith, ap initial (user_dir_lem c u hu), ap initial (group_dir_lem c g hg), ap initial e)

pub new_id-IsPlain : (h : Host) → All IsByte h.random → IsPlain (new_id h)
unfolding new_id
new_id-IsPlain h r = encode-All-ne h.random b'/' r (omega arith)

-- The file of a message has the extension that the polls look for.
pub ext-message_file :
    (h : Host) → All IsByte h.random → ext (message_file (new_id h)) ≡ codes ".msg"
unfolding new_id
ext-message_file h r =
    ext-append (Hex.encode h.random) (codes "msg") (encode-All-ne h.random b'.' r (omega arith))
      (encode-All-ne h.random b'/' r (omega arith)) (omega arith) (omega arith)

pub ext-meta_json : ext meta_json ≡ codes ".json"
ext-meta_json =
    ext-append (codes "meta") (codes "json") (omega arith) (omega arith) (omega arith) (omega arith)

pub message_file-ne-meta_json :
    (h : Host) → All IsByte h.random → message_file (new_id h) ≢ meta_json
message_file-ne-meta_json h r e = cc (ext-message_file h r, ext-meta_json)
