-- ===== src/Prover/Server.antt =====
-- cmd/storage-proved/main.go: the state of the prover, its start, and its three HTTP handlers. The
-- lock is held over a whole handler, so each is one step.
use zknode_autonomi_alpha.Prelude.{
  ℕ, zero, suc, ◌*◌, ◌%◌, ◌^◌, Bool, Option, none, some, List, [], ◌∷◌, ◌++◌, Bytes, Result, ok,
  err, codes, length, take, foldl, bit_or, leb, ◌==◌, nat_Eq, list_Eq, if◌then◌else◌,
}
use zknode_autonomi_alpha.Hex
use zknode_autonomi_alpha.Prover.Merkle.{
  zero_hash, build_merkle_tree, PathRun, path, panic, out_of_fuel, get_merkle_path,
}

pub record DirEntry : Type 0 where
  pub name : Bytes
  pub is_dir : Bool

-- The chunk directory as a call finds it: its entries in the order of their names, and the files
-- that can be read.
pub record Disk : Type 0 where
  pub entries : Result (List DirEntry)
  pub content : Bytes → Result Bytes

pub record Prover : Type 0 where
  pub chunk_dir : Bytes
  pub chunk_size : ℕ
  pub merkle_tree : List Bytes
  pub merkle_root : Bytes
  pub chunk_count : ℕ

pub record Challenge : Type 0 where
  pub index : ℕ
  pub nonce : Bytes

pub record ProofResponse : Type 0 where
  pub index : ℕ
  pub value : Bytes
  pub merkle_path : List Bytes
  pub root : Bytes
  pub total_chunks : ℕ
  pub chunk_size : ℕ

pub record Status : Type 0 where
  pub chunk_dir : Bytes
  pub total_chunks : ℕ
  pub merkle_root : Bytes
  pub chunk_size : ℕ

-- What a handler writes: an error with its code, or a JSON value.
pub data Reply (A : Type 0) : Type 0 where
  http_error : ℕ → Bytes → Reply A
  json : A → Reply A

module _ (hash : Bytes → Bytes) where
  unfoldable pub with_leaf : Result Bytes → List Bytes → List Bytes
  with_leaf (ok content) rest = hash content ∷ rest
  with_leaf (err e) rest = rest

  -- The hashes of the files that can be read.
  unfoldable pub leaf_hashes : Disk → List DirEntry → List Bytes
  unfolding with_leaf
  leaf_hashes disk [] = []
  leaf_hashes disk (e ∷ es) =
      let rest = leaf_hashes disk es in
      if e.is_dir then rest else with_leaf (disk.content e.name) rest

  unfoldable pub last_of : List Bytes → Bytes
  last_of [] = zero_hash
  last_of (x ∷ []) = x
  last_of (x ∷ y ∷ xs) = last_of (y ∷ xs)

  unfoldable pub grown : Prover → ℕ → Option (List Bytes) → Option (Result Prover)
  grown p count none = none
  grown p count (some tree) =
      some (ok (record p { merkle_tree = tree; merkle_root = last_of tree; chunk_count = count }))

  unfoldable pub planted : Prover → List Bytes → Option (Result Prover)
  planted p [] =
      some (ok (record p { merkle_tree = []; merkle_root = hash (codes "empty"); chunk_count = 0 }))
  planted p (leaf ∷ leaves) =
      grown p (length (leaf ∷ leaves)) (build_merkle_tree hash (leaf ∷ leaves))

  -- rebuildTree; none is a panic
  unfoldable pub rebuild_tree : Disk → Prover → Option (Result Prover)
  unfolding planted grown last_of
  rebuild_tree disk p = elim disk.entries [
    | err e ↦ some (err (codes "read dir: " ++ e))
    | ok es ↦ planted p (leaf_hashes disk es)
  ]

-- statusHandler
unfoldable pub status_handler : Prover → Reply Status
status_handler p = json (record {
  chunk_dir = p.chunk_dir;
  total_chunks = p.chunk_count;
  merkle_root = Hex.encode p.merkle_root;
  chunk_size = p.chunk_size;
})

-- idx = idx<<8 | uint64(nonce[i])
unfoldable pub shift_in : ℕ → ℕ → ℕ
shift_in idx b = bit_or (idx * 256 % 2 ^ 64) b

-- challengeHandler, for sixteen random bytes
unfoldable pub challenge_handler : Bytes → Prover → Reply Challenge
unfolding shift_in
challenge_handler nonce p =
    if p.chunk_count == 0
    then http_error 404 (codes "no chunks")
    else json (record {
      index = foldl shift_in 0 (take 8 nonce) % p.chunk_count;
      nonce = Hex.encode nonce;
    })

-- The file of a chunk: the entry with this number among those that are no directories.
unfoldable pub target_file : List DirEntry → ℕ → Option Bytes
target_file [] index = none
target_file (e ∷ es) zero = if e.is_dir then target_file es zero else some e.name
target_file (e ∷ es) (suc index) = target_file es (if e.is_dir then suc index else index)

unfoldable pub entries_or_none : Result (List DirEntry) → List DirEntry
entries_or_none (ok es) = es
entries_or_none (err e) = []

module _ (hash : Bytes → Bytes) where
  unfoldable pub proof_with : Prover → ℕ → Bytes → PathRun → Option (Reply ProofResponse)
  proof_with p index content panic = none
  proof_with p index content out_of_fuel = none
  proof_with p index content (path texts) = some (
      json (record {
        index = index;
        value = hash content;
        merkle_path = texts;
        root = Hex.encode p.merkle_root;
        total_chunks = p.chunk_count;
        chunk_size = p.chunk_size;
      }))

  unfoldable pub prove_content : Prover → ℕ → Result Bytes → Option (Reply ProofResponse)
  prove_content p index (err e) = some (http_error 500 e)
  prove_content p index (ok content) =
      proof_with p index content (get_merkle_path index p.merkle_tree p.chunk_count)

  unfoldable pub prove_file : Disk → Prover → ℕ → Option Bytes → Option (Reply ProofResponse)
  prove_file disk p index none = some (http_error 404 (codes "chunk not found"))
  prove_file disk p index (some name) = prove_content p index (disk.content name)

  unfoldable pub prove_decoded : Disk → Prover → Result Challenge → Option (Reply ProofResponse)
  prove_decoded disk p (err e) = some (http_error 400 e)
  prove_decoded disk p (ok chal) =
      if leb p.chunk_count chal.index
      then some (http_error 400 (codes "index out of range"))
      else prove_file disk p chal.index (target_file (entries_or_none disk.entries) chal.index)

  -- proveHandler, for a method and what encoding/json makes of the body; none is a panic
  unfoldable pub prove_handler :
      Disk → Bytes → Result Challenge → Prover → Option (Reply ProofResponse)
  unfolding prove_decoded prove_file prove_content proof_with entries_or_none
  prove_handler disk method chal p =
      if method == codes "POST"
      then prove_decoded disk p chal
      else some (http_error 405 (codes "POST required"))
