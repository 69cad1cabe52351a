-- ===== src/Prover/Merkle.antt =====
-- cmd/storage-proved/main.go: buildMerkleTree and getMerklePath. An index out of range is a panic.
use zknode_autonomi_alpha.Prelude.{
  ℕ, zero, suc, ◌+◌, ◌-◌, ◌*◌, ◌/◌, ◌%◌, ◌^◌, ◌&&◌, Option, none, some, true, false, List, [], ◌∷◌,
  ◌++◌, Bytes, codes, length, get_elem?, set, replicate, ltb, ◌==◌, nat_Eq, if◌then◌else◌,
}
use zknode_autonomi_alpha.Hex

-- An array of 32 zero bytes, which make leaves in each node.
abbrev pub zero_hash : Bytes
zero_hash = replicate 32 0

module _ (hash : Bytes → Bytes) (leaves : ℕ) where
  unfoldable pub join_nodes : List Bytes → ℕ → Option Bytes → Option Bytes → Option (List Bytes)
  join_nodes nodes i (some left) (some right) = some (set nodes i (hash (left ++ right)))
  join_nodes nodes i (some left) none = none
  join_nodes nodes i none right = none

  -- The body of the loop: nodes[i] from the nodes 2i+1-n and 2i+2-n.
  unfoldable pub build_node : List Bytes → ℕ → Option (List Bytes)
  unfolding join_nodes
  build_node nodes i =
      join_nodes nodes i (get_elem? nodes (2 * i + 1 - leaves))
        (get_elem? nodes (2 * i + 2 - leaves))

  -- for i := …; i < len(nodes); i++, by the rounds that are left
  unfoldable pub build_nodes : ℕ → ℕ → List Bytes → Option (List Bytes)
  build_nodes zero i nodes = some nodes
  build_nodes (suc rounds) i nodes = elim (build_node nodes i) [
    | none ↦ none
    | some nodes' ↦ build_nodes rounds (i + 1) nodes'
  ]

-- buildMerkleTree
unfoldable pub build_merkle_tree : (Bytes → Bytes) → List Bytes → Option (List Bytes)
build_merkle_tree hash [] = some (hash (codes "empty") ∷ [])
build_merkle_tree hash (leaf ∷ leaves) =
    let n = length (leaf ∷ leaves) in
    build_nodes hash n (n - 1) n (leaf ∷ leaves ++ replicate (n - 1) zero_hash)

-- How a run of getMerklePath ends.
pub data PathRun : Type 0 where
  path : List Bytes → PathRun
  panic : PathRun
  out_of_fuel : PathRun

unfoldable pub sibling_of : ℕ → ℕ
sibling_of idx = if idx % 2 == 0 then idx + 1 else idx - 1

module _ (tree : List Bytes) (leaves : ℕ) where
  -- The path with this round's sibling, if that is a leaf.
  unfoldable pub extend_path : ℕ → List Bytes → Option (List Bytes)
  extend_path sibling so_far =
      if ltb sibling leaves
      then elim (get_elem? tree sibling) [
        | none ↦ none
        | some node ↦ some (so_far ++ Hex.encode node ∷ [])
      ]
      else some so_far

  -- for idx < leaves-1 { … }
  unfoldable pub walk : ℕ → ℕ → List Bytes → PathRun
  unfolding extend_path
  walk zero idx so_far = out_of_fuel
  walk (suc fuel) idx so_far = elim (ltb idx (leaves - 1)) [
    | false ↦ path so_far
    | true ↦ elim (extend_path (sibling_of idx) so_far) [
      | none ↦ panic
      | some longer ↦ walk fuel ((idx + leaves) / 2) longer
    ]
  ]

-- What the loop does from an index that the conversion to int has made negative, by its size. The
-- sibling of a negative index is negative and below the number of leaves, so that the first round
-- panics on it; there is no round only where there are no leaves and the index is -1.
unfoldable pub walk_below : ℕ → ℕ → PathRun
walk_below leaves size = if leaves == 0 && size == 1 then path [] else panic

-- getMerklePath, for an index of 64 bits: from 2^63 on, int(index) is negative
unfoldable pub get_merkle_path : ℕ → List Bytes → ℕ → PathRun
unfolding walk_below
get_merkle_path index tree leaves =
    if ltb index (2 ^ 63)
    then walk tree leaves (leaves + 1) index []
    else walk_below leaves (2 ^ 64 - index)
