-- ===== src/Prover/Proofs.antt =====
-- cmd/storage-proved/main.go: what the tree and the paths turn out to be.
use zknode_autonomi_alpha.Prelude.{
  ℕ, zero, suc, ◌+◌, ◌-◌, ◌*◌, ◌≤◌, ◌<◌, ◌≡◌, refl, ap, ◌∙◌, Option, none, some, List, [], ◌∷◌,
  ◌++◌, Bytes, length, get_elem?, replicate, length-append, length-set, length-replicate,
  get_elem?-past, nat_Eq, inl, inr, arith, Option-cases,
}
use zknode_autonomi_alpha.Hex
use zknode_autonomi_alpha.Prover.Merkle.{
  zero_hash, join_nodes, build_node, build_nodes, build_merkle_tree,
}

join_nodes-length :
    (hash : Bytes → Bytes) (n : ℕ) (nodes nodes' : List Bytes) (i : ℕ) (l r : Option Bytes)
    → join_nodes hash n nodes i l r ≡ some nodes'
    → length nodes' ≡ length nodes
unfolding join_nodes
join_nodes-length hash n nodes nodes' i (some l) (some r) e =
    ground (arith, length-set nodes i (hash (l ++ r)))
join_nodes-length hash n nodes nodes' i (some l) none e = absurd (cc)
join_nodes-length hash n nodes nodes' i none r e = absurd (cc)

join_nodes-none :
    (hash : Bytes → Bytes) (n : ℕ) (nodes : List Bytes) (i : ℕ) (l : Option Bytes)
    → join_nodes hash n nodes i l none ≡ none
unfolding join_nodes
join_nodes-none hash n nodes i (some l) = refl
join_nodes-none hash n nodes i none = refl

build_node-none :
    (hash : Bytes → Bytes) (n i : ℕ) (nodes : List Bytes)
    → length nodes ≤ 2 * i + 2 - n
    → build_node hash n nodes i ≡ none
unfolding build_node
build_node-none hash n i nodes h =
    rw (get_elem?-past nodes (2 * i + 2 - n) h) (join_nodes-none hash n nodes i _)

build_node-length :
    (hash : Bytes → Bytes) (n i : ℕ) (nodes nodes' : List Bytes)
    → build_node hash n nodes i ≡ some nodes'
    → length nodes' ≡ length nodes
unfolding build_node
build_node-length hash n i nodes nodes' e = join_nodes-length hash n nodes nodes' i _ _ e

-- A loop whose last round reads past the nodes panics, if not before.
build_nodes-none :
    (hash : Bytes → Bytes) (n k i : ℕ) (nodes : List Bytes)
    → length nodes + n ≤ 2 * (i + k) + 2
    → build_nodes hash n (suc k) i nodes ≡ none
unfolding build_nodes
build_nodes-none hash n zero i nodes h =
    rw (build_node-none hash n i nodes (omega arith), build_nodes)
build_nodes-none hash n (suc k) i nodes h = elim (Option-cases (build_node hash n nodes i)) [
  | inl e ↦ rw (e, build_nodes)
  | inr (nodes', e) ↦
      rw (e, build_nodes)
        (build_nodes-none hash n k (i + 1) nodes'
          (omega (arith, build_node-length hash n i nodes nodes' e)))
]

-- With two leaves or more the construction of the tree panics: it reads the children of a node from
-- indices beyond the array.
pub build_merkle_tree-none :
    (hash : Bytes → Bytes) (leaves : List Bytes)
    → 2 ≤ length leaves
    → build_merkle_tree hash leaves ≡ none
unfolding build_merkle_tree
build_merkle_tree-none hash [] h = absurd (omega arith)
build_merkle_tree-none hash (a ∷ []) h = absurd (omega arith)
build_merkle_tree-none hash (a ∷ b ∷ leaves) h =
    let n = suc (suc (length leaves)) in
    let nodes = a ∷ b ∷ leaves ++ replicate (n - 1) zero_hash in
    let rounds : n - 1 ≡ suc (length leaves) = omega arith in
    ap (λ k. build_nodes hash n k n nodes) rounds
    ∙ build_nodes-none hash n (length leaves) n nodes (
        omega (
          arith,
          length-append (a ∷ b ∷ leaves) (replicate (n - 1) zero_hash),
          length-replicate (n - 1) zero_hash,
        ))

-- One leaf is its own tree.
pub build_merkle_tree_one :
    (hash : Bytes → Bytes) (leaf : Bytes) → build_merkle_tree hash (leaf ∷ []) ≡ some (leaf ∷ [])
unfolding build_merkle_tree build_nodes
build_merkle_tree_one hash leaf = refl

-- The hex text of one of the first n nodes.
abbrev pub IsLeafText : List Bytes → ℕ → Bytes → Type 0
IsLeafText tree n text =
    (j : ℕ) × (node : Bytes) × (j < n) × (get_elem? tree j ≡ some node) × (text ≡ Hex.encode node)
