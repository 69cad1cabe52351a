-- ===== src/Prover/Tests.antt =====
-- cmd/storage-proved/main.go: the prover, run over small directories.
use zknode_autonomi_alpha.Prelude.{
  ◌≤◌, ◌<◌, ◌≡◌, ◌≢◌, ◌⊎◌, refl, false, some, none, [], ◌∷◌, Bytes, ok, codes, arith, zero,
}
use zknode_autonomi_alpha.Hex
use zknode_autonomi_alpha.Prover.Merkle.{build_merkle_tree, build_nodes, path}
use zknode_autonomi_alpha.Prover.Server.{
  planted, leaf_hashes, grown, last_of, Prover, Disk, DirEntry, Challenge, ProofResponse, json,
  http_error, rebuild_tree, prove_handler, challenge_handler, target_file,
}
use zknode_autonomi_alpha.Prover.Proofs.{build_merkle_tree-none}
use zknode_autonomi_alpha.Prover.Soundness.{
  AllReadable, rebuild_tree-chunk_count, prove_handler-rebuild_tree, challenge_handler-range,
}
use zknode_autonomi_alpha.Prover.Program.{unstarted, start_up, serve, proof, serve_own_challenge}

-- A hash that is easy to follow.
abbrev tagged : Bytes → Bytes
tagged s = 1 ∷ s

abbrev a_chunk : DirEntry
a_chunk = record { name = codes "a"; is_dir = false }

abbrev disk : Disk
disk = record { entries = ok (a_chunk ∷ []); content = λ name. ok (codes "data") }

abbrev idle : Prover
idle = record {
  chunk_dir = codes "d";
  chunk_size = 4;
  merkle_tree = [];
  merkle_root = [];
  chunk_count = 0;
}

abbrev started : Prover
started = record idle {
  merkle_tree = tagged (codes "data") ∷ [];
  merkle_root = tagged (codes "data");
  chunk_count = 1;
}

abbrev first_chunk : Challenge
first_chunk = record { index = 0; nonce = codes "00" }

it_starts : rebuild_tree tagged disk idle ≡ some (ok started)
unfolding rebuild_tree build_merkle_tree planted leaf_hashes build_nodes grown last_of
it_starts = refl

build_merkle_tree-none_example :
    build_merkle_tree tagged (codes "a" ∷ codes "b" ∷ codes "c" ∷ []) ≡ none
build_merkle_tree-none_example =
    build_merkle_tree-none tagged (codes "a" ∷ codes "b" ∷ codes "c" ∷ []) (omega arith)

rebuild_tree-chunk_count_example : 1 ≤ 1
rebuild_tree-chunk_count_example = rebuild_tree-chunk_count tagged idle disk started it_starts

prove_handler-rebuild_tree_example :
    (r : ProofResponse) × (prove_handler tagged disk (codes "POST") (ok first_chunk) started
      ≡ some (json r))
    × (name content : Bytes) × (target_file (a_chunk ∷ []) 0 ≡ some name)
    × (disk.content name ≡ ok content)
    × (r.value ≡ tagged content)
    × (Hex.encode r.value ≡ r.root)
    × (r.merkle_path ≡ [])
prove_handler-rebuild_tree_example =
    prove_handler-rebuild_tree tagged disk (a_chunk ∷ []) idle started first_chunk refl
      ((λ _. (codes "data", refl)), tt) it_starts refl refl

challenge_handler-range_example :
    ((1 ≡ zero)
      × (challenge_handler (1 ∷ 2 ∷ 3 ∷ 4 ∷ 5 ∷ 6 ∷ 7 ∷ 8 ∷ []) started
          ≡ http_error 404 (codes "no chunks")))
    ⊎ ((chal : Challenge) × (challenge_handler (1 ∷ 2 ∷ 3 ∷ 4 ∷ 5 ∷ 6 ∷ 7 ∷ 8 ∷ []) started
          ≡ json chal)
        × (chal.index < 1)
        × ((hash : Bytes → Bytes) (d : Disk)
            → prove_handler hash d (codes "POST") (ok chal) started
              ≢ some (http_error 400 (codes "index out of range"))))
challenge_handler-range_example =
    challenge_handler-range (1 ∷ 2 ∷ 3 ∷ 4 ∷ 5 ∷ 6 ∷ 7 ∷ 8 ∷ []) started

abbrev running : Prover
running = record unstarted {
  chunk_dir = codes "d";
  chunk_size = 4;
  merkle_tree = tagged (codes "data") ∷ [];
  merkle_root = tagged (codes "data");
  chunk_count = 1;
}

it_listens : start_up tagged disk (codes "d") 4 ≡ some (ok running)
unfolding start_up rebuild_tree build_merkle_tree planted leaf_hashes build_nodes grown last_of
it_listens = refl

abbrev drawn : Challenge
drawn = record { index = 0; nonce = Hex.encode (7 ∷ []) }

it_asks : challenge_handler (7 ∷ []) running ≡ json drawn
unfolding challenge_handler
it_asks = refl

abbrev all_readable : AllReadable disk (a_chunk ∷ [])
all_readable = ((λ _. (codes "data", refl)), tt)

serve_own_challenge_example :
    (r : ProofResponse) × (serve tagged disk running
        (record { path = codes "/prove"; method = codes "POST"; body = ok drawn; nonce = [] })
      ≡ proof (json r))
    × (name content : Bytes) × (target_file (a_chunk ∷ []) 0 ≡ some name)
    × (disk.content name ≡ ok content)
    × (r.value ≡ tagged content)
    × (Hex.encode r.value ≡ r.root)
serve_own_challenge_example =
    serve_own_challenge tagged disk (a_chunk ∷ []) (codes "d") 4 running (7 ∷ []) [] drawn refl
      all_readable it_listens it_asks
