-- ===== src/Prover/Program.antt =====
-- cmd/storage-proved/main.go: main up to the listening, and the prover from its start on.
use zknode_autonomi_alpha.Prelude.{
  ℕ, ◌≡◌, ◌<◌, ◌∙◌, refl, ap, subst, list_eq, Option, none, some, List, [], ◌++◌, Bytes, Result, ok,
  err, codes, ◌==◌, nat_Eq, list_Eq, if◌then◌else◌, inl, inr, arith,
}
use zknode_autonomi_alpha.Hex
use zknode_autonomi_alpha.Prover.Merkle.{zero_hash}
use zknode_autonomi_alpha.Prover.Server.{
  Prover, Disk, DirEntry, Challenge, ProofResponse, Status, Reply, json, rebuild_tree,
  status_handler, challenge_handler, prove_handler, target_file,
}
use zknode_autonomi_alpha.Prover.Soundness.{
  AllReadable, prove_handler-rebuild_tree, rebuild_tree-chunk_count, challenge_handler-range,
}

-- The variables of the package as they are at first.
abbrev pub unstarted : Prover
unstarted = record {
  chunk_dir = [];
  chunk_size = 0;
  merkle_tree = [];
  merkle_root = zero_hash;
  chunk_count = 0;
}

abbrev fatal : Option (Result Prover) → Option (Result Prover)
fatal none = none
fatal (some (ok p)) = some (ok p)
fatal (some (err e)) = some (err (codes "build tree: " ++ e))

-- main for the flags -dir and -chunk-size: the prover that starts to listen, the text it ends with,
-- or a panic
unfoldable pub start_up : (Bytes → Bytes) → Disk → Bytes → ℕ → Option (Result Prover)
start_up hash disk dir size =
    fatal (rebuild_tree hash disk (record unstarted { chunk_dir = dir; chunk_size = size }))

-- An HTTP request: the path, the method, the body as encoding/json decodes it, and sixteen random
-- bytes.
pub record Request : Type 0 where
  pub path : Bytes
  pub method : Bytes
  pub body : Result Challenge
  pub nonce : Bytes

pub data Answer : Type 0 where
  status : Reply Status → Answer
  challenge : Reply Challenge → Answer
  proof : Reply ProofResponse → Answer
  missing panicked : Answer

unfoldable pub proof_answer : Option (Reply ProofResponse) → Answer
proof_answer none = panicked
proof_answer (some r) = proof r

-- The mux of main, for a path without empty or dotted parts (others are redirected by net/http).
unfoldable pub serve : (Bytes → Bytes) → Disk → Prover → Request → Answer
unfolding proof_answer
serve hash disk p req =
    if req.path == codes "/status"
    then status (status_handler p)
    else if req.path == codes "/challenge"
    then challenge (challenge_handler req.nonce p)
    else if req.path == codes "/prove"
    then proof_answer (prove_handler hash disk req.method req.body p)
    else missing

fatal-ok : (r : Option (Result Prover)) (p : Prover) → fatal r ≡ some (ok p) → r ≡ some (ok p)
fatal-ok none p e = absurd (cc)
fatal-ok (some (ok q)) p e = e
fatal-ok (some (err x)) p e = absurd (cc)

serve_prove :
    (hash : Bytes → Bytes) (disk : Disk) (p : Prover) (chal : Challenge) (nonce : Bytes)
    → serve hash disk p
        (record { path = codes "/prove"; method = codes "POST"; body = ok chal; nonce = nonce })
      ≡ proof_answer (prove_handler hash disk (codes "POST") (ok chal) p)
unfolding serve list_eq
serve_prove hash disk p chal nonce = refl

-- A prover that has started answers its own challenges: over a directory of readable files that
-- stays as it was at the start, each challenge that it issues is answered with a proof whose value
-- is the hash of a chunk and, in hex, the root.
pub serve_own_challenge :
    (hash : Bytes → Bytes) (disk : Disk) (es : List DirEntry) (dir : Bytes) (size : ℕ) (p : Prover)
    (nonce other : Bytes) (chal : Challenge)
    → disk.entries ≡ ok es
    → AllReadable disk es
    → start_up hash disk dir size ≡ some (ok p)
    → challenge_handler nonce p ≡ json chal
    → (r : ProofResponse) × (serve hash disk p
          (record { path = codes "/prove"; method = codes "POST"; body = ok chal; nonce = other })
        ≡ proof (json r))
      × (name content : Bytes) × (target_file es 0 ≡ some name)
      × (disk.content name ≡ ok content)
      × (r.value ≡ hash content)
      × (Hex.encode r.value ≡ r.root)
unfolding start_up proof_answer
serve_own_challenge hash disk es dir size p nonce other chal k readable started issued =
    let built =
      fatal-ok (rebuild_tree hash disk (record unstarted { chunk_dir = dir; chunk_size = size })) p
        started in
    let few =
      rebuild_tree-chunk_count hash (record unstarted { chunk_dir = dir; chunk_size = size }) disk p
        built in
    elim (challenge_handler-range nonce p) [
      | inl (zero_count, e) ↦ absurd (cc (e, issued))
      | inr (chal', e, small, _) ↦
          let same : chal' ≡ chal = cc (e, issued) in
          let bound : chal.index < p.chunk_count =
            subst (λ c. c.index < p.chunk_count) same small in
          let (r, answered, name, content, t, c, v, root, path) =
            prove_handler-rebuild_tree hash disk es _ p chal k readable built
              (omega (arith, few, bound)) (omega (arith, few, bound)) in
          (
            r,
            serve_prove hash disk p chal other ∙ ap proof_answer answered,
            name,
            content,
            t,
            c,
            v,
            root,
          )
    ]
