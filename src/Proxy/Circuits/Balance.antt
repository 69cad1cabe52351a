-- ===== src/Proxy/Circuits/Balance.antt =====
-- mixnet-proxy/main.go: many connections at once over the shared counters.
use zknode_autonomi_alpha.Prelude.{
  ℕ, ◌+◌, ◌%◌, ◌^◌, ◌≡◌, refl, ap, ◌∙◌, sym, Option, none, List, [], ◌∷◌, ◌++◌, Bytes, length,
  arith,
}
use zknode_autonomi_alpha.Proxy.Forward.{State, Library, update_proof_chain}
use zknode_autonomi_alpha.Proxy.Chain.{chain_over, total_length}
use zknode_autonomi_alpha.Proxy.Circuits.{
  Phase, fresh, serving, finished, counted, Move, enters, count, chain, done,
}

-- The proxy: the shared state, and where each connection stands.
pub record System : Type 0 where
  pub state : State
  pub phases : List Phase

-- A connection is accepted, or one of them moves, or the service is looked up again.
pub data Tick (lib : Library) (s : System) : System → Type 0 where
  accept : Tick lib s (record s { phases = fresh ∷ s.phases })
  move :
      (pre post : List Phase) {p p' : Phase} {st : State}
      → s.phases ≡ pre ++ p ∷ post
      → Move lib s.state p st p'
      → Tick lib s (record { state = st; phases = pre ++ p' ∷ post })
  refresh :
      (service : Option (Bytes × Bytes))
      → Tick lib s (record s { state = record s.state { service = service } })

abbrev pub initial : Bytes → System
initial seed = record {
  state = record {
    bytes_forwarded = 0;
    active_circuits = 0;
    proof_chain = seed;
    service = none;
    history = [];
  };
  phases = [];
}

pub data Reach (lib : Library) (seed : Bytes) : System → Type 0 where
  at_rest : Reach lib seed (initial seed)
  later : {s t : System} → Reach lib seed s → Tick lib s t → Reach lib seed t

abbrev pub is_open : Phase → ℕ
is_open fresh = 0
is_open serving = 1
is_open (counted p) = 1
is_open finished = 0

-- The bytes that are counted and not chained.
abbrev pub pending : Phase → ℕ
pending (counted p) = length p
pending fresh = 0
pending serving = 0
pending finished = 0

abbrev pub over : (Phase → ℕ) → List Phase → ℕ
over weight [] = 0
over weight (p ∷ ps) = weight p + over weight ps

-- A connection that moves changes a weight by its own.
over_move :
    (weight : Phase → ℕ) (pre : List Phase) (p p' : Phase) (post ps : List Phase)
    → ps ≡ pre ++ p ∷ post
    → over weight (pre ++ p' ∷ post) + weight p ≡ over weight ps + weight p'
over_move weight [] p p' post ps e = omega (arith, ap (over weight) e)
over_move weight (q ∷ pre) p p' post ps e =
    omega (arith, ap (over weight) e, over_move weight pre p p' post (pre ++ p ∷ post) refl)

total_length-append :
    (ps : List Bytes) (p : Bytes) → total_length (ps ++ p ∷ []) ≡ total_length ps + length p
total_length-append [] p = omega arith
total_length-append (q ∷ ps) p = omega (arith, total_length-append ps p)

chain_over-append :
    (lib : Library) (seed : Bytes) (ps : List Bytes) (p : Bytes)
    → chain_over lib seed (ps ++ p ∷ []) ≡ update_proof_chain lib (chain_over lib seed ps) p
chain_over-append lib seed [] p = refl
chain_over-append lib seed (q ∷ ps) p = chain_over-append lib (update_proof_chain lib seed q) ps p

-- The counter of circuits counts the open connections, and the chain and the byte count agree on the
-- payloads, up to those that are counted and not chained.
pub record IsBalanced (lib : Library) (seed : Bytes) (s : System) : Type 0 where
  pub circuits : s.state.active_circuits ≡ over is_open s.phases
  pub payloads : List Bytes
  pub chained : s.state.proof_chain ≡ chain_over lib seed payloads
  pub bytes : s.state.bytes_forwarded ≡ (total_length payloads + over pending s.phases) % 2 ^ 64

module _ (lib : Library) (seed : Bytes) where
  Tick-IsBalanced : {s t : System} → IsBalanced lib seed s → Tick lib s t → IsBalanced lib seed t
  Tick-IsBalanced b accept = record {
    circuits = omega (arith, b.circuits);
    payloads = b.payloads;
    chained = b.chained;
    bytes = omega (arith, b.bytes);
  }
  Tick-IsBalanced b (refresh service) = record {
    circuits = b.circuits;
    payloads = b.payloads;
    chained = b.chained;
    bytes = b.bytes;
  }
  Tick-IsBalanced {s} b (move pre post e enters) = record {
    circuits = omega (arith, b.circuits, over_move is_open pre fresh serving post s.phases e);
    payloads = b.payloads;
    chained = b.chained;
    bytes = omega (arith, b.bytes, over_move pending pre fresh serving post s.phases e);
  }
  Tick-IsBalanced {s} b (move pre post e (count p)) = record {
    circuits = omega (arith, b.circuits, over_move is_open pre serving (counted p) post s.phases e);
    payloads = b.payloads;
    chained = b.chained;
    bytes = omega (arith, b.bytes, over_move pending pre serving (counted p) post s.phases e);
  }
  Tick-IsBalanced {s} b (move pre post e (chain p)) = record {
    circuits = omega (arith, b.circuits, over_move is_open pre (counted p) serving post s.phases e);
    payloads = b.payloads ++ p ∷ [];
    chained =
        ap (λ x. update_proof_chain lib x p) b.chained
        ∙ sym (chain_over-append lib seed b.payloads p);
    bytes = omega (
      arith,
      b.bytes,
      total_length-append b.payloads p,
      over_move pending pre (counted p) serving post s.phases e,
    );
  }
  Tick-IsBalanced {s} b (move pre post e done) = record {
    circuits = omega (arith, b.circuits, over_move is_open pre serving finished post s.phases e);
    payloads = b.payloads;
    chained = b.chained;
    bytes = omega (arith, b.bytes, over_move pending pre serving finished post s.phases e);
  }

  -- Whatever connections come and however their accesses interleave, the counter of circuits is the
  -- number of the open connections, the chain is made of a list of payloads, and the byte count is
  -- their total length, modulo 2^64, with that of the payloads that are counted and not yet chained.
  pub Reach-IsBalanced : {s : System} → Reach lib seed s → IsBalanced lib seed s
  Reach-IsBalanced at_rest = record {
    circuits = refl;
    payloads = [];
    chained = refl;
    bytes = omega arith;
  }
  Reach-IsBalanced (later r t) = Tick-IsBalanced (Reach-IsBalanced r) t
