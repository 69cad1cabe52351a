-- ===== src/Proxy/Circuits.antt =====
-- mixnet-proxy/main.go: many connections at once over the shared counters. Each step is one atomic
-- access: a connection is counted, a payload is counted, a payload is chained under the lock, a
-- connection is counted off.
pub mod Balance
use zknode_autonomi_alpha.Prelude.{
  ℕ, ◌+◌, ◌-◌, ◌%◌, ◌^◌, ◌≡◌, refl, ap, ◌∙◌, sym, subst, Option, none, some, List, [], ◌∷◌, ◌++◌,
  Bytes, length, arith, append_assoc, append-nil,
}
use zknode_autonomi_alpha.Proxy.Socks
use zknode_autonomi_alpha.Proxy.Socks.{Socks, Mode, negotiate, mode_of}
use zknode_autonomi_alpha.Proxy.Forward.{
  State, Access, circuit_added, circuit_removed, bytes_added, proof_extended, Library, Exchange,
  count_payload, chain_payload, update_proof_chain, account, serve_http, await_service,
}
use zknode_autonomi_alpha.Proxy.Chain.{chain_over, total_length, accounted, serve_http-accounted}
use zknode_autonomi_alpha.Proxy.Connection.{
  Visit, enter, leave, serve_mode, serve_peeked, serve_target, serve_socks, handle_conn,
}

-- Where a connection stands.
pub data Phase : Type 0 where
  fresh serving finished : Phase
  counted : Bytes → Phase

-- One access of one connection to the shared state.
pub data Move (lib : Library) (st : State) : Phase → State → Phase → Type 0 where
  enters : Move lib st fresh (enter st) serving
  count : (p : Bytes) → Move lib st serving (count_payload lib p st) (counted p)
  chain : (p : Bytes) → Move lib st (counted p) (chain_payload lib p st) serving
  done : Move lib st serving (leave st) finished

-- Any number of accesses of one connection.
pub data Moves (lib : Library) : State → Phase → State → Phase → Type 0 where
  still : {st : State} {p : Phase} → Moves lib st p st p
  step :
      {st st' st'' : State} {p p' p'' : Phase}
      → Move lib st p st' p'
      → Moves lib st' p' st'' p''
      → Moves lib st p st'' p''

-- Each payload is counted and then chained.
abbrev pub accesses : List Bytes → List Access
accesses [] = []
accesses (p ∷ ps) = bytes_added p ∷ proof_extended p ∷ accesses ps

module _ (lib : Library) where
  append-Moves :
      {st st' st'' : State} {p p' p'' : Phase}
      → Moves lib st p st' p'
      → Moves lib st' p' st'' p''
      → Moves lib st p st'' p''
  append-Moves still n = n
  append-Moves (step m ms) n = step m (append-Moves ms n)

  accounted-Moves :
      (ps : List Bytes) (st : State) → Moves lib st serving (accounted lib ps st) serving
  unfolding accounted account
  accounted-Moves [] st = still
  accounted-Moves (p ∷ ps) st =
      step (count p) (step (chain p) (accounted-Moves ps (account lib p st)))

  history-accounted :
      (ps : List Bytes) (st : State) → (accounted lib ps st).history ≡ st.history ++ accesses ps
  unfolding accounted account
  history-accounted [] st = sym (append-nil st.history)
  history-accounted (p ∷ ps) st =
      history-accounted ps (account lib p st)
      ∙ (append_assoc (st.history ++ bytes_added p ∷ []) (proof_extended p ∷ []) (accesses ps)
          ∙ append_assoc st.history (bytes_added p ∷ []) (proof_extended p ∷ accesses ps))

  circuits-accounted :
      (ps : List Bytes) (st : State) → (accounted lib ps st).active_circuits ≡ st.active_circuits
  unfolding accounted account
  circuits-accounted [] st = refl
  circuits-accounted (p ∷ ps) st = circuits-accounted ps (account lib p st)

  -- A part of a connection counts and chains some payloads.
  abbrev Served : State → State → Type 0
  Served st st' = (ps : List Bytes) × (st' ≡ accounted lib ps st)

  untouched : (st : State) → Served st st
  unfolding accounted
  untouched st = ([], refl)

  serve_http-Served :
      (service : Bytes × Bytes) (host : Bytes) (exs : List Exchange) (st : State)
      → Served st (serve_http lib service host exs st).1
  serve_http-Served service host exs st =
      let (ps, few, e) = serve_http-accounted lib service host exs st in (ps, e)

  module _ (ip_text : Bytes → Bytes) where
    serve_mode-Served :
        (mode : Mode) (service : Bytes × Bytes) (host : Socks.Host) (port : ℕ) (exs : List Exchange)
        (st : State)
        → Served st (serve_mode lib ip_text mode service host port exs st).state
    unfolding serve_mode
    serve_mode-Served Mode.tunnel service host port exs st = untouched st
    serve_mode-Served Mode.http service host port exs st = serve_http-Served service _ exs st

    serve_peeked-Served :
        (o : Option (ℕ × ℕ)) (service : Bytes × Bytes) (host : Socks.Host) (port : ℕ)
        (exs : List Exchange) (st : State)
        → Served st (serve_peeked lib ip_text o service host port exs st).state
    unfolding serve_peeked
    serve_peeked-Served none service host port exs st = untouched st
    serve_peeked-Served (some bytes) service host port exs st =
        serve_mode-Served _ service host port exs st

    serve_target-Served :
        (o : Option (Bytes × Bytes)) (v : Visit) (host : Socks.Host) (port : ℕ) (st : State)
        → Served st (serve_target lib ip_text o v host port st).state
    unfolding serve_target
    serve_target-Served none v host port st = untouched st
    serve_target-Served (some service) v host port st =
        serve_peeked-Served v.peeked service host port v.exchanges st

    serve_socks-Served :
        (s : Socks) (v : Visit) (st : State) → Served st (serve_socks lib ip_text s v st).state
    unfolding serve_socks
    serve_socks-Served (Socks.close out) v st = untouched st
    serve_socks-Served Socks.panic v st = untouched st
    serve_socks-Served (Socks.target host port) v st =
        serve_target-Served (await_service v.looks) v host port st

    -- handleConn refines the connections of this model: whatever the client sends, all that it does to
    -- the shared state is a sequence of single accesses. Their history says which: first the
    -- number of circuits becomes one more, then each of some payloads is counted and chained, and last
    -- the number of circuits becomes again what it was.
    pub handle_conn-Moves :
        (v : Visit) (st : State)
        → let after = (handle_conn lib ip_text v st).state in
          Moves lib st fresh after finished
          × (ps : List Bytes) × (after.history
              ≡ st.history
                ++ circuit_added (st.active_circuits + 1)
                  ∷ (accesses ps ++ circuit_removed st.active_circuits ∷ []))
    unfolding handle_conn
    handle_conn-Moves v st =
        let (ps, e) = serve_socks-Served (negotiate v.greeting v.request).1 v (enter st) in
        let serves =
          subst (λ s. Moves lib (enter st) serving s serving) (sym e)
            (accounted-Moves ps (enter st)) in
        let n = st.active_circuits in
        let left : (accounted lib ps (enter st)).active_circuits - 1 ≡ n =
          omega (arith, circuits-accounted ps (enter st)) in
        (
          step enters (append-Moves serves (step done still)),
          ps,
          ap (λ s. s.history ++ circuit_removed (s.active_circuits - 1) ∷ []) e
              ∙ rw (left, history-accounted)
                  (append_assoc (st.history ++ circuit_added (n + 1) ∷ []) (accesses ps)
                      (circuit_removed n ∷ [])
                    ∙ append_assoc st.history (circuit_added (n + 1) ∷ [])
                        (accesses ps ++ circuit_removed n ∷ [])),
        )
