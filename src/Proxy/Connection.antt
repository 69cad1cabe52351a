-- ===== src/Proxy/Connection.antt =====
-- cmd/mixnet-proxy/main.go: handleConn as a whole, from the accepted connection to its end.
use zknode_autonomi_alpha.Prelude.{
  ℕ, ◌+◌, ◌-◌, Option, none, some, List, [], ◌∷◌, ◌++◌, Bytes, Result,
}
use zknode_autonomi_alpha.Proxy.Socks
use zknode_autonomi_alpha.Proxy.Socks.{Socks, negotiate, socks_reply, Mode, mode_of}
use zknode_autonomi_alpha.Proxy.Forward.{
  State, circuit_added, circuit_removed, Library, Exchange, await_service, serve_http,
}

-- What one client does and what it meets: its two reads, what the cache of the service holds at each
-- look, the two bytes behind the negotiation, if they come, and its HTTP requests.
pub record Visit : Type 0 where
  pub greeting : Result Bytes
  pub request : Result Bytes
  pub looks : List (Option (Bytes × Bytes))
  pub peeked : Option (ℕ × ℕ)
  pub exchanges : List Exchange

-- How the connection ends: closed, by a panic, or as a raw tunnel to a host and a port.
pub data Ending : Type 0 where
  closed panicked : Ending
  tunnelled : Socks.Host → ℕ → Ending

-- What was written to the client, how it ended, and the shared state.
pub record Visited : Type 0 where
  pub written : List Bytes
  pub ending : Ending
  pub state : State

-- atomic.AddInt64(&activeCircuits, 1), and the deferred -1
abbrev pub enter : State → State
enter st =
    let circuits = st.active_circuits + 1 in
    record st { active_circuits = circuits; history = st.history ++ circuit_added circuits ∷ [] }

abbrev pub leave : State → State
leave st =
    let circuits = st.active_circuits - 1 in
    record st { active_circuits = circuits; history = st.history ++ circuit_removed circuits ∷ [] }

module _ (lib : Library) (ip_text : Bytes → Bytes) where
  -- The text of the host: net.IP.String, or the name.
  unfoldable pub host_text : Socks.Host → Bytes
  host_text (Socks.ip s) = ip_text s
  host_text (Socks.name s) = s

  finish : List Bytes → Ending → State → Visited
  finish out ending st = record { written = out; ending = ending; state = st }

  behind : List Bytes → Visited → Visited
  behind out v = record v { written = out ++ v.written }

  unfoldable pub serve_mode :
      Mode → Bytes × Bytes → Socks.Host → ℕ → List Exchange → State → Visited
  unfolding finish
  serve_mode Mode.tunnel service host port exs st = finish [] (tunnelled host port) st
  serve_mode Mode.http service host port exs st =
      let r = serve_http lib service (host_text host) exs st in finish r.0 closed r.1

  unfoldable pub serve_peeked :
      Option (ℕ × ℕ) → Bytes × Bytes → Socks.Host → ℕ → List Exchange → State → Visited
  unfolding finish
  serve_peeked none service host port exs st = finish [] closed st
  serve_peeked (some bytes) service host port exs st =
      serve_mode (mode_of bytes.0 bytes.1) service host port exs st

  unfoldable pub serve_target : Option (Bytes × Bytes) → Visit → Socks.Host → ℕ → State → Visited
  unfolding finish behind
  serve_target none v host port st = finish (socks_reply 5 ∷ []) closed st
  serve_target (some service) v host port st =
      behind (socks_reply 0 ∷ []) (serve_peeked v.peeked service host port v.exchanges st)

  unfoldable pub serve_socks : Socks → Visit → State → Visited
  unfolding finish
  serve_socks (Socks.close out) v st = finish (out ∷ []) closed st
  serve_socks Socks.panic v st = finish [] panicked st
  serve_socks (Socks.target host port) v st = serve_target (await_service v.looks) v host port st

  -- handleConn, with its two deferred calls
  unfoldable pub handle_conn : Visit → State → Visited
  unfolding behind
  handle_conn v st =
      let (first, socks) = negotiate v.greeting v.request in
      let r = behind (first ∷ []) (serve_socks socks v (enter st)) in
      record r { state = leave r.state }
