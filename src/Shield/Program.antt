-- ===== src/Shield/Program.antt =====
-- walletshield-fix/main.go: main up to the serving, and SendTestProbes.
use zknode_autonomi_alpha.Prelude.{
  ℕ, zero, suc, ◌+◌, Bool, true, false, not, ◌&&◌, List, [], ◌∷◌, ◌++◌, Bytes, Result, ok, err,
  codes, leb, is_empty, length, take, ◌≡◌, ◌<◌, refl, ap, ◌∙◌, arith, if◌then◌else◌,
}
use zknode_autonomi_alpha.Shield.Server.{Thin, Server, send_request}

-- What main reads of its flags, but for its delays.
pub record Flags : Type 0 where
  pub config_path : Bytes
  pub listen : Bytes
  pub listen_client : Bytes
  pub log_level : Bytes
  pub test_probe : Bool

-- What main meets: the reading of a log level, the thin client's settings, another address for its
-- daemon in them, and the client that dialling gives.
pub record Launch (Config : Type 0) : Type 0 where
  pub parse_level : Bytes → Result (Unit {0})
  pub load_file : Bytes → Result Config
  pub with_address : Bytes → Config → Config
  pub connect : Config → Result Thin

-- main panics with a text, or goes on with a server.
pub data Launched : Type 0 where
  panicked : Bytes → Launched
  handling probing : Server → Launched

module _ {Config : Type 0} (l : Launch Config) (f : Flags) where
  abbrev addressed : Config → Config
  addressed cfg = if is_empty f.listen_client then cfg else l.with_address f.listen_client cfg

  with_client : Result Thin → Launched
  with_client (err e) = panicked e
  with_client (ok thin) =
      let s : Server = record { thin = thin; closed = [] } in
      if f.test_probe then probing s else handling s

  with_config : Result Config → Launched
  unfolding with_client
  with_config (err e) = panicked (codes "failed to load thin client config: " ++ e)
  with_config (ok cfg) = with_client (l.connect (addressed cfg))

  with_level : Result (Unit {0}) → Launched
  unfolding with_config
  with_level (err e) = panicked e
  with_level (ok u) = with_config (l.load_file f.config_path)

  -- main
  unfoldable pub start_shield : Launched
  unfolding with_level
  start_shield =
      if is_empty f.listen && not f.test_probe
      then panicked (codes "listen flag must be set")
      else if is_empty f.config_path
      then panicked (codes "config flag must be set")
      else with_level (l.parse_level f.log_level)

-- The counters of SendTestProbes; the times are left out.
pub record Tally : Type 0 where
  pub transmitted : ℕ
  pub received : ℕ

-- A count given by a flag.
pub data ℤ : Type 0 where
  pos negsuc : ℕ → ℤ

-- testProbeCount != 0 && packetsTransmitted >= testProbeCount
unfoldable pub is_last : ℤ → ℕ → Bool
is_last (pos zero) sent = false
is_last (pos (suc n)) sent = leb (suc n) sent
is_last (negsuc n) sent = true

tally-cong :
    {a b c d : ℕ}
    → a ≡ b
    → c ≡ d
    → ◌≡◌ {A = Tally}
        (record { transmitted = a; received = c })
        (record { transmitted = b; received = d })
tally-cong e e' i = record { transmitted = e i; received = e' i }

-- What a reply adds to the packets received.
abbrev gained : Result Bytes → ℕ
gained (err e) = 0
gained (ok reply) = 1

module _ (decimal : ℕ → Bytes) where
  abbrev tallied : Result Bytes → Tally → Tally
  tallied r t = record { transmitted = t.transmitted + 1; received = t.received + gained r }

  -- SendTestProbes, for the client in use at each round: the counters, and whether it has exited.
  unfoldable pub send_test_probes : ℤ → Bytes → List Thin → Tally → Tally × Bool
  send_test_probes count request [] t = (t, false)
  send_test_probes count request (thin ∷ later) t =
      let t' = tallied (send_request decimal thin request) t in
      let rest = send_test_probes count request later t' in
      if is_last count t'.transmitted then (t', true) else rest

  -- How many of the clients answer.
  abbrev pub answered : Bytes → List Thin → ℕ
  answered request [] = 0
  answered request (thin ∷ later) =
      gained (send_request decimal thin request) + answered request later

  probes_from :
      (n m : ℕ) (request : Bytes) (clients : List Thin) (t : Tally)
      → t.transmitted + suc m ≡ suc n
      → m < length clients
      → send_test_probes (pos (suc n)) request clients t ≡ (
        record {
          transmitted = suc n;
          received = t.received + answered request (take (suc m) clients);
        },
        true,
      )
  unfolding send_test_probes is_last
  probes_from n m request [] t e h = absurd (omega (arith, h))
  probes_from n zero request (thin ∷ later) t e h =
      let last : leb (suc n) (t.transmitted + 1) ≡ true = ground (arith, e) in
      rw last (ap (λ x. (x, true)) (tally-cong (omega (arith, e)) (omega arith)))
  probes_from n (suc m) request (thin ∷ later) t e h =
      let on : leb (suc n) (t.transmitted + 1) ≡ false = ground (arith, e) in
      let got = gained (send_request decimal thin request) in
      rw on (
        probes_from n m request later (tallied (send_request decimal thin request) t)
          (omega (arith, e)) (omega (arith, h))
        ∙ ap (λ x. (x, true)) (tally-cong refl (omega arith)))

  -- With a count of probes above zero, SendTestProbes exits after just as many, whatever they give, and
  -- has counted those that were answered, if the client in use at each of them is known.
  send_test_probes_lem :
      (n : ℕ) (request : Bytes) (clients : List Thin)
      → n < length clients
      → send_test_probes (pos (suc n)) request clients (record { transmitted = 0; received = 0 })
        ≡ (record { transmitted = suc n; received = answered request (take (suc n) clients) }, true)
  send_test_probes_lem n request clients h =
      probes_from n n request clients (record { transmitted = 0; received = 0 }) (omega arith) h
      ∙ ap (λ x. (x, true)) (tally-cong refl (omega arith))
