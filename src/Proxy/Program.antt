-- ===== src/Proxy/Program.antt =====
-- cmd/mixnet-proxy/main.go: defaultConfig, and main up to the loop that accepts connections.
use zknode_autonomi_alpha.Prelude.{none, [], ◌∷◌, Bytes, Result, ok, err, codes, ◌++◌}
use zknode_autonomi_alpha.Proxy.Forward.{State, Library}
use zknode_autonomi_alpha.Proxy.Manage.{AppConfig}

-- defaultConfig
abbrev pub default_config : AppConfig
default_config = record {
  socks_addr = codes "127.0.0.1:1080";
  mgmt_addr = codes "127.0.0.1:9090";
  mgmt_api_key = [];
  thin_cfg_path = codes "/etc/mixnet-proxy/thinclient.toml";
  service_name = codes "proxy";
  wireguard_iface = codes "wg0";
  ant_node_addr = codes "10.0.0.2";
}

-- What main meets: the text of a settings file by its path, what encoding/json fills in from it, whose
-- error is dropped, the thin client's settings and its connection, the two listeners, and the text of
-- the moment at which the program was started.
pub record Launch : Type 0 where
  pub read_config : Bytes → Result Bytes
  pub fill_in : Bytes → AppConfig → AppConfig
  pub load_file : Bytes → Result Bytes
  pub connect : Bytes → Result (Unit {0})
  pub listen : Bytes → Result (Unit {0})
  pub start_time : Bytes

module _ (l : Launch) where
  filled : Result Bytes → Result AppConfig
  filled (err e) = err (codes "config: " ++ e)
  filled (ok text) = ok (l.fill_in text default_config)

  -- The settings, for the flag -config.
  unfoldable pub load_config : Bytes → Result AppConfig
  unfolding filled
  load_config [] = ok default_config
  load_config (c ∷ path) = filled (l.read_config (c ∷ path))

  on_listeners :
      AppConfig → State → Result (Unit {0}) → Result (Unit {0}) → Result (AppConfig × State)
  on_listeners cfg st (err e) mgmt = err (codes "listen " ++ cfg.socks_addr ++ codes ": " ++ e)
  on_listeners cfg st (ok u) (err e) = err (codes "mgmt " ++ cfg.mgmt_addr ++ codes ": " ++ e)
  on_listeners cfg st (ok u) (ok v) = ok (cfg, st)

  dialled : AppConfig → State → Result (Unit {0}) → Result (AppConfig × State)
  unfolding on_listeners
  dialled cfg st (err e) = err (codes "dial: " ++ e)
  dialled cfg st (ok u) = on_listeners cfg st (l.listen cfg.socks_addr) (l.listen cfg.mgmt_addr)

  with_thin : AppConfig → State → Result Bytes → Result (AppConfig × State)
  unfolding dialled
  with_thin cfg st (err e) = err (codes "load config: " ++ e)
  with_thin cfg st (ok thin) = dialled cfg st (l.connect thin)

  -- The state that the connections share, as it is at first.
  unfoldable pub first_state : Library → State
  first_state lib = record {
    bytes_forwarded = 0;
    active_circuits = 0;
    proof_chain = lib.sha256 l.start_time;
    service = none;
    history = [];
  }

  configured : Library → Result AppConfig → Result (AppConfig × State)
  unfolding with_thin
  configured lib (err e) = err e
  configured lib (ok cfg) = with_thin cfg (first_state lib) (l.load_file cfg.thin_cfg_path)

  -- main: the settings and the state with which connections are accepted, or the text it ends with.
  -- The wait for the gateway changes nothing.
  unfoldable pub start_proxy : Library → Bytes → Result (AppConfig × State)
  unfolding configured
  start_proxy lib config_path = configured lib (load_config config_path)
