-- ===== src/Chat/Program.antt =====
-- katzenpost/cmd/chatd/main.go: main up to the serving.
use zknode_autonomi_alpha.Prelude.{
  Bool, ◌&&◌, Bytes, Result, ok, err, codes, ◌++◌, is_empty, if◌then◌else◌,
}
use zknode_autonomi_alpha.FilePath.{DirPath}
use zknode_autonomi_alpha.Files.{Files, Host, IoResult, done, fault, mkdir_all}
use zknode_autonomi_alpha.Chat.{Chatd}

-- What main reads of its flags.
pub record Flags : Type 0 where
  pub log_dir : Bytes
  pub store : Bytes
  pub ant_path : Bytes
  pub fae_address : Bytes
  pub fae_model : Bytes

-- os.Stat: a directory, anything else that is there, nothing, or another error
pub data Stat : Type 0 where
  directory plain_file missing refused_stat : Stat

-- What main meets: the two temporary directories, what stands at the log directory, whether the log
-- can be opened, the directory that a path names, whether the `ant` tool is there, and whether its
-- node is up.
pub record Launch : Type 0 where
  pub log_temp : Result Bytes
  pub stat : Bytes → Stat
  pub open_log : Bytes → Bool
  pub path_of : Bytes → DirPath
  pub ant_there : Bool
  pub ant_node_up : Bool
  pub socket_temp : Result Bytes

-- The daemon serves, or main has ended with a text and exit status 1, or by a panic.
pub data Launched : Type 0 where
  serving : Chatd → Launched
  exited : Bytes → Launched
  panicked : Launched

module _ (l : Launch) (h : Host) (f : Flags) where
  -- The settings of the daemon.
  unfoldable pub settings : Chatd
  settings = record {
    store_dir = l.path_of f.store;
    ant_path = f.ant_path;
    use_ant = l.ant_there && l.ant_node_up;
    fae_address = f.fae_address;
    fae_model = f.fae_model;
  }

  with_socket : Result Bytes → Launched
  with_socket (err e) = panicked
  with_socket (ok dir) = serving settings

  with_store : Bytes → IoResult Files → Files → Launched × Files
  unfolding with_socket
  with_store dir (fault e) fs = (exited (codes "Failed to create store dir: " ++ h.describe e), fs)
  with_store dir (done fs') fs =
      if l.open_log dir then (with_socket l.socket_temp, fs') else (panicked, fs')

  -- The log directory is looked at: where os.Stat gives an error other than that nothing is there, its
  -- result is nil, and the call on it panics.
  with_stat : Bytes → Stat → Files → Launched × Files
  unfolding with_store
  with_stat dir missing fs =
      (exited (codes "Log directory '" ++ dir ++ codes "' doesn't exist."), fs)
  with_stat dir refused_stat fs = (panicked, fs)
  with_stat dir plain_file fs = (exited (codes "Log directory must be a directory."), fs)
  with_stat dir directory fs = with_store dir (mkdir_all h (l.path_of f.store) fs) fs

  with_log_dir : Result Bytes → Files → Launched × Files
  unfolding with_stat
  with_log_dir (err e) fs = (panicked, fs)
  with_log_dir (ok dir) fs = with_stat dir (l.stat dir) fs

  -- main
  unfoldable pub start_chatd : Files → Launched × Files
  unfolding with_log_dir
  start_chatd = with_log_dir (if is_empty f.log_dir then l.log_temp else ok f.log_dir)
