-- ===== src/Client.antt =====
-- katzenpost/cmd/zkchat/main.go: the chat client. A command reads and writes the files of its user,
-- and ends with what it prints, or with an error text and exit status 1. Its debug lines are left out.
pub mod Keys
pub mod Service
pub mod Talk
pub mod Groups
pub mod Program
pub mod Sealing
pub mod Identity
pub mod Flags
pub mod Tests
use zknode_autonomi_alpha.Prelude.{
  ℕ, Bool, Option, none, some, List, [], ◌∷◌, Bytes, Result, ok, err, codes,
}
use zknode_autonomi_alpha.FilePath.{DirPath}
use zknode_autonomi_alpha.Files.{Host}
use zknode_autonomi_alpha.Chat.{ChatRequest, ChatResponse}

-- The machine during one command: its file system, filepath.Dir of a path, $ZKCFG_DIR if that is
-- set, and what crypto/rand gives at the four places that ask it.
pub record Machine : Type 0 where
  pub host : Host
  pub dir_of : Bytes → DirPath
  pub zkcfg_dir : Option DirPath
  pub identity_bytes : Result Bytes
  pub scalar_bytes : Result Bytes
  pub ephemeral_bytes : Result Bytes
  pub nonce_bytes : Result Bytes

-- X25519, SHA-256, XChaCha20-Poly1305 (key, nonce, text, associated data), base64 and BLAKE2b-256.
pub record Crypto : Type 0 where
  pub x25519 : Bytes → Bytes → Result Bytes
  pub base_point : Bytes
  pub sha256 : Bytes → Bytes
  pub seal : Bytes → Bytes → Bytes → Bytes → Bytes
  pub unseal : Bytes → Bytes → Bytes → Bytes → Result Bytes
  pub base64 : Bytes → Bytes
  pub unbase64 : Bytes → Result Bytes
  pub blake2b : Bytes → Bytes

-- A service of the mixnet: the identity key of its node, and its queue.
pub record ServiceDescriptor : Type 0 where
  pub identity_key : Bytes
  pub queue : Bytes

-- The +meshbridge capability.
pub record MeshRequest : Type 0 where
  pub op : Bytes
  pub net_id : Bytes
  pub recipient : Bytes
  pub content : Bytes

pub record MeshResponse : Type 0 where
  pub success : Bool
  pub error : Bytes
  pub peer : Bytes

-- The thin client for one command, with what CBOR makes of the messages: connecting, the answer to
-- each attempt to find a service, and a message to a node's hash and a queue with its reply. A
-- decoder gives what the reply fills in, and errors are dropped as in the source.
pub record Mixnet : Type 0 where
  pub connect : Bytes → Result (Unit {0})
  pub get_service : Bytes → ℕ → Result ServiceDescriptor
  pub send_message : Bytes → Bytes → Bytes → Result Bytes
  pub encode_request : ChatRequest → Bytes
  pub decode_response : Bytes → ChatResponse
  pub encode_mesh : MeshRequest → Bytes
  pub decode_mesh : Bytes → MeshResponse

-- package fmt's %d and %q, and the local time of day of a moment.
pub record Format : Type 0 where
  pub decimal : ℕ → Bytes
  pub quote : Bytes → Bytes
  pub time_of_day : ℕ → Bytes
