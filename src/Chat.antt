-- ===== src/Chat.antt =====
-- katzenpost/cmd/chatd/main.go: the messages of the chat service, its settings, and the shape of a
-- handler. The handlers are in the modules below, and so are their proofs.
pub mod Store
pub mod Direct
pub mod Groups
pub mod Daemon
pub mod Program
pub mod Layout
pub mod Mailbox
pub mod Delivery
pub mod Drained
pub mod Letters
pub mod Mailboxes
pub mod Races
pub mod Concurrent
pub mod Returns
pub mod Invariant
pub mod Keeps
pub mod Reachable
pub mod GroupFiles
pub mod Membership
pub mod Leaving
pub mod Outsiders
pub mod StaleLists
pub mod Tests
use zknode_autonomi_alpha.Prelude.{
  ℕ, Bool, true, false, ◌≡◌, Option, none, some, List, [], ◌∷◌, ◌++◌, Bytes, Result, ok, err, codes,
  is_empty,
}
use zknode_autonomi_alpha.FilePath.{DirPath}
use zknode_autonomi_alpha.Files.{Files, Host, IoResult, done, fault}

pub record ChatMessage : Type 0 where
  pub id : Bytes
  pub sender : Bytes
  pub content : Bytes
  pub kind : Bytes
  pub timestamp : ℕ
  pub group_id : Bytes

pub record Group : Type 0 where
  pub id : Bytes
  pub name : Bytes
  pub owner : Bytes
  pub members : List Bytes
  pub created_at : ℕ

pub record ChatRequest : Type 0 where
  pub op : Bytes
  pub user_id : Bytes
  pub recipient : Bytes
  pub content : Bytes
  pub msg_type : Bytes
  pub group_id : Bytes
  pub group_name : Bytes
  pub members : List Bytes

pub record ChatResponse : Type 0 where
  pub success : Bool
  pub error : Bytes
  pub messages : List ChatMessage
  pub addr : Bytes
  pub group_id : Bytes
  pub groups : List Group

-- The settings; `store_dir` is absolute and clean.
pub record Chatd : Type 0 where
  pub store_dir : DirPath
  pub ant_path : Bytes
  pub use_ant : Bool
  pub fae_address : Bytes
  pub fae_model : Bytes

-- What fxamacker/cbor and encoding/json make of the daemon's values. `is_text` is valid UTF-8.
pub record Wire : Type 0 where
  pub is_text : Bytes → Bool
  pub encode_message : ChatMessage → Bytes
  pub decode_message : Bytes → Option ChatMessage
  pub encode_group : Group → Result Bytes
  pub decode_group : Bytes → Result Group
  pub encode_ids : List Bytes → Bytes
  pub decode_ids : Bytes → Option (List Bytes)
  pub decode_request : Bytes → Result ChatRequest
  pub encode_response : ChatResponse → Option Bytes
  pub encode_text : Bytes → Option Bytes
  pub decode_choices : Bytes → Option (List Bytes)

abbrev pub no_response : ChatResponse
no_response = record {
  success = false;
  error = [];
  messages = [];
  addr = [];
  group_id = [];
  groups = [];
}

-- ChatResponse{Success: true}
abbrev pub success : ChatResponse
success = record no_response { success = true }

-- A handler's body: it returns, or ends at once with the text of ChatResponse{Error: …}. What was
-- written before stays written.
abbrev pub Action : Type 0 → Type 0
Action A = Files → Result A × Files

unfoldable pub pure : {A : Type 0} → A → Action A
pure a fs = (ok a, fs)

unfoldable pub modify : (Files → Files) → Action (Unit {0})
modify f fs = (ok tt, f fs)

unfoldable pub gets : {A : Type 0} → (Files → A) → Action A
gets f fs = (ok (f fs), fs)

-- A return with this error unless the condition holds.
unfoldable pub require : Bool → Bytes → Action (Unit {0})
require true e fs = (ok tt, fs)
require false e fs = (err e, fs)

unfoldable pub lift : {A : Type 0} → Result A → Action A
lift r fs = (r, fs)

abbrev pub settle : Host → Bytes → Files → IoResult Files → Result (Unit {0}) × Files
settle h label fs (done fs') = (ok tt, fs')
settle h label fs (fault e) = (err (label ++ h.describe e), fs)

-- A system call that changes the files; its error is returned behind a label.
unfoldable pub attempt : Host → Bytes → (Files → IoResult Files) → Action (Unit {0})
attempt h label call fs = settle h label fs (call fs)

abbrev pub relabel : {A : Type 0} → Bytes → Result A → Result A
relabel label (ok a) = ok a
relabel label (err e) = err (label ++ e)

-- fmt.Sprintf("label%v", err) on the error of a part.
unfoldable pub labelled : {A : Type 0} → Bytes → Action A → Action A
labelled label m fs = (relabel label (m fs).0, (m fs).1)

abbrev pub continue_with : {A B : Type 0} → (A → Action B) → Result A → Files → Result B × Files
continue_with f (ok a) fs = f a fs
continue_with f (err e) fs = (err e, fs)

infixl 5 ◌>>=◌ ◌>>◌
-- Opening this opens the actions above too.
unfoldable pub ◌>>=◌ : {A B : Type 0} → Action A → (A → Action B) → Action B
unfolding pure modify gets require lift attempt labelled
◌>>=◌ m f fs = continue_with f (m fs).0 (m fs).1

abbrev pub ◌>>◌ : {A B : Type 0} → Action A → Action B → Action B
m >> k = m >>= λ _. k

abbrev pub is_set : Bytes → Bool
is_set [] = false
is_set (c ∷ s) = true

abbrev pub response_of : Result ChatResponse → ChatResponse
response_of (ok response) = response
response_of (err e) = record no_response { error = e }

-- The response of a handler whose body has run.
unfoldable pub respond : Action ChatResponse → Files → ChatResponse × Files
respond m fs = (response_of (m fs).0, (m fs).1)
