-- ===== src/Conversation/Tests/Network.antt =====
-- A codec for the requests and responses of chatd, in place of CBOR, and a mixnet that leads to the
-- daemon.
use zknode_autonomi_alpha.Prelude.{
  ◌≡◌, refl, ap, ◌∙◌, sym, Bool, true, false, Option, none, some, List, [], ◌∷◌, Bytes, Result, ok,
  err, codes, nat_Eq, list_Eq,
}
use zknode_autonomi_alpha.Files.{Files, Host}
use zknode_autonomi_alpha.Chat.{Wire, ChatMessage, ChatRequest, ChatResponse, is_set, success}
use zknode_autonomi_alpha.Chat.Daemon.{process, serve}
use zknode_autonomi_alpha.Chat.Tests.Codec
use zknode_autonomi_alpha.Chat.Tests.Codec.{
  split_fields, join_fields, split_fields-join_fields, decode_message-encode_message,
}
use zknode_autonomi_alpha.Chat.Tests.World.{daemon}
use zknode_autonomi_alpha.Client.{Mixnet, ServiceDescriptor}
use zknode_autonomi_alpha.Client.Service.{find_chat_service, first_service}
use zknode_autonomi_alpha.Client.Tests.{toy}
use zknode_autonomi_alpha.Conversation.{Carries}
use zknode_autonomi_alpha.Conversation.Arrival.{process-serve}

abbrev pub request_fields : ChatRequest → List Bytes
request_fields r =
    r.op ∷ r.user_id ∷ r.recipient ∷ r.content ∷ r.msg_type ∷ r.group_id ∷ r.group_name ∷ r.members

abbrev pub request_of : List Bytes → Result ChatRequest
request_of (op ∷ user_id ∷ recipient ∷ content ∷ msg_type ∷ group_id ∷ group_name ∷ members) =
    ok (record {
      op = op;
      user_id = user_id;
      recipient = recipient;
      content = content;
      msg_type = msg_type;
      group_id = group_id;
      group_name = group_name;
      members = members;
    })
request_of fields = err (codes "no request")

abbrev pub mark : Bool → Bytes
mark true = 1 ∷ []
mark false = []

abbrev pub message_texts : List ChatMessage → List Bytes
message_texts [] = []
message_texts (m ∷ ms) = Codec.wire.encode_message m ∷ message_texts ms

abbrev pub with_message : Option ChatMessage → List ChatMessage → List ChatMessage
with_message none ms = ms
with_message (some m) ms = m ∷ ms

abbrev pub messages_of : List Bytes → List ChatMessage
messages_of [] = []
messages_of (t ∷ ts) = with_message (Codec.wire.decode_message t) (messages_of ts)

-- A response without groups.
abbrev pub response_fields : ChatResponse → List Bytes
response_fields r = mark r.success ∷ r.error ∷ r.addr ∷ r.group_id ∷ message_texts r.messages

abbrev pub response_in : List Bytes → ChatResponse
response_in (flag ∷ error ∷ addr ∷ group_id ∷ texts) = record {
  success = is_set flag;
  error = error;
  messages = messages_of texts;
  addr = addr;
  group_id = group_id;
  groups = [];
}
response_in fields = success

messages_of-message_texts : (ms : List ChatMessage) → messages_of (message_texts ms) ≡ ms
messages_of-message_texts [] = refl
messages_of-message_texts (m ∷ ms) =
    ap (λ o. with_message o (messages_of (message_texts ms))) (decode_message-encode_message m)
    ∙ ap (λ rest. m ∷ rest) (messages_of-message_texts ms)

abbrev pub wire : Wire
wire = record Codec.wire {
  decode_request = λ b. request_of (split_fields b []);
  encode_response = λ r. some (join_fields (response_fields r));
}

pub understood : (r : ChatRequest) → wire.decode_request (join_fields (request_fields r)) ≡ ok r
understood r = ap request_of (split_fields-join_fields (request_fields r))

abbrev pub decode_response : Bytes → ChatResponse
decode_response b = response_in (split_fields b [])

heard :
    (ms : List ChatMessage)
    → let r = record success { messages = ms } in
      decode_response (join_fields (response_fields r)) ≡ r
heard ms =
    ap response_in (split_fields-join_fields (response_fields (record success { messages = ms })))
    ∙ ap (λ m. record success { messages = m }) (messages_of-message_texts ms)

pub heard_as :
    (r : ChatResponse) (ms : List ChatMessage)
    → r ≡ record success { messages = ms }
    → decode_response (join_fields (response_fields r)) ≡ r
heard_as r ms e = ap (λ q. decode_response (join_fields (response_fields q))) e ∙ (heard ms ∙ sym e)

abbrev pub service : ServiceDescriptor
service = record { identity_key = codes "key"; queue = codes "+chat" }

abbrev pub delivered : Option Bytes → Result Bytes
delivered none = err (codes "no reply")
delivered (some reply) = ok reply

-- A mixnet that leads to the daemon with these files.
abbrev pub network : Host → Files → Mixnet
network h ds = record {
  connect = λ config. ok tt;
  get_service = λ name i. ok service;
  send_message = λ payload node queue. delivered (process wire daemon h payload ds).1;
  encode_request = λ r. join_fields (request_fields r);
  decode_response = decode_response;
  encode_mesh = λ r. [];
  decode_mesh = λ b. record { success = false; error = []; peer = [] };
}

service_found : (h : Host) (ds : Files) → find_chat_service (network h ds) ≡ ok service
unfolding find_chat_service first_service
service_found h ds = refl

pub carries :
    (h : Host) (req : ChatRequest) (ds : Files) (ms : List ChatMessage)
    → (serve wire daemon h req ds).response ≡ record success { messages = ms }
    → Carries wire daemon h toy (network h ds) req ds
unfolding process
carries h req ds ms e =
    let payload = join_fields (request_fields req) in
    let run = process wire daemon h payload ds in
    let same = ap (λ o. o.response) (process-serve wire daemon h req payload ds (understood req)) in
    record {
      service = service;
      found = service_found h ds;
      understood = understood req;
      reply = join_fields (response_fields run.0.response);
      answered = refl;
      carried = refl;
      read = heard_as run.0.response ms (same ∙ e);
    }
