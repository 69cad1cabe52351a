-- ===== src/Client/Service.antt =====
-- katzenpost/cmd/zkchat/main.go: requests to the chat service and to the mesh bridge.
use zknode_autonomi_alpha.Prelude.{ℕ, zero, suc, ◌+◌, [], Bytes, Result, ok, err, codes}
use zknode_autonomi_alpha.Chat.{Action, ◌>>=◌, pure, lift, labelled, ChatRequest, ChatResponse}
use zknode_autonomi_alpha.Client.{Crypto, ServiceDescriptor, Mixnet, MeshResponse}

-- The answers to the attempts from number `i` on, and the error of the last one before them.
unfoldable pub first_service :
    (ℕ → Result ServiceDescriptor) → ℕ → ℕ → Bytes → Result ServiceDescriptor
first_service answer zero i last = err last
first_service answer (suc rounds) i last = elim (answer i) [
  | ok s ↦ ok s
  | err e ↦ first_service answer rounds (i + 1) e
]

module _ (x : Mixnet) where
  -- findMeshBridgeService: ten attempts; the error is that of the last
  unfoldable pub find_mesh_bridge_service : Result ServiceDescriptor
  find_mesh_bridge_service = first_service (x.get_service (codes "meshbridge")) 10 0 []

  chat_found : Result ServiceDescriptor → Result ServiceDescriptor
  chat_found (ok s) = ok s
  chat_found (err e) = err (codes "chat service not found")

  -- findChatService
  unfoldable pub find_chat_service : Result ServiceDescriptor
  unfolding chat_found
  find_chat_service = chat_found (first_service (x.get_service (codes "chat")) 10 0 [])

  -- dial
  unfoldable pub dial : Bytes → Action (Unit {0})
  dial config_path = labelled (codes "connect: ") (lift (x.connect config_path))

  module _ (k : Crypto) where
    -- A message to the node and the queue of a service.
    unfoldable pub deliver : ServiceDescriptor → Bytes → Result Bytes
    deliver s payload = x.send_message payload (k.blake2b s.identity_key) s.queue

    -- sendRequest
    unfoldable pub send_request : ChatRequest → Action ChatResponse
    send_request req = do
      service ← labelled (codes "service: ") (lift find_chat_service)
      reply ← labelled (codes "send: ") (lift (deliver service (x.encode_request req)))
      pure (x.decode_response reply)

    -- sendViaBridge
    unfoldable pub send_via_bridge : Bytes → Bytes → Bytes → Action MeshResponse
    send_via_bridge net_id recip_hex content = do
      service ← labelled (codes "meshbridge service: ") (lift find_mesh_bridge_service)
      reply ← labelled (codes "send: ") (
          lift (
            deliver service (
              x.encode_mesh (record {
                op = codes "relay";
                net_id = net_id;
                recipient = recip_hex;
                content = content;
              }))))
      pure (x.decode_mesh reply)
