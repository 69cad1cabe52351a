-- ===== src/Chat/Delivery/Offload.antt =====
-- chatd/main.go, direct messages: handleSend with Autonomi on.
use zknode_autonomi_alpha.Prelude.{
  true, ◌&&◌, ◌≡◌, refl, none, [], ◌∷◌, Bytes, ◌==◌, nat_Eq, list_Eq, arith, if◌then◌else◌, ok,
}
use zknode_autonomi_alpha.FilePath.{DirPath}
use zknode_autonomi_alpha.Files.{Files, Host, Syscall, file, remove}
use zknode_autonomi_alpha.Files.Laws.{file-remove, removable}
use zknode_autonomi_alpha.Chat.{Chatd, Wire, ChatRequest, ◌>>=◌, is_set, success, respond}
use zknode_autonomi_alpha.Chat.Direct.{handle_send, new_message, recipient_of, offload}
use zknode_autonomi_alpha.Chat.Store.{user_dir, message_file, store_ant}
use zknode_autonomi_alpha.Chat.Mailbox.{Willing}
use zknode_autonomi_alpha.Chat.Delivery.{deposited, handle_send-deposited, file-deposited}

module _ (w : Wire) (c : Chatd) (h : Host) (req : ChatRequest) (fs : Files) where
  handle_send_remote :
      (addr : Bytes)
      → c.use_ant ≡ true
      → store_ant h (w.encode_message (new_message h req [])) ≡ ok addr
      → is_set req.user_id ≡ true
      → is_set req.content ≡ true
      → Willing h
      → respond (handle_send w c h req) fs ≡ (
        record success { addr = addr },
        remove h
            (user_dir c (recipient_of req))
            (message_file (new_message h req []).id)
            (deposited w c h req fs),
      )
  unfolding ◌>>=◌ respond offload
  handle_send_remote addr a s u t r = ground (arith, handle_send-deposited w c h req fs u t r, a, s)

  -- With Autonomi on, on a host that refuses nothing, the message that the tool took is removed from
  -- the store again, and the response names its address: every file that does not bear the new
  -- message's name in the mailbox is as before, and that one is gone.
  pub handle_send_offloaded :
      (addr : Bytes)
      → c.use_ant ≡ true
      → store_ant h (w.encode_message (new_message h req [])) ≡ ok addr
      → is_set req.user_id ≡ true
      → is_set req.content ≡ true
      → Willing h
      → let d = user_dir c (recipient_of req) in
        let name = message_file (new_message h req []).id in
        let sent = respond (handle_send w c h req) fs in
        (sent.0 ≡ record success { addr = addr })
        × ((p : DirPath) (m : Bytes)
            → file sent.1 p m ≡ (if (d == p) && (name == m) then none else file fs p m))
  unfolding removable
  handle_send_offloaded addr a s u t r =
      let d = user_dir c (recipient_of req) in
      let n = message_file (new_message h req []).id in
      rw (handle_send_remote addr a s u t r) (
        refl,
        λ p m. ground (
          arith,
          file-remove h d n (deposited w c h req fs) p m,
          file-deposited w c h req fs p m,
          r Syscall.unlink (n ∷ d),
        ),
      )
