-- ===== src/Chat/Tests/Concurrent.antt =====
-- chatd/main.go: direct messages at the same time, run.
use zknode_autonomi_alpha.Prelude.{
  set_at, ℕ, ◌≡◌, ◌≢◌, refl, All, ◌⊎◌, [], some, ◌==◌, nat_Eq, list_Eq, list_eq, true,
  if◌then◌else◌, lookup, insert, place, erase, before, erase, place, insert,
}
use zknode_autonomi_alpha.Hex
use zknode_autonomi_alpha.FilePath.{join, ext}
use zknode_autonomi_alpha.Files.{
  Files, file, names, has_dir, add_dir, add_dirs, put_file, mkdir_all, write_file, read_dir,
  read_file,
}
use zknode_autonomi_alpha.Chat.{◌>>=◌, success, attempt, require}
use zknode_autonomi_alpha.Chat.Store.{user_dir, new_id}
use zknode_autonomi_alpha.Chat.Direct.{new_message, recipient_of, offload, readable}
use zknode_autonomi_alpha.Chat.Letters.{letters}
use zknode_autonomi_alpha.Chat.Concurrent.{
  Running, Reach, start, arrive_send, arrive_poll, moved, move, idle, taken, poller, send_at, sent,
  list_next, fresh, advance, the_file, target, sender, pending, mailbox_of, name_of, send_begins,
  go_on, listed, opened, begin_poll, fill, blob_of,
}
use zknode_autonomi_alpha.Chat.Concurrent.Safety.{Taken}
use zknode_autonomi_alpha.Chat.Concurrent.NoLoss.{sent_is_kept}
use zknode_autonomi_alpha.Chat.Concurrent.Twice.{in_turns, in_turns_twice, returned}
use zknode_autonomi_alpha.Chat.Concurrent.Origins.{Origin, read_was_sent}
use zknode_autonomi_alpha.Chat.Concurrent.Ending.{amid, amid_ends, is_over}
use zknode_autonomi_alpha.Chat.Tests.Codec.{wire, split_fields, decode_message-encode_message}
use zknode_autonomi_alpha.Chat.Tests.World.{
  daemon, host, later, host-Willing, later-Willing, hello, look,
}
use zknode_autonomi_alpha.Chat.Tests.Direct.{mailbox, mailbox-IsWellFormed}

abbrev nothing : Running
nothing = record { jobs = λ i. idle; files = [] }

abbrev sending : Running
sending = record nothing { jobs = set_at 0 (send_at fresh host hello) nothing.jobs }

abbrev go : ℕ → Running → Running
go i s = move wire daemon i s

-- The file is there and empty when the poll comes.
abbrev halfway : Running
halfway = go 0 (go 0 sending)

abbrev looking : Running
looking = record halfway { jobs = set_at 1 (list_next later look) halfway.jobs }

-- The poll lists the mailbox before the message is written, and reads the file afterwards.
abbrev crossed : Running
crossed = go 0 (go 1 (go 0 (go 1 looking)))

no_handler :
    (j : ℕ)
    → (target daemon (nothing.jobs j) ≢ the_file (mailbox_of daemon hello) (name_of host))
      × (pending (nothing.jobs j) ≢ the_file (mailbox_of daemon hello) (name_of host))
unfolding target sender pending
no_handler j = (cc, cc)

sending-Reach : Reach wire daemon [] sending
unfolding file lookup
sending-Reach = arrive_send 0 host hello nothing start refl (refl, no_handler)

free_halfway : halfway.jobs 1 ≡ idle
unfolding move set_at
free_halfway = refl

crossed-Reach : Reach wire daemon [] crossed
crossed-Reach = moved 0 _ (
    moved 1 _ (
      moved 0 _ (
        moved 1 _
          (arrive_poll 1 later look halfway (moved 0 _ (moved 0 _ sending-Reach)) free_halfway))))

crossed-sent : crossed.jobs 0 ≡ sent host hello success
unfolding ◌>>=◌ move set_at advance send_begins go_on fill mkdir_all write_file mailbox_of has_dir
    add_dirs add_dir file put_file lookup insert place erase offload listed opened begin_poll
    user_dir join Hex.encode recipient_of list_eq
crossed-sent = refl

sent_is_kept_example :
    ((file crossed.files (mailbox_of daemon hello) (name_of host)
        ≡ some (wire.encode_message (new_message host hello [])))
      × ((j : ℕ) → pending (crossed.jobs j) ≢ the_file (mailbox_of daemon hello) (name_of host)))
    ⊎ Taken crossed (new_message host hello [])
unfolding split_fields
sent_is_kept_example =
    sent_is_kept wire daemon refl refl [] crossed 0 host hello success crossed-Reach crossed-sent
      refl (decode_message-encode_message (new_message host hello []))

in_turns_twice_example :
    let d = user_dir daemon look.user_id in
    let all = letters wire d (names mailbox d) mailbox in
    (n : ℕ) × (after : Files) × (in_turns wire daemon n
        (list_next host look)
        (list_next later look)
        mailbox
      ≡ (returned look d all, returned look d all, after))
in_turns_twice_example =
    in_turns_twice wire daemon host later look look mailbox refl refl host-Willing later-Willing
      mailbox-IsWellFormed

amid_ends_example :
    (n : ℕ) × (is_over
        (amid wire daemon (λ k. if k == 0 then mailbox else []) n (list_next later look))
      ≡ true)
amid_ends_example =
    amid_ends wire daemon (list_next later look) (λ k. if k == 0 then mailbox else [])

looks_into : poller (crossed.jobs 1) ≡ some look
unfolding ◌>>=◌ move set_at advance listed opened begin_poll poller read_dir has_dir lookup
    send_begins mkdir_all write_file add_dirs user_dir join Hex.encode recipient_of list_eq insert
    put_file names readable ext blob_of fill go_on mailbox_of name_of new_message offload new_id
    attempt require add_dir file read_file erase place before split_fields
looks_into = refl

read_was_sent_example :
    All (Origin wire daemon [] crossed.jobs (user_dir daemon look.user_id)) (taken (crossed.jobs 1))
unfolding split_fields
read_was_sent_example = read_was_sent wire daemon [] crossed 1 look refl crossed-Reach looks_into
