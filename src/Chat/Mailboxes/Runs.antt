-- ===== src/Chat/Mailboxes/Runs.antt =====
-- chatd/main.go, direct messages: any sequence of sends and polls keeps the promise of the service.
use zknode_autonomi_alpha.Prelude.{
  ◌≡◌, refl, ap, sym, subst, false, List, [], ◌∷◌, Bytes, nat_Eq, list_Eq, lookup,
}
use zknode_autonomi_alpha.Files.{Files, Syscall, names}
use zknode_autonomi_alpha.Files.Laws.{IsWellFormed}
use zknode_autonomi_alpha.Chat.{Wire, Chatd, respond}
use zknode_autonomi_alpha.Chat.Store.{user_dir}
use zknode_autonomi_alpha.Chat.Direct.{new_message, recipient_of, handle_poll}
use zknode_autonomi_alpha.Chat.Mailbox.{handle_poll-IsWellFormed}
use zknode_autonomi_alpha.Chat.Delivery.{handle_send_local, IsWellFormed-deposited}
use zknode_autonomi_alpha.Chat.Letters.{letters}
use zknode_autonomi_alpha.Chat.Mailboxes.{
  Event, sent, got, Mailboxes, Promise, put_in, collect, Operation, send, poll, mailboxes,
  deposit-Inserted, deposit-others, poll-messages, poll-empties, poll-others,
}

module _ (w : Wire) (c : Chatd) (off : c.use_ant ≡ false) where
  -- Each operation keeps the promise, and leaves a store that names each file once.
  Operation-Promise :
      {fs fs' : Files} {e : Event}
      → Operation w c fs e fs'
      → IsWellFormed fs
      → Promise (mailboxes w c fs) e (mailboxes w c fs') × IsWellFormed fs'
  Operation-Promise {fs} (send h req r b hu u t s new) f =
      let ran = ap (λ x. x.1) (handle_send_local w c h req fs off u t r) in
      subst
        (λ x.
          Promise (mailboxes w c fs) (sent (recipient_of req) (new_message h req []))
            (mailboxes w c x)
          × IsWellFormed x)
        (sym ran)
        (
          put_in (recipient_of req) (new_message h req []) _
              (deposit-Inserted w c h req fs r b s new)
              (λ v hv ne. deposit-others w c h req fs v hu hv ne),
          IsWellFormed-deposited w c h req fs f,
        )
  Operation-Promise {fs} (poll h q r hu u) f =
      let after = (respond (handle_poll w c h q) fs).1 in
      (
        subst (λ msgs. Promise (mailboxes w c fs) (got q.user_id msgs) (mailboxes w c after))
            (sym (poll-messages w c h q fs r u f))
            (collect q.user_id _ (poll-empties w c h q fs r u f)
              (λ v hv ne. poll-others w c h q fs v r u f hu hv ne)),
        handle_poll-IsWellFormed w c h q fs u (r Syscall.list (user_dir c q.user_id)) f,
      )

-- A sequence of operations, with what was seen of them, the latest first; and one of promised steps.
pub data Operations (w : Wire) (c : Chatd) : List Event → Files → Type 0 where
  none_yet : Operations w c [] []
  followed :
      {es : List Event} {e : Event} {fs fs' : Files}
      → Operations w c es fs
      → Operation w c fs e fs'
      → Operations w c (e ∷ es) fs'

pub data Promises : List Event → Mailboxes → Type 0 where
  at_first : (m : Mailboxes) → ((u : Bytes) → m u ≡ []) → Promises [] m
  also :
      {es : List Event} {e : Event} {m m' : Mailboxes}
      → Promises es m
      → Promise m e m'
      → Promises (e ∷ es) m'

empty-IsWellFormed : IsWellFormed []
unfolding names lookup
empty-IsWellFormed = record { distinct = λ p. tt }

Operations-both :
    (w : Wire) (c : Chatd) {es : List Event} {fs : Files}
    → c.use_ant ≡ false
    → Operations w c es fs
    → Promises es (mailboxes w c fs) × IsWellFormed fs
unfolding names lookup letters
Operations-both w c off none_yet = (at_first _ (λ u. refl), empty-IsWellFormed)
Operations-both w c off (followed before_it op) =
    let (kept, formed) = Operations-both w c off before_it in
    let (step, formed') = Operation-Promise w c off op formed in (also kept step, formed')

-- The store refines the mailboxes: whatever sends and polls the daemon has served from the empty
-- store, with Autonomi off, on hosts that refuse nothing, with IDs that are new in their mailbox, what
-- was seen of them is what the promise allows, and what waits in the store is what it says. The
-- promise has no files in it, and no order among the messages of one user.
pub Operations-Promises :
    (w : Wire) (c : Chatd) {es : List Event} {fs : Files}
    → c.use_ant ≡ false
    → Operations w c es fs
    → Promises es (mailboxes w c fs)
Operations-Promises w c off ops = (Operations-both w c off ops).0
