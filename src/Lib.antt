-- ===== src/Lib.antt =====
-- The programs that this repository builds around the Katzenpost mixnet, and what holds of
-- them.
--
-- katzenpost/cmd/chatd/main.go is the chat service. It gets requests through the mixnet, keeps
-- direct messages and groups as files below one directory, and hands AI requests to an HTTP
-- server.
--   Chat: the messages, the settings (Chatd), the codecs (Wire), and a handler's body (Action),
--     which changes the files and may end with an error at any point.
--   Chat.Store, Chat.Direct, Chat.Groups: one function per function of the source, by the same
--     name in snake_case (handleGroupInvite is handle_group_invite). Chat.Daemon: OnCommand and
--     process. Chat.Program: main up to the serving.
--   Files is the file system below it, as package os is called, and FilePath is path/filepath.
--     A host (Files.Host) says which system calls it refuses, what time it is, which random bytes
--     come, and what the `ant` tool and the AI server answer; one host stands for one request.
--   A run is a sequence of requests and AI jobs (Chat.Reachable.Step), each one step there.
--     OnCommand serves each request in a goroutine and locks nothing: in Chat.Concurrent any
--     number of direct sends and polls share the store, and one step is one system call;
--     Chat.Concurrent.Reach says in which orders they can come. In Chat.Races two goroutines of
--     handleGroupInvite share the store, each in two steps, by a schedule.
--   Chat.Mailboxes is the abstract view of direct messages: a list of messages for each user,
--     and what a send and a poll promise of it, with no files. Chat.Letters is the step between
--     the two views, and Chat.Mailboxes.Runs the sequences of operations.
-- cmd/storage-proved/main.go proves that chunks are stored.
--   Prover.Merkle is its tree, over any hash; Prover.Server is rebuildTree and the HTTP
--     handlers, each one step, since a lock is held over each, and Prover.Program is main: the
--     start, and the routes to the handlers. Prover.Chunks says which file a number stands for,
--     where the handlers search for it.
--   A panic on an index is a value, and the loop of getMerklePath runs on fuel, one more than
--     the leaves. An index is of 64 bits, and one from 2^63 on is negative once it is an int.
-- cmd/mixnet-proxy/main.go carries HTTP from SOCKS5 clients through the mixnet.
--   Proxy.Socks is the negotiation with a client, with its buffer of 512 bytes; Proxy.Forward
--     the cached service and the loop over HTTP requests, and Proxy.Chain what its byte count and
--     its proof chain show. Proxy.Connection is handleConn as a whole, with its deferred calls.
--   In Proxy.Circuits any number of connections share the counters and the chain, and take
--     turns at each atomic access. The field `history` of Proxy.Forward.State lists these
--     accesses in their order; the program keeps no such list.
--   Proxy.Manage is the management API, Proxy.Program the settings and main.
-- walletshield-fix/main.go sends a wallet's requests through the mixnet.
--   Shield.Server is the server, from the raw request to the reply, Shield.Requests how that
--     request is built and Handler as a whole; Shield.Turns any number of requests at the same
--     time, which share the client and close it for each other; Shield.Program is main and the
--     probes, Shield.Texts the text functions it calls.
-- katzenpost/cmd/zkchat/main.go is the chat client.
--   Client.Keys is the identity and the keys on disk and the sealing of messages,
--     Client.Service the requests to the mixnet, Client.Talk with its child and Client.Groups the
--     commands, and Client.Program main and cmdGroup. A command is an Action as in Chat: it ends
--     with what it prints, or with the text on standard error and exit status 1.
--   Conversation puts the client and the daemon together, over a mixnet that carries their
--     messages: cmdSend of one user, process of chatd for each request, and cmdPoll of another
--     user.
-- cmd/zkclientd/main.go starts the client daemon of the mixnet.
--   Launcher is its main up to the wait for a signal; the calls of the library are parameters,
--     and the loop over 120 looks counts them down.
-- Prelude holds what the parts share: lists, maps, texts and tests over the native numbers. Hex
-- is encoding/hex. CBOR, JSON, cryptography, random numbers, HTTP and the mixnet itself are
-- parameters; where a theorem relies on them, it says so.
-- Not modelled: the sockets, the bytes of a raw tunnel, signals and the serving loops of the
-- libraries, the times that the probes measure, the debug lines and waits of the client, the
-- copies of the Katzenpost library, which the programs only call, the Rust prover, and the
-- pages and scripts around the programs.
pub mod Prelude
pub mod Hex
pub mod FilePath
pub mod Files
pub mod Chat
pub mod Client
pub mod Shield
pub mod Prover
pub mod Proxy
pub mod Conversation
pub mod Launcher
