-- ===== src/Lib.antt =====
-- A model of the JavaScript of cosmic-swingset: the machines that run vats (the chain's and the solo
-- machine's), the messages between them, what a browser sees of a solo machine, and the setup
-- program. Each file models the code that its first lines name.
--
-- How the parts go together. A solo machine runs a kernel with vats. After every run of the kernel
-- the messages of its mailbox are handed to a deliverator for each peer (lib/ag-solo/outbound.js).
-- The deliverator of a chain (lib/ag-solo/chain-cosmos-sdk.js) runs a helper program for every
-- delivery and every query, one after the other, with retries. On the chain, lib/launch-chain.js
-- takes in what is delivered, runs its own kernel, and publishes the outbox for every peer in the
-- chain's store. A browser talks to the solo machine through lib/ag-solo/web.js and the HTTP vat
-- (lib/ag-solo/vats/vat-http.js), which evaluates commands by lib/ag-solo/vats/repl.js. The vats
-- are connected to their peers by lib/ag-solo/vats/bootstrap.js, from the role on the command line.
--
-- Which file models what:
--   Outbound      lib/ag-solo/outbound.js: `deliver`, `addDeliveryTarget`, `knownTargets`
--   ChainSdk      lib/ag-solo/chain-cosmos-sdk.js: Queue is `queuedHelper`, Retry is `retryHelper` and
--                 `retryRpcAddr`, Shuffle is `shuffle`; Link is `getMailbox`, `getClient` and `deliver`
--   Solo          lib/ag-solo/start.js: `processKernel` and what calls it; Start is the rest of `start`,
--                 and Basedir is `initBasedir` of lib/ag-solo/init-basedir.js
--   Launch        lib/launch-chain.js: `launch`, `saveState`, `deliverInbound`
--   Mint          demo1/vat-mint.js: `makeMint`, `mint`, `deposit`
--   Vats          lib/ag-solo/vats: Registry, Scratch and Pubsub are vat-registry.js, scratch.js, pubsub.js,
--                 and Pledger is vat-pledger.js
--   Repl          lib/ag-solo/vats/repl.js: `getReplHandler`
--   Http          lib/ag-solo/vats/vat-http.js: `setCommandDevice`, `inbound`, the canvas, CapTP
--   Web           lib/ag-solo/web.js: Origin is `validateOrigin`, Connections the WebSockets
--   Boot          lib/ag-solo/vats/bootstrap.js: CommandLine is `parseArgs`
--   Ingress       lib/ag-solo/set-gci-ingress.js: `getBase`, `add` and the list that is written
--   Files         setup/files.js: `createFile`; lib/ag-solo/start.js: `atomicReplaceFile`; Guard is
--                 `guardFile` of setup/main.js
--   Setup         setup/main.js: Version is `bump-chain-version`, Shell is `run`, with setup/run.js;
--                 Status is `waitForStatus`; Placement is the allocation of nodes by `doInit` of
--                 setup/init.js; World has the files and programs that a command meets, with
--                 `guardFile` and `needDoRun`; Commands are `play`, `ssh`, `provision`,
--                 `wait-for-any`, `rolling-restart`, `destroy` and two that print a file; Bootstrap is
--                 `bootstrap-cosmos`, and Prepare `bootstrap` before it; Machines is
--                 `show-rpcaddrs` and `show-peers`, Hosts is `show-hosts`; SetJson is
--                 setup/set-json.js
--   Upload        lib/ag-solo/upload-contract.js: `upload`
--   Page          lib/ag-solo/html/main.js: `updateHistory`, `setNextHistNum`, `submitEval`, `inputHistory`;
--                 Canvas is `initCanvas` and `updateCanvas`
--   Base          shared types and lemmas: `Map` as an association list, `sort`, texts, throwing calls
--
-- A text is its list of UTF-16 code units where the code takes it apart, and a string elsewhere. A
-- `Map`, or an object used as one, is an association list in insertion order. A call that may throw
-- returns a `Result`. What runs in several turns of the event loop is a function for each turn, and
-- the turns come in any order: Queue, Mint and Outbound have a step relation for this; Repl, Pubsub,
-- Http, Web, Page and Solo have a list of events. A loop that waits and tries again has the list of
-- its tries. A setup command is a function of the files and of a log of what it starts; a subcommand
-- that it runs by `reMain` is the function of that subcommand, and one that it runs through a shell is
-- a program like any other.
--
-- What is not under this repository is a parameter: the kernel and its mailbox with their JSON
-- (`Kernel`, `Laws`, `Machine`), `Nat`, the URL parser, the answers to an upload (`Answers`),
-- CapTP's `dispatch`, the helper's output with its parser, evaluation and printing of values, the
-- programs that the setup commands start (`Outside`), SHA-256, the nodes that a light client asks
-- (`Node`), which calls of the file system fail, and random numbers. Logging and time are left out.
--
-- Bounds and fuel. Numbers are natural numbers. Message numbers, counters and balances are not cut
-- off at 2 ^ 53, where the numbers of JavaScript stop being exact. `cancel_excess` has the length of
-- the queue as fuel, one for each entry that the loop can pop; the digits of a number have one more
-- than the number; `rebroadcast_from` has the number of rounds of its loop. The loop of
-- `bootstrap` that waits for SSH has no bound in the code; `known_hosts` throws `still_waits` after the
-- rounds that it is given, and `await_status` after the tries.
--
-- Not modelled: the light client, `stringify` of repl.js, the socket of the page, the
-- provisioning vat, the questions and files of init.js, the file that set-json.js replaces at its
-- end, and of setup/main.js the first `init` of `bootstrap`, `show-genesis`, `show-gci`, `show-config`
-- and `new-account`, which pass data between files and programs. Nor are the Go chain and its binding,
-- the Python servers, the deployment files, and the bundled copy of CapTP, which is the library of
-- another project.
pub mod Base
pub mod Outbound
pub mod ChainSdk
pub mod Mint
pub mod Vats
pub mod Repl
pub mod Web
pub mod Files
pub mod Launch
pub mod Boot
pub mod Ingress
pub mod Http
pub mod Setup
pub mod Upload
pub mod Page
pub mod Solo
