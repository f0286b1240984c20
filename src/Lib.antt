-- ===== src/Lib.antt =====
-- A verification library for syncstate, a Rust crate that keeps a map in step between one master
-- and many slaves. A map is built by `push`, frozen (its digest becomes its name), and then
-- changed by the master, which numbers its changes with update ids and remembers a diff for each.
-- A slave asks its remote for the diff from its own update id and applies it. Over TCP a server
-- holds the masters and answers requests; hooks of the user change them.
-- The parts, and the files that model them:
-- * `Prelude` - shared names, tests on numbers, lists, the outcome of a Rust call (`ok`, `err`,
--   `panic`), and machine words.
-- * `HashMap`, `Sort` - what the program uses of the standard library: a hash map as a list of
--   entries, sorting by insertion. The order in which a hash map is iterated is not specified, so
--   it is a parameter (`HashMap.IterOrder`) that visits each entry once.
-- * `Traits` - `StateMapKey` and `StateMapValue` of src/statemap.rs.
-- * `Diff` - src/diff.rs: `Diff.Defs` the functions, `Diff.Merge` what merging and compressing
--   mean.
-- * `StateMap` - src/statemap.rs: `Defs` and `Build` (new, push, set_master, get), `Freeze`
--   (calculate_hash, freeze), `Modify` (set, record_change, StateMapModifier), `GetDiff`
--   (get_diff), `Update` (set_update_id), `History` (the invariant of a master), `EarlySet`
--   (`set` before `freeze`), `Lifecycle` (every sequence of calls on a state map), `Replicas`
--   (edits of a master and a slave that follows them, read as a quotient of maps that forgets the
--   order of the entries) and `Sync` (what a slave may expect of get_diff). A method takes the
--   state and returns its result with the new state; the field `data` is called `contents`.
-- * `Remote` - src/remote.rs: the trait `Remote` stands in `StateMap.Defs`, as a record of
--   functions over a world `W`; `DummyRemote` here.
-- * `Event`, `Bincode` - src/event.rs, and the interface of the crate bincode.
-- * `Tcp` - src/hooks.rs (`Tcp.Hooks`), src/tcp/mod.rs (`Tcp.Messages`), src/tcp/server.rs
--   (`Tcp.Server`) and src/tcp/remote.rs (`Tcp.Remote`, and `Tcp.Sync` for a remote and a server
--   together). A mutex is its content and whether it is poisoned.
-- * `Tcp.Server` - `Requests.process_request` is `process_request` without interruption; `Steps`
--   has the same parts as steps of a system, where an `Init` that has let go of the lock and the
--   threads that run hooks interleave with other requests. `SafeSteps`, `Coherence` and `Config`
--   are about every run of such a system (`Preserved` is the induction on a run, `SafeHooks` has
--   hooks that write with `set`), `HookLoop` is about the loop over the hooks in one thread.
--   `Stream` is the thread of one connection, `handle_stream`, as one call, over a stream that is
--   a record of functions; `Listen` is `start_server`, over a list of what `accept` returned,
--   with the connections served one after the other. `Connections` has the same thread step by
--   step, from one lock, read or write to the next, and any number of such threads that take
--   their steps in any order, beside the threads that run hooks.
-- * `Tcp.Wire`, `Tcp.Loopback` - not code of the crate, but an environment for both ends of it: a
--   connection whose `write` takes at most `limit` bytes and whose `read_exact` returns an error
--   if bytes are missing, where the real one waits while the connection is open, and a client and
--   a server that such connections join, where the server's thread runs when the client waits for
--   an answer.
-- * `TestData` - src/test_data.rs.
-- * `Tests` - runs at concrete inputs.
-- A state map belongs to a remote, a remote's `init` takes a state map, so both are in
-- `StateMap.Defs`. `freeze` calls `Remote::init`, `set_update_id` calls `Remote::fetch_updates`;
-- over TCP both become requests to a server. The server stores state maps under their digests,
-- calls `get_diff` on them and hands them to hooks.
-- Bounds: an update id is a u64; `u64_inc` and `u64_dec` wrap as in a release build, and a
-- theorem about a change of a master assumes that its update id has a successor below 2 ^ 64.
-- Over a run of a server, a hook is assumed to raise an update id by at most some `k`, and the
-- run to have so few hook runs that no update id reaches 2 ^ 64. `decimal` is given twenty
-- places, which every u64 fits in. No loop needs fuel: each follows a list. The loop of
-- `start_server` never ends in the program; it is followed for as many connections as are listed.
-- Parameters: SHA-256 (`Freeze.Sha256`, any function), bincode (`Bincode.Codec`, with the law
-- that what was encoded decodes to itself; a map is read by inserting the listed entries), the
-- order of iteration, the remotes, the hooks. Errors that the program only passes on as text are
-- their text.
-- Not modelled: TLS, sockets (a connection is what can be read and written), logging, the random
-- delay before a wrong password is refused, `Debug`, the embedded certificates and the parser
-- that reads them, and src/lib.rs (documentation). A hook is one step that returns, though it may
-- lock its map several times, block or never return. An init hook is what it does before it
-- returns, though it may keep its map and change it later from threads of its own. A read or
-- write of a stream returns, though `read_exact` may wait for ever for a peer that sends nothing.
pub mod Prelude
pub mod HashMap
pub mod Traits
pub mod Diff
pub mod Sort
pub mod StateMap
pub mod Remote
pub mod Bincode
pub mod Event
pub mod Tcp
pub mod TestData
mod Tests
