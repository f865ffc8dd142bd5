-- ===== src/Lib.antt =====
-- A model of bgpd-rs, a BGP daemon, and the theorems about it.
--
-- The daemon keeps a session with each configured peer. A session (src/session/lib.rs) exchanges
-- messages over a framed connection (src/session/codec.rs), and hands the UPDATE messages of its
-- peer to the session manager (src/session/manager.rs). The server (src/handler.rs) puts them into
-- the routing table (src/rib/mod.rs), whose routes the manager hands to the other sessions in turn.
-- The poller (src/session/poller.rs) has the peers without a session and makes or takes connections.
-- The program (src/main.rs) starts the daemon from a file, and reads the file anew at each SIGHUP; the
-- manager takes the new configuration from a channel.
--
-- Files:
--   Base and below    shared helpers: outcomes (a value, an error or a panic), equality tests, maps
--                     and sets as lists in the order of iteration, octets, signed durations, texts as
--                     lists of code points with the functions of std on them, bags.
--   Bgp               the types of bgp_rs, std::net and ipnetwork as the code uses them.
--   Config            src/config: the specification of a file, its defaults, ServerConfig::from_spec;
--                     Config.File: the reading of a file.
--   Rib               src/rib/mod.rs: RIB and all its operations under the names they have there.
--     Families, Community, Attributes, Entry, Parse, SessionRoutes
--                     src/rib/{families,community,attributes,export,parse,session}.rs; the text of
--                     communities is in Community.Notation.
--     Coherent, Histories
--                     the table and the cache of attributes over all histories.
--     View, Routes, Insertions
--                     the table as a list of entries, and what the operations do to it.
--     Histories.Refinement
--                     the table as a bag of entries.
--   Session           src/session.
--     HoldTimer, Counts, Error, Codec, Poller, Manager
--                     hold_timer.rs, message_counts.rs, mod.rs, codec.rs, poller.rs, manager.rs.
--     Peer            the struct Session, Session::new, send_message, notify, create_open.
--     Machine         open_received and process_message.
--     Updates         create_update.
--     Run             run: one turn, where the arm that select! takes is an event.
--     Run.Sound, Run.Lifetime
--                     what a session has sent, over all its turns.
--     Manager.Managed, Manager.Alive
--                     the sessions of the manager, over all its turns.
--   Handler           src/handler.rs: one turn of Server::run; Handler.Start: Server::new.
--     Daemon          the states of the server, over all turns and all calls of the API.
--     Reload          the table when peers are taken out of the configuration.
--     Relay           a route from the UPDATE of one peer to the UPDATE to another.
--   Utils             src/utils: Numbers (AS numbers, prefixes, operators), Flow (actions and matches
--                     of flow rules), Specs (specifications), Display (numbers and times as text).
--   Show              Display and Deserialize of families, sources, states, timers and errors.
--   Api               src/api: Rpc (the records of the answers), Routes, Peers, Handler (the calls).
--   Cli               src/cli: Args (the arguments and their specifications), Display (the rows of
--                     tables), Run (the commands).
--   Program           src/main.rs: the levels of the log, the start of the daemon, the thread for SIGHUP.
--     Reloading       the configuration after signals.
--     Lifetime        the states of the program, from the file to what its sessions have sent.
--   Tests             concrete data, and the theorems applied to it.
--
-- Numbers: a field of w bits is a natural number, and an operation that can wrap has its wrap written
-- out. Times are nanoseconds, and each reading of the clock is an argument. IP addresses are numbers
-- of 32 or 128 bits. A HashMap or HashSet is a list whose order is the order of iteration; a
-- theorem holds for every such order. unwrap, expect, unreachable! and slices out of range are panics.
--
-- Parameters, which stand for code of other crates: the identifiers, the encoding and the lookup of
-- path attributes in bgp_rs with the hasher of std (AttributeApi), the capabilities that bgp_rs reads
-- out of OPEN parameters, the search for the preamble and the reader of a message, and the size,
-- the address and the membership test of ipnetwork (NetworkApi); the Unicode tables, the notation of
-- addresses and floats, the numbers and texts of the types of bgp_rs (TextApi), and the widths of the
-- numbers in its flow filters (FilterLimits); reading a file, the deserializer of toml, and the
-- sockets that the start binds (Host). A connection is what each send will give and the
-- messages handed over so far. All recursion is on lists, but for the digits of a decimal number: a
-- number of 64 bits has twenty at most. Arithmetic wraps as in a release build.
--
-- What the world does is an argument of each step. The theorems over all states of the server or of
-- the program take it that a new connection has carried nothing yet, and that only configurations
-- that the manager has handed back come out of the poller's channel, which is a list in the manager
-- and an event of the poller. The watch channel of the configuration is its latest value. Which texts
-- the file had, which messages came from an address and which entries the table had are predicates:
-- they hold of every text, event and table on the way, and a session is then described by its past.
--
-- Not modelled: the parsing of arguments and the layout of tables on the terminal; the HTTP server and
-- client, whose calls are a parameter of the commands; the texts of parse errors (an error keeps the
-- reason and what it names); logging; src/utils/flowspec.rs, which is no part of the crate.
pub mod Base
pub mod Bgp
pub mod Rib
pub mod Session
pub mod Config
pub mod Handler
pub mod Utils
pub mod Show
pub mod Api
pub mod Cli
pub mod Program
pub mod Tests
