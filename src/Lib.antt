-- ===== src/Lib.antt =====
-- Verification library for mochi-beam, the bridge between Mochi and the BEAM.
--
-- The program's parts and how they interact. etf/ encodes Go values as Erlang's External Term
-- Format and decodes them; the port to the Erlang runtime, the C-node and the readers of replies
-- all stand on it. cnode/ lets a Go process join the Erlang distribution: it looks a node up in the
-- port mapper, runs the handshake and sends terms that etf/ encodes. async/ reads replies of Erlang
-- processes and buffers their messages in a mailbox that a goroutine fills. hexsemver/ reads
-- versions and requirements of Hex packages and picks a version for the resolver. internal/types/
-- is the type checker of Mochi; its relations between types decide which programs are accepted,
-- and its unifier solves the calls of generic functions. lockfile/ writes the entries of a lock
-- file, reads them back with the parser of internal/toml/, and checks their sums. typemap/ translates
-- the types of Erlang, which etf/ decodes, to types of Mochi, and says with the reasons of errors/
-- which ones it leaves out.
--
-- Which file models which part.
--   Etf          etf/etf.go: Term has the values, the tags and the errors; Wire the fixed-width
--                fields; Cursor the `decoder` and its `byte_`, `bytes_`, `uint16`, `uint32`; Decode
--                one function for each method of `decoder` and `Decode`; Encode one for each `enc…`
--                function and `Encode`.
--   Hexsemver    hexsemver/hexsemver.go: Version has `ParseVersion`, `String` and `Compare`;
--                Constraint has `ParseConstraint`, `Matches`, `ParseRequirements`, `Satisfies` and
--                `BestMatch`.
--   Cnode        cnode/cnode.go: Conn has the connection, `readFrame` and `writeFrame`; Handshake the
--                messages and `Handshake`; Node has `ParseNodeName`, `LookupNode`, `sendMsg` and
--                `Connect`.
--   Types        internal/types/kinds.go (Kinds) and internal/types/subtype.go: Equal has
--                `equalKinds`, Subtype has `Subtype` and `Assignable`. Subst has `Apply`, `Compose`,
--                `occurs` and `Bind` of internal/types/subst.go, Unify its `unifyInto`.
--                Poly has internal/types/poly.go, Effects internal/types/effects.go.
--   Toml         internal/toml/parser.go: Scan, Strings, Numbers, Parse and Document have one function
--                for each method of `parser`; Decoder has internal/toml/decoder.go.
--   Lockfile     lockfile/: Entry has `Sort`, Render `RenderTOML`, Read `ParseTOML`, Check `Check`,
--                `CheckAll` and `ComputeBeamIngestSHA256`.
--   Typemap      typemap/typemap.go: Types has `TranslateResult` and the errors, Translate one
--                function for each of its functions. Reasons has errors/errors.go.
--   Async        async/async.go: Mailbox has `isAtom`, `expectOK` and the mailbox with its poller,
--                one function for each critical section or channel operation of `Push`,
--                `Close` and `poll`.
--                Process has async/process.go and async/monitor.go.
--   Text         the calls of strings, strconv and unicode that these parts make.
--   Base         tests on numbers, lists, integers, results.
-- Each other file below these proves what its name says; Tests has runs and instances.
--
-- How code is modelled. A Go string is the list of its bytes in etf/, cnode/, internal/toml/ and
-- lockfile/, and of its code points in hexsemver/ and internal/types/. A map of Go is a list of its
-- entries, and `sort.SliceStable` and `sort.Strings` are the insertion sort of Base.Sort.
-- The parser of internal/toml/ is a function of the text that is left to read, and the table
-- that it writes to is named by its path from the root. A call that returns an error is a result type of its part. A cursor or a
-- connection is passed on explicitly; in cnode/ an outcome may also be a run-time panic, which an
-- index or a slice out of range gives, and a connection says how many more writes succeed. The
-- goroutines of async/ are a machine: an event says which of them moves, and a step that blocks,
-- panics or leads to a state. Unsigned fields are numbers with their wrap-around written out.
--
-- Bounds and fuel. `Decode` recurses on the bytes it reads, and on the output of zlib, whose output
-- length is a uint32 field of the input: its fuel counts nested terms, and the length of the input
-- and 2 ^ 32 for each level of compression are enough. The digits of a 64-bit integer take eight
-- rounds. The parser of internal/toml/ has one more than the length of its text for the depth of its
-- values and for each of its loops, and never runs out. `Apply` and `occurs` follow bindings inside
-- one another, which need not end: their fuel counts these, the result is none when it is used up,
-- and a theorem says for which bindings it is enough. `unifyInto` has the same fuel for its depth.
-- The translation of typemap/ has one for each term inside the term.
-- Everything else is structural recursion; `Subtype` swaps its arguments at parameters, so
-- the model carries the direction in which they are read.
--
-- Not modelled. zlib, md5, sha256, sha512, random numbers and dialling are parameters.
-- Deadlines, locks and the closing of connections are left out, as are the methods and the printing of types, and the direct
-- hand-over on a channel without a buffer. The remaining packages are the lowering and emission of
-- code, drivers of external tools, and I/O.
pub mod Base
pub mod Etf
pub mod Text
pub mod Hexsemver
pub mod Cnode
pub mod Types
pub mod Toml
pub mod Lockfile
pub mod Typemap
pub mod Async
