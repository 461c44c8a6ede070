-- ===== src/Lib.antt =====
-- qsp links DMR repeaters and hotspots: peers log in over the HBP protocol, their frames are routed
-- by bridges between talkgroups to other peers, upstream networks and transcoders, and access lists
-- say who may register, speak and on which talkgroup.
--
-- The parts, and how they meet in the program: a packet is given to a parser by its tag (Hbp.Message)
-- and becomes a message (Hbp.Parse); the master (Peers.Master) has a handler for each kind: a station
-- logs in, answers a challenge, and sends its configuration, keepalives and frames; a login that fails
-- is counted by the throttle (Peers.Throttle); a frame that the master lets through is put back into
-- the call that it continues (Peers.Continuation), and tells where its radio is (Peers.Subscribers)
-- and which talkgroup its station uses (Peers.Attachments). The frame's source, talkgroup and
-- timeslot are checked against the access lists (Access); its arrival endpoint is looked up in the
-- routing table (Routing.Table) and sets off the triggers that open bridges for a time
-- (Routing.Trigger); and the core sends it to each target whose timeslot no other transmission uses
-- (Routing.Core).
--
--   Prelude   what the parts share: Boolean tests, lists, `sort.Slice`, maps, strings as lists of
--             code points (`strings`, `strconv`), bytes and `encoding/binary`.
--   Access    internal/access/access.go. List is AccessList, Parse is parse, Allows is allows; an
--             error is a value of ParseError.
--   Routing   internal/routing. Endpoint and Table are routing.go (Matches, Validate, NewTable,
--             Route), Trigger is trigger.go (Observe, ActiveAt, Expire, OpenFor). The rest is
--             core.go: Reservation holds the claim of a destination, its release and the check
--             for duplicates, Core the state, Core.Outgoing what is sent and dropped, Core.Deliver
--             the loop over the targets, Core.Find the choice of targets, Core.Scoped routeScoped
--             (route_scoped) and the methods on it. What the core asks of peers, subscribers and
--             attachments is a record of functions, an argument of each call.
--   Hbp       internal/protocol/hbp. Data is data.go (AppendTo is marshal), Message the choice of
--             a parser in message.go, Control the smaller messages of control.go, documented.go and
--             alias.go and the digest of auth.go, Config config.go, and Parse the whole of Parse
--             and the AppendTo of each message (append_to).
--   Peers     internal/peers. Attempts and Throttle are throttle.go, Peer is peer.go,
--             Continuation, Subscribers and Attachments the files of their names. Master is
--             master.go: its state and what its handlers share, Login handleLogin and handleKey,
--             Session the other handlers, Sweep Expire, SetAccess, CountSent and the constructor, and
--             Handle the method Handle, whose switch is act. Steps is the login protocol as a
--             relation on the registry and the count of waiting logins, which has no part of the
--             handlers' order of checks; Refines is about the handlers and it, Runs, Proven and
--             Station are about what keeps to it, Newcomer and Joins about the way in, Frames
--             about what is let through, and Answers about the frames of unregistered stations.
--
-- Each operation that changes state is a function from the old state to the new one and the result.
-- The locks make the methods of Triggers one step each; the handlers of the master hold its lock
-- for as long as they run, and the throttle is behind it.
-- Times are nanoseconds since an epoch that is before every time met, and a duration that may
-- be negative in the configuration is an integer. The uint32 arithmetic of access lists keeps its
-- wrap-around. A Go map is an association list; where Go leaves the order of a map open, a theorem
-- holds for each order of the list. Go's sort is not stable, so theorems say of it only what each
-- correct sort gives.
--
-- Of the master, the password of an ID, SHA-256, the generator of salts and the clock are parameters:
-- a handler has as arguments the time and the salt, which is none where the generator fails. A
-- JSON body of an identity is a value of a type of its own, with three functions on it. Why a message
-- is dropped is a value of Dropped. A pointer into the registry is the entry itself, and each
-- handler stores what it changes. The count of waiting logins is an int in the source and a natural
-- number here, whose subtraction stops at 0; IsSound of Runs says what it counts.
--
-- Fuel: the bisection of `sort.Search` has its length as fuel, enough because each round
-- shortens the range; printing a number has the number and one as fuel, enough because each round
-- divides it by ten.
--
-- Not modelled: the wording of messages for operators, logging, sockets and goroutines, storage, the
-- web console, the codecs of other links, and of the master what it copies for a page, collisions,
-- text messages and playback. `strings.ToLower` and `strings.EqualFold` are parameters, since the case
-- tables behind them are data of the Go library.
pub mod Prelude
pub mod Access
pub mod Hbp
pub mod Peers
pub mod Routing
