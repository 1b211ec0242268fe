-- ===== src/Lib.antt =====
-- Daze, a proxy that gets past firewalls.
--
-- A local end speaks SOCKS4, SOCKS5 or HTTP with a browser, asks a router which way a host is to go,
-- and reaches it directly or through a remote end, with which it speaks ashe, the project's
-- encrypted protocol, either on a connection each or on the streams of one connection (czar).
--
-- Which file models what (paths from the repository's root):
--   Base, Base/*          the names that the others share: tests and splits on numbers, lists over
--                         the native numbers, what a Go call comes to (a value, an error or a
--                         panic), handlers that change a state, encoding/binary's big-endian
--                         numbers, xor; lib/doa/doa.go's Doa and Nil are Base/State's doa and doa_nil.
--   Net, Net/Steps        io.ReadWriteCloser and Gravity of daze.go: a connection is the bytes that
--                         are still to come, those written, and the RC4 key once there is one.
--   Ashe                  protocol/ashe/engine.go: Server.Hello and Serve (server_hello, serve),
--                         Client.Hello, Estab and Dial (client_hello, estab, dial_server).
--     Ashe/Udp            UDPConn.Read and Write (udp_read, udp_write).
--     Ashe/Clock, Wire, Exchange, Refusals, Unclosed   proofs on the age check, on what both ends
--                         write and read, on both together, on refusals, on what is not closed.
--   Czar/Sip, Czar/Err    protocol/czar/sip.go and err.go: Get, Put and Set; Put.
--   Czar/Mux              protocol/czar/mux.go: the streams and the multiplexer, Open, Close, Esolc,
--                         NewMuxServer, NewMuxClient.
--     Czar/Mux/Recv       Mux.Recv as a machine of steps; Recv/Server and Recv/Arrival are proofs.
--     Czar/Mux/Transfer   Stream.Write; Transfer/Sender is proofs.
--     Czar/Mux/Reading    Stream.Read as a machine of its statements, between the steps of the
--                         others; Reading/Order and Reading/Results are proofs.
--     Czar/Mux/Invariant, Safety, Wither   the invariant of the streams' table and what keeps it.
--   Czar/Client           protocol/czar/engine.go: Client.Run as a machine of events; its child
--                         Upkeep is proofs.
--   Czar/Server           the same file: Server.Run as a machine of the steps of its goroutines,
--                         and Serve; Counter and Race are proofs.
--   Baboon                protocol/baboon/engine.go: Server.Route and what Client.Dial signs.
--     Baboon/Engine       ServeDaze, ServeHTTP and Client.Dial; Signature, Disguise and Hijacked are
--                         proofs.
--     Baboon/Mask         ServeMask; Copied is proofs.
--   Dahlia                protocol/dahlia/engine.go: Serve of Server, Client and Middle
--                         (server_serve, client_serve, middle_serve); Tunnel is proofs.
--   Link                  daze.go: Link as steps of its two goroutines; Delivery and Ending are
--                         proofs.
--   Listener              the accept loop that Run starts in daze.go and in ashe and dahlia, as a
--                         machine of events (turn); Counting is proofs.
--     Listener/Service    Run and Close around these loops, with net.Listen and the field Closer
--                         (run, close, step); Counts and Closing are proofs.
--     Listener/Engines    both with the handler of each server (ashe_turn, ashe_step, ...).
--   Lru/Cache             lib/lru/lru.go: the linked list of pointers and the map, with Set, Get,
--                         GetExists, Del and Len; its children, Ring and Relink are proofs.
--     Lru/Recency         what it promises: the same calls on the entries, last used first, which
--                         is what the routers use.
--   Priority              lib/priority/priority.go: Pri, one turn of a caller at a time (turn);
--                         Exclusion and Progress are proofs.
--   Router                daze.go: the five routers and their Road.
--     Router/File         FromFile of the rules and of the ranges.
--     Router/Aimbot       NewAimbot's router (new_router) and Aimbot.Dial (aimbot_dial).
--     Router/Cache, Verdict, Dialing   proofs on the cache, on the rules, on who is dialled.
--     Router/Reserved     LoadReservedIP, and IPNet.Contains for its ranges; Ranges and Places are
--                         proofs.
--   Resolver              daze.go: Cdoh, the connection of the DoH resolver; Doh is proofs.
--   Locale                daze.go: the reads of Locale's handlers.
--     Locale/Socks4, Socks5, Front   ServeSocks4; ServeSocks5 and ServeSocks5TCP; Serve.
--     Locale/Datagram     the loop of ServeSocks5UDP, one datagram at a time.
--     Locale/Proxy        ServeProxy; Proxying is proofs.
--     Locale/Reads, Requests, Relays, Crashes   proofs on what clients write.
--   Apnic                 daze.go: LoadApnic; cmd/daze/main.go: the command gen. Regions is proofs.
--   Tester                daze.go: TCPServe and UDPServe of the test server; Stream, Requests and
--                         Packets are proofs.
--   Assembly              cmd/daze/main.go: what the command client starts for ashe, put together
--                         from the parts above (browse), with the server of ashe at its other end;
--                         Trip is proofs.
--   Command               cmd/daze/main.go: main and the commands server and client, their flags, and
--                         the parts they start and close, as a list of effects; Starting is proofs.
--   Tests                 runs on small inputs, and theorems at inputs that meet their hypotheses.
--
-- How the state corresponds. A handler is a function from a state to an outcome and a state: an
-- error is kept with what was done before it, and a panic is an outcome. The streams of czar, which
-- the table of a multiplexer, its callers and the channel of Accept share, live in a heap and are
-- named by their place in it. What a mutex, a sync.Once or the priority lock guards is one step.
-- Numbers are natural numbers; where the code's are machine words the wrap-around is written out
-- (the 64-bit difference of the age check, the byte sums of the UDP header, 16-bit lengths).
--
-- Goroutines are steps in any order: those of Link, of czar's server, Stream.Read and the callers
-- of the priority lock one statement at a time, those of an accept loop one handler at a time,
-- since a handler works on its own connection only.
--
-- Loops and fuel. Most loops are recursions on data: Write on the bytes that are left (with one
-- turn more than there are bytes, and each turn but the last sends at least one), the loops over
-- routers, rules and lines on their lists. ServeProxy has fuel, of which one more than the bytes of
-- the browser is enough; TCPServe has fuel too, of which two more than the requests is enough, and
-- its loops over a count of 16 bits have 32, since 33 buffers of 2048 bytes are more than any
-- count. Recv, Stream.Read, the UDP loop, the accept loops and Link have no fuel: they are a step,
-- and runs of any number of steps.
--
-- Parameters, for what the repository does not hold: RC4 (a byte's translation under a key at a
-- place, which undone twice gives the byte back), the dialling of an address, the resolver,
-- IPNet.Contains of the ranges of a file, filepath.Match, SplitHostPort, JoinHostPort, ParseCIDR,
-- ParseUint, IP.String, Itoa, MD5, SHA-256, the hexadecimal coding, and the reading and writing of
-- messages by net/http.
--
-- Not modelled: of protocol/czar/engine.go Client.Dial; of protocol/baboon/engine.go Run, which
-- starts net/http; the plain and the TLS resolver, which wrap net and tls; the texts that are
-- printed, logs, signals and files.
pub mod Base
pub mod Net
pub mod Ashe
pub mod Czar
pub mod Lru
pub mod Link
pub mod Listener
pub mod Router
pub mod Resolver
pub mod Baboon
pub mod Dahlia
pub mod Priority
pub mod Tester
pub mod Apnic
pub mod Assembly
pub mod Command
pub mod Locale
mod Tests
