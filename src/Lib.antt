-- ===== src/Lib.antt =====
-- AirBridge 5G: the Go daemon under core/go, which shares one device's connection with others. Its
-- proxy serves SOCKS5 clients and relays their bytes through a privacy engine, its mesh connects the
-- devices over Noise, and a control plane starts, stops and configures them.
--
-- Prelude: names of the libraries passed on, tests and lists on native numbers, Go's maps with their
--   totals, strings, results, connections, formatted and split text, host and port, exclusive or.
-- Privacy, core/go/internal/privacy:
--   Privacy/Fragment: fragment.go, `NewFragmenter`, the strategies and `FragmentWriter.Write`.
--   Privacy/Ttl: ttl.go, `NormalizePacket` with the checksum, `DetectOS`.
--   Privacy/UserAgent: useragent.go, `HarmonizeHTTPRequest`, `isDesktopUA`, `isHTTPRequest`.
-- Proxy, core/go/internal/proxy:
--   Proxy/Relay: socks5.go, `fragmentingWriter` and the copy loops of `relay`; it calls
--     Privacy/Fragment. Proxy/Relay/Directions: how the end of one loop of `relay` ends the other.
--   Proxy/Readers: `uaHarmonizingReader` of socks5.go with `HarmonizeRawHTTP` of useragent.go, and
--     the limited reader and writer of rate_limiter.go.
--   Proxy/RateLimiter: rate_limiter.go, the token bucket.
--   Proxy/Socks5: socks5.go, `handleConnection` up to the relay: `negotiate`,
--     `authenticatePassword`, `readRequest`, `sendReply` and the token authenticator.
--   Proxy/Server: socks5.go, `NewServer` and the accept loop of `ListenAndServe` with its handlers.
-- Mesh, core/go/internal/mesh:
--   Mesh/PeerManager: peer_manager.go.
--   Mesh/Stun: nat_traversal.go, the binding request and the parser of responses.
--   Mesh/NatTraversal: nat_traversal.go, what `DiscoverPublicAddress` makes of the servers' answers.
--   Mesh/HolePunch: nat_traversal.go, `HolePunch`.
--   Mesh/Events: libp2p.go, the subscribers and their channels, `emitEvent` and the end of `Stop`.
--   Mesh/LibP2p: libp2p.go and tcp_listener.go, the table of peers: `Start`, `Stop`, `Connect`,
--     `Disconnect`; Health has the ticks of the health loop, Gossip the datagrams, the listen
--     addresses and the bootstrap, and Runs one step relation of them all with the accept
--     goroutines and the read loops. Identity is the start of `NewLibP2PService`.
-- Protocol/Negotiation: core/go/internal/protocol/negotiation.go.
-- Transport, core/go/internal/transport: Transport/Framing is the packets of socks5_tls.go,
--   Transport/Streams the counters, `Dial`, `Listen` and `trackedStream` of quic.go, and
--   Transport/SocksTls the same of socks5_tls.go on the same counters, with its channel.
-- Config: core/go/internal/config/config.go.
-- Platform, core/go/internal/platform: the platform, and the kill switches and the system proxy
--   (Platform/Proxies) of Windows, Linux and macOS as commands.
-- Handshake, core/go/internal/handshake: Handshake/Frames is the frames and `SecureConn` of
--   noise_conn.go, Handshake/Rounds the handshake of its two sides and noise.go.
-- Storage: core/go/internal/storage, the store of peers over an interface of its SQL statements.
-- Security/KillSwitch: core/go/internal/security/killswitch.go. Security/Nonce:
--   core/go/internal/hotpath/hotpath.go.
-- Services, core/go/internal/services:
--   Services/IpLimiter: grpc_server.go, `ipRateLimiter.allow` and the interceptor.
--   Services/Tunnel: daemon.go, `StartTunnel` against its goroutine, on the mutex that both take.
--   Services/Engine: daemon.go, `SetPrivacyConfig`, which switches the parts of Privacy and Proxy.
--   Services/Daemon: daemon.go, the daemon's state with the goroutines that `StartTunnel` leaves
--     behind, the sections under its mutex, its configuration while it runs, and the traffic history.
--   Services/Pairing: daemon.go and daemon_api.go, the local address and the QR credentials, which
--     an import hands to `Connect` of Mesh/LibP2p.
--   Services/Handlers: grpc_server.go, the calls that change or show the role and the tunnel;
--     Services/Credentials: the two calls of QR credentials; Services/Stats: the statistics, with
--     the stream of updates, which read Proxy, Privacy and Services/Daemon.
--   Services/Lifecycle: daemon.go, `Start`, `Stop` and `Status` with the mesh, and
--     core/go/cmd/securemesh-node/main.go, the reload on SIGHUP and the deferred calls; what
--     happens to a node between its start and its end is a list of actions.
-- Tests: concrete inputs.
--
-- A module named for a part of the code has the definitions; the modules below it have what is
-- proved of them. A method is a function from the object's record to the record behind it; where a
-- mutex makes it atomic it is one step, and where two goroutines interleave, `Step` is a relation
-- whose constructors are their atomic steps. Errors are values of `Result`, `Option` or a type of
-- the module's own.
--
-- Numbers: bytes, lengths and times are native natural numbers; an atomic int64 counter is its bit
-- pattern and wraps modulo 2^64, a uint32 sum is below 2^32, and a uint16 length is taken modulo
-- 2^16. An int that may be negative is ℤ.
--
-- Fuel: the loops over a payload take one more round than the payload has bytes, and each round takes
-- a byte at least; an outer `none` would be their running out. The loop over the attributes of a
-- STUN response takes one more round than the response has bytes. The fold of the checksum takes two
-- rounds. `Wait` of the rate limiter runs over a list of clock readings of any length.
--
-- Parameters stand for code that is not in the repository: the random source, the connection that
-- is written to, the Noise library's states and ciphers, the operating system's commands, the
-- dialer, `net.IP.String`, base64, JSON, the parser and printer of HTTP, the network interfaces,
-- the clock, the statements of SQL, and the product of seconds and rate that mints tokens. The
-- header names and `User-Agent` values are folded on ASCII letters. A connection of the mesh is the
-- number of the call that made it; a channel of events is its buffer and whether it is closed.
--
-- Not modelled: the generated gRPC code and the start of its server, tracing, the key helpers,
-- which only call libraries, and the native variant of hotpath; the rest of `main`, which wires the
-- parts; the sockets of the STUN requests; the wrapper that makes a Noise listener, which nothing
-- calls; the VPN interfaces and the text of the proxy script on Windows; and the packets of
-- quic.go, whose statements are those of socks5_tls.go. The Flutter application is another program.
pub mod Prelude
pub mod Privacy
pub mod Proxy
pub mod Mesh
pub mod Protocol
pub mod Transport
pub mod Handshake
pub mod Security
pub mod Tests
pub mod Services
pub mod Storage
pub mod Config
pub mod Platform
