-- ===== src/Lib.antt =====
-- block-proxy: a filtering MITM proxy with a SOCKS5 front and a tunnel to clients behind NAT.
-- This library models the tunnel (tunnel/), the SOCKS5 server (socks5/), and of the filtering proxy
-- (proxy/) its decisions, its rules and its chain proxy, and proves what makes them correct.
--
-- The parts and how they interact. A client of the tunnel posts frames to HTTP routes and reads
-- frames from one event stream. tunnel/xhttpHandler.js checks the credentials, keeps a session per
-- client and puts the posts of a session, which arrive in any order, through an UploadQueue
-- (tunnel/uploadQueue.js); what leaves the queue is taken apart into frames (tunnel/protocol.js) and
-- given to the manager (tunnel/manager.js), which keeps the requests that run through the tunnel in
-- both directions and sends its frames back over the stream of the active session.
--
-- A browser comes in through the HTTP proxy, or through the SOCKS5 server, which sends every TCP
-- request on to the HTTP proxy as a CONNECT and relays datagrams by itself. The proxy checks the
-- password, decides which connections it takes apart, blocks and rewrites requests by rules, and
-- may go through one more proxy, the chain proxy, whose client is the counterpart of the server.
--
-- Common        the shared names: lists over the native numbers, results of code that throws, counts.
-- Wire          tunnel/protocol.js. Buffer has Node's buffer calls; Address encodeAddress and
--               decodeAddress; Capabilities encodeCapabilities and decodeCapabilities; Frame the
--               frames, with Encode for encodeFrame, Decode for decodeFrame and decodeFrames, and
--               the theorems in RoundTrip, Stream and Limits. UTF-8 and the number of a text are
--               the record `Node`, parameters with the laws that the code relies on.
-- Upload        tunnel/uploadQueue.js. Heap is the binary heap of the class, by slots as in the
--               source; Queue has push, read, close, _deliver and _drainHeap. A promise that is
--               resolved is an entry of the sequence `resolved`. Heap/Slots, Up, Down and Contents
--               and Queue/InOrder, Progress, Complete, Readers and Repeats hold the proofs.
-- Manager       tunnel/manager.js. State has the entries of _activeRequests and _clearActiveRequest;
--               Calls forward, _createReverseForwardStream and handleFrame; Forward, with Sending,
--               Sockets and Sessions, the timers and
--               the socket of a forward request, _sendData, setConnected and the counts; Chunks the
--               loop that cuts data into DATA frames; Steps every event that the manager reacts to.
--               Every entry that was made keeps its number, as timers and sockets outlive its
--               place in the map. The proofs are in Limits, Bounded, Bounded/Run, Domains
--               and Disconnect; Maps has the laws of the maps.
-- Xhttp         tunnel/xhttpHandler.js. Routes is the dispatch of handleRequest; State the sessions,
--               the writes to a stream and the queries; Sessions _closeSession, the probes, the
--               timers and the consume loop; Requests the handlers of create, close, upload and
--               stream. The hash of the token is a parameter. Active, Access, Closing,
--               Tokens and Bodies hold the proofs.
--
-- Socks         socks5/server.js. Address has parseAddress and the addresses of datagrams; State the
--               counters and the sockets; Handshake the method negotiation, the authentication and
--               the request; Relay the connection to the HTTP proxy; Udp the relay of datagrams;
--               Steps every event of the sockets. Udp/Chunks, Balance with Handshakes, Setup and
--               Run, Access, Garbled and Replies hold the proofs.
-- Chain         proxy/proxy.js, parseChainProxyAddress to getSocks5ConnectResponseLength. Config is
--               the address of the chain proxy; Link the socket and its promise; Socks socks5Connect;
--               Http httpConnect; Agents getChainProxyAgent and connectViaChainProxy. Meets puts
--               the client against the server of Socks; Response and RoundTrip hold the other
--               proofs.
-- Mitm          proxy/mitm/registry.js (Registry), proxy/mitm/uaFilter.js and the hosts of
--               proxy/proxy.js (Hosts), MITMHandler and shouldMitm (Handler). Regular expressions and
--               the parsing of URLs are parameters. Override, Chosen and Ends
--               hold the proofs.
-- Filter        proxy/attacker.js (Attacker), and of proxy/proxy.js the block rules (Blocks),
--               checkProxyAuth (Auth), beforeDealHttpsRequest and beforeSendRequest (Decide), as
--               functions from what they read to what they decide, updateDevices (Devices), onError and
--               beforeSendResponse (Errors). Windows, Watch, Entitled, Passwords and
--               Reasons hold the proofs.
-- Certs         proxy/proxy-core/cert-lifecycle.js: normalizeHostname (Names), validateCache and
--               healthCheck (Cache), getDomainsToPrewarm and prewarmCerts (Prewarm), whose workers
--               are steps on one state, ensureCert and invalidateCert (Ensure), whose promises are
--               numbered jobs; Done and Single have the proofs. node:crypto and node:tls are the record
--               `Crypto`, domainToASCII a parameter.
--
-- Bytes and UTF-16 code units are numbers, buffers and texts lists of them; session ids, responses
-- and readers are numbers, as the code only compares them. What the runtime interleaves (posts,
-- timers, socket events, setImmediate) is a sequence of steps.
--
-- Fuel: decodeFrames has one round more than the buffer has bytes, and each round takes two at
-- least; sifting in the heap has the length of the heap, as each round halves or doubles the index;
-- _drainHeap has the length of the heap, as each round takes an item out; the loop that cuts data
-- has its length, as each round takes a byte at least, as has the loop over the UDP frames.
-- Letters are put into lower case as those of ASCII are.
--
-- Not modelled: logging and statistics, HTTP headers of the tunnel, random padding and the random
-- delay of the keepalive; tunnel/server.js and tunnel/sseControl.js, which pass calls on, and the
-- disguise pages; the start-up, the configuration files and the pages of the proxy, and what the
-- agents of libraries do; the generator of certificates and the rest of the proxy core; the admin
-- server and the front end.
pub mod Common
pub mod Wire
pub mod Upload
pub mod Manager
pub mod Xhttp
pub mod Socks
pub mod Chain
pub mod Mitm
pub mod Filter
pub mod Certs
