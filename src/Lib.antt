-- ===== src/Lib.antt =====
-- Maiccu, a Mac program for IPv6 tunnels, carries three of them: miredo (Teredo), aiccu (SixXS) and gogoc
-- (TSP). This library models the core of miredo, miredo/libteredo, and parts of the other two: the AYIYA
-- tunnel and the TIC client of aiccu, and of gogoc-tsp redirection, requests over UDP, the echo
-- engine that keeps a tunnel alive, the XML parser and sessions with a broker.
-- The builds are those of the Mac program: miredo by miredo/config.h (no Judy arrays, with
-- MIREDO_TEREDO_CLIENT, without LIBTEREDO_ALLOW_CONE, without NDEBUG), aiccu with AICCU_PATCH and
-- without AICCU_GNUTLS, gogoc-tsp with OpenSSL and V4V6_SUPPORT.
--
-- How the parts work together. A tunnel (relay.c) takes IPv6 packets from the host (`teredo_transmit`) and UDP
-- datagrams from the network (`teredo_recv`, `teredo_run_inner`). It keeps a list of peers (peerlist.c); a peer
-- is trusted once its mapping has been shown by its own address, by a ping or by a bubble (packets.c),
-- which are authenticated by a keyed hash (security.c). Until then packets wait in the queue of the
-- peer. Local peers are found by discovery.c. Bytes are taken apart and summed in teredo.c. The clients
-- of aiccu and gogoc share no state with it, nor with each other: aiccu logs in to a TIC server
-- (tic.c), which it reads by lines (common.c), and runs the tunnel that it is given (ayiya.c); gogoc asks a
-- broker for its capabilities (tsp_cap.c), over TCP or over UDP (net_rudp.c), authenticates itself (tsp_auth.c), asks
-- for a tunnel (tsp_client.c, tsp_net.c), and follows its redirections (tsp_redirect.c).
--
-- Which file models what:
--   Base: lists with native indices, bytes, words of network order, Boolean tests.
--   Checksum: `in_cksum` and `teredo_cksum` of miredo/libteredo/teredo.c, on both byte orders.
--   Address: teredo.h (`union teredo_addr` and its macros), v4global.c (`is_ipv4_global_unicast`).
--   Packet: `teredo_recv_inner` of teredo.c, from what recvmsg(2) delivered on.
--   Effect: what the code does to the outside, as a list in its order.
--   Peer: `teredo_peer` of peerlist.h, its queue (peerlist.c), `CountBubble` and `CountPing` (relay.c).
--   PeerList: `teredo_list_create`, `_reset`, `_lookup`, `_release` and `garbage_collector` of peerlist.c.
--   Security: security.c. MD5 (md5.c, a copy of another project's) is a parameter, the record Md5.
--   Message: packets.c and packets.h: bubbles; Message/Router `teredo_send_rs`; Message/Advert
--     `teredo_parse_ra`; Message/Echo `SendPing`, `CheckPing` and `BuildICMPv6Error`.
--   Discovery: discovery.c: the choice of interfaces, discovery bubbles.
--   Maintain: maintain.c: the check of advertisements and the state machine of `maintenance_thread`;
--     a Turn is one pass through its loop up to the next wait, a Run any sequence of them.
--   Tunnel: relay.c: state, settings, `teredo_state_change`, `teredo_send_unreach`; Tunnel/Transmit
--     `teredo_transmit`; Tunnel/Receive `teredo_run_inner` and the guard of `teredo_maintenance_process`
--     (maintain.c).
--   Server: server.c: `teredo_process_packet`, `SendRA`, `teredo_forward_udp`. Which bytes go where is an
--     answer (Answer).
--   Aiccu/Clock: `tic_checktime` of aiccu/tic.c.
--   Aiccu/Ayiya: aiccu/ayiya.c: `ayiya_reader`, `ayiya_beat`, `ayiya_writer`. SHA-1 (hash_sha1.c, a copy of another
--     project's) is a parameter, the record Sha1.
--   Aiccu/Tic: `tic_Login` and `tic_Logout` of aiccu/tic.c; Aiccu/Tic/Tunnels `tic_ListTunnels`, with `countfields` and
--     `copyfield` of aiccu/common.c. A reply is a line that `sock_getline` gave, or nothing for -1.
--   Aiccu/Lines: `sock_getline` of aiccu/common.c on the results of its calls of recv(2).
--   Gogoc/Redirect: gogoc/gogoc-tsp/src/tsp/tsp_redirect.c: lists of brokers.
--   Gogoc/Rudp: gogoc/gogoc-tsp/src/net/net_rudp.c: the engine (`rttengine_stats`) and `internal_send_recv`.
--     What select(2) and recv(2) do is a list of events; C's `float` is a parameter, the record Float.
--   Gogoc/Capability: gogoc/gogoc-tsp/src/tsp/tsp_cap.c: `tspExtractCapability`, `tspSetCapability`.
--   Gogoc/Session: `tspGetCapabilities` of tsp_cap.c; Gogoc/Session/Authenticate `tspAuthenticate`, `AuthANONYMOUS` and
--     `AuthPLAIN` of tsp_auth.c; Gogoc/Session/Setup `tspTunnelNegotiation` and, from the connection on, `tspSetupTunnel`
--     of tsp_client.c. What the calls of `netsend` and `netsendrecv` give is a list; the authentications that are not
--     modelled (AuthDIGEST_MD5, AuthPASSDSS_3DES_1) and `tspExtractPayload` are fields of the record Env.
--   Gogoc/Loop: the connection loop of `tspMain` of tsp_client.c, with V4V6_SUPPORT: a pass for each outcome of a session.
--   Gogoc/Echo: gogoc/gogoc-tsp/src/net/icmp_echo_engine.c: state, times, the list of echo events; Gogoc/Echo/Packet the
--     packets, with net_cksm.c; Gogoc/Echo/Process sending, reading and `IEE_process`, a pass for each request, a poll for each
--     call of select(2); Gogoc/Echo/Chain the linked list in a memory. How the host lays out words and times is the record Host.
--   Gogoc/Xml: gogoc/gogoc-tsp/src/xml/xmlparse.c: `XMLParse`. A position in the text is the rest of the text; the table of
--     nodes with their processing functions (the PROCs of xml_tun.c) is a parameter, the record Nodes, on any state.
--   Gogoc/Frame: `tspSendRecv` of tsp_net.c, from its reply on.
--   Tests: concrete inputs.
--
-- How state and operations correspond. A struct is a record, a function that changes it returns the
-- new one, and calls to the outside are effects: datagrams, callbacks, and the locking of the mutex of the
-- peer list. A result of 0 or -1 is a Boolean (`true` for 0) or an Option. Words in network order are
-- the numbers that `ntohl` and `ntohs` read; where the host's byte order changes what the code does,
-- it is an argument (Endian). Machine words keep their wrap-around, written out. A read behind the
-- end of a packet, which the code would make of the memory there, gives 0; in `XMLParse` it is a result of its own. What the environment gives
-- to a call (the clock, memory, whether sendmsg(2) takes a datagram, what `malloc` left in a new peer) is an argument.
--
-- Bounds and fuel. The tunnel makes its lists for 1024 peers (MAX_PEERS). The loop over the options of a
-- router advertisement runs on fuel, the length of the options and one more: each round takes at least
-- eight bytes, so it is enough. `XMLParse` runs on the length of its text and one more, its loop on
-- attributes on the length of what is left and one more: each round takes at least a byte; a fuel that has
-- run out is a result of its own, for both. The loop that reads a file of brokers runs on the length of the
-- file and one more: each round takes at least one byte. The loops on the linked list of echo events run on
-- more fuel than the list has events, which is enough while the list ends. All other loops follow the
-- lists, of bytes, of lines or of events; a list of events that ends leaves the call waiting.
--
-- Not modelled: the threads and their interleaving (one call runs at a time; the locks of the tunnel's
-- state and of the limit are held within one function), sockets and ioctl calls, the messages of `debug`
-- and syslog, the resolution of names, the sending loop of `teredo_send_ipv6` (server.c), `BuildIPv6Error`
-- and `EmitICMPv6Error` (dead code); of aiccu the tunnel device and the configuration of interfaces, of
-- gogoc-tsp the processing functions and requests of xml_tun.c and xml_req.c, the outer loop of `tspMain`,
-- two authentications, the threads of the keep-alive and the platform layer, the files of gogoc-config and
-- gogoc-messaging, and the user interface.
pub mod Base
pub mod Checksum
pub mod Address
pub mod Packet
pub mod Effect
pub mod Peer
pub mod PeerList
pub mod Security
pub mod Message
pub mod Discovery
pub mod Tunnel
pub mod Maintain
pub mod Server
pub mod Aiccu
pub mod Gogoc
pub mod Tests
