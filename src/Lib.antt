-- ===== src/Lib.antt =====
-- EzWebSocket, a WebSocket library in C: a server and a client over POSIX sockets.
--
-- The program's parts. A socket server (lib/socket_server/socket_server.c) or a socket client
-- (lib/socket_client/socket_client.c) runs a thread for each connection, which collects what it
-- receives in a buffer (lib/utils/dyn_buffer.c) and hands it to `websocket_onMessage` of
-- lib/ezwebsocket.c. That performs the opening handshake with lib/utils/base64.c and
-- lib/utils/stringck.c, then takes the frames apart, reassembles messages, checks texts with
-- lib/utils/utf8.c and calls the user's callback. Messages are kept in blocks of `malloc`, or of
-- lib/utils/ref_count.c once they are complete.
--
-- The files.
--   Frame: `parseWebsocketHeader`, `createWebsocketHeader`, `copyMasked` and the unmasking loops.
--   Utf8: `utf8_validate_single` and `utf8_validate`; Utf8/Scalar is the independent description.
--   Connection: the descriptor, the allocators, `sendDataLowLevel`, `websocket_closeConnection`, and
--     the send and close functions of both sockets.
--   Message: `checkCloseCode`, the handlers and `parseMessage`.
--   Receive: `callOnMessage` and the CONNECTED case of `websocket_onMessage`.
--   Sending: `websocket_sendData` and its variants for fragments.
--   DynBuffer: dyn_buffer.c and dyn_buffer.h.
--   SocketServer: the list of connections and the loop of `connectionThread` that hands over.
--   Base64: base64.c.
--   Handshake: `strnstr` and the functions of the opening handshake.
--   Session: `websocket_onMessage` as a whole, both `onOpen` functions and `websocket_onClose`;
--     Session/Stream has the frames of a connection as bytes in the receive buffer.
--   Message/Assembly: the abstract receiver of data frames, which knows only the pending message.
--   Reading: what the threads of both sockets do when `select` finds the socket readable.
--   RefCount: ref_count.c, for calls one after the other and for threads.
--   Resources, Client, Server: opening and closing, with the resources that are taken and given back.
--   Prelude: tests, lists, bits of bytes, and `Ensures`, total correctness of a step that may fault.
--
-- How the code is modelled. A buffer is the list of the bytes that may be read; an access outside of
-- it, through a null pointer, or a `free` with the wrong function is `none`, so that a theorem that
-- the code returns is one that it does not do so. State is passed explicitly. A `size_t` wraps with
-- `% 2 ^ 64`. What `send`, `malloc`, `rand`, the clock and the user's callbacks do is given in `Env`,
-- `Setup` and `Timespec`. Log lines are left out.
--
-- Threads are a step relation on the atomic accesses to a count; everywhere else one thread's steps
-- are a function.
--
-- Bounds and fuel. The loops are structural recursion on the rounds that are left or on a list. Fuel
-- bounds `drain` of SocketServer, for which one round more than there are bytes in the buffer is
-- enough, or as many as there are frames; `read_all` of Reading, for which one round more than bytes have
-- arrived is enough; and `wait_open` of Client, for which the round is enough at which the clock has
-- passed the timeout.
--
-- Not modelled: lib/utils/sha1.c, a copied library, which is a parameter; lib/utils/log.c, which is
-- output; the accepting thread of the server, the options of sockets and the callbacks that are copied
-- at opening; the tests for NULL of the callbacks of lib/ezwebsocket.c, whose descriptors are given;
-- the examples. OpenSSL is counted, not modelled.
pub mod Prelude
pub mod Frame
pub mod Utf8
pub mod Connection
pub mod Message
pub mod Receive
pub mod Sending
pub mod DynBuffer
pub mod SocketServer
pub mod RefCount
pub mod Resources
pub mod Client
pub mod Server
pub mod Reading
pub mod Base64
pub mod Handshake
pub mod Session
