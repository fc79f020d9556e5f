-- ===== src/Lib.antt =====
-- coap-server: a CoAP server (RFC 7252) with resources, discovery, observers (RFC 7641) and reliable
-- notifications, over a UDP transport.
--
-- The parts and how they interact. A transport turns datagrams into packets with the address of the
-- peer. The server gives each packet to a handler and relays the handler's packets to the transport.
-- The handler of an app (coap-server/src/app/app_handler.rs) looks the path of a request up in a path
-- matcher, which finds the resource with the longest matching path, and the resource chooses the
-- handler of the request's method. A resource can be observed: the observe handler keeps the
-- registrations by path and starts the resource's `on_active` for each observed path with an
-- `Observers` handle. A change that the resource tells to a handle is sent on a watch channel, and
-- the notification goes to the peer by the retransmission manager, which sends it again until the
-- peer acknowledges or resets it. Acknowledgements and resets that come in are given to that manager.
--
-- Files and the code that they model:
--   U24: coap-server/src/app/u24.rs, the 24-bit numbers (from_le_bytes, wrapping_add and so on under
--     their names; From and TryFrom are from_u8, to_u8, try_from_u32 and so on).
--   PathMatcher: coap-server/src/app/path_matcher.rs. `lookup` and `match_all` loop over the length of
--     a prefix, here lookup_from and match_all_from by recursion on that length.
--   Errors, Query: error.rs and coap_utils.rs of coap-server/src/app.
--   Retransmission: coap-server/src/app/retransmission_manager.rs. Params has the parameters, Manager
--     the table of waiting sends (send_reliably, maybe_handle_reply), Send the future that sends a
--     packet again (into_future), with what each branch of a select finds as an argument.
--   Observers: coap-server/src/app/observers.rs. A holder's `Arc`s are pointers into a heap.
--   ObserveHandler: coap-server/src/app/observe_handler.rs. maybe_process_registration is one step of
--     the table of registrations, since its lock is held from the lookup on; on_active_returned is the
--     end of handle_on_active_lifecycle.
--   App: the builders of coap-server/src/app (resource_builder.rs, app_builder.rs), with
--     request_type_key.rs. App.Assemble is AppHandler::from_builder with ResourceBuilder::build and
--     new_block_handler; App.Route is the routing of AppHandler::try_handle_get and
--     ResourceHandler::handle; App.Packets is AppHandler::handle_packet, and App.Answer its
--     handle_get and try_handle_get, with the response to an error; App.Request is request.rs; App.Core
--     is core_handler.rs, App.Link core_link.rs, and App.Listing the two together.
--   Handling: do_handle of coap-server/src/app/resource_handler.rs. Handling.Loop is its loop of
--     notifications (observe_loop, with the parts notification_packet and send_notification), over the
--     branches in which the select completes; Handling.Start is what comes before it, and do_handle.
--     Handling.Watch is the watch channel between an Observers handle and the loop.
--   Transport: coap-server/src/transport.rs. Transport.Embassy is coap-server-embassy/src/transport/
--     udp.rs: the framed socket with its poll operations, and in Bind the builder and the binding.
--     Transport.Tokio is coap-server-tokio/src/transport: its codec, in Udp the builder and the
--     multicast groups of udp.rs, and in Framed udp_framed_fork.rs, whose poll_next takes the answers
--     that the socket has ready. Transport.Sink is what a sink promises, as an interface that both
--     framed sockets fill (embassy_sink, tokio_sink).
--   Server: coap-server/src/server.rs. serve is its loop, over the events that the select takes;
--     Server.Relay is the system of the tasks, the channel of packets and the loop, in any interleaving.
--   Counter (examples/app_observable.rs): the counter, its requests and the time in which it is observed.
--   Coap: what the code uses of the message library, as interfaces: the header of a packet, and in
--     Coap.Options its options, its payload and the response that is prepared for it.
--   Base: lists, maps, results, text and bytes.
--
-- Conventions. A number is a natural number, and a machine integer has its bound or its remainder
-- written out. A hash map is an association list, whose order stands for the order of iteration. A
-- `String` is the list of its characters or bytes. What can panic returns an `Outcome`. A lock, an
-- `async` function between two waits, or a channel operation is one step, and a wait is an argument
-- that says how it ends. Channels, random numbers,
-- timers, sockets and the message library are arguments or interfaces.
--
-- Bounds. No definition runs on fuel that can be too small: the loops of the path matcher recurse on
-- the length of the prefix, the send loop on the attempts that are left, max_retransmit + 1 of them,
-- the loops of a select on the list of the branches that complete, and the replacement of a text on its
-- length, as each round takes one character at least.
--
-- Not modelled: the user's handlers and observable resources (traits only), the formatting of messages,
-- logging, the block-wise transfer (the message library's), and the socket libraries. The writer of
-- links is the message library's, and App.Assemble takes the text of a link from it. The accessors of
-- the framed socket of tokio are not called. Of the programs in examples only app_observable.rs keeps a
-- state of its own; the others are left out.
pub mod Base
pub mod U24
pub mod PathMatcher
pub mod Coap
pub mod Errors
pub mod Query
pub mod Retransmission
pub mod Transport
pub mod Observers
pub mod ObserveHandler
pub mod App
pub mod Server
pub mod Handling
pub mod Counter
