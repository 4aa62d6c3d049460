-- ===== src/Lib.antt =====
-- A verification library for libgb28181, the C++ library of the GB/T 28181 signalling protocol
-- between video platforms.
--
-- The parts of the program and the files that model them:
--
-- Base and its children hold the shared names, the Boolean tests, list functions over the native
-- numbers and a few lemmas. Sip is the interface to the status code classes of the SIP library.
-- Message has the enumerations of message roots, commands and device controls of
-- include/gb28181/type_define.h and include/gb28181/message/device_control_message.h.
--
-- Ptz models the class PTZCommand of include/gb28181/type_define.h: Ptz has the frame and its builders
-- (Move, FI, Preset, Cruise, Scan, ScanSpeed, Aux), Ptz/Wire the text form (ToHex, FromHex) and the
-- check fields, Ptz/Getters the accessors. A byte is a number; builders cut what they store to a byte
-- where the code's type does.
--
-- Request models the outgoing requests of src/request (RequestProxyImpl, RequestListImpl,
-- RequestConfigDownloadImpl): Request has the state and on_completed, Request/Steps the sending, the
-- reply, the responses and the timers, Request/Select the choice of class and type
-- (newRequestProxy_). A request's life is a list of events; what it does to its surroundings is a
-- list of actions. An int32_t is its pattern of 32 bits, with the wrap-around and the signed
-- comparison written out. No fuel is used: all recursion is structural.
--
-- Invite models the invite sessions of src/request (InviteRequestImpl): Invite has the state, the status
-- and the end of a session (set_status, to_bye, to_teardown), Invite/Steps what starts it and what the
-- peer sends (to_invite_request, on_invite_reply, on_recv_bye and the others), Invite/Incoming the
-- sessions that a peer opens (on_recv_invite), Invite/Run a session's life as a list of events, and of the calls
-- of to_invite_request between them, whose effect on the map Invite/Life follows. A
-- session description is taken through the interface SdpFormat of Sdp. The text of an INFO request is
-- taken as read.
--
-- Subscribe models the subscriptions of src/request (SubscribeRequestImpl): Subscribe has the state, the
-- status and the sending of SUBSCRIBE (set_status, to_subscribe, time_remain), Subscribe/Steps the start,
-- the end, the replies and the delayed tasks (start, shutdown, on_subscribe_reply), Subscribe/Receive what
-- a peer sends (recv_subscribe_request, on_subscribe, on_recv_notify) and a subscription's life as a list
-- of events with their times, and Subscribe/Notify the state that is told (get_notify_state_str).
-- An operation that dereferences a pointer that is not set has no result. A delayed task whose handle is
-- dropped or replaced is kept, and may run or not: whether the poller cancels it is the network library's. A
-- delay is computed in 32 bits, with the wrap-around.
--
-- Counter models the counters that several threads draw from: get_new_sn of src/platform_helper.cpp and
-- make_ssrc of src/inner/sip_server.cpp, their values in Counter/Numbers and the loop of compare and
-- exchange in Counter/Threads. The threads' steps come in any order.
--
-- Register models the subordinate platforms of src/subordinate_platform_impl.cpp: Register has a
-- platform with its status and its keepalive messages (set_status, on_keep_alive), Register/Steps the
-- platforms of a server and their registration (on_recv_register, and new_subordinate_account of
-- src/inner/sip_server.cpp). Whether a request's authorization holds for a password is given with the
-- request. The application decides on a new account in the same step, in a later one, or not at all.
--
-- SuperPlatform models the registration at a superior platform of src/super_platform_impl.cpp:
-- SuperPlatform has the state, the start, the end and the sending of REGISTER (start_l, to_register),
-- SuperPlatform/Steps the replies and the keepalive messages (on_register_reply, to_keepalive) and a
-- registration's life as a list of events. What waits is kept as lists, of which an event picks one.
--
-- Digest models the authorization of REGISTER requests of src/inner/sip_common.cpp on the fields of the
-- headers (verify_authorization, generate_authorization), with the hash functions as parameters.
--
-- Framing models how a session of src/inner/sip_session.cpp cuts what it receives into messages:
-- Framing/Search looks for the first line of a message (get_sip_message_type), Framing/Loop is the loop
-- over what was received (handle_recv, onRecv). The parser is a parameter; a read outside a buffer has no
-- result. The loop over the lines runs on fuel, one round for each character, which Framing/Fuel shows to
-- be enough, and so does handle_recv, one round for each byte and buffer.
--
-- Sdp models the session descriptions of src/request/sdp.cpp: Sdp/Types the data, Sdp/Fields the values of
-- the lines (parseOrigin, parseConnection, parseURI, parseIceCandidate, mediaParser), Sdp/Parse the lines
-- (parse, parseAttribute), Sdp/Generate what is written, Sdp/Numbers the text of numbers. The functions of
-- the XML library that read numbers and the one of the network library that splits a text are the
-- interface Library, and Sdp/Plain states what the code relies on in them (IsFaithful) and the
-- descriptions that a text can hold. An exception is a step without a result, and so is a read of a part that is not there.
--
-- Answer models how a platform answers its superior in src/super_platform_impl.cpp: Answer/One a query with
-- one response and a control without any (OneResponseQueryHandler, NoResponseQueryHandler), Answer/Many a
-- query with several (MultiResponseQueryHandler), Answer/Dispatch the choice between them (on_query,
-- on_control, on_notify). The application's listeners are given as the calls that they make.
--
-- Routing models how a MESSAGE request reaches a platform's handler (on_recv_message of
-- src/platform_helper.cpp): the checks of the request and its document, the platform's side and the
-- platform (src/inner/sip_server.cpp), the encoding that the message and the account settle between them,
-- the text read again, and what is replied. What is read of the payload is given with the request.
--
-- Contact models the addresses of a platform: the peer's address and the sessions kept for sending over UDP
-- (get_session, on_platform_addr_changed of src/platform_helper.cpp, set_peer and make_peer_addr of
-- src/inner/sip_session.cpp), and the own address that a reply tells (update_remote_via). An address is its
-- bytes, its port and its scope; what a socket says of itself is given with it. The session asked for over
-- TCP is opened by the network library.
--
-- Not modelled are the content of messages, the text of the headers of SIP messages and the message classes; sockets,
-- threads and XML documents are the libraries'.
pub mod Base
pub mod Message
pub mod Sip
pub mod Ptz
pub mod Request
pub mod Sdp
pub mod Invite
pub mod Subscribe
pub mod Counter
pub mod Register
pub mod SuperPlatform
pub mod Digest
pub mod Framing
pub mod Answer
pub mod Routing
pub mod Contact
