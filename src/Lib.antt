-- ===== src/Lib.antt =====
-- dimpl, a DTLS 1.2 and 1.3 implementation without I/O of its own: the core of DTLS 1.3.
--
-- The program. An engine (src/dtls13/engine.rs) takes datagrams, a time and messages to send, and gives
-- datagrams, a time to wake it and events. `parse_packet` splits a datagram into records
-- (src/dtls13/incoming.rs, src/dtls13/message/record.rs), asks the engine for keys and replay windows
-- (src/window.rs), classifies the records and inserts the datagram into the receive queue. The client
-- and the server take complete handshake messages from that queue, which the engine joins from their
-- fragments (src/dtls13/message/handshake.rs), and send messages, which it cuts into fragments, protects,
-- packs into datagrams and keeps for retransmission until they are acknowledged or a timer
-- (src/timer.rs) runs out. Keys come from a key schedule over HKDF (src/crypto/prf_hkdf.rs).
--
-- The model.
--   Base: tests, results, lists and bits over the native numbers.
--   Wire: numbers, content types and sequence numbers of src/types.rs and src/util.rs.
--   Window, Timer: src/window.rs and src/timer.rs.
--   Crypto: the backend as a record of functions, and HKDF over any HMAC.
--   Dtls13.Record, Dtls13.Handshake: the two formats, and `defragment_with_options`.
--   Dtls13.Engine: the state of `Engine` as a record, and its methods as functions from a state to a
--   state and a result, by what they do: Send (`create_plaintext_record`, `create_ciphertext_record`),
--   Fragment (`create_handshake`), Scan (`has_complete_handshake`, `next_handshake`), Flight
--   (`flight_resend`, `send_ack`, `process_ack`), Timers (`handle_timeout`, `poll_output`), Keys and
--   Rotate (the key schedule), Receive (`RecordHandler`). What a method changed before it failed stays
--   changed.
--   Dtls13.Incoming, Dtls13.Queue: `Records::parse`, `Record::parse`, and the receive queue, with the
--   binary search on it in Dtls13.Search.
--   Dtls13.Message: the bodies of messages (src/dtls13/message), whose parsers keep ranges of the
--   buffer as the source does: Extension and Extensions, ClientHello, ServerHello, Certificate (with
--   CertificateVerify, Finished and EncryptedExtensions), and Body (`Body::parse`).
--   Dtls13.Peer: what client and server share (src/dtls13/client.rs, src/dtls13/server.rs): actions on
--   the state of an end, with `?` as their bind, the bodies that are sent (Create), and the checks of
--   signatures and the export of keys for SRTP (Verify).
--   Dtls13.Server: `Server` as a record with the engine in it, and one function for each state of
--   src/dtls13/server.rs: Offer and Hello (`await_client_hello`), Flight (the states that send), Await
--   (those that wait for the client), Application (`await_application_data`, `half_closed_local`), and
--   Progress (`make_progress`, `handle_packet`, `handle_timeout`, `poll_output`, `close`,
--   `send_application_data`). Edges is the diagram of the states.
--   Dtls13.Client: `Client` in the same way, from src/dtls13/client.rs: Offer
--   (`handshake_create_client_hello`), Hello and Retry (`send_client_hello`,
--   `await_server_hello`), Await, Flight, Application and Progress.
--   Client.Followed and Client.Selected join both ends: what one writes, the other reads.
--   Examples: runs on a small engine.
--
-- Conventions. Lengths and integers are natural numbers, with `% 2 ^ w` where the source's width
-- shows, and the 64 signed bits of `as i64`. Durations and instants are in nanoseconds; a duration is
-- at most `Duration::MAX`, and the timer panics past it. A panic is the error `panicked`, which the
-- source's `Error` does not have (`none` in Timer, `overflowed` for `poll_output`). A loop that is
-- not structural has fuel, and `no_end` is the answer without it: the loop over records has fuel for
-- the bytes of the datagram, since a record has one at least; the loops over extensions, key shares,
-- certificates and repeated items for the bytes of their input, for the same reason; `make_progress`
-- for thirteen rounds on the server, since there are thirteen states and a round that goes on goes
-- forward, and for two more on the client, which a HelloRetryRequest leads back once; the loop over
-- fragments for one round more than the body has bytes, since a fragment takes one at least where the
-- MTU leaves room. Buffers have one owner at a time, so that the buffer pool is not modelled.
--
-- Not modelled. The functions of the cryptographic backend are fields of `Provider` and of `Backend`,
-- of which nothing is assumed. A backend has at most four groups, as many as the vectors of the
-- source hold. DTLS 1.2, the builder of the configuration, certificates and the choice of a version
-- are not part of the model.
pub mod Base
pub mod Crypto
pub mod Dtls13
pub mod Examples
pub mod Timer
pub mod Window
pub mod Wire
