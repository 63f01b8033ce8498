-- ===== src/Lib.antt =====
-- A model of RICQ, a client library for the QQ protocol, and what holds of it.
--
-- The program has two layers. The crate `ricq-core` turns requests into packets and packets into
-- values: its `Engine` (ricq-core/src/lib.rs) has the counters and a `Transport`, which has the keys of
-- the login, the device, the version and the codec of the login envelope. The crate `ricq` runs an
-- engine over a connection: its `Client` sends packets, gives the answers to the calls that wait for
-- them, hands the rest to handlers, and connects again when the network fails.
--
-- A packet of a login goes through four layers, and so does its answer in reverse order:
--   Wtlogin.TlvWriter and Wtlogin.Builder write the entries of the body
--     (ricq-core/src/command/wtlogin/tlv_writer.rs and builder.rs), Wtlogin.TlvReader,
--     Wtlogin.Response and Wtlogin.Decoder read them (tlv_reader.rs, mod.rs and decoder.rs), and
--     Engine.Login keeps what a response says (ricq-core/src/wtlogin.rs);
--   Protocol.Oicq is the envelope (ricq-core/src/protocol/oicq.rs);
--   Protocol.Transport is the packet around it (ricq-core/src/protocol/transport.rs), Protocol.Packet,
--     Protocol.Sig and Protocol.Device are its state (packet.rs, sig.rs, device.rs, version.rs and
--     qimei.rs), and Protocol.Versions is the table of version.rs;
--   Crypto is the cipher of the envelope and of the packet (ricq-core/src/crypto/qqtea.rs), and Binary
--     has the readers and writers of all layers (ricq-core/src/binary).
-- The names of operations are those of the source; a type or function that the source has inline has a
-- name of its own, which the comment above it explains.
--
-- The other parts: Engine and Engine.Token are the counters and the saved login (ricq-core/src/lib.rs
-- and token.rs), Group is ricq-core/src/common.rs, Hex is ricq-core/src/hex.rs, Highway is the codec of
-- the upload connection (ricq/src/client/highway/codec.rs), Highway.Upload is the upload over it
-- (ricq/src/client/highway/net.rs and ricq-core/src/highway/mod.rs), Client.Promises is `send_and_wait` and the
-- front of `process_income_packet` (ricq/src/client/mod.rs and processor/mod.rs), Client.Network is
-- `start` and `stop` (net.rs), Client.Heartbeat is `do_heartbeat` (mod.rs), Client.Parts is the merging of messages in parts
-- (processor/online_push.rs), Client.Reconnect is ricq/src/ext/reconnect.rs, Client.Login
-- is ricq/src/client/api/login.rs, Client.Seen is the caches of
-- processor/message_svc.rs and processor/online_push.rs that drop what was handled before, Client.Lists
-- and Client.Sync are the loops of ricq/src/client/api (friend.rs, group.rs and mod.rs) that ask again
-- and again, Client.Pushes is `process_push_req` and `process_push_trans` with their decoder
-- (processor/online_push.rs and ricq-core/src/command/online_push/decoder.rs), and Structs has what they get (ricq-core/src/structs.rs). Msg is ricq-core/src/msg: Fragment
-- is fragment.rs, Chain is mod.rs, Elems, Market, Faces and RqElem are the elements (elem), and Message
-- has the generated types that they are written to. Base, Wire, Utf8, HashMap and Result are what the parts share: numbers,
-- lists and texts, integers over bytes, lossy UTF-8, the standard library's map, and the error type of
-- ricq-core/src/error.rs. Runs has the theorems at concrete inputs.
--
-- How the code is modelled. A byte buffer is the list of its bytes. A writer is a function that appends
-- to a buffer, a reader one that takes the front of a buffer; both may fail. A result is a value, an
-- error of the source, or a panic: a read past the end of a buffer panics. Integers are natural numbers
-- with their wrap-around written out, as in a release build; a signed integer that is only passed on is
-- its bit pattern. Tasks that share state are step relations, or all orders of their atomic steps.
--
-- Bounds and fuel. `read_tlv_map` has as many rounds as the buffer has bytes and one more, since a round
-- takes two bytes; the lossy decoding of texts as many as there are bytes; a decimal number of an `i64`
-- has at most twenty digits. The search for the number behind a hash (Wtlogin.Response.Work) has no bound
-- in the code; there the fuel is an argument. The loops of Client.Lists and Client.Sync have none either:
-- their fuel is a number of requests.
--
-- Parameters. The packages `bytes` and `byteorder` are the record `Wire`; the random padding of the
-- cipher, the inflating of `flate2`, MD5, SHA-256, the numbers of `rsa`, the clock, random texts, and
-- what the device is as a protocol buffer are arguments. The caches of the package `cached` are the
-- records `TimedCache` (Client.Seen) and `Caches` (Client.Parts), each with laws `IsTimed`; what
-- `flate2` and `prost` do to an element of a message is the record `Packages` with the laws
-- `AreInverse`; the reading of the messages inside notices is the record `Decoders`; what a server
-- answers to a request of a loop is a function of the round and the request, and what becomes of the
-- packets of a login and of the frames of an
-- upload is an argument too.
--
-- Not modelled: the messages that are generated from protocol buffers and those of the jce format, and
-- the commands that only fill them in or take them apart; images and videos in messages; the handlers, and
-- the functions of the client's interface that send one request each; making keys, devices and
-- identifiers, which is random; requests to other services (signing, qimei); TCP and the tasks of tokio;
-- the crate ricq-guild and the examples.
pub mod Base
pub mod Wire
pub mod Result
pub mod Utf8
pub mod HashMap
pub mod Binary
pub mod Crypto
pub mod Hex
pub mod Group
pub mod Highway
pub mod Protocol
pub mod Engine
pub mod Wtlogin
pub mod Client
pub mod Msg
pub mod Structs
pub mod Runs
