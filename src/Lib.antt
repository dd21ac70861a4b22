-- ===== src/Lib.antt =====
-- A model of gnserver, a Python library for servers and clients that speak QUIC under a layer of
-- post-quantum encryption, and theorems about it.
--
-- The program. A client and a server send QUIC packets in UDP datagrams. A datagram endpoint seals
-- them with a key that comes from a key distribution centre (KDC), or from fixed markers where there
-- is none. Inside the TLS handshake of QUIC the two sides exchange four messages, agree on a root of
-- 64 bytes from ML-KEM, X25519 and the KDC's key, and go over to keys that are derived from the root.
-- A KDC object holds the keys of domains, asks for missing ones, and remembers roots of connections
-- that have gone idle.
--
-- Base: the names that all modules share, and Python's data. `Base.Errors` has exceptions as values,
-- by their class. `Base.Dict` is a dictionary as an association list in the order of insertion.
-- `Base.Utf8` and `Base.BigEndian` are `str.encode`, `bytes.decode`, `int.to_bytes` and
-- `int.from_bytes`. A byte is a number; where a theorem needs that it is less than 256 it says so.
-- The decoder of UTF-8 has fuel for each byte of its input, of which every step takes one at least.
--
-- Session: src/gnserver/_gn_pq_session.py. `Session.Wire` has `_encode_blob` and its siblings,
-- `Session.Messages` GNPQClientHello, GNPQClientFinish and GNPQCommit, `Session.Certificate`
-- GNPQServerCertificate and GNPQServerHello, `Session.Keys` the transcript and the key schedule. A
-- constructor is a function `new_…` that may raise, for `__post_init__`. `Session.Names` and
-- `Session.Handshake` are src/gnserver/_gn_pq_handshake.py: the names of certificates and algorithms,
-- and the two functions of each side.
--
-- Kdc: src/gnserver/_kdc_object.py. `Kdc.Keys` has the tables of KDCObject and `init`,
-- `Kdc.Request` has `requestKDC`, `requestKeyIfNotExist` and `addServers`, `Kdc.Inactive` the inactive
-- transport sessions. A method that changes the object takes the state and returns it with its
-- result; the state that it leaves behind where it raises is part of the result. An `await` is one
-- step.
--
-- Datagram: src/gnserver/server/_datagram_enc.py. `Datagram.Encryptor` is ConnectionEncryptor,
-- `Datagram.Packets` are the headers of DatagramEndpoint and the way of payload packets, and
-- `Datagram.Inbound` its queues of datagrams that come in and its load windows; a time there is a
-- number of milliseconds.
--
-- Params: src/gnserver/server/_func_params_validation.py. `Params` has values, annotations and the
-- checkers, `Params.Schema` the schema of a handler and `validate_params`, `Params.Typed` what the
-- annotations mean.
--
-- App: src/gnserver/server/_app.py and what it stands on. `App.Paths` and `App.Patterns` are the
-- paths of routes and `_compile_path` (src/gnserver/server/_routes.py), `App.Cors` and `App.Config`
-- are src/gnserver/server/_models.py and `resolve_cors`, `App.Routes` the tables of routes and the
-- search, `App.Convert` is `_convert_value`, `App.Dispatch` is `dispatchRequest`, `App.Streams`
-- the requests that come in on the streams of `App._ServerProto`, `App.Sending` what goes out on
-- them, and `App.Events` the listeners of events. `Client` is one method of
-- src/gnserver/client/_client.py, which takes a request of the server. `dispatchRequest` calls itself
-- for a request that a handler hands on; its fuel is Python's limit of recursion, and running out is
-- RecursionError.
--
-- Parameters. HKDF, SHA3, AES-OCB, ML-KEM, ML-DSA, X25519, the serializer of KeyisBTools, the
-- matcher of domains, the clock, random numbers, the client's requests and the callback are fields
-- of records that the functions take. The laws that theorems ask of them are `HasLengths`,
-- `IsCipher` and `IsAgreement`; `Examples.Toys` has instances of all of them. For the server they are
-- `re`, what it calls of gnobjects and pydantic, and the run of a handler; the laws are
-- `LiteralFirst` and `IsIncremental`, with instances in `Examples.Server`.
--
-- Not modelled: the classes that patch aioquic (src/gnserver/_gn_pq_quic.py), the rest of the client,
-- the start of the application server, its metrics and requests to the GN system, the
-- setting up of a connection in the datagram endpoint, the copy of liboqs-python under
-- src/gnserver/oqs, and logs.
pub mod Base
pub mod Session
pub mod Kdc
pub mod Client
pub mod Datagram
pub mod Params
pub mod App
pub mod Examples
