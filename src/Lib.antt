-- ===== src/Lib.antt =====
-- A cloud storage: clients keep files on a server. After a login, every message travels in a
-- `Wrapper` (IV, counter, AES-CCM ciphertext and tag) that carries a payload of packets/. The
-- server runs a `Worker` for each connection. This library models the worker and the client, with
-- all that they stand on, and their exchange after the login.
--
-- Memory and Words: `memcpy` with its offsets, zeroed buffers, `char` arrays, integers of 32 and
-- 64 bits and the byte orders. A read or a write outside of an object gives `undefined`.
--
-- Packets: packets/*.h and packets/*.cpp, one module for each class: Packets/Upload/M1 is
-- `UploadM1`, Packets/Wrapper is `Wrapper`. `make` is the constructor, `serialize`, `deserialize`
-- and `get_size` are the functions of those names.
--
-- Security: Security/Evp and Security/Ccm are `encrypt_aes_ccm` and `decrypt_aes_ccm` of
-- security/crypto.cpp; Security/Counter and Security/Login are the counters and the messages M3
-- and M4 of security/Util.cpp.
--
-- Files: tools/file.cpp, over a file system that is a parameter, whose tests may throw;
-- Files/Paths has the paths that the worker builds, and what they resolve to.
--
-- Platform: what both sides run on, the byte order, OpenSSL and the file system, in one record.
--
-- Session: the state of one end of a connection, a `Worker` or a `Client`, with its socket, its
-- disk and its console, and the actions on it. A handler is a function of the state that says how
-- it ends: it goes on, returns a code, throws, faults or ends the process. Session/Delivery is a
-- message that is sent, Session/Arrival one that comes, Session/Heard what was taken from the
-- connection, Session/Ahead what no action takes back.
--
-- Chunks: the cutting of a file into chunks, and their sending and storing, which both sides do.
--
-- Server: server/worker.cpp. Server/Requests and Server/Transfers are the handlers, Server/Disk is
-- what they ask of the disk, Server/Loop is `start` from the end of the login on.
--
-- Client: client/Client.cpp. Client/Requests and Client/Transfers are the handlers, Client/Menu
-- is `handleMenuChoice` and `start` from the end of the login on. A handler that reads names or a
-- path from the console is split there: `request_rename` is `rename_file` once the names are
-- known.
--
-- Exchange: a request of a client, run together with the worker that serves it. What the one
-- sends is what the other receives, packet by packet; the disk of each is its own.
--
-- Login: `Worker::login` of server/worker.cpp in Login/Worker, `Client::login` of
-- client/Client.cpp in Login/Client, and the functions of security/ that they call: Login/Ecdh is
-- security/Diffie-Hellman.cpp, Login/Digests and Login/Sizes are of security/Util.cpp, Login/Cbc
-- is of security/crypto.cpp. The OpenSSL functions behind them are the parameter Login/Crypto.
--
-- Tests: runs at concrete inputs.
--
-- OpenSSL and the disk are parameters (Security/Evp, Login/Crypto, Files/FileSystem); what is
-- documented of them is stated in `IsCcm` and `IsLawful`. What the heap holds behind a vector is
-- a parameter of the login. What comes over the socket, how many bytes a `send` takes, what
-- RAND_bytes gives and what is typed are lists in the state. Both loops run on fuel; for the
-- worker more fuel than answers of `recv` to come is enough. A stream's writes count as done at
-- once.
--
-- Not modelled: the accept loop of the server, the making of sockets, threads and console output.
-- The freeing of OpenSSL's objects has no effect in the model, except where it is given a pointer
-- that was not set.
pub mod Prelude
pub mod Memory
pub mod Words
pub mod Security
pub mod Packets
pub mod Files
pub mod Platform
pub mod Session
pub mod Chunks
pub mod Server
pub mod Client
pub mod Exchange
pub mod Login
pub mod Tests
