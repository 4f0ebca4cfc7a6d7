-- ===== src/Lib.antt =====
-- PQC PDF Sign: a model of the document-signing system: the receiver server, the checks that it shares
-- with its clients, the offline tool of the certificate authority, and the Windows client.
--
-- The program. An end user registers, an admin approves the account, and the user's device asks for a
-- certificate of its ML-DSA-65 key (server/internal/api/handlers.go, accounts.go, devissue.go). A
-- signature begins with a reservation, whose public id goes into the PDF; the device signs, and the
-- signed PDF is submitted, in one body or as a resumable upload (uploads.go). The server checks it
-- (verify.go over core/verification and core/certutil), stores it and keeps a record, which anyone may
-- look up. Disabling or deleting an account revokes its certificates. All handlers go through one
-- store (server/internal/store). Certificates and revocation lists are made by an offline tool
-- (tools/ca-admin) that keeps a ledger of revocations in its directory. The client (apps/windows) keeps
-- the device's key in a sealed vault, enrols the device, signs, and uploads.
--
-- The files; where only a file name is given, it is in server/internal/api, store.go and memory.go in
-- server/internal/store. A module's children are about the definitions of the module that names them.
--   Prelude: helpers. Tests are Boolean tests and the results of fallible calls, Lists and Dicts the Go
--     slices and maps, Texts the strings. A map with string keys is an association list; the order in
--     which Go ranges over a map is the parameter Ranging, of which only the visited elements are known.
--   Store: store.go and memory.go. Types has the records, Memory the state; Accounts, Devices,
--     Certificates and Signatures one function per method of `Memory`. The mutex makes each method one
--     step; Ops has the methods as one step function, and the states that they reach. Invariant,
--     Permanence, Search and Latest are about them.
--   Core.Certutil, Core.Verification, Core.Enrollment: core/certutil/certutil.go,
--     core/verification/verify.go (`ListPDFSignatures` in Light) and core/enrollment/csr.go
--     (`CreateDeviceCSR` in Created).
--   Core.Keys: core/keys/keys.go. Core.Labpki: core/labpki/labpki.go, with the templates of the
--     certificates and lists. Core.Signing: core/signing/sign.go and appearance.go.
--   Api.Types, Api.Server, Api.Access: what the handlers share (api.go). A handler takes the server's
--     state and a decoded request and gives the new state and the response. `authed` is the guard on
--     the routes.
--   Api.Uploads: uploads.go. Disk says how the file system answers one call. A handler is one step, so
--     a session is not reaped between the lookup and the append of one request.
--   Api.Verify: `strictVerify`. Api.Submit: `hReserve` and `hSubmitDocument`.
--   Api.Accounts, Api.Accounts.Cascade, Api.Admins: accounts.go.
--   Api.Session: `hRegister`, `hLogin`, `ensureSuperAdmin`. Api.Enrollment: devices and revocation, and
--     in Issue the requests and the certificates issued for them (devissue.go). Api.Public: the public
--     verifier and downloads.
--   Api.Names: `sanitizeName`. Auth: the bearer tokens of server/internal/auth/auth.go.
--   Api.Limits: ratelimit.go.
--   CaAdmin: tools/ca-admin. Serials has serials in hexadecimal, Files the records and the monad of a
--     run, Keyfile the sealed keys (keyfile.go), Castore and Audit the CA directory (castore.go),
--     Commands, Batch and Status the commands (main.go), History runs of the tool one after another.
--   Client: apps/windows/internal. Api the calls of the server (apiclient/client.go), Upload the
--     uploads in chunks, Keystore the sealed envelope (keystore/envelope.go), Vault the files
--     (keystore/store.go), App what the windows call (appcore/appcore.go), with Enroll and Sign.
--   Tests: a sample world, an encoding of records as bytes, and a run of each result.
--
-- How the state corresponds. `Server.st` is the store, `Server.crl` the revocation list that
-- `s.crl` holds, `Server.uploads` the upload manager with its scratch directory. Clocks and random ids
-- are drawn from a Draw, by number. Bodies of responses are lists of named fields; an instant is
-- nanoseconds as a natural number, 0 being Go's zero time. Times, sizes and limits are naturals: the
-- code's `int64` sizes are below 2^63, and negative configuration values are not modelled. A run of the
-- CA tool takes the CA directory (paths and contents) to the next one, with an outcome; it stops at the
-- first error and keeps what was written by then. A write may fail to open its file, or break off. A client's step takes the vault, the token and the
-- state of the server behind the network to the next ones; what a call of the server does to that state
-- and answers is the parameter `wire`, so the handlers can be put there.
--
-- Fuel. The server's loops run over finite lists. `Client.Upload.send_from` has the length of the file
-- and one as fuel, of which each round takes one while it moves at least one byte ahead;
-- `CaAdmin.Serials.hex_onto` prints a number with its successor as fuel, dividing by 16 each time.
--
-- Parameters. crypto/x509, encoding/pem and SHA-256 are X509, the PDF parser is Pdfsign (with its
-- panics and hangs as outcomes), x509 requests are Requests, `ca-admin` is Ca, the
-- token bucket is Bucket (whose law is that it fills up in a quarter of an hour), password hashing is
-- Passwords (whose law is that a hash verifies), HMAC, base64 and JSON of tokens are Codec, the JSON
-- decoder gives an option. crypto/mldsa and PKCS#8 are Keyring, the making of certificates and lists is
-- Pki, of requests Requester (whose laws are that what they make reads back with the fields it was made
-- from), the third-party signer is PdfSigner. For the files of the CA tool and of the client,
-- encoding/json is Json, Codec and StateCodec, Argon2id and AES-GCM are Sealing, DPAPI of one account is
-- Dpapi; which files can be written is part of Env and Disk.
--
-- Not modelled: the PostgreSQL and S3 stores (calls of a database and a service), Argon2 hashing of
-- passwords, stamping and QR images (page geometry of a third-party library), the floats that place the
-- visible widget of a signature, HTML pages, command lines and the desktop shell, backup and restore of
-- the CA directory, the Android client and its bridge (Kotlin, and wrappers that decode JSON), tests and
-- deployment. Of `hListDevices`, `hListEnrollments`, `hGetSignature`, `hMySignatures` and `hAudit` only
-- the store's part is here: they print what it gives.
pub mod Prelude
pub mod Core
pub mod Store
pub mod Api
pub mod Auth
pub mod CaAdmin
pub mod Client
pub mod Tests
