-- ===== src/Lib.antt =====
-- A model of the security wallet (lib/src, lib/include) and theorems about it.
--
-- The program keeps documents with secrets (SNMP credentials, passwords, certificates) in
-- portfolios. `SecurityWalletServer` (lib/src/secw_security_wallet_server.cc) answers the requests
-- of clients: it looks up the rights of the sender in the configuration of the portfolio
-- (lib/src/secw_configuration.cc), reads or changes the portfolio (lib/src/secw_portfolio.cc) that
-- `SecurityWallet` (lib/src/secw_security_wallet.cc) holds, saves the database file, publishes a
-- notification, and turns an exception (lib/src/secw_exception.cc) into an error reply.
--
-- Which file models which part:
--   Secw/Error          SecwException and its classes, `toJson`, `throwSecwException`
--   Secw/Body           the five kinds of document (lib/src/secw_snmpv3.cc, secw_snmpv1.cc,
--                       secw_user_and_password.cc, secw_external_certificate.cc,
--                       secw_internal_certificate.cc), with Validation for `validate`
--   Secw/Kinds          the virtual methods of four of the kinds, class by class
--   Secw/Document       class Document (lib/src/secw_document.cc), its readers and writers
--                       for nodes, and in Text for texts
--   Secw/Portfolio      class Portfolio, `add`, `remove`, `update`, loading and writing; Effects and
--                       Changes say what these do to the look-ups
--   Secw/Helpers        lib/src/secw_helpers.cc, but for the encryption, which is in the next
--   Secw/OpensslWrapper lib/src/secw_openssl_wrapper.cc, with `encrypt` and `decrypt`
--   Secw/Configuration  PortfolioConfiguration, Usage and Client
--   Secw/Wallet         class SecurityWallet: `reload` and the look-ups
--   Secw/Server         class SecurityWalletServer: Reads, Rights, Notifications, Writes (with
--                       `SecurityWallet::save`) and Requests (`handleRequest`);
--                       Invariant has `serve`, requests answered one after the other
--   Secw/Srr            the save and restore feature: Documents, Portfolios, Wallet (with the tests
--                       of a restore in Checks) and Requests (`handleSave`, `handleRestore`)
--   Secw/Client         ClientAccessor, ConsumerAccessor and ProducerAccessor; Callbacks is about
--                       notifications, Service puts a client and the server together
-- Beside it, `CredentialAssetMappingServer` (lib/src/cam_credential_asset_mapping_server.cc) keeps
-- which credential an asset uses for a service and a protocol, and `Accessor`
-- (lib/src/cam_accessor.cc) is its client:
--   Cam/Error           CamException and its classes, `toJson`, `throwCamException`
--   Cam/Mapping         CredentialAssetMapping and lib/src/cam_helpers.cc
--   Cam/Storage         CredentialAssetMappingStorage; View is the abstract state, a map from
--                       hashes to mappings, and the operations on it
--   Cam/Server          the handlers and `handleRequest`; Operations gives each request its
--                       operation, Refinement shows that the server implements them
--   Cam/Accessor        the client; Service puts it and the server together
-- The transport between a client and its server, `syncRequestWithReply`, is a parameter of both
-- clients, and so is what reading the first of no frames does, which C++ leaves undefined. A
-- callback of a client is code of its user: the model returns the call it receives.
--
-- The state of the server is the record `World`: the wallet, the text of the database file, the
-- published messages and the number of identifiers drawn. A handler that changes it is a function
-- from a world to a result and a world, so that what was written before a throw stays written
-- (Base/Exec). `handleRequest` holds a lock, so requests follow one another.
--
-- Base models what the code uses of the standard library: sets and maps of strings as ascending
-- lists, exceptions as values. External is the interface of the code that is called and not part
-- of the repository: cxxtools' serialization tree and JSON, std::regex, the certificate library and
-- the generator of identifiers. External/Laws states what the theorems use of it; Tests/Tree is a
-- concrete tree that satisfies it, and the other files of Tests apply the theorems to values.
-- External/Openssl is the interface of OpenSSL, with what the round trips of a save use of it.
-- Tests/Openssl is a concrete encryption that satisfies it.
--
-- A save serializes into a stream on the file, and a stream that fails does so silently: what the
-- file holds afterwards is the parameter `write_file`. `IsWritable` of External/Laws, that it is the
-- text of the serializer, is a hypothesis of the theorems that read the file back.
--
-- Fuel: only the loop of `Portfolio::add` that draws identifiers is on fuel, one round more than
-- there are documents, which is enough for a generator that never repeats itself. Out of fuel is a
-- result of its own, `hang`.
--
-- In a restore the text of /etc/release-details.json and of the configuration file are arguments,
-- and so is the wallet that a reload leaves when it throws, which depends on how far cxxtools has
-- read. Random bytes come from the parameter, by the number of the draw.
--
-- Not modelled: the message bus around the save and restore requests (handleSRRRequest), the agents
-- and their sockets, logging, wiping memory, the exit of the wallet's constructor,
-- tryToCast and the operators that print documents to a stream. A document without private data keeps
-- the default values of its secrets, as in the source. `what()` texts of the standard exceptions
-- are not told apart from their messages.
pub mod Base
pub mod External
pub mod Secw
pub mod Cam
pub mod Tests
