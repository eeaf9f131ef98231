-- ===== src/Lib.antt =====
-- Diasoft: university diplomas that anyone can verify.
--
-- The repository has two Go services over one PostgreSQL database. The gateway (gateway-service)
-- registers universities, takes uploads of diplomas, hands them to the cryptography engine through
-- Kafka, applies the engine's results to the tables, and serves the students' share links. The
-- verification service (pubver) answers, for the token of a QR code or for a number, whether the
-- registry holds a diploma as valid. They meet in the tables: Gateway.Store is what the gateway
-- writes, and Pubver.Repository is what pubver reads of it.
--
-- Files, and the code that they model:
--   Prelude: names, lists, Go strings, integers, results that the other modules share.
--   Gateway/Model: gateway-service/internal/model, internal/service/errors.go.
--   Gateway/Store, Gateway/Store/Tables: gateway-service/migrations, as far as the repositories use
--     them; transactions, and the constraints that an INSERT checks.
--   Gateway/Sealing, Gateway/QrCodec: internal/infrastructure/security/key_encryptor.go and
--     qr_payload_codec.go; Sealing/Opening and QrCodec/Round what opens again. QrCodec.parse is the
--     decoder that the repository is given (Env.decoder).
--   Gateway/Payload: internal/repository/postgres/record_payload.go.
--   Gateway/Results: ApplyProcessingResult with its helpers, in
--     internal/repository/postgres/diploma_repository.go. Results/Settle, Effect, Closing,
--     Invariant, Progress prove what it does to the tables.
--   Gateway/Batches: CreateBatchWithRecords, FailBatch, GetBatch, MarkDiplomaRevoked of the same file.
--     Batches/Lifecycle and Batches/Registry follow sequences of these operations, and Batches/Refined
--     against an abstract registry.
--   Gateway/Batches/Listing: ListBatches and GetBatchDownloadRows of the same file; Listing/Rows what
--     they hold.
--   Gateway/Consumer: the loop of internal/infrastructure/kafka/consumer.go; Consumer/Commits what its
--     commits stand for, Consumer/Completes what becomes of a batch.
--   Gateway/Csv: parseCSV of internal/transport/http/handler/diplomas.go; Csv/Reads its meaning.
--   Gateway/Upload: the upload handler of the same file and Upload of internal/service/diplomas.go;
--     Upload/Published what an upload leaves behind.
--   Gateway/Producer: internal/infrastructure/kafka/producer.go; Producer/Sent what an upload sends.
--   Gateway/Token: internal/infrastructure/token/jwt_manager.go.
--   Gateway/Students: internal/service/student.go with its queries; Students/Links and Links/Again its
--     theorems; Students/Handler the handlers Share and SharedDiploma; Students/Search SearchStudents,
--     and Search/Joins, Search/Loop and Search/Found what it finds.
--   Gateway/Accounts: university_repository.go and admin_repository.go, with Accounts/Lists for List
--     and Stats and Accounts/Demo for UpsertDemo.
--   Gateway/Removal: DeleteCascade of university_repository.go, over all tables. Removal/Erased what
--     it leaves, Removal/Afterwards what all operations leave of a diploma, Removal/Consistent and Removal/Life what it keeps between the other operations.
--   Gateway/ApiKeys: api_key_repository.go and internal/service/api_keys.go; ApiKeys/Resolved.
--   Gateway/SigningKeys: signing_key_repository.go, internal/service/signing_keys.go and
--     internal/infrastructure/security/ed25519_keys.go; SigningKeys/Settled and Agreed.
--   Gateway/Http, Gateway/Handlers: internal/transport/http/handler, less the handlers above:
--     Handlers/Admin with internal/service/admin.go, Handlers/Cabinet with internal/service/
--     university.go, Handlers/Diplomas, Handlers/Keys, Handlers/Entry, Handlers/Outside. Admin/Shut,
--     Entry/Answers and Diplomas/Downloaded are about what they answer.
--   Gateway/Excel: internal/infrastructure/excel/generator.go, over excelize in Excel/Library;
--     Excel/Kept and Excel/Cells its cells.
--   Gateway/Access: internal/transport/http/middleware and internal/authctx, with the groups of routes
--     of internal/app/apiserver; Access/Guards whom they let through.
--   Gateway/Auth: internal/service/auth.go; Auth/Login what a login proves.
--   Gateway/Startup: the settings of gateway-service/cmd/apiserver/main.go and internal/app/apiserver/
--     config.go, and ensureDemoUniversity of apiserver.go; Startup/Demo.
--   Pubver/Domain, Pubver/Hash, Pubver/Jwt, Pubver/Enc: pubver/internal/domain and
--     pubver/pkg/verifyhash.
--   Pubver/Service: pubver/internal/service/verification_service.go.
--   Pubver/Repository: pubver/internal/repository/postgres/verification_repository.go;
--     Repository/Answers what its queries promise, Repository/Removed what it answers after a removal.
--   Pubver/Router: pubver/internal/httpapi/router.go.
--   Pubver/Serving: NewRouter of the same file, with the identifiers of requests.
--   Pubver/Limiter: the rate limit of pubver/internal/httpapi/middleware.go; Limiter/Clients what it
--     keeps of each client.
--   Pubver/Config: pubver/internal/config/config.go; Config/Keys compares its key with the gateway's,
--     Config/Usable is about the settings that are loaded.
--   Gateway/Examples, Pubver/Examples: concrete data, and the theorems at it.
--
-- Representation. A table is the list of its rows in the order of insertion. A statement that the
-- driver refuses is a Boolean of the surroundings (Env.down), so that every failure of every statement
-- is a case; a transaction that ends in an error leaves the tables as they were. Times and durations
-- are nanoseconds. SELECT ... FOR UPDATE serialises the transactions on a row, which the model has as a
-- sequence of whole operations. A text is its code points; VARCHAR(n) counts them. The rows of the table
-- universities stand twice: Gateway.Accounts has all columns, Gateway.Store those that the diplomas
-- need; Gateway.Removal.Tables has both. ORDER BY keeps rows with equal keys in the order of
-- insertion, which PostgreSQL leaves open.
--
-- Identifiers are texts in their canonical form. PostgreSQL refuses a text that is no UUID: pubver's
-- query of a university's key has that as a case of its own (the parameter as_uuid), since the token
-- may hold any text; in the gateway such a text is one that no row has, and both end in an error that
-- leaves the tables as they were.
--
-- The rows of a CSV file are an argument, as encoding/csv reads them; so is the token bucket of
-- golang.org/x/time/rate.
--
-- Parameters: what the code calls and does not have under its own sources or in Go's standard library
-- is an argument: signing and reading of tokens (golang-jwt), bcrypt, and the decoder and the cipher
-- behind their interfaces; of the standard library, JSON, base64, PEM, X.509, Ed25519, AES-GCM and
-- SHA-256 are arguments too. JwtLaws states what golang-jwt documents, for the theorems that need it.
--
-- Loops are recursions on the lists they run over; the only fuel is that of itoa (Prelude/Number), n + 1
-- rounds for the number n, which falls below itself in each round.
--
-- strings.ToLower is an argument of the search (to_lower), and so are the images of package qr and the
-- functions of excelize (the record Excelize), whose documented behaviour on cells is CellLaws.
--
-- A text with NUL is refused, as PostgreSQL does. One that is too long for its column is refused too, also
-- where its excess is spaces, which PostgreSQL would cut.
--
-- Not modelled: logging and metrics; the Rust engine and the frontend, which are other languages; the
-- drawing of QR images; the wiring, start and shutdown of the processes; the
-- headers of answers against caching; the Kafka client, whose behaviour is the events of the
-- consumer's loop and the parameters of the producer; timeouts and the recovery from panics.
pub mod Prelude
pub mod Gateway
pub mod Pubver
