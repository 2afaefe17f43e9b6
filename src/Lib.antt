-- ===== src/Lib.antt =====
-- Verification of the ground-station server (server/go/internal).
--
-- The program: users log in over HTTP and book passes of satellites over a station; the server
-- predicts the pass, asks the state machine and the rules, reserves the station in PostgreSQL, lets
-- an administrator decide, and takes the reports and the files of the worker that records. An
-- operation of the service is a chain of statements of the repository, each of which may fail, and
-- the constraints on the table of passes have the last word on double bookings.
--
-- Files and the code that they are about:
--   Prelude          shared names, lists, tests, signed integers; Text.antt and Base64.antt: what the
--                    code uses of Go's strings and encoding/base64
--   Domain           domain/domain.go; Domain/Eq.antt its named strings, Domain/Clock.antt the part
--                    of Go's `time` that saturates and wraps
--   Errors           the errors of all packages and `translate` (store/repository.go)
--   Store            World.antt: the tables, the environment, the actions and `InTx`; Order.antt,
--                    Reads.antt: ORDER BY and the statements on other tables; Passes.antt: the
--                    statements on passes, and in Passes/Table.antt the constraints of
--                    store/migrations/00001_initial_schema.sql; Listing.antt:
--                    ListPasses; Users.antt: store/users.go and the triggers on users;
--                    Sessions.antt: store/sessions.go
--   Auth             Rbac.antt, Password.antt, Service.antt: the files of auth with these names;
--                    Password/Scan.antt is the part of fmt.Sscanf that decodeHash uses
--   Scheduling       StateMachine.antt: scheduling/statemachine.go; Rules.antt: scheduling/rules.go;
--                    Service.antt and Service/: scheduling/service.go
--   Prediction       prediction/predict.go, the data
--   PassPlan         passplan/generator.go: Wire.antt the messages, Radio.antt the radio settings,
--                    Generate.antt the plan, Described.antt what a plan should say;
--                    Store/Plans.antt is store/passplans.go
--   FileStore        filestore/filestore.go: the paths of files, with Go's filepath.Join
--   WorkerApi        Reports.antt: workerapi/upload.go, the reports of executions; Upload.antt: the
--                    uploads of the same file, over Store/Recordings.antt; Sync.antt:
--                    workerapi/sync.go and the synchronisation of service.go, over Store/Workers.antt;
--                    Register.antt: Register and the shared secret, over Store/Pipelines.antt
--   Http             httpapi: Guards.antt is middleware.go, Answers.antt response.go and the views,
--                    Accounts.antt auth_handlers.go and user_handlers.go, Passes.antt
--                    pass_handlers.go, Routes.antt the routes of NewMux that reach these handlers
--   Tle              tle/tle.go; Tle/Parse.antt the parser, Tle/Checksum.antt laws of the checksum
--   System           calls of the operations on passes in any order; System/Deployed.antt the server
--                    as cmd/aagasa-server/main.go wires it, with the real plan generator;
--                    System/Calendar.antt: the abstract calendar that the table of passes implements
--   Tests            concrete runs
--
-- State: a World is the tables, a counter of events and an environment that says, for each event,
-- whether the statement fails and how, what the clock shows, which identifier the database makes up
-- and whether the context has ended. An operation is a function from a world to a result and a
-- world, so what a failing operation has written stays visible. A transaction gives the tables of
-- its beginning back unless it commits, and is refused within another one.
--
-- A handler is such an operation with the user and the token of the context as arguments. Its
-- request is what the decoders made of path and body, none where they refuse; the result is the
-- reply of a success, or an error `answered` that keeps the code and the kind of the answer.
--
-- Data: identifiers are numbers that are only compared. Times and durations are integers of
-- nanoseconds without bounds, except that `Sub` saturates and the negation of a duration wraps. A
-- float64 is a bit pattern that is carried along, and read only by the check of an elevation in the
-- table of passes. The database keeps times, intervals and elevations exactly, where its column
-- rounds an elevation to a tenth, and new rows stand first. Its foreign keys, except those that deleting a user meets, its checks
-- of texts other than the digests of recordings, and its column types are faults of the
-- environment. Redis holds sessions as values, not as JSON, and forgets one when its time has come.
--
-- Fuel: `CreatePass` tries five times, as the code does; every other loop runs over a list.
--
-- Parameters: the predictor, the wire format and the hash of plans, the machine's conversions of
-- floats, the parser of identifiers of the worker's API, and the fraction of the day in an epoch,
-- which goes through floats; Argon2 and its version, SHA-256, the number of processors, random
-- bytes, the folding of letters in citext, the test of an elevation, and the free space of the
-- disk. Texts of orbital data are ASCII bytes.
--
-- Not modelled: the handlers of satellites, stations, setup, pipelines and recordings, CORS and
-- static files, JSON and the texts of answers, logging, the pauses between attempts, the details of
-- audit records beyond action and entity, generated stubs, and the packages listed as such in the
-- manifest.
pub mod Prelude
pub mod Domain
pub mod Errors
pub mod Store
pub mod Prediction
pub mod Auth
pub mod Scheduling
pub mod WorkerApi
pub mod PassPlan
pub mod Tle
pub mod System
pub mod Tests
pub mod Http
pub mod FileStore
