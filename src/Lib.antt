-- ===== src/Lib.antt =====
-- qoderwork2api is a proxy that offers the OpenAI chat interface and forwards each request to
-- QoderWork, on one of many accounts. An incoming request is authenticated (internal/server/auth.go),
-- a pool of accounts is chosen for its user (internal/server/handler.go, internal/user/store.go),
-- and the accounts of the pool are tried in turn (internal/server/handler.go,
-- internal/pool/pool.go): the token of the account is refreshed (internal/cred/cred.go), the
-- request is encoded and sent (internal/upstream), and an error, sorted into kinds by
-- internal/upstream/classify.go, cools or disables the account or is counted.
--
-- The files and the code that they model:
-- - Common: numbers, lists, texts, Go's maps as association lists, Go's string functions and sort.
-- - Encoding: internal/upstream/encoding.go, QoderEncode and QoderDecode. Encoding/Base64 is Go's
--   standard Base64, Encoding/Segments the exchange of the first and the last third.
-- - Cred: internal/cred/cred.go. Cred/Load has LoadFile and LoadDir from the decoded file on,
--   Cred/Refresh EnsureDT and refreshLocked, Cred/Fingerprint EnsureMachineFingerprint.
-- - Pool: internal/pool/pool.go, one function for each method, named after it. Pool/Shape has the
--   calls as a type, the step of a call, and the run of a list of them; Pool/Listing has Status
--   and List; Pool/View has what each call means for a function from uids to entries; Pick, Cooling,
--   Resting, Disabling, Errors and Disk are named for what they prove.
-- - Upstream/Classify: internal/upstream/classify.go. Upstream/Models: internal/upstream/models.go,
--   with dynamicModelsMeta of internal/server/handler.go in Upstream/Models/Resolve.
-- - Upstream/Sse: internal/upstream/sse.go, from the lines of a stream on. Upstream/Sse/SortInts is
--   sortInts, Transparency compares StreamAsOpenAI with AggregateNested, and Writer has it for a
--   client that may stop reading.
-- - Upstream/Body: internal/upstream/body.go, the request body as the value that is encoded.
--   Upstream/Cosy: internal/upstream/cosy.go, the signing session and the headers; Info and
--   Signature are named for what they are about, and Written has the two objects that a session
--   encodes. Upstream/Client: internal/upstream/client.go, the calls of the billing service as
--   functions of its answers. Upstream/Request: the part of internal/upstream/chat.go that prepares
--   a request, from these parts and Encoding.
-- - Scheduler: internal/scheduler/scheduler.go. next_fire is nextFire; run_checkin_now and
--   run_keepalive_now are the two jobs, both loops of visit over what List shows; wake_up is the
--   branch of the timer in Run, and run_loop the loop of Run.
-- - Config: cmd/server/config.go, where load is Load.
-- - User: internal/user/store.go. Store is the state, with its two maps and the content of the
--   file; create, delete_user, auth_by_password, get_by_id and get_by_key are Create, Delete,
--   AuthByPassword, GetByID and GetByKey. User/Pools is PoolManager, one pool for each user.
-- - Server/Auth: internal/server/auth.go, withAuth and getUserPool of handler.go, userPool of
--   user_api.go. Server/Chat: the loop of chatCompletions in handler.go, with ChatForward of
--   internal/upstream/chat.go; Server/Chat/Shape, Rotation, Punish and Liveness hold its proofs.
-- - Server/Handler: the cache of the models and the list of models of internal/server/handler.go;
--   Server/Handler/Completions: chatCompletions around the loop, from the body to the reply.
-- - Server/Login: handleLoginURL, handleLoginPoll and handleLoginCancel of
--   internal/server/user_api.go. Server/Pages: handleStatus, handleQuota, handleQuotaRefresh and
--   handleDeleteAccount. Server/Admin: the handlers of AdminHandler, over the store and the pools.
-- - Start: cmd/server/main.go, what the server starts with, and onReload.
--
-- State is passed explicitly, and each method is one step on it, as its mutex makes it. The clock,
-- random bytes, replies of the network, and the success of a write are arguments of a step. In the
-- rotation and in the jobs of the scheduler, any list of calls of the pool may run before each
-- round, which stands for what runs beside it. A `range` over a map meets the entries in the order
-- of the association list, so a theorem for every list is one for every order. What the services
-- answer in a round of the rotation depends on the account that asks. A poll of a login is three
-- steps, with what other requests do between them: no lock is held while a service is asked.
--
-- Instants are natural numbers of nanoseconds since the zero time.Time (in Cred since 1970), and
-- instants and credits do not overflow, except where `wrap64` is written. Texts are lists of code
-- points, or of bytes in Encoding, Upstream/Cosy and Upstream/Request. `rotate` recurses on the
-- number of rounds that are left, which starts at MaxRotate as in the loop, `sort_ints` on the
-- number of places, and `decimal` on the number itself, which has fewer digits, and
-- `exchange_sort` on the number of names; all other recursion is structural.
--
-- `next_fire` takes time.Date as a function from the hours of the day to instants, so that a day may
-- have 23 or 25 hours; the theorems about it state what they ask of that function. A body `null` of a
-- stream is decoded to a nil map, on which StreamAsOpenAI panics; the event `panicked` is the end of
-- the connection.
--
-- Parameters, since their code is not in the repository: unicode.ToLower, SHA-256, MD5, RSA, the
-- AES cipher in CBC mode, time.Parse, ParseDuration, Atoi, Getenv, os.IsNotExist, filepath.Join,
-- Base, Abs and Dir, url.Parse, time.Date, the verb %q, the cut of a body for a message, the texts
-- of the errors of the store, the sum of two float64 as an int64, the reading of lines, and the
-- encoding and decoding of JSON. What the disk and the services answer are arguments as well.
--
-- Not modelled: HTTP routing, the log, signals and the embedded pages, the construction of the HTTP
-- client and of its requests (in internal/upstream/client.go), and the command cmd/checkin_test.
-- They are input and output around the parts above. In chatCompletions the requests beside it act
-- on the pool before each round, and not between the checks before the rotation. The mutexes of the
-- pools of different users are not related, so a handler that touches two pools is one step here.
pub mod Common
pub mod Encoding
pub mod Cred
pub mod Pool
pub mod Upstream
pub mod User
pub mod Server
pub mod Scheduler
pub mod Config
pub mod Start
