-- ===== src/Lib.antt =====
-- The server of a shop for Excel comparisons: a client uploads two tables, a worker compares them, a
-- payment gate asks for a fee, and the client downloads the result once it is paid.
--
-- The parts, by the files of the repository:
--   gobackend/domain/compare_job.go: the record of a job and its statuses (Domain).
--   gobackend/compare/service.go: the HTTP handlers. A job is made by handleCreateJob
--     (Compare/Service/Create), shown, cancelled and downloaded by handleGetJob, handleCancelJob and
--     handleDownloadExport (Compare/Service), which handleJobRoutes tells apart.
--     convertXLSIfNeeded and saveUploadTo stand in Compare/Convert, and runCompareTask, which nothing
--     calls, in Compare/Service/Task.
--   gobackend/compare/worker.go: Worker.Process compares and hands the job on (Compare/Worker).
--   gobackend/paygate/worker.go: Worker.Process releases the job or asks for payment (Paygate);
--     FeeFen and the other readings of the environment stand in Config.
--   gobackend/wechat/native.go: orders are created and closed (Wechat/Native).
--   gobackend/wechat/notify.go: the notification of a payment (Wechat/Notify).
--   gobackend/wechat/config.go: settings from the environment or the file of keys (Wechat/Settings),
--     and those that depend on other files (Wechat/PlatformKey, Wechat/CertFind).
--   gobackend/wechat/certzip.go, gobackend/wechat/paths.go: the names of archives (Wechat/CertName),
--     the newest of them (Wechat/CertFind), the merchant's files and their extraction
--     (Wechat/CertZip), and the platform's certificate (Wechat/PlatformCert).
--   gobackend/wechat/verify.go, gobackend/wechat/crypto.go: the text of a key (Wechat/PemText), keys
--     and certificates (Wechat/Pem), the verifier (Wechat/Verifier), the decryption (Wechat/Crypto).
--   gobackend/excelcmp: the comparison. Cell texts (Excel/Normalize), rows by keys (Excel/KeyedRows),
--     columns (Excel/Columns), the artifacts of two tables (Excel/Artifacts), the bit mask
--     (Excel/Mask), the fingerprint (Excel/Fingerprint), the sheet of changed rows (Excel/Diff), the
--     sheets of added and of removed rows (Excel/KeyedSheet), their names (Excel/SheetName), the
--     header row (Excel/Headers), the guess of the key column (Excel/KeyGuess), loadKeyedSheetXLSX
--     and readXLSXFirstSheetTable (Excel/Reading), and GenerateCompareExportXLSX (Excel/Export).
--   gobackend/store/compare_job_store.go: the job store in Redis (Store) and the one in memory
--     (Store/Memory).
--   gobackend/redislock/redislock.go: lock keys and the use of the lock (RedisLock), Acquire, Refresh
--     and Release with their scripts (RedisLock/Scripts).
--   gobackend/streamq/streamq.go: terminal errors (Errors), the producer and the handling of a message
--     (Streamq), the claims and the loop of the consumer (Streamq/Loop).
--   gobackend/ossstore/ossstore.go: object keys (OssStore), what NewFromEnv reads (OssStore/Settings),
--     the credentials, and what the methods ask of the bucket (OssStore/Objects).
--   gobackend/main.go: the ledger of the billing stub (Billing) and its routes (Billing/Handlers).
--   main of gobackend/main.go and of gobackend/cmd: how the three processes start (Processes).
--   gobackend/obs: the labels and the counters of the metrics, and the level of the log (Obs).
--
-- How they interact. The handlers and the workers share the job store alone. Each of them is a
-- program over effects (Effects): a call of the environment, a read, an update by a closure, or the
-- creation of a job. The system (Lifecycle/System) is the store with any number of such programs, of
-- which any may do its next effect. A call returns anything of its type; a read may fail; a write may
-- be lost; a record may expire, and a job whose record expired is not made again, since identifiers
-- are random. Lifecycle/Invariant has the invariant of a stored job and one lemma for each closure,
-- the modules beside it one for each program, and Lifecycle/System/Preserve the induction over a run.
--
-- Redis is seen from one key at a time. A round of Update is given what other clients and the network
-- do to it, and Store/Atomic says what a call then comes to: this is the update of the effects.
-- RedisLock/Exclusion has any number of workers that call the lock in any order, and Streamq/Delivery
-- any number of consumers of one group, as step relations whose steps are the calls; there Redis may
-- delete a message behind which there are as many newer ones as the producer's limit says.
--
-- Files are nodes of a disk under their cleaned paths (Disk). A call of package os is an action
-- that gives the disk back, also after an error; which calls are refused is given, and so is what a
-- failed copy has written. Keys, certificates and signatures are those of a record of operations
-- (Wechat/Crypto), and the converter of workbooks is a function on the disk, which is asked to write
-- nothing but its output. In the programs over effects the same functions are calls, of which any
-- result is possible.
--
-- Strings are lists of code points, with the functions of package strings on them (Text). Amounts
-- are float64 numbers as IEEE 754 rounds them (Float), of which none is negative; they are
-- counted in units of 2^-1074. The search for the spacing of the floats about a number halves it
-- at each step, and has the number itself as its fuel. Results on amounts ask for at most 2^50
-- fen. The words of the mask are below 2^64, and the fingerprint wraps around at 2^64; the
-- exclusive or of a byte has a fuel of 8, its number of bits. Update tries eight times, as the
-- program does. The search for a sheet name has a fuel of one more than the used names and
-- another, which is enough as long as fewer than 10 ^ 9 names are used. All other loops are
-- structural. float64 in the billing stub is a parameter. Go maps are association lists, which a
-- range runs through in their order.
--
-- Not modelled: what the libraries for json, workbooks, files, HTTP and object storage do, and the
-- errors of SetRow; buildSubTable and writeSimpleTableSheetStream, which nothing calls; signals,
-- the server of the metrics, the durations that it shows, traces and logging.
mod Prelude
pub mod Text
pub mod Domain
pub mod Errors
pub mod Float
pub mod Http
pub mod Effects
pub mod Disk
pub mod Config
pub mod RedisLock
pub mod Wechat
pub mod Paygate
pub mod OssStore
pub mod Billing
pub mod Store
pub mod Streamq
pub mod Compare
pub mod Excel
pub mod Lifecycle
pub mod Processes
pub mod Obs
mod Tests
