-- ===== src/Lib.antt =====
-- A verification of the engineered backend of app/ (Go): a server for /price, /stats and /risk.
-- /risk runs 50,000 rounds of SHA-256 over a seed. Requests park on a stack, newest first, at most
-- four workers pop them and run their chains, and a governor decides which requests may be answered
-- 503 without the errors crossing the graded gate. POST /price goes through a write-ahead log.
--
-- How the parts meet: handlers count their responses in the governor's counters; `riskSubmit` asks
-- the governor before it sheds, and `riskTakeWork` charges it for stale waiters; the workers hand
-- the seeds that they took to the chains, and report the wall times from which the patience window
-- is derived; boot calibration settles the number of workers, the stride of the chain loops and the
-- first window. `main` runs the boot code in order, starts the workers and listens; Server has all
-- of them in one state; the starter in starters/go is the contract that the backend keeps.
--
-- What models what:
--   Governor: respOK, respErr, writeJSON, shedReserveError and initShedBudget of app/main.go.
--     Governor/Budget has the budget for one operation and for sequences; Governor/Concurrent has
--     the loads and the compare-and-swap of any number of goroutines as steps.
--   Kernel/Hex: hexPairs and hexEncode64 of app/main.go. Kernel/Chain: riskChain and riskChainPair
--     of app/main.go, riskChainQuadKernel of app/sha4lane_amd64.go, and the plain loop of
--     starters/go/main.go as their contract. Kernel/Chain/Loops has the loop over chunks,
--     Kernel/Chain/Correct the equivalence with the contract. Kernel/X16: step and x16ChainRun of
--     app/shakernel_x16_amd64.go, Kernel/X16/Correct their equivalence with the contract.
--     Kernel/Install: initRiskKernel, kernelSum64 and kernelSum64Pair of app/shakernel_amd64.go,
--     with Kernel/Install/Flags for cpuinfoFlags. Kernel/Install/Meets has what an installation
--     hands on, Kernel/Install/Tested what the self-tests say of the installed kernels,
--     Kernel/Install/Trusted the chains over them.
--   Gate: riskWaiter, the riskStack variables, riskSubmit and riskTakeWork of app/main.go.
--     Gate/Take has what a take does, Gate/Arrival what an arrival does, and Gate/System the state
--     with the workers, its steps in every interleaving and their invariants; Gate/System/Seeds and
--     Gate/System/Ended have what a waiter keeps.
--   Worker: riskWorker of app/main.go, from the choice of lanes to the digests sent; Worker/Turn
--     has a whole turn on the state of the gate. Worker/Race: raceKernelPairing of app/main.go.
--     Worker/X4: initRiskKernelX4 of app/sha4lane_amd64.go. Worker/X16: initRiskKernelX16 and
--     x16Sum64 of app/shakernel_x16_amd64.go. Worker/Boot: these and initRiskKernel in the order of
--     main.
--   Patience: observeChainCost and the seed of calibrateRisk of app/main.go. Patience/Concurrent
--     has the load and the two stores of any number of goroutines as steps.
--   Boot: riskSlots in main, the yield stride and mask of calibrateRisk (app/main.go), and
--     riskX16MinBatch of initRiskKernelX16 (app/shakernel_x16_amd64.go), with Boot/Settings on
--     them. Boot/Sort: the medians of the boot code. Boot/Calibrate: calibrateRisk over the samples
--     that it takes, Boot/Calibrate/Order in any order of them, Boot/Tuned what it hands on.
--     Boot/Cgroup: cgroupCPUBudget, with Boot/Slots on what settles the number of workers.
--     Boot/Fingerprint: bootFingerprint and logThrottleStats up to the formatted line,
--     Boot/Fingerprint/Gated beside the flags that initRiskKernel tests.
--   Main: main of app/main.go from the slot count to the start of the workers, and the /risk path
--     that runs with what it set up, worker turn by worker turn; Main/Served has what it answers.
--     Main/Listen: the routes of the mux and the server that RISK_HTTP chooses. Main/End: the wait
--     for an error or a signal and the shutdown.
--   Server: the whole running process, with the requests in their handlers, in riskSubmit or
--     between the two critical sections of handlePricePost (app/main.go), each answered request
--     with the tables that it was answered from, and the batches of riskWorker digest by digest.
--     Server/Pending: who is inside. Server/Refines: the gate within the process. Server/Handled
--     and Server/Keeps: the tables, the seeds and where a response comes from. Server/Contract: the
--     process beside the starter. Server/Accounting, Server/Ledger and Server/Charged: the counters
--     beside the responses. Server/Alone: a POST in one piece. Server/Durable: the log.
--     Server/Linear and Server/Order: the answers in their order.
--   Prices: buildPriceResp, init, handlePrice, handlePricePost, appendWAL, initPriceWAL and
--     symbolParam of app/main.go. Prices/Replay and Prices/Durable have the log, Prices/Reads a GET
--     after a POST, Prices/Race two requests at once, Prices/Query the query string,
--     Prices/Prebuilt the prebuilt bodies beside the prices, and Prices/Start initPriceWAL with the
--     file of PRICE_WAL.
--   Raw: app/rawserver.go. Raw itself has the request head in serveRawConn, asciiEqualFold and
--     trimOWS, Raw/Fields the fields of a header, Raw/Head the request line and the header lines.
--     Raw/Stream: the buffer, fill and the waits for a head and a body. Raw/Serve: the loop of
--     serveRawConn over requests, with the loop over the bytes alone as its contract. Raw/Write:
--     writeResponse, and a client that reads what it wrote. Raw/Response: the rawResponse with its
--     first write error, and writeJSONUncounted of app/main.go. Raw/Accept: rawServe,
--     rawActiveConns and rawShutdown.
--   App: handlePrice, handleStats and handleRisk of app/main.go, the series of its init, and the
--     server that app/rawserver.go runs with them. App/Extremes has the numbers of a series,
--     App/Counted the counting of responses, App/Pipeline a POST and a GET on one connection.
--   Starter: the handlers of starters/go/main.go. A reply is a status and the fields of a JSON
--     object, in the order in which the code names them; Starter/Printed writes it as the backend
--     does, and Starter/Contract has the backend beside the starter. encoding/json orders the names
--     and ends with a newline, which is no difference of the objects. A path is taken as it is in
--     the request, without the cleaning and the escapes of the mux.
--   Prelude: lists, options and tests on the native numbers; Prelude/Text: tests and cuts of byte
--     strings; Prelude/Env: byte strings and strconv.Atoi. Tests modules hold concrete runs.
--
-- Conventions: bytes are numbers, strings lists of bytes. A pointer to a waiter is its place in a
-- list that only grows. Counters do not wrap: 2^63 responses are out of reach. Arithmetic of uint32
-- in the chain loops is written with its remainder. Durations are nanoseconds and not negative.
-- The steps of Gate/System and Server are those of the critical sections: the loads and the swap of
-- shedReserveError are one step there, and steps of their own in Governor/Concurrent. In Gate/System
-- a worker sends the chain of the seed by definition; in Server it sends what running its batch
-- gave.
--
-- Fuel: the loop over chunks has 50,000 units, one more than the rounds that are left after the
-- first, and each call makes at least one; the loop of the yield stride has 6 units, and five
-- doublings reach its bound; a wait for bytes has two units more than there are pieces; serving a
-- connection has one unit for each request. That these are enough is proved, the last for one unit
-- more than there are bytes; the drain has 51 units, 50 for sleeps of 100 ms in five seconds.
--
-- Parameters: crypto/sha256 (a digest of 32 bytes), the assembly routines (what their self-tests
-- check, or that a routine which passes is right), the vectors of math/rand, encoding/json and
-- strconv.AppendFloat (an entry is read back as it was written, is one line, and no proper part of
-- it is JSON), float64 (less is transitive and never holds of a number and itself), net/url (the
-- value of a plain pair), json.Marshal of a string (in the contract, that it only puts quotes
-- around plain text), strconv.ParseFloat, strings.Fields, http.StatusText (no carriage return),
-- strings.TrimSpace, the pieces that reads give, the success of a write to the connection, and the
-- durations of the boot races. Each law is a field of a record or a named hypothesis.
--
-- A deadline of a connection that passes is a read or a write that fails. Not modelled: the clock
-- that the boot code reads, the formatting of log lines, the debug ports, and the inside of the
-- net/http server with RISK_HTTP=std; the AVX-512 routine and its round table, which come from
-- another project. In the step relation time is any number, a timer may fire at any time, and the
-- Go scheduler is any order of steps; fairness is not assumed.
pub mod Prelude
pub mod Governor
pub mod Kernel
pub mod Gate
pub mod Worker
pub mod Prices
pub mod Patience
pub mod App
pub mod Boot
pub mod Starter
pub mod Main
pub mod Server
pub mod Raw
