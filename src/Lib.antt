-- ===== src/Lib.antt =====
-- A model of the Go services of the pips simulation that keep money, jobs and shifts, and proofs
-- about it. Paths are from the repository's root.
--
-- The program. A bank (services/bank) owns every balance and journals every movement. A farm
-- (services/workplaces/farm) hosts buildings with a limited number of positions; each gives out
-- shifts and pays them by elapsed ticks. The gateway (services/world-gateway) plays the economy:
-- once a second it reads a snapshot of sim-core, offers pips without a job to the workplaces,
-- keeps the shifts of the employed alive, and pays their wages through the bank; it also endows
-- poor workplaces and makes purchases. A purchase that sim-core settles reaches the bank again as
-- a message, and so does a death, whose purse the bank takes back. Offers of work and their
-- outcomes go through queues of a broker; a farm can also stand behind the sidecar of Dapr, which
-- keeps its shifts and passes each call on to the actor of one building.
--
-- The files:
--   Common     lists, Boolean tests, maps as association lists, text as bytes, 64-bit words; Common.Text
--              has strings.Split, TrimSpace and strconv.ParseUint, Common.Env the environment
--              and strconv.ParseInt
--   Connect, Workplace   replies with error codes; the messages of the workplace contract
--   Ledger     services/bank/internal/ledger/ledger.go and memory.go: `Memory` with OpenAccount
--              (open_account), Transfer, BatchTransfer, Post and GetBalance. Its children hold
--              the proofs, and Ledger.Interface fills the record of calls LedgerCalls
--   Postgres   services/bank/internal/ledger/postgres.go: Postgres.Statements has the tables and
--              the SQL statements, Postgres.Calls the methods as transactions of them, and
--              Postgres.Mirror sets these beside the methods of memory.go, and the bank's
--              handlers over the one beside the same handlers over the other
--   Bank       services/bank/internal/bankapi/bankapi.go: the four handlers, over any ledger.
--              Bank.Purchases and Bank.Consumer model purchases.go (BookPurchase, handle, Run, one
--              partition with its committed offset) and
--              Bank.Escheat models escheat.go (Escheat, handle); Bank.Events models events.go
--   Farm       Farm.Shifts models shiftSet of services/workplaces/farm/internal/farm/store.go,
--              Farm.Store its interface Store and memStore, Farm.Service farm.go, Farm.Host
--              host.go and Farm.Specs its ParseSpecs. Farm.Redis models the redisStore of
--              store.go, Farm.Dapr daprStore of dapr.go, Farm.Actors its serveActor and
--              dispatch, and Farm.Actors.Callers its ActorHost. Farm.Startup models what
--              services/workplaces/farm/cmd/farm/main.go builds from its configuration
--   Work       the queue between the two: Work.Consumer models
--              services/workplaces/farm/internal/queue/queue.go, Work.Outcomes
--              services/world-gateway/internal/economy/queue.go; Work.Hiring joins them with the
--              farm's host and the gateway's fleet, and Work.Reconnect has the loops Run and
--              RunOutcomes around them; Work.Outage is about a store that fails
--   Economy    services/world-gateway/internal/economy: Economy.Driver and
--              Economy.Registration model driver.go, Economy.Payroll payroll.go, Economy.Fleet
--              the cycle of economy.go, and Economy.Outside is the parameter for everything
--              that they call
--   Gateway    Gateway.World models services/world-gateway/internal/gateway/gateway.go,
--              Gateway.Structures its structures.go, and Gateway.Config the configuration of
--              services/world-gateway/cmd/gateway/main.go, the discovery over all addresses and
--              the gauge of the pending offers; Gateway.Cors models its headers for browsers
--
-- How the code is rendered. An int64 is its bit pattern, a number below 2^64 with the wrap-around
-- written out; a number from 2^63 on stands for a negative one (Common.Words). A uint64 is a
-- natural number, and a sum of ticks is taken not to reach 2^64. A Go map is an association list
-- with one entry for each key; a loop over a map, whose order Go leaves open, goes in the order
-- of the list. A mutex makes a method one step, so a history is a list of calls. The clock, the
-- random ids and the fetches of the broker are arguments. A handler that fails returns `err` with
-- its code, and texts of errors and log lines are dropped. No definition needs fuel but
-- Common.Strings.decimal, whose twenty digits are enough for every uint64, and the rounding to
-- doubles in Farm.Redis, whose eleven doublings are.
--
-- JSON and protobuf forms, the state API, the sidecar, the broker and sim-core are parameters; what
-- a theorem needs of them is a named hypothesis (IsStateStore, IsCodec, Routes). Of Redis a command
-- on one hash is modelled, and a Lua script as one step on it, whose numbers are rounded to
-- doubles. A partition of Kafka has one committed
-- offset, from which a consumer goes on. The only bindings of the topic
-- exchange are keys without wildcards. A timer that repeats a step is a count of rounds.
--
-- Not modelled: the migration of the tables, the options of the connections to broker, database and
-- Kafka, and the waits before they are tried again; the servers, the shutdown and the telemetry of
-- the binaries, and what they print (they are input, output and wiring of the parts that are
-- modelled, or stand on programs that are not in the repository); generated code; and the services
-- in other languages.
pub mod Common
pub mod Connect
pub mod Workplace
pub mod Ledger
pub mod Bank
pub mod Farm
pub mod Economy
pub mod Postgres
pub mod Gateway
pub mod Work
