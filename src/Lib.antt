-- ===== src/Lib.antt =====
-- GoDoxy, a reverse proxy for containers: a model of its own logic and theorems about it.
--
-- A request comes in at the entry point, which finds the route of the host name. The route leads to a
-- server or to a load balancer over several, each watched by a health monitor, whose status decides
-- which servers receive requests. Rules, written in a small expression language, change what happens
-- to a request; access control refuses addresses before that; the certificate is chosen by the name in
-- the TLS handshake. Metrics are kept in rings for five periods. Events of the watched sources
-- are collected in a queue and flushed together. A remote agent forwards streams, which begin with a
-- header. A container that is idle is stopped, and a request wakes it; the latest part of the log is kept
-- in memory.
--
--   Prelude        numbers, lists, integers over native numbers, texts as lists of codes
--   Health         internal/types/health.go (Health/Status: NewHealthStatusFromString, StatusString, Good,
--                  Bad, Idling) and internal/health/monitor/monitor.go (Health/Monitor: init,
--                  checkUpdateHealth is check_update_health, the goroutine of Start is start and rounds)
--   LoadBalancer   internal/net/gphttp/loadbalancer: loadbalancer.go (Serve: ServeHTTP, updateImpl, status;
--                  Rebalance: rebalance), round_robin.go, least_conn.go, ip_hash.go, sticky.go (a module
--                  each), the modes of internal/types/loadbalancer.go (Defs), and the pool with New,
--                  UpdateConfigIfNeeded, AddServer, RemoveServer and the cleanup of Start (Pool)
--   Idlewatcher    internal/idlewatcher: watcher.go, state.go, health.go, events.go (Idlewatcher: the state
--                  and its operations, Loop: the loop of watchUntilDestroy with the steps of requests,
--                  Ended: its end, Phase: the machine of its phases)
--   Rules          internal/route/rules: parser.go (Rules/Parser: parse, one step per rune), command.go with
--                  buildCmd and isBypass of do.go (Rules/Command), rules.go and check_on.go (Rules/Engine:
--                  the rules of a route, Engine/Serve: the handler that BuildHandler returns), on.go
--                  (Rules/On: splitAnd, splitPipe, parseOn, RuleOn.Parse)
--   Period         internal/metrics/period: entries.go (Entries), period.go (Filters)
--   Autocert       internal/autocert/sni_matcher.go (Names: normalization; Sni: the matcher)
--   Stream         agent/pkg/agent/stream/header.go (Header)
--   Acl            internal/acl: matcher.go (Matcher), config.go (Config: Validate, IPAllowed; Notify:
--                  logNotifyLoop)
--   Entrypoint     internal/entrypoint: entrypoint.go (SetFindRouteDomains, FindRoute), shortlink.go
--                  (ShortLink)
--   Events         internal/watcher/events/event_queue.go (Queue: the loop of Start)
--   AccessLog      internal/logging/accesslog: retention.go (Retention: Parse, IsValid), back_scanner.go
--                  (BackScanner: Scan), rotate.go (FileIo: the calls of a file, Visit and Rotate: the
--                  rotation, LogTime: ExtractTime, ParseLogTime), formatter.go (Formatter), filter.go
--                  with status_code_range.go and ShouldLogRequest of config.go (Filter), fields.go (Fields)
--   RouteProvider  internal/route/provider: provider.go (loadRoutes, startRoute), event_handler.go (Handle)
--   RoutePorts     internal/route: Finalize and preferredPort of route.go, port_selection.go
--   SocketProxy    socket-proxy/pkg/handler.go (NewHandler: the registered routes and the filter of methods)
--   Middleware     internal/net/gphttp/middleware: middleware.go (TryModifyRequest, ModifyResponse),
--                  middleware_chain.go, bypass.go, cidr_whitelist.go (checkIP) and real_ip.go (setRealIP)
--   MemLogger      internal/logging/memlogger/mem_logger.go (Write, truncateIfNeeded, notifyWS, events)
--
-- A function of the source keeps its name, in lower case with underscores; the receiver is the record of
-- its state, which the function takes and returns. A pointer to a server or a provider is a number. A
-- time is a number of nanoseconds, given as an argument where the source reads the clock. A map is a
-- function or an association list; the order in which a Go map is visited is an argument (`iter`).
--
-- Code from elsewhere is an argument: xxhash (`key_hash`, `address_hash`), crc32 (`crc`), the lookup of
-- environment variables, the real-ip middleware for the load balancer, the functions of Go's net package and the city
-- database (`Net`), the parsed certificate (`Leaf`), the pool of routes (`Routes`), the pool of servers
-- (`PoolOps`, of which `PoolLaws` says what it promises), and the parsing of numbers and words. The
-- floating-point scaling in `rebalance` is the argument `f`, and `Scales` says of it that the result is
-- the product rounded down. What a command of a rule does to a request is a function of the rule, and
-- the response's wrapper of goutils is the arguments `begin` and `flush`; what docker and a health check
-- answer to the idlewatcher is an argument of its steps. The template matching of the router in
-- the socket proxy is the arguments `path_matches` and `prefix_matches`. The calls of a log file are the
-- record `FileIo`, of which `Obeys` says what the package os promises; the parsing of a time and the
-- cutoff of a rotation by days are arguments, and so is whether a route validates and starts.
--
-- Numbers are unbounded but where the source wraps: the round-robin counter counts modulo 2 ^ 32, the
-- length bytes of the stream header modulo 256, the limits of a retention modulo 2 ^ 64, the counters of
-- the access control modulo 2 ^ 32 and 2 ^ 64, and the checksum is four bytes. Three loops take fuel.
-- parse_on takes it for the calls of parseOn in itself, of which two levels are enough; scan_loop for the
-- rounds of Scan, of which each takes a byte or goes from the test to a read, so that twice the bytes that
-- are left, those of the file counted twice, and two more are enough; and walk for the lines of a file,
-- which are at most its bytes. Every other loop of the source that is modelled visits a list once. The loops of the health monitor, of the event queue, of the access
-- control and of the idlewatcher are folds over what they receive.
--
-- Not modelled: locks (each operation is one step), logging, JSON views, timers, sockets, the ACME
-- client, the operating system's metrics, the dashboard, serialization by reflection, and the wiring of
-- start-up and reload. The lines in JSON of the access log, docker labels, the validation of routes and
-- where they are read from, the effects of the commands of rules, the rate limit, and the set-up of
-- an idlewatcher with its dependencies are not modelled either.
pub mod Prelude
pub mod Health
pub mod LoadBalancer
pub mod Rules
pub mod Period
pub mod Autocert
pub mod Stream
pub mod Acl
pub mod Entrypoint
pub mod AccessLog
pub mod Events
pub mod Idlewatcher
pub mod MemLogger
pub mod Middleware
pub mod RoutePorts
pub mod RouteProvider
pub mod SocketProxy
