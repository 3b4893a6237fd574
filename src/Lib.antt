-- ===== src/Lib.antt =====
-- sendit, a generator of web traffic: a model of its engine and the theorems about it.
--
-- The engine (internal/engine) is a loop that paces itself by a scheduler, picks a target by weight,
-- asks a resource monitor for admission, takes a worker slot, and starts a goroutine that waits for
-- the host's backoff and rate limit, runs a driver, reports the result and adjusts the backoff.
--
-- Which file models what:
--   Config/Schema           internal/config/schema.go, the configuration
--   Config/Validate         internal/config/config.go, validate and validateSFTPTarget; Accepted
--                           (what the engine relies on)
--   Config/TargetsFile      internal/config/config.go, loadTargetsFile; Loaded (what it appends)
--   Config/Load             internal/config/config.go, Load, setDefaults and warnLiteralTokens; Defaults and
--                           Loads (the defaults and the files against the checks)
--   Config/Samples          configurations for the tests
--   Task/Selector           internal/task/task.go, NewSelector and Pick; its children prove what the alias
--                           table gives to each target: Sums, Fill and Ended (the mass of a table and what a
--                           round keeps), Stacks, Settled (the whole construction), Exact (the picks)
--   Engine/Pool             internal/engine/pool.go; Safety (bounds and leaks), Progress (blocking)
--   Engine/Scheduler        internal/engine/scheduler.go; Delays (human and burst), Windows (cron windows)
--   Engine/Dispatch         internal/engine/engine.go, dispatch and hostname; Attempts and Hosts
--                           (what it does to the registries)
--   Engine/Run              internal/engine/engine.go, Run; Kept and Steps (its invariant), Closing (what
--                           is left when it ends)
--   Engine/Reload           internal/engine/engine.go, New, Reload and logTargetsDiff; Laws, and
--                           Validated (engines of validated configurations)
--   Engine/Build            internal/engine/engine.go, New with its drivers and writers; Orphans (the writer
--                           that an error leaves open), Known (the drivers of validated targets)
--   Ratelimit/Classify      internal/ratelimit/backoff.go, the classes of errors
--   Ratelimit/Backoff       internal/ratelimit/backoff.go, BackoffRegistry; Jitter (delays), Laws
--   Ratelimit/Registry      internal/ratelimit/ratelimit.go
--   Resource/Monitor        internal/resource/monitor.go; Gate (Admit)
--   Pcap/Writer             internal/pcap/writer.go, the bytes of a capture; Read (a reader), RoundTrip
--   Pcap/Capture, Export    internal/pcap/writer.go, Send, Close and run (Readable); Export (Ends)
--   Tui/State               internal/tui/state.go; Latencies (the ring)
--   Tui/Model               internal/tui/model.go, keys, formats and the sparkline (Shades; Commas, the digits
--                           of a count)
--   Tui/View                internal/tui/model.go, View and modeDesc
--   Generate/Url            cmd/sendit/generate.go, the tests and the normal form of URLs (Normal)
--   Generate/Robots         fetchRobotsInfo; Groups (what a robots.txt forbids to all)
--   Generate/Page           crawlPage, extractLinks, fetchSitemapLocs (Page/Domain: their hosts)
--   Generate/Crawl          targetsFromCrawl; Domain, Kept and Sound (what its loop finds), Ends (when
--                           it ends), Returned (both, for a seed), Typical (the types of its targets)
--   Generate/Targets        targetsFromFile, browser rows and trees, deduplicateTargets (Unique)
--   Generate/Browser        the paths of the browsers; Contents (their histories and bookmarks)
--   Generate/Command        the sources of generateCmd; Listed (what is printed)
--   Generate/Emit           emitGeneratedConfig, formatConfig and formatTarget; Written (what a reader finds)
--   Generate/Sources        what the flags of generateCmd read
--   Generate/Ready          generate beside validate: Printed (what its types and URLs are), Read (what a reader
--                           of the printed lines gets), Collected
--   Driver/Auth             internal/driver/auth.go; Laws (validated credentials)
--   Driver/Http             internal/driver/http.go; Redirects (chains of redirects)
--   Driver/Websocket        internal/driver/websocket.go; Dialed (credentials in the query)
--   Driver/Dns              internal/driver/dns.go and browser.go; Classes (what the engine makes of codes)
--   Driver/Grpc             internal/driver/grpc.go; Conns (the cache of clients), Registry,
--                           Files and Closed (the files of a service), Reflect (fetchMethodInfo)
--   Driver/Sftp             internal/driver/sftp.go, keys, addresses, payloads and codes; Key, Payload,
--                           Connections (the cache and its goroutines; Trusted), Network (the parameter),
--                           Ssh (its configuration), Run (Execute and getConn; Ended)
--   Output/Writer           internal/output/writer.go; Queue (the channel), Jsonl (the objects),
--                           Sessions (the file that runs leave)
--   Output/Metrics          internal/metrics/metrics.go; Totals (sums over labels)
--   Cli/Latency, Probe      cmd/sendit/main.go, probe and pinch, and the PID file (Pid)
--   Cli/Start               cmd/sendit/main.go, startCmd; Traces (what it does, in order), Signals (SIGHUP)
--   Cli/Daemon              cmd/sendit/main.go, stop, reload, status and validate; Signalled
--   Prelude                 Boolean tests, lists, integers, texts, decimals, association lists, lists without
--                           repetitions, numbered goroutines
-- The children called Tests hold runs and concrete instances.
--
-- How the code is modelled. An int or int64 is an integer; a product that becomes a time.Duration
-- wraps at 64 bits, and the counters, the weights and their sum do not wrap. Floats are exact: settings are in
-- millionths, the alias table is scaled by the total weight, a random float is a fraction of 2^53. A
-- random number, a time of the clock, what gopsutil reports and what a driver does are arguments. A map
-- is an association list, a text a list of its characters' codes. Goroutines are numbered and take
-- atomic steps in any order, cut where the code takes a lock or touches a channel, a condition
-- variable, a wait group or the context; a comment says where a model has one goroutine alone (a
-- dispatch, a run of the SFTP driver) or takes several stores as one step (the opening of a
-- window). The limiters of golang.org/x/time/rate and the parser of net/url are parameters. The reader of captures has fuel for a number of packets; as much as there
-- are packets is enough.
-- The crawl has fuel for the items that it takes from its queue: one more than a site has links is enough.
-- A page is what a function of its URL returns. What the drivers call (net/http,
-- ssh and sftp, gRPC, DNS, websockets, chromedp), the decoders of HTML, XML and JSON, the environment and files
-- are parameters; a connection is a number with what it was opened for. The loop of buildFileRegistry has
-- fuel for one round more than there are files, which its own bound never exceeds.
-- The loop of Export has fuel for the size of its input, which is enough unless it never ends. What viper makes of a
-- file, the decoder of JSON lines, the reflection service, the processes of the system and what a browser
-- keeps in its databases and trees are parameters.
--
-- Not modelled: the flags and the printing of the commands, the dry run among them; the loops of probe
-- and pinch; the styles of the terminal; logging; the failures of writing to a file that is open; and the
-- HTTP server of the metrics.
pub mod Prelude
pub mod Config
pub mod Task
pub mod Ratelimit
pub mod Resource
pub mod Engine
pub mod Pcap
pub mod Tui
pub mod Generate
pub mod Driver
pub mod Output
pub mod Cli
