-- ===== src/Lib.antt =====
-- ops-mcp is a server that exposes operations tools to agents: the operations of OpenAPI documents,
-- disk plugins, and connectors to hosts, databases, brokers and devices that the configuration
-- files name. This library models its configuration, its OpenAPI registry, its plugin manager and
-- executor, its MCP server, the reload of all of these, most of its connectors, and the guards in
-- front of them.
--
-- How the parts interact: internal/config reads the resource files into a Manager; internal/openapi
-- takes the Manager's API services and the reserved names of the disk plugins, and builds the
-- registry of tools; internal/plugin loads the disk plugins, whose names may not be those of OpenAPI
-- tools, and internal/executor checks a call's arguments and runs a plugin's script. internal/mcp
-- lists the tools of both and sends a call to the one that has its name; internal/api starts and
-- reloads the three in turn. The guards stand in front of the HTTP handlers and the connectors, which
-- find their targets by name in the Manager. Model holds the records that they share.
--
-- Files, with the code that they model:
--
-- Prelude        Go's strings as byte lists, `int` as a signed integer with its 64-bit wrap-around,
--                maps as lists of bindings, (value, error) as Result, `range` loops as `for_each`.
--   Value        decoded JSON values.
--   SplitJoin, Affix, Sorting, Keyed
--                laws of strings.Split and Join, of prefixes and suffixes; sort.Slice by a key; the
--                map that a list of named entries makes.
-- Model          internal/model: Errors, Api, Config, Host, Database, Redis, Kafka, Snmp,
--                Command and Plugin are errors.go, api.go, config.go and so on, with every ToSummary.
-- Config         internal/config.
--   Errors       the errors of the package, and what reading and decoding a file can give.
--   Load         loadHosts, loadDatabases, loadKafka, loadRedis; Named has the law of a loop that
--                loads named entries, Loaded is about loadKafka.
--   Snmp         loadSNMP, applySNMPDefaults, validateSNMPAuth; Snmp.Valid is about devices.
--   Commands     loadCommands, loadAPIs and envexpand.go, with Commands.Executable and
--                Commands.Expanded about them.
--   Manager      applyDefaults, Load, reloadResources, ReloadConfig, SetLogger; Manager.Reload has
--                the managers that these can reach, Manager.Parts what a load reads.
--   Lookup       the Get and List methods and ResolveSNMPAuth; Lookup.Summaries, Lookup.Paging
--                and Lookup.Auth are about them.
-- Openapi        internal/openapi.
--   Operation    operation.go.
--   PathMatch    pathmatch.go: globs as regular expressions, templates segment by segment.
--   Matcher      matcher.go: discovery rules compiled to matchers; Matcher.Selects reads the rules
--                themselves.
--   Parse        parse.go, from the decoded document on: Raw, Params, Body, Extract, with
--                Params.Ordered and Params.Merged about mergeParameters.
--   Schema       schema.go: Build (tool metadata), Fill (path filling), Required (uniqueStrings).
--   Registry     registry.go: Load, Call, and Tools about what a load registers.
-- Plugins        internal/plugin: Loader is loader.go, Manager is manager.go; Loader.Found and
--                Manager.Admitted are about them.
-- Executor       executor/executor.go; Types and Params are about it.
-- Mcp            internal/mcp.
--   Protocol     the messages; Server is server.go, with Server.Dispatch about tools/call and
--                Server.Replies and Server.Answers about which requests are answered.
-- Api            Reload is the start in main.go and the reload handler of api/server.go;
--                Reload.Apart and Reload.Served are about the services that these can reach.
--   Routes       the router and the handlers of api/server.go; Routes.Answered is about which of them
--                change the service.
-- Connector      internal/connector.
--   Command      command/command.go; Command.Whitelisted is about it.
--   Sql          mysql/mysql.go, postgres/postgres.go and dbutil/dbutil.go; Sql.Guarded is about
--                them.
--   Http         http/http.go; Http.Prepared is about it.
--   Net          tcp/tcp.go and udp/udp.go, with netutil/payload.go in Payload; Payload.Hex,
--                Exchange.Reading and Exchange.Bounded are about them.
--   Kafka        kafka/params.go in Params, kafka/client.go in Client, kafka/actions.go in Topics,
--                Health, Groups, Offsets and Settings on the records of Admin, kafka/kafka.go in
--                Execute; Params.Limited, Health.Reported, Settings.Redacted and Execute.Secret are
--                about them.
--   Redis        redis/redis.go: Client, Types, Keys, Hashes, Ranges, Scan, with Ranges.Slices and
--                Scan.Results about them.
--   Tls          redis/tls.go and kafka/tls.go; Tls.Material and Tls.Configured are about
--                them.
--   Snmp         snmp/snmp.go: Types, Usm, Session, Walk, with Usm.Protected, Session.Settings and
--                Walk.Bounded about them.
-- Guard          Auth is api/auth.go, Sql is connector/sqlguard/sqlguard.go, Limits is
--                connector/redis/limit.go and a part of connector/netutil/payload.go; Auth.Access,
--                Sql.Bounded and Limits.Bounds are about them.
-- Each Tests module computes small examples.
--
-- Correspondence: a Go function keeps its name in snake case, with the abbreviations of the source
-- (loadSNMP is load_snmp, ListSNMPDeviceSummaries is list_snmp_device_summaries); a method takes its
-- receiver as an argument; the body of a loop is a definition of its own (add_host for loadHosts). A
-- method that changes its receiver returns the new one. A mutex makes each operation atomic, so
-- operations are taken one after the other. An error keeps the arguments of its message in place of
-- the formatted text. A slice out of range, which panics, is `none`. An `int` of a configuration
-- file is compared and replaced, never added to, so only offset + limit of a page has its 64-bit
-- wrap-around written out.
--
-- A Go map has no order of iteration; a Dict is read in the order of its bindings. An error that
-- depends on which of several faulty entries of a map comes first (the headers of an API) is given
-- for that order. The entries of a file are a list, in the order of the file.
--
-- Parameters: the regular expression engine and path.Match (Engine), the Unicode case tables outside
-- ASCII, reading and decoding of files (FileRead, Environment, System), the matches of the pattern
-- ${NAME} in a text, filepath.Clean and IsAbs, os.Stat and os.LookupEnv, the walk of the
-- plugin directory, time.ParseDuration, the SQL parser, the script runtime, the JSON codec, the
-- network, whose reads give at least one byte or an error and at most what the buffer holds, a
-- process, database/sql with its drivers, net/url and net/http, and the clients of Redis, Kafka and
-- SNMP, each a function from what is asked to what is answered.
--
-- Bounds and fuel: every recursion is on a list, but for two loops. Scan and HScan of Redis have fuel
-- for the calls that the server needs to end the iteration, and the read loop of a TCP exchange has
-- fuel for one read more than the bytes allowed, since a read without an error gives at least one.
--
-- Not modelled: the docker and ssh connectors; the bindings of the JavaScript runtime; the
-- construction of loggers and logging; the redirects of the HTTP router; the kill of a process
-- group; sort.Slice on equal keys; the file positions in decoding errors.
mod Prelude
pub mod Model
pub mod Config
pub mod Openapi
pub mod Plugins
pub mod Executor
pub mod Guard
pub mod Connector
pub mod Mcp
pub mod Api
