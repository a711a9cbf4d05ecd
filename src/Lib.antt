-- ===== src/Lib.antt =====
-- A verification library for the sing-box core service and the Clash configuration translator.
--
-- The program has two parts. translator/ turns a Clash configuration, a list of proxy URIs or a
-- sing-box configuration into sing-box JSON: the proxies become outbounds, the proxy groups become
-- selector and urltest outbounds, rules are assembled, and the references of the result are
-- validated. core/ runs a sing-box instance with such a configuration: a service with a lifecycle
-- that several threads call, and a watchdog that restarts it when the proxy in use fails.
--
-- Base has the shared names and helpers: Boolean tests, lists, sets of texts, integers, and the
-- functions of Go's strings and strconv that the program calls (Base/Text, with the first character
-- of a text in Base/Text/Head, and laws of prefixes and of trimming in Base/Text/Prefix and Trim);
-- Base/Sort is sort.Strings. Value has the dynamic values of Go (any, map[string]any) with get, put
-- and delete, and Outside is the record of what is a parameter of the model: floating point, Unicode
-- case beyond ASCII, and the parsers of addresses, UUIDs, base64 and PEM.
--
-- Proxy is translator/proxy/: Fields, Duration, Bandwidth, Ports and Multiplex are common.go (GetStr
-- is get_str, SecondsToDuration is seconds_to_duration, and so on), Transport is transport.go, Tls
-- is tls.go, and Protocols has one function for each TranslateX. A translator returns an option, for
-- nil, and its warnings in their order. Tagged is about the tags of their outbounds, Ports/Range and
-- Bandwidth/Bounds are about ports and bandwidths, and Duration/ReadBack reads durations back.
--
-- Translator/State is types_singbox.go, Translator/RawConfig is types_mihomo.go. Translator/Proxies
-- is proxy.go: each round of the loop of translateProxies takes the state of the translation and
-- returns it. Translator/Groups is group.go: Build has the filters and the groups, Cleanup the
-- passes of cleanupGroupOutbounds. Its loop is on fuel, of one pass more than there are groups,
-- which is enough, since each pass but the last drops a group. Default has the groups of a
-- subscription without any. Translator/Validation is validation.go, with a constructor for each
-- error, Translator/Rule is rule.go, with ApplyRuleSetProxy in Rule/Mirror, and Translator/Assemble
-- is assemble.go. Groups/Kept, Closed and Named are about what the translation of groups keeps, its
-- members and its names; Proxies/Given and Visible about the outbounds of the proxies, and
-- Validation/Sound and Validation/Complete about what the validation demands.
--
-- Translator/Dns is dns.go: Address splits the address of a server, Server makes the server of it,
-- Entries has the loops over the configured servers, Resolvers sets their domain_resolver and FakeIp
-- has fake IP and the hosts; translate_dns puts them together. Tags, References and Sound follow the
-- tags that its settings name. Translator/DnsServers has the searches of dns.go for a server of some
-- kind, and Translator/Ech its steps on the ECH servers and on the actions of DNS rules.
-- Translator/Autoroute is autoroute.go, with Servers and DnsRules about the DNS rules and RuleSets
-- about the route rules. Translator/General is general.go and experimental.go, Translator/Tun is
-- tun.go. Translator/Country is country.go, where the answers of the geolocation services are an
-- argument; Cached is about its cache. Translator/Input is input.go and detect.go: Number has the
-- numbers of a URI, Uris the proxies, Subscription the test for a list of URIs and Config the
-- configuration of a subscription; Parsed is about what the parsers give. The decoders of base64,
-- JSON and YAML and net/url are the record Parsers there. Translator/Pipeline is translateFromConfig
-- of translator.go: run_steps takes the state through all the steps. Defaults, Outbounds, Frames,
-- Orphans and Accepted follow it to the validation at its end.
--
-- Core/Service is the lifecycle of core/service.go. Each atomic operation of InitContext,
-- StartWithContent, startWithJSON, Stop and Destroy is a step of a thread, and a schedule says which
-- thread is next, with the outcome of what can fail; so every interleaving is a schedule. Ownership
-- follows the instances, Alone has the calls that nothing interrupts, and Races what interrupted
-- calls lead to. A lock that is held makes a thread stay where it is. Core/Watchdog is
-- core/watchdog.go, where a run is a list of ticks with the result of the probe, and Node the search
-- for the node in use, of at most maxProxyDepth rounds as in the source. Core/Logging is
-- core/logging.go: a log is the level in force and what was written to stderr and to the callback.
--
-- Not modelled: in translator/, the requests to geolocation services and the text that encoding/json
-- makes of a configuration; queries, event hooks and platform code of core/; ipc/, cmd/ and mobile/,
-- which are input, output and glue. The sing-box library, the YAML and JSON packages and the network
-- are outside of the repository.
--
-- Examples has concrete inputs for the theorems, Examples/Pipeline those for whole translations and
-- Examples/Settings those for the log and the mirror.
pub mod Base
pub mod Value
pub mod Outside
pub mod Proxy
pub mod Translator
pub mod Core
pub mod Examples
