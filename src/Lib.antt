-- ===== src/Lib.antt =====
-- tlsdate: the daemon tlsdated, which keeps the clock right, the privileged process that sets it, and
-- the configuration, the helper that asks a server for the time, and the proxies on the way to it.
--
-- The program. `tlsdated` (src/tlsdated.c) reads its options and its configuration file, forks the
-- time setter (src/tlsdate-setter.c), which alone keeps the right to set the clocks, and enters the
-- event loop of libevent. Its handlers (src/events/) decide when to run the child `tlsdate`
-- (src/tlsdate-monitor.c), take a time from the child's answer, and send times over a pipe to the
-- setter, which reports back over another. The child is `tlsdate` (src/tlsdate.c), which turns its
-- options into the 13 arguments of tlsdate-helper (src/tlsdate-helper.c); that gets a time from a TLS
-- server, perhaps through a proxy (src/proxy-bio.c), and prints it or sets the clock.
--
-- The files.
--   Base and below: the shared names; native numbers, integers, Boolean tests, lists, C strings.
--   Types: struct opts, struct source, the event ids and constants of src/tlsdate.h; `Build` holds
--     what config.h fixes.
--   Clock: is_sane_time, load_disk_timestamp, check_continuity, add_jitter, and the time with which
--     main starts. Clock/Startup and Clock/Jumps hold the proofs.
--   Setter: time_setter_coprocess. A round takes one message and the answers of the system calls; the
--     log lists what was done to the clocks, the disk and the pipe. Setter/Safety, Setter/Status.
--   Daemon: struct state and trigger_event. Daemon/Events is libevent as a record of operations and
--     laws; every event_pending, event_add and event_del goes through it. One file for each file of
--     src/events/: Kickoff (kickoff_time_sync.c, route_up.c), Run (run_tlsdate.c), Response
--     (tlsdate_status.c), Save (save.c, sigterm.c), Children (sigchld.c), TimeSet (time_set.c).
--     Startup is main between the options and the loop, with the setup functions; Steps is the loop
--     as a relation. Invariant, Progress, Attempts, Sources, Messages and Boot hold the proofs;
--     Messages puts the daemon and the setter together.
--   Cros: src/platform-cros.c, with the state that its handlers share. Cros/Pac turns the browser's
--     answers into proxy URLs, Cros/Bus is libdbus as an interface for looking at messages,
--     Cros/Filter has the handlers, dbus_filter and action_resolve_proxy, Cros/Setup is
--     platform_init_cros. Cros/Steps puts them beside the event loop. Cros/Pac/Bounds, Safety and
--     Answers, Cros/Invariant, Start, Messages, Resolver, Blocked and Blocked/Direct hold the proofs.
--   Monitor: build_argv and the child's side of tlsdate. Monitor/Rotation.
--   Conf: src/conf.c on the bytes of a file. Conf/Lines, Conf/RoundTrip.
--   Options: the options from the defaults and the command line; Options/Config: load_conf,
--     parse_source, check_conf and their order in main. Options/Numbering, Options/Checks,
--     Options/Stanza.
--   Wildcard: dns_label_count and check_wildcard_match_rfc2595. Wildcard/Labels, Wildcard/Matching.
--   Proxy: parse_proxy_uri and its validators. Proxy/Uri.
--   Bio: OpenSSL's BIO as a record of operations with the laws of BIO_write and BIO_read, and functions
--     that return early. Bio/Moves, Bio/Runs: what holds of a chain of such calls.
--   Scan: sscanf for the formats of the program.
--   ProxyBio: src/proxy-bio.c. ProxyBio/Handshakes has the three handshakes, ProxyBio/Setup is
--     setup_proxy of src/tlsdate-helper.c. ProxyBio/Socks, Http, EndingSocks, EndingHttp, Packets
--     and Connect hold the proofs.
--   ProxyPolarssl: src/proxy-polarssl.c. ProxyPolarssl/Equivalence puts it beside ProxyBio.
--   Helper: write_all_to_bio and the parts of handle_date_line; Helper/Calendar is timegm,
--     Helper/Dates handle_date_line and read_http_date_from_bio, Helper/Main the function main with
--     drop_privs_to. Helper/Writing, Reading, Numbers, Months, RoundTrip, Elapsed, Measured,
--     Effects and Success hold the proofs.
--   Tls: the checks of certificates and keys in tlsdate-helper.c for OpenSSL; Tls/Openssl is the
--     callback that freezes the time and run_ssl, Tls/Polarssl the same for PolarSSL. Tls/Names,
--     Keys, Trust, Dated, Times, Success, Returns and Polarssl/Checked hold the proofs, and
--     Tls/Session puts the connection and main of the helper together.
--   Tlsdate: src/tlsdate.c. Tlsdate/Handover and Tlsdate/Command put it together with the helper.
--   RouteUp: src/routeup.c. RouteUp/Walk, RouteUp/Waiting.
--   Tests: runs on concrete data.
--
-- How the code is read. Numbers are natural numbers and integers without bounds, except where the
-- code depends on the width: the backoff is a uint32_t and wraps, an int made from it wraps, abs of
-- -2^31 stays negative. What the system answers (clocks, forks, reads, writes, waitid, RAND_bytes) is
-- an argument of the operation that asks; a BIO is a parameter with its laws. Memory never runs out.
-- A handler gives a new state or exits.
--
-- Bounds and fuel. conf_loop gets one round more than the file has bytes, and a round takes a byte;
-- load_entries gets as many rounds as there are entries, and a round takes one; the loop of the
-- wildcard check gets two rounds, since the second never goes on; count_labels gets two rounds more
-- than the label has bytes. sigchld_loop, setter_loop and action_sync_and_save end with the list of
-- the answers that they get. skip_loop gets as many rounds as there are bytes to skip, write_loop as
-- many as the string has, date_loop one more than the buffer takes, and a round moves a byte;
-- header_loop reads a byte a round, so that any fuel above what the proxy sends is enough.
-- handshake_loop ends with the results that PolarSSL gives: where they only ever want more, the code
-- loops as well.
--
-- Not modelled. The insides of OpenSSL, PolarSSL, libevent and libdbus: what they answer is an
-- argument, or the operation of an interface. The calls of proxy-bio.c that only pass on to the next
-- BIO; src/dbus.c; src/seccomp.c; the other system call wrappers of src/util.c; the files *-plan9.c;
-- src/compat and src/common; the tests. Daemon/Startup takes a build without D-Bus and without
-- Chromium OS, where init_dbus and platform_init_cros return 0; Cros is the platform code beside it.
pub mod Base
pub mod Types
pub mod Clock
pub mod Setter
pub mod Monitor
pub mod Daemon
pub mod Cros
pub mod Wildcard
pub mod Conf
pub mod Options
pub mod Proxy
pub mod Bio
pub mod Scan
pub mod ProxyBio
pub mod ProxyPolarssl
pub mod Helper
pub mod Tls
pub mod Tlsdate
pub mod RouteUp
mod Tests
