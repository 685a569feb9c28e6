-- ===== src/Lib.antt =====
-- iwaya runs a configured command inside a container and delivers secrets to it: directly, as
-- environment entries of the container runtime's process, or through a sidecar proxy that holds the
-- raw values while the command gets only a phantom credential and a loopback URL. This library is a
-- model of it, written from the source, with what makes the parts correct.
--
-- The parts and their files:
-- - Prelude: numbers, lists, options and results; Text: the operations on texts and numbers in texts
--   that the program takes from the standard library, with their laws.
-- - Kdl: the document library's nodes and values, as a parameter.
-- - Config (src/config): the data and the lookups; `ParseContext`, `ParseProvider`, `ParsePolicy` and
--   `Load` parse a document's nodes section by section, `Validate` and `Origin` are
--   src/config/validate.rs. `Valid` says what a valid configuration is, `ContextNode` what a context's
--   node says, and `Written` how a configuration is written on the documents of `Trees`.
-- - Secret (src/secret.rs) and Phantom (src/phantom.rs): the raw values and the bearer credentials.
--   The entropy source is an argument, from a number of bytes to them or to an error.
-- - Transfer (src/transfer.rs): provisioning, the transfer document, the plans that are left of it
--   and the target's environment. The JSON library is the record `Serde`, with the law `IsFaithful`.
-- - Proxy (src/proxy.rs): the routes and `parse_transfer`; `Forward` is `select_route` and `forward`,
--   `Respond` is `respond_with_upstream` and `handle`, `Serving` is `serve` with the steps of its
--   threads, `Start` is `run_proxy_mode`. The HTTP client is the record `Client`, and the server's
--   headers are the record `Answers`.
-- - Run (src/run.rs): `build_argv`, the environment of the runtime's process, and the supervision,
--   which returns the events that it causes, in order. The operating system is the record `System`.
-- - Bws (src/bws.rs): `resolve`, with the commands that it runs in order; `Diagnostic` is the one line
--   of a client's error output that is shown. Subprocesses are the record `Shell`.
-- - Sidecar (src/sidecar.rs): `Sidecar::start` and the removal, with the events that they cause. The
--   operating system is the record `Host`. `Handover` and `Handshake` join it with the proxy's start.
-- - ProxyImage (src/proxy_image.rs): the tag and its input; `Maps` and `Elf` read the memory map and the
--   executable's header, `Collection` collects the image's material, `Sorting` orders it, and `FirstKept`
--   and `Collected` say what is kept of it. The files are what the record `Process` answers. `Build` is
--   `ensure_proxy_image`, the build context and the calls of the container runtime, with what is asked
--   of the record `Machine` in order.
-- - Main (src/main.rs): the failures and the grouping of a policy's secrets by provider; `Execute` is
--   `execute` over the other parts, which the record `World` of `Surroundings` brings together, with
--   the events and the outcomes that stand there too, and `Exit` is `main`. `Distinct` and `Resolution`,
--   `Delivered`, `Ways` and `Runs`, and `Outcomes` say how an execution goes, case by case; `Protocol` is
--   the abstract machine of its stages, and `Stages` the steps that each stage takes. `Input` is what
--   the sidecar reads of an execution, and `Granted` follows it through the proxy.
--
-- The parts meet where the program's do: Config's policies are what Transfer provisions and Run lists,
-- Transfer's document is what Proxy arms, and both use Config's check of an origin.
--
-- A panic is modelled where the system refuses the relay's thread in the supervision, which the field
-- `relay_starts` answers, and where the line of a failure cannot be written to standard error,
-- `stderr_writes`.
--
-- Conventions: numbers are natural, a port or a code keeps its range as a hypothesis or its
-- wrap-around written out; an I/O error is the text that it displays; a loop is structural
-- recursion; a panic is `none`. The one fuel is that of the digits of a number, `decimal n`, which has
-- n + 1, above their count. Hash sets are lists that are searched.
-- A request body is the text that it streams. Threads of the proxy share the routes, which nothing
-- changes, and a client whose answer depends on the request sent alone.
--
-- Not modelled: a refusal of a thread by the proxy's system, and of a diagnostic line by the proxy's
-- standard error; the parsing of the command line, which a library does; the time and redirection
-- settings of the HTTP client; the streaming of bodies; and the tests.
pub mod Prelude
pub mod Text
pub mod Secret
pub mod Phantom
pub mod Kdl
pub mod Config
pub mod Transfer
pub mod Proxy
pub mod Run
pub mod Bws
pub mod Sidecar
pub mod ProxyImage
pub mod Main
