-- ===== src/Lib.antt =====
-- Verification of rattler_sandbox: the part of the crate that decides what a sandboxed command may
-- do, and how it is started.
--
-- A `FileSystemSandboxPolicy` is a list of entries, each a path (absolute, special or a glob pattern)
-- with an access. policy.rs resolves the entries for a working directory, decides the access of a path
-- by the most specific entry over it, protects the metadata of workspaces (`.git`, `.agents`, `.codex`),
-- lists the roots that the sandbox engines are given, and translates from and to the older
-- `SandboxPolicy`. A `PermissionProfile` joins such a policy with a network policy. manager.rs chooses
-- a sandbox for it and makes the command line that runs in it; network_proxy.rs writes the proxy
-- settings into the environment of the command. All paths go through path.rs. On Windows the parent
-- and the elevated runner exchange the framed messages of ipc_framed.rs.
--
-- On Linux the command line runs the crate's own helper, run_main.rs. Its outer stage has
-- bwrap_runner.rs turn the policy into the arguments of bubblewrap, which mount the file system that
-- the command sees, and runs the helper again inside; the inner stage restricts its own thread by
-- landlock_runner.rs and becomes the command. Bubblewrap makes the mount targets that are missing, so
-- the helpers of one user keep a registry of them, under a lock, and the last one removes them. Where
-- the command may reach a proxy alone, proxy_routing.rs plans a route for each variable that leads to a
-- proxy of this host: the outer stage listens on a socket for each of their endpoints, and the inner
-- stage rewrites the variables to ports that lead to these sockets.
--
-- On macOS seatbelt.rs turns the policy into a profile for `sandbox-exec`: rules for reading, writing
-- and the network, whose paths are parameters on its command line.
--
-- Files:
--   Prelude, Prelude/...    tests, lists, texts, environments and options that the parts share
--   World                   what the crate asks of the process and the file system, as a parameter
--   Paths/Std               `std::path` on Unix: a path is the sequence of its components
--   Paths/Absolute          src/path.rs: `normalize_path`, `AbsolutePathBuf`
--   Paths/Canonical         src/path.rs: canonical paths that keep nested symbolic links
--   Paths/Prefix, Normal, Guarantees
--                           laws of prefixes, the normalized form, and the promises of src/path.rs
--   Policy/Types            src/policy.rs: the types
--   Policy/Grants           what a policy grants by its entries alone (`has_full_disk_write_access`)
--   Policy/Resolve          resolved entries, `resolve_access_with_cwd`
--   Policy/Metadata         protected metadata, `can_write_path_with_cwd`
--   Policy/Dedup            effective paths, `dedup_absolute_paths`, sorted forms
--   Policy/Defaults         the default read-only paths of a writable root
--   Policy/Legacy           the methods of `SandboxPolicy`
--   Policy/Build            constructors, `from_legacy_sandbox_policy_for_cwd`, extensions
--   Policy/Roots            `get_writable_roots_with_cwd` and its like, `WritableRoot`
--   Policy/Bridge           `to_legacy_sandbox_policy`, `needs_direct_runtime_enforcement`
--   Policy/Matcher          `ReadDenyMatcher`
--   Policy/WellFormed, Targets, Precedence, Access, Specific, FullDisk, Deny, Added, Extend,
--     Materialize, Protect, First, Child, Reported, Distinct, Listed, RoundTrip, ReadDeny
--                           the proofs about policies
--   Permissions             src/policy_transforms.rs and `PermissionProfile`
--   Manager, Manager/...    src/manager.rs, the argument list of src/linux/landlock.rs, and their proofs
--   Network, Network/Laws   src/network_proxy.rs and its proofs
--   Framing, Framing/Laws   src/windows/elevated/ipc_framed.rs: messages and frames, and their proofs
--   Linux/Host              what the Linux helper asks of the system, as a parameter
--   Linux/Types, Returns    src/linux/bwrap_runner.rs: its types and results, and rules for results
--   Linux/Walk, Walk/Prefixes
--                           the walks along a path (`find_first_non_existent_component`)
--   Linux/Masks, Masks/...
--                           the arguments for one path (`append_unreadable_root_args`)
--   Linux/Globs, Globs/...  `expand_unreadable_globs_with_ripgrep` and what it calls
--   Linux/Plan, Plan/...    `create_filesystem_args`: the mounts in their order
--   Linux/Runner, Runner/Shape
--                           `create_bwrap_command_args`
--   Linux/Seccomp, Seccomp/Sockets
--                           src/linux/landlock_runner.rs: what is asked of the kernel, the filter
--   Linux/Launch, Launch/...
--                           src/linux/run_main.rs: `run_main` up to each `exec`
--   Linux/Registry, Registry/...
--                           src/linux/run_main.rs: the registry, its cleanups, and the helpers of one
--                           user as a system of steps
--   Linux/Routing/Plan, Directories, Host, Activate
--                           src/linux/proxy_routing.rs: `plan_proxy_routes`, the socket directories,
--                           `prepare_host_proxy_route_spec`, `activate_proxy_routes_in_netns`
--   Linux/Routing/Asked, Loopback, Names, Sockets, Prepared, Owner, Results, Bridges, Values,
--     Rewritten
--                           the proofs about routes
--   Seatbelt/Texts          what src/seatbelt.rs takes from its texts and from the system
--   Seatbelt/Inputs, Network
--                           `proxy_policy_inputs`, `dynamic_network_policy_for_network`
--   Seatbelt/Access         `build_seatbelt_access_policy`
--   Seatbelt/Globs          `seatbelt_regex_for_unreadable_glob` and what calls it
--   Seatbelt/Command        `create_seatbelt_command_args`
--   Seatbelt/Filters        the filters of the profile language and what they mean
--   Seatbelt/Rules, Keys, Values, Meaning, Files, Confined, Closed, Regexes
--                           the proofs about profiles
--   Url                     the `url` crate, as a parameter
--   Tests, Tests/...        runs at concrete inputs
--
-- Where the model differs in form: an `AbsolutePathBuf` is the path that it wraps, and
-- `is_normalized` is what its constructors guarantee. `Option` stands for a result whose error
-- carries nothing that is used, and for a panic in `absolute_root_path_for_cwd`. A loop over a
-- vector is a fold; the loop over the ancestors of a path takes one parent for each of its
-- components, which is enough to reach the last one. An `OsString` is a text. A policy that is
-- changed in place is returned. A vector of arguments that a function appends to is passed on. The
-- version of a `FramedMessage` is a natural number where the source has a `u8`. `CodexErr` has one
-- case that the code does not have, `out_of_fuel`: `collect_glob_files` goes down as many
-- directories as `tree_depth` of the host says, and a walk whose depth is bounded by less does not
-- run out. The registry is a list of marker files; each registration and each cleanup is one step,
-- as they hold the lock, and the calls whose errors make the helper panic succeed. The steps of the
-- registry have the synthetic mount targets only: they leave out the registration and the cleanup
-- of protected create targets (src/linux/run_main.rs:509 and 544-545), whose markers lie in the
-- same registry. A path's marker directory is its hash, so two paths may share one, and the theorem
-- that depends on it says so. A map whose order matters is a list in that order. The loops of
-- src/seatbelt.rs over the characters of a text have as much fuel as it has characters. The meaning
-- of a profile is that of its filters alone: which of several rules wins is not modelled.
--
-- Parameters: `World` (the working directory, TMPDIR, the file system, the `dunce` crate), `GlobSet`
-- (the `globset` crate), `Engine` (the target system, `serde_json`, the argument list of
-- src/seatbelt.rs), `Codec` (`serde_json` for messages), `Host` (the file system as the helper sees it,
-- `rg`, `globset`, `/dev/null`), `Launcher` (the answers of the kernel, the two calls of
-- src/linux/proxy_routing.rs, the launcher of bubblewrap), `UrlCrate` (the `url` crate),
-- `DirectoryHost` and `BridgeHost` (the socket directories and the start of the bridges), `Profile` (the
-- texts of src/seatbelt_base_policy.sbpl and its like, `regex_lite`, `confstr`), and the engine that
-- matches the regexes of a profile. No law is asked of them but, where a theorem
-- says so, that the working directory of the process is absolute and that a codec reads back what it
-- writes.
--
-- Not modelled: serialization and `Display`; the Windows forms of paths; the bridges of
-- src/linux/proxy_routing.rs, which fork, listen and copy bytes; of the Linux helper its forks, pipes
-- and signals, the thread that watches protected names, and the search for bubblewrap; the pseudoterminals
-- and the Windows runner, which start processes and call the operating system.
pub mod Prelude
pub mod World
pub mod Url
pub mod Paths
pub mod Policy
pub mod Network
pub mod Permissions
pub mod Manager
pub mod Framing
pub mod Linux
pub mod Seatbelt
pub mod Tests
