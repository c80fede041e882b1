-- ===== src/Lib.antt =====
-- FabAccess server (BFFH): who may do what with which machine of a workshop, and the executor
-- that runs the server's tasks.
--
-- A session belongs to a user. A user has roles, a role has rules and parent roles, and a rule
-- grants permissions. A resource is a machine with four required permissions; its operations
-- check the session's roles and change its state in the database, in the audit log and in a
-- signal that drivers listen to. Clients reach them over an API, after they have logged in with
-- a password or with a card that a reader in the workshop presents. Actors apply the state of a
-- machine to hardware, and initiators set it from outside. The server runs on its own executor,
-- whose unit is the lightweight process.
--
-- Files and the code that they model:
-- - Prelude.antt and its children: names of the libraries passed on, Boolean tests, lists over
--   the native numbers, bits, results, texts as byte lists, association lists, UTF-8.
-- - Users.antt: `User` and `UserData` of bffhd/users/db.rs. Users/Database.antt: the rest of
--   bffhd/users/db.rs, and the passwords of bffhd/users/mod.rs; Database/Files.antt holds the
--   theorem.
-- - Authorization/Permissions.antt: bffhd/authorization/permissions.rs. Permissions are byte
--   strings; `iter`, `partial_cmp`, `match_perm`, `push`, `display`, `into_string`, `try_from`
--   are the functions of these names. Permissions/Order.antt and Permissions/Strings.antt hold
--   the theorems.
-- - Authorization/Roles.antt: bffhd/authorization/roles.rs. `is_permitted` with
--   `permitted_tally` and `collect_permrules` with `tally_role`, set and map passed along.
--   Roles/Spec.antt states inheritance apart from the traversal; Roles/Permitted.antt,
--   Roles/Collect.antt, Roles/Depth.antt hold the theorems.
-- - Session.antt: bffhd/session/mod.rs. `has_perm` stands for the five `has_` functions, which
--   differ in the permission only.
-- - Resources/Machine.antt: bffhd/resources/modules/fabaccess.rs. Resources/Operations.antt:
--   bffhd/resources/mod.rs, one function per method of `Inner` and `Resource`.
--   Operations/Consistency.antt, Operations/Update.antt and Operations/Owner.antt hold the
--   theorems.
-- - Resources/Search.antt: bffhd/resources/search.rs, `new_index` for `ResourcesHandle::new`,
--   `get_by_id` and `get_by_urn`. Search/Lookup.antt holds the theorems.
-- - Resources/Store.antt: what the resources need of the state database, a parameter with two
--   laws.
-- - Database.antt: bffhd/db/raw.rs and bffhd/db/typed.rs over LMDB. `raw_get` is `RawDB::get`;
--   `get`, `put`, `delete_key`, `clear` and `get_all` are the methods of `DB`, with an `Adapter`
--   for the trait. Database/Typed.antt holds the theorems. Database/States.antt: `StateDB` of
--   bffhd/resources/state/db.rs, which States/Store.antt makes a store of Resources/Store.antt.
--   Database/Accounts.antt: the methods of `UserDB` of bffhd/users/db.rs with their errors;
--   Accounts/Roundtrip.antt holds the theorems. Database/Files.antt: `load_file`, whose loop
--   passes over a user whom the database refuses, and `dump_file` of bffhd/users/mod.rs;
--   Files/Loop.antt, Files/Loads.antt and Files/Dumps.antt hold the theorems.
-- - Utils/Varint.antt: bffhd/utils/varint.rs, `from` and `into` for the two macros.
-- - Utils/Linebuffer.antt: bffhd/utils/linebuffer.rs, one function per method.
--   Linebuffer/Contents.antt holds the theorems.
-- - Api/Users.antt and Api/Cards.antt: bffhd/capnp/user.rs and bffhd/capnp/user_system.rs, one
--   function per request; `pwd` and `admin_pwd` are the two methods `pwd`. Users/Accounts.antt
--   and Cards/Tokens.antt hold the theorems.
-- - Api/Machine.antt: bffhd/capnp/machine.rs and bffhd/capnp/machinesystem.rs. A `MachineView`
--   is what `build_into` writes; `hand_back` is the request `give_back`. Machine/Offers.antt and
--   Machine/Listing.antt hold the theorems.
-- - Api/Login.antt: bffhd/capnp/authenticationsystem.rs and `create_session` of
--   bffhd/capnp/connection.rs. Login/Logs.antt holds the theorems.
-- - Authentication/Callback.antt: bffhd/authentication/mod.rs. Callback/Validates.antt holds the
--   theorems.
-- - Authentication/Protocol.antt: the types of bffhd/authentication/fabfire/server.rs, which
--   bffhd/authentication/fabfire_bin/server.rs repeats. Authentication/Steps.antt: the arms of
--   `step` that both have in common, up to how a command is written. Authentication/Fabfire.antt
--   and Authentication/FabfireBin.antt: the two mechanisms, with `step` as the function of this
--   name. Protocol/Moves.antt states the dialogue as a relation, Moves/Sound.antt and
--   Moves/Runs.antt hold what every run keeps, and Steps/Refines.antt, Fabfire/Refines.antt and
--   FabfireBin/Refines.antt show that the code's steps are moves.
-- - Authentication/Server.antt: the mechanisms on the server's callback. Server/Owner.antt holds
--   the theorems.
-- - Initiators/Process.antt: bffhd/initiators/process.rs, `try_process`, `process_line` and
--   `poll` with its parts. Process/Lines.antt, Process/Ends.antt and Process/Polls.antt hold the
--   theorems.
-- - Initiators/Dummy.antt: bffhd/initiators/dummy.rs, on the resource of
--   Resources/Operations.antt; Dummy/Flips.antt holds the theorem.
-- - Actors/Driver.antt: `ActorDriver` of bffhd/actors/mod.rs, one `round` per pass of its loop.
--   Actors/Process.antt: bffhd/actors/process.rs. Actors/Mqtt.antt: the url's options, the first
--   poll and the loop of the MQTT client in `load` of bffhd/actors/mod.rs; Mqtt/Options.antt and
--   Mqtt/Closes.antt hold the theorems. Actors/Modules.antt: bffhd/actors/shelly.rs,
--   bffhd/actors/dummy.rs, `load_single` and `load`; Modules/Singles.antt and
--   Modules/Starts.antt hold the theorems.
-- - Loading.antt: the maps and loops of `load` in bffhd/actors/mod.rs and
--   bffhd/initiators/mod.rs.
-- - Lightproc/State.antt: runtime/lightproc/src/state.rs, the word of a process.
--   Lightproc/Transitions.antt: each compare-exchange of raw_proc.rs, proc_data.rs,
--   proc_handle.rs and lightproc.rs, with what the thread does next. Lightproc/System.antt: all
--   threads that hold a process, as a step relation. System/Invariant.antt, System/Safety.antt
--   and System/Counts.antt hold the theorems. Lightproc/Awaiter.antt: `swap_awaiter`.
--   Lightproc/Layout.antt: layout_helpers.rs, proc_layout.rs, and `proc_layout` and `from_ptr`
--   of raw_proc.rs. Layout/Padding.antt, Layout/Extend.antt and Layout/Fields.antt hold the
--   theorems.
-- - Executor/LoadBalancer.antt: runtime/executor/src/load_balancer.rs, with the sort of the
--   standard library as an insertion sort. LoadBalancer/Loads.antt holds the theorems.
--   Executor/Worker.antt: `run_inner` of runtime/executor/src/worker.rs with its loops, one
--   function per queue that a task is taken from. Worker/Runs.antt, Worker/Parks.antt and
--   Worker/Backoff.antt hold the theorems. Executor/Supervision.antt:
--   runtime/executor/src/supervision.rs, `clone_current` for `SupervisionRegistry::current` and
--   `clear_group` for `Clear::clear`; Supervision/Alive.antt holds the theorems.
-- - Examples.antt and its children: the theorems at concrete inputs.
--
-- Fuel and bounds: the recursion over roles takes fuel, one unit for each level of parents; a
-- graph of roles in which parents rank below their children needs one more than the highest
-- rank, and a cycle has no bound. The loop of `swap_awaiter` takes fuel, and two passes are
-- enough for a thread alone. Numbers of a given width wrap at that width. The counts of a
-- process wrap at 32 bits; the step relation leaves out a wake by reference at 2^32 - 1
-- references. A poll of an actor's driver takes fuel, one unit for each pass; the changes that a
-- signal still has, and one more, are enough. A poll of the dummy initiator takes fuel, of which
-- twice the passes in which its timer may be ready and two more are enough. The loop of a worker
-- takes fuel, one unit for each task; more than the waiting tasks are enough where no steal is
-- tried again, and as much is given to each loop of steals. The loops of the process initiator
-- take fuel; no fuel is enough for some of them. The word of a process is read on a
-- little-endian machine. The encoder's loop runs down the array's index.
--
-- Choices: a hash map is an association list whose first entry counts. A panic is a value. A
-- compare-exchange loop is its last pass, at which the state read is the state in memory.
-- Permission checks and database access of one request are not interleaved with those of
-- another. A committed write to the database succeeds, and the audit log takes its line.
--
-- Parameters, for code that is not in the repository: LMDB (a write or removal that is committed
-- is what a later read sees, a cursor visits every key once, and the empty text is no key), rkyv
-- (what it writes it reads back), crossbeam's deques, argon2 (a hash that was made of a password
-- accepts it and begins as a hash does), hex (its decoder undoes its encoder), TOML and
-- serde_json, the DESFire crate, the sessions of rsasl, the operating system's child processes,
-- an actor with its futures and its signal, the url parser and the polls of the MQTT client, the
-- pool of process groups. Random salts and challenges are arguments. LMDB's errors are left out
-- above Database.antt. A client of FabFire is any list of inputs.
--
-- Not modelled: object identifiers (a vendored crate), the console (a copy of a crate,
-- diagnostics only), the archives of dynamic state values, the connection below the MQTT client,
-- the initiator's driver, configuration, TLS, logging, the sockets and glue of the API, and the
-- executor's threads.
pub mod Prelude
pub mod Users
pub mod Authorization
pub mod Session
pub mod Resources
pub mod Utils
pub mod Api
pub mod Authentication
pub mod Actors
pub mod Initiators
pub mod Loading
pub mod Lightproc
pub mod Executor
pub mod Database
pub mod Examples
