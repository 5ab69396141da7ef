-- ===== src/Lib.antt =====
-- Lodger is a web application that manages the virtual machines of a libvirt host. This library models
-- the parts of its Rust crates that decide something: what input is accepted, who gets in and for how
-- long, and what happens to a VM's disks, pools and networks.
--
-- Files, and the code that each models:
--   Prelude     shared names: tests on numbers, lists, options, results, equality, texts.
--   Map         `HashMap` as an association list without repeated keys, and its laws.
--   Net         the IP addresses that crates/lodger/src/throttle.rs uses.
--   Validate    crates/lodger-core/src/validate.rs: names, hosts, interfaces, paths (Validate/Path) and
--               subnets (Validate/Subnet).
--   Throttle    crates/lodger/src/throttle.rs: the login throttle. `begin` and `succeed` are functions
--               from the two maps of counters to the new maps and the answer.
--   Tickets     crates/lodger/src/tickets.rs: single-use tickets for a WebSocket.
--   Db          crates/lodger/src/db/mod.rs: accounts, sessions and the audit log as tables, one function
--               per query, with the sessions in use and the audit log in Db/Queries, and the
--               migrations in Db/Migrate. Db/Tables and Db/Rows are the constraints.
--   Host        crates/lodger-virt/src/conn.rs: the errors, and the calls of libvirt as a parameter.
--   Pool        crates/lodger-virt/src/pool.rs.
--   Network     crates/lodger-virt/src/network.rs.
--   Volume      crates/lodger-virt/src/volume.rs: the list, the deletion and the creation of volumes, with
--               the facts and the users of a volume in Volume/Users, the laws of the users in Volume/Names,
--               and its document, of crates/lodger-core/src/xml/volume.rs, in Volume/Document.
--   Delete      crates/lodger-virt/src/delete.rs.
--   Xml         crates/lodger-core/src/xml/mod.rs: the elements of `xmltree` by their public fields, the
--               parser's checks and the builders of elements; Xml/Domain reads the disks, the
--               networks and the display of a domain.
--   Pool/Document, Pool/New, Network/Document, Network/New, Network/Written
--               crates/lodger-core/src/xml/pool.rs and network.rs: the readers, the checks and the
--               documents, with `new_pool` of crates/lodger/src/pools.rs and `new_network` of
--               networks.rs. Their laws are Pool/NewLaws, Pool/Folder, Pool/Usable, Network/NewLaws and
--               Network/WrittenLaws; the handlers around them are Web/Creation, with the laws in
--               Web/CreationLaws.
--   Web         the handlers in crates/lodger/src: auth.rs (Web/Session, Web/Login, Web/Socket and
--               Web/Cookie), setup.rs, accounts.rs, security.rs, client_ip.rs and audit.rs under their
--               names, the policy of crates/lodger-core/src/password (Web/Password) and the router of
--               server.rs (Web/Routes). Web/Steps is a request as a chain of steps, with what every
--               chain keeps; Web/Guard, Web/SignIn, Web/Refused, Web/Logout, Web/Upgrade,
--               Web/SocketEnd, Web/Claims, Web/Changes, Web/Origins and Web/CookieLaws are the laws
--               of the handlers. Web/Actions is actions.rs and Web/Objects the changes and removals of
--               pools.rs and networks.rs, with their laws in Web/ActionLaws and Web/ObjectLaws.
--   Listing     the sorted lists of pools.rs, networks.rs and api.rs in crates/lodger/src.
--   Supervisor  crates/lodger-virt/src/supervisor.rs: `supervise` and the ends of `session` as a step
--               relation, with the invariant and the reconnection in
--               Supervisor/Laws and the count of the loads in Supervisor/Counting.
--   Inventory   crates/lodger-virt/src/cache.rs and the loop of crates/lodger-virt/src/supervisor.rs.
--   Power       crates/lodger-virt/src/power.rs and crates/lodger-core/src/model/vm.rs.
--
-- State is passed explicitly. A mutex, or the single SQLite connection, makes each call one step, so an
-- interleaving of clients is a list of calls (`Call`, `run`). Times are numbers and arguments. A call of
-- libvirt is a function from the state of the host to a new state and a value or an error (`Host.Io`),
-- and a file's functions take a record of such calls. A text is the list of its code points, and a hash
-- is a number.
--
-- Parameters stand for code outside this repository: `str::to_lowercase`, SHA-256, argon2, random bytes,
-- `serde_json`, `xmltree`, `ipnet` with its documented laws, SQLite's execution of a migration script,
-- and libvirt. The reader of one object of the inventory, which is part of this repository, is a call
-- of an interface too. A statement of the database that fails, a draw of random bytes that fails and a
-- failed task are conditions of a call.
--
-- One definition runs on fuel, the loop of `session_ended` in Web/Socket. Its fuel is one more than the
-- time at which the session is dead in any case, which is enough because each check is later than the
-- one before. Every other loop is over a list or a number.
--
-- Not modelled: the details of the libvirt objects, the handlers of volumes, the console and its
-- WebSocket, the listener and TLS, the configuration, the statistics, the explanations of known errors,
-- the installer, the doctor and the command line. The web interface is not part of these crates.
pub mod Prelude
pub mod Map
pub mod Net
pub mod Validate
pub mod Throttle
pub mod Tickets
pub mod Db
pub mod Xml
pub mod Host
pub mod Pool
pub mod Network
pub mod Delete
pub mod Power
pub mod Inventory
pub mod Listing
pub mod Volume
pub mod Web
pub mod Supervisor
