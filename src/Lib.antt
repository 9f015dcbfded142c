-- ===== src/Lib.antt =====
-- proxy-for-windows-app: a Windows program that starts applications and routes each of them through
-- a proxy of its own.
--
-- The program has a user interface with a local HTTP server (netmonitor-gui/main.go), and embeds a
-- copy of tun2socks to which it adds a choice of the proxy by process (tun2socks/router/,
-- tun2socks/engine/engine.go). An application is started by a request; a Chromium browser or VS Code
-- gets a local bridge to its proxy, any other application gets a rule for its process ID in the PID
-- router of the engine, while routes set up by netsh and route lead all traffic into the tunnel but
-- for the proxies themselves.
--
-- Files:
-- - Base: names shared by all files; Base/Text has Go strings as lists of code points and the
--   functions of `strings`, Base/Dict Go maps as association lists, Base/FilePath `path/filepath`,
--   Base/Digits `%d` and `%x`, Base/Lines `strings.Split` with `strings.Join`.
-- - Router: tun2socks/router/router.go; Router/Resolver: tun2socks/router/resolver_windows.go.
--   Router/Lineage, Router/Rules and Router/Owners hold the proofs; Router/Refines has the abstract
--   view of a PID router.
-- - Address: `normalizeProxyAddress`, `proxyDisplayName`, `proxyHost` and `parseBrowserProxy` of
--   netmonitor-gui/main.go, proofs in Address/Laws and Address/FourPart.
-- - Network: `configureTunNetwork`, `ensureProxyBypassRoute` and `cleanupTunNetwork`; Network/Routes
--   reads the log of commands as the routes that stand.
-- - Config: `normalizeProxyConfig`, proofs in Config/Proxies, Config/Applications and Config/Lost.
-- - Apps: the map of launched applications and their shutdown; Apps/Registry keeps entries and bridges
--   in step, Apps/Shutdown says which processes are ended.
-- - Engine: tun2socks/engine/engine.go; Engine/Wired: the tunnel and its PID router.
-- - Launch: `buildLaunchCommand`, `buildVSCodeCommand`, `waitForProfileProcesses` and
--   `ensureChromiumProfileReadyForLaunch` (Launch/Processes) and the monitors of launched applications
--   (Launch/Monitor), with proofs in Launch/Command, Launch/Settings and
--   Launch/Profile.
-- - Service: `handleProxyEngineStart`, `handleProxyEngineStop` and `handleLaunchApplication` over the
--   state of all the parts above; Service/Started and Service/Ready have the invariant over sequences of
--   requests, Service/Routed a launch that succeeded, Service/Bridges the bridges of browsers. Service/Race
--   lets the steps of two launches interleave that read `proxyEngineRunning` without its lock, each call of
--   the engine a step of its own; Service/Race/Alone ties the steps to the handler.
-- - Bridge: the local bridge of a browser, `ServeHTTP` and `handleConnect`; Bridge/Copies has the two
--   copies of `proxyCopy` and the closing as steps of one byte, Bridge/Run their runs.
-- - Heartbeat: `/ui-heartbeat`, `beginBusyOperation` and `watchUIHeartbeat`; Heartbeat/Exit and
--   Heartbeat/Liveness say when the program ends itself.
-- - Backup: `importBackup`, `shouldSkipBackupEntry`, `clearManagedChromiumCache` and `pathInside`, with
--   proofs in Backup/Inside and Backup/Cache. Backup/Export: `exportBackup`, `writeBackupArchive` and
--   `hasZipEndOfCentralDirectory`; Backup/Exported, Backup/RoundTrip and Backup/Archive hold the proofs.
--   Backup/Requests: the handlers of both.
-- - Catalog: `loadProxyConfig`, `saveProxyConfig`, `handleProxyConfig`, `handleApplications`,
--   `handleChooseExecutable` and `handleClearApplicationCache`, proofs in Catalog/Stored and Catalog/Choose.
-- - Connections: `handleConnections`, `tcpState` and netmonitor-gui/winapi.go; Connections/Console:
--   netmonitor/main.go and netmonitor/winapi.go; Connections/Fetching: the reading of the tables in both.
-- - Probe: `handleProxyTest`, `handleProxyMetadata` and `lookupCountry`. Logs: `handleLogTail` and
--   `handleShortcutLog`. Dialogs: `decodePowerShellUTF16Base64`, `chooseBackupPath`, `chooseExecutable`.
-- - Startup: the decisions of `main`, `ensureWintunDLL`, and `/restart` with the process it starts.
-- - Scripts: the scripts of PowerShell that hold a text of the user, and what is read of their output, in
--   `handleApplicationIcon`, `resolveLNK`, `processPIDs` and `chromiumPIDs`.
-- - Recognize: `handleRecognize`, `handleApplicationCatalog` and `defaultGateway`; Recognize/Temporary: the
--   temporary file of the first.
-- Tests beside each component run it on concrete data.
--
-- How the source is read:
-- - A method on a pointer, or a function on package variables, takes and returns a record. A call
--   that returns an error is a `Result`.
-- - Go strings are lists of code points, since the texts in question come from JSON and are valid
--   UTF-8. `uint32` fields are numbers; where the source narrows one, `% 2 ^ 16` is written.
-- - The functions of net, net/url and fmt.Sscan that Address needs are the record `NetFunctions`,
--   `strings.ToLower`, `filepath.VolumeName`, `uuid.NewString` and `windows.Ntohs` are function
--   arguments. The system's answers to commands are a function of all commands before (`System`), so
--   that every theorem holds for every behaviour of the system; the snapshots of the process table
--   are numbered, so that the table may change while the PID router climbs it. A pick reads the
--   router's maps as they are at its start.
-- - A `range` over a map visits its entries in the order of the list; theorems quantify over all
--   lists and so over all orders.
-- - Logging is left out: no value depends on it.
-- - Fuel: the digits of a number n get n + 1 rounds, more than it has digits; the climb of the PID
--   router has the 12 rounds of the source.
--
-- - Interleavings: the copies of a tunnel, two launches, and the two processes of a restart are step
--   relations, and what is said of them holds of every order of their steps. All other requests run one
--   after another.
--
-- Not modelled: the parts of tun2socks other than the router and the engine's PID routing, which are
-- the upstream project's; reading the system's tables and the pointers behind them; what the scripts
-- of PowerShell do; logging, elevation and the opening of windows, which are calls of the system; what the
-- console prints around its rows; and the front end.
pub mod Address
pub mod Apps
pub mod Backup
mod Base
pub mod Bridge
pub mod Catalog
pub mod Config
pub mod Connections
pub mod Dialogs
pub mod Engine
pub mod Heartbeat
pub mod Launch
pub mod Logs
pub mod Network
pub mod Probe
pub mod Recognize
pub mod Router
pub mod Scripts
pub mod Service
pub mod Startup
