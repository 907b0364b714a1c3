-- ===== src/Lib.antt =====
-- l3afd: the daemon, from its configuration file to the eBPF programs it runs.
--
-- l3afd runs eBPF programs on the interfaces of a host. Each interface has up to three chains of programs
-- (xdpingress, ingress, egress): doubly linked lists in the order of the programs' sequence IDs, with a
-- root program in front when chaining is enabled. Each program hands packets to the next through a map that
-- is pinned under the program's map name. An API call carries the wanted configuration of some
-- interfaces; the daemon compares it with what runs, starts, stops, moves and relinks programs, and
-- saves what it reports to a store, which it reads when it starts again. Monitors restart programs
-- that ended and publish values of their maps.
--
-- The parts and their modules
--   Models         models/l3afd.go, the constants and the records of a configuration
--   Config         config/config.go, the settings; Config.Loader config/config_loader.go, one setting of
--                  the file; Config.Reading ReadConfig and loadTLSVersion
--   Stats          stats/metrics.go, Incr, Set and SetValue on the vectors that may be nil
--   Pidfile        pidfile/pidfile.go, one instance at a time
--   Main           main.go: the checks of the kernel, the configuration store; Main.Startup the order in which
--                  the daemon starts, SetupNFConfigs included
--   Apis           apis/handlers and apis/routes.go, the answers to API calls; apis/configwatch.go, when
--                  certificates are asked for
--   Os             what the daemon calls: system, processes, kernel maps, archives, JSON, HTTP; one record
--                  of functions on an abstract world, about which nothing is assumed
--   Files          what some properties rely on of the file system: an interface that an Os may offer;
--                  Files.Retains statements that leave a file as it is
--   Exec           the statements of the code: state passing with a value, an error, a panic or a block
--   Sys            statements without a state of their own
--   Exec.After, Exec.Answers
--                  what holds after a statement, by its outcome, and that it comes to an end
--   Kf.State       the structs of kf by pointers, and NFConfigs with its chains
--   Kf.Access      reads and writes of that state, the switch on the direction
--   Kf.ElementList container/list
--   Kf.PinnedMaps, Kf.ConfigMaps, Kf.Artifacts, Kf.Processes, Kf.Lifecycle, Kf.RootProgram
--                  kf/bpf.go, kf/bpfmap.go, kf/kf_unix.go: PutNextProgFDFromID to VerifyMetricsMapsVanish,
--                  AddBPFMap and Update, GetArtifacts, isRunning and the like, Start, Stop, LoadRootProgram;
--                  kf/kfCfgs_internal.go: RunKFConfigs
--   Kf.Metrics     kf/bpfmap.go, kf/bpf.go: AddMetricsBPFMap, MonitorMaps, GetValue and its aggregators;
--                  Kf.MetricsMonitor kf/kfmetrics.go, one round of kfMetricsWorker
--   Kf.Linking, Kf.Placement, Kf.Removal, Kf.Equality, Kf.Update, Kf.Deploy, Kf.Report
--                  kf/nfconfig.go: LinkBPFPrograms to MoveToLocation, RemoveMissingBPFProgramsInConfig,
--                  VerifyNUpdateBPFProgram, Deploy, EBPFPrograms and KFDetails
--   Kf.Configs     kf/nfconfig.go: NewNFConfigs, DeployeBPFPrograms, SaveConfigsToConfigStore and
--                  RemoveMissingNetIfacesNBPFProgsInConfig
--   Kf.Close       kf/nfconfig.go: Close; apis/configwatch.go: GracefulStop
--   Kf.Monitor     kf/processCheck.go: one round of pMonitorWorker
--   Kf.View        the abstraction: chains, configured programs and the map each is linked behind
--   Kf.Quiet       statements that leave the view alone
--   Kf.Local       statements that work on the chains of one interface
--   Kf.Leaves      statements that leave what is known of one struct
--   Kf.About       statements that change the configuration of one program
--   Kf.Outcome     what holds of the view on every outcome of a statement
--   Kf.Placed      the lists themselves: inserting, moving and removing in a sorted and linked list
--   Tests          systems, interfaces and the properties at them
--
-- How the code corresponds to the model. A method of *BPF takes the struct's pointer, a natural number,
-- and reads and writes the heap of structs; an error is the message of its fmt.Errorf without arguments,
-- and the state stays as the error found it. A nil pointer that is used panics, and so does an
-- entry written to a nil map. A channel counts the receives that wait on it. A log.Fatal is an error
-- that nothing catches. A Go map is an association list in the order of one range over it. Log lines
-- are left out. A map of list pointers may hold nil. The goroutines that one call starts and waits for
-- run whole, one after the other, in an order that is an argument of the call; so is what they see of
-- the loop's variable, and which case a select takes. Floating-point numbers are exact
-- integers and quotients of them, which float64 agrees with below 2 ^ 53.
--
-- Bounds. The loop that removes programs has as many rounds as its list has elements, which are enough where
-- no element stands twice. The waits of the code are loops of ten rounds with a sleep, as in the source. The walk over the
-- map IDs has 2 ^ 32 rounds, which are enough as IDs are 32 bits wide and increase; a longer walk counts as
-- never ending. A number that is parsed has 63 bits and a sign, as an int of 64 bits has.
--
-- Not modelled: the mutex of NFConfigs (one call at a time) and goroutines that interleave inside a
-- call; contexts; the HTTP servers, their routing and the TLS handshake; the debug server of
-- kf/kfdebug.go, whose only data, KFDetails, is modelled; the registration of metrics with
-- prometheus; flags and logging; the loaders of floating-point settings, which nothing calls;
-- windows, and the generated documents of docs. The kernel, archives, JSON, the reader of the
-- configuration file and prometheus are not under the repository and stand behind Os, Reader and Stats.
pub mod Prelude
pub mod Models
pub mod Os
pub mod Exec
pub mod Sys
pub mod Files
pub mod Pidfile
pub mod Main
pub mod Apis
pub mod Config
pub mod Stats
pub mod Kf
pub mod Tests
