-- ===== src/Lib.antt =====
-- The access controller of Bridgewire: a badge reader sends records over a serial line, an
-- authorization file says whom to let in, and a relay releases the door for some seconds.
--
-- A record comes from the reader supervisor as bytes, is cut out of the stream and parsed, and goes
-- through the access service to the access controller. The controller asks the authorization store
-- for an outcome, drives the relay, writes audit events, counts suspicious reads in the escalation
-- tracker and puts critical alerts on the notification queue, which a worker delivers.
--
-- Files, and the code that they model:
--   Prelude           lists, tests and results; Prelude/Actions has Python's exceptions, and actions
--                     that read and write a state and return or raise: what was written before a
--                     raise stays written
--   Clock             src/bridgewire/clock.py: ManualClock, and datetimes as an instant and a zone
--   Reader/Record     src/bridgewire/reader.py: parse_reader_record, parse_credential_identifier;
--                     build_record of src/bridgewire/simulation.py
--   Reader/Stream     ReaderRecordStream of src/bridgewire/reader.py
--   Reader/Discovery  ReaderIdentity, SerialDevice, _matches, discover_reader
--   Reader/Backoff    BackoffPolicy
--   Reader/Supervisor ReaderSupervisor: State its fields and the callables of its constructor (Host),
--                     Connect connect_until_ready, Read the reading, losing and closing of a session
--   Reader/Simulated  SimulatedReaderSession of src/bridgewire/simulation.py
--   Escalation        src/bridgewire/escalation.py
--   Audit             AuditEvent of src/bridgewire/audit.py and the checks of its constructor; the
--                     sink and the queue in memory
--   Notifications     DurableNotificationQueue and NotificationWorker of src/bridgewire/audit.py
--   Authorization     AuthorizationFile and AuthorizationStore of src/bridgewire/authorization.py;
--                     Authorization/Install its install_authorization_candidate
--   Gpio              src/bridgewire/gpio.py: SimulatedRelay and RaspberryPiRelay
--   Controller        src/bridgewire/controller.py: State the fields and the protocols of
--                     src/bridgewire/interfaces.py (Ports), Effects the private steps, Operations the
--                     public methods, Tracing ports that keep a log, Operations/Line relays whose line
--                     follows the commands
--   Access            src/bridgewire/application/access_service.py
--   Configuration     src/bridgewire/configuration.py: the typed reads; Configuration/Settings its
--                     floats and the checks of BackoffPolicy and EscalationPolicy, Configuration/Load
--                     load_configuration, Configuration/Whole what the service takes of it,
--                     Configuration/Ranges what the checks leave of the floats
--   Status            src/bridgewire/application/status_service.py; Status/Health the health of
--                     src/bridgewire/application/query_service.py
--   Queries           src/bridgewire/application/query_service.py: cursors and pages; Queries/Rows
--                     src/bridgewire/adapters/persistence/sqlite_audit_reader.py and the row that
--                     SQLiteAuditSink inserts; Queries/Pages a client that asks for page after page
--   Server            src/bridgewire/adapters/http/uvicorn_server.py: its critical sections;
--                     Server/System their interleavings as a step relation
--   Runtime           src/bridgewire/application/runtime.py over Controller and Reader/Supervisor:
--                     its state here, Waiting EventWaiter, Events record_reader_event and the host of
--                     the supervisor as src/bridgewire/hardware_service.py wires it, Loop the rounds,
--                     Shutdown
--   HealthFile        src/bridgewire/adapters/health/file_reporter.py
--   Service           src/bridgewire/hardware_service.py over Runtime: the API server's failures here,
--                     Startup the constructions and the loop, Finish the cleanups and the whole
--                     function
--   Serial            src/bridgewire/adapters/reader/posix_serial.py: the enumeration of the devices;
--                     Serial/Session its session
--   Api               src/bridgewire/adapters/http/api.py over Queries and Status/Health
--   Simulation        the simulated surroundings of a controller in run_vertical_slice_result of
--                     src/bridgewire/simulation.py
--   AuditSink         SQLiteAuditSink of src/bridgewire/audit.py; AuditSink/Recorded what the reader
--                     of Queries/Rows finds of its events
--   Tests             the theorems at concrete inputs
--
-- What the program calls and does not define is a parameter: the ports of the controller, the host of
-- the supervisor, RPi.GPIO, the CSV reader and the schema validator, JSON, base64, the ISO
-- format, TOML, SQLite and its transactions, the file system, udevadm, termios and the calls of the
-- operating system on descriptors are records of operations on a world of any type. Each operation may
-- raise, except readings of a clock.
--
-- Times are whole clock ticks, and fractions of the backoff are exact in thousandths, so nothing is
-- rounded; the one effect of floats that is modelled is the OverflowError of a power of two that no
-- float holds. A bytes value is a list of numbers, and a text whose characters are inspected is the
-- list of its code points. Letters change their case as ASCII. The loop of the stream has as fuel the
-- length of its buffer, which is enough since every round but the last takes a byte off the buffer;
-- the loop of connect_until_ready runs over the attempts that it is given.
--
-- The client of Queries/Pages has as fuel the number of pages that it may ask for; more than the
-- number of stored events is enough. The server has no fuel: a poll, a join or a wait may end at any
-- step, as each has a timeout in the code. The loop of EventWaiter has as fuel one round for each tick
-- of the time waited for and one more, which is shown to be enough; the run loop, which is
-- meant to run until a signal, takes a number of rounds, and the service has no outcome where these
-- are over first.
--
-- Not modelled: the locks but those of the server (every other method runs alone), the lock-free
-- reading of snapshots from other threads, the run of the vertical slice of the simulation,
-- integers below zero in the configuration, the service under a configuration with a float that is nan,
-- infinite or below zero, which has no outcome here, what FastAPI and pydantic convert and validate,
-- the command line, and exceptions that are no `Exception`, such as KeyboardInterrupt.
pub mod Prelude
pub mod Clock
pub mod Reader
pub mod Escalation
pub mod Audit
pub mod Notifications
pub mod Authorization
pub mod Gpio
pub mod Controller
pub mod Access
pub mod Configuration
pub mod Status
pub mod Queries
pub mod Server
pub mod Runtime
pub mod HealthFile
pub mod Service
pub mod Serial
pub mod Api
pub mod Simulation
pub mod AuditSink
pub mod Tests
