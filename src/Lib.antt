-- ===== src/Lib.antt =====
-- A model of ssh-askpass-fido, an askpass program for ssh and ssh-agent with a session service that
-- caches passphrases and PINs, checks security keys, and shows a window while a key waits for a touch.
--
-- The parts and the files that model them:
--   * Askpass: internal/askpass/protocol.go. What kind of prompt ssh asks with (`Parse`), which
--     answers may be written (`Validate`, `WriteResponse`), and which credential a prompt is for
--     (`CacheKey`, Askpass/CacheKey; `ValidFingerprint`, Askpass/Fingerprint).
--   * Cache/Identity, Cache/Resolve: internal/cache/identity.go. A key and the file that it is now.
--   * Cache/Store: internal/cache/store.go. `Store` with `Begin`, `Current`, `Reject`, `Commit`,
--     `Forget` and `Sweep`. A caller begins, and gets the secret or a ticket with which it commits
--     what the user typed. Each method is a function from a store to the next one; the mutex makes
--     it one step. The modules below it prove what it promises, and Cache/Store/Run puts calls in a
--     row.
--   * Lifecycle: internal/lifecycle/linux.go. Processes, as /proc shows them.
--   * Ipc: internal/cacheipc/ipc.go. Frames (`readFrame`, `writeFrame`), callers (`caller`, `alive`)
--     and `handle`, which asks the store on behalf of the process at the other end. Ipc/Handle/Answers
--     lets the requests of all connections, the ticker and the handler take turns at one store.
--   * Touch/Descriptor, Touch/Tracker: internal/touch/report.go. Which reports of a device to read,
--     and which channels of it wait for a touch. Touch/Tracker/Traces has the runs of one device.
--   * Touch/Monitor: internal/touch/linux.go. `Monitor.Run`: a scan for interfaces once a second
--     (Touch/Monitor/Scans), and what the readers get in between (Touch/Monitor/Rounds), on one state with
--     the readers and the events. Touch/Monitor/Desired lets it speak to the popups.
--   * Service/Popups: internal/service/touch.go. `TouchPopups`: the monitor says which devices wait
--     (`SetTouch`), and `Run` opens a window for each and closes it. Service/Popups/Sessions has the
--     interleavings.
--   * Dialog: internal/dialog/protocol.go, internal/device/device.go. What the service and a window tell
--     each other, and security keys.
--   * Fido: internal/fido/backend.go. Which security keys there are (`Discover`), which connection of one
--     a path is now (`identity`), and the try of a PIN (`Verify`).
--   * Service/Handler: internal/service/service.go. `Handle`, one request of an adapter: a handler
--     is a function of the state, which is the shared store, the window and a world that answers its
--     calls, and notes what it does. Handler/World has the world and the store's methods,
--     Handler/Windows the frames and the windows; Handler/Opening, Handler/Sessions with
--     Handler/Devices and Handler/Attempts, and Handler/Delivery are the parts of `Handle` in their
--     order. Other connections may call the store after each call outside and before each of the
--     handler's own calls of it. Service/Handling has rules for handlers, and what holds of the events
--     and of the end; Service/Handling/Keeping puts a run of the handler behind a history of the
--     store.
--   * Preferences: internal/preferences/store.go. Which device was used for a fingerprint, in a file.
--   * Adapter: internal/app/app.go. `Run`, the program that ssh starts: it sends one request, follows
--     the events of the service, and writes the answer.
--   * Conversation: the handler and the adapter together, over the frames that one sends to the other.
-- Base has the maps, the integers and the tests that all of them use. Text and Base64 are what the
-- code uses of Go's strings, unicode/utf8, strconv, path/filepath and encoding/base64. Tests has
-- runs on small inputs.
--
-- Strings and byte slices are lists of numbers, and maps are association lists, whose order stands
-- for the order in which `range` visits them. A uint64 counter wraps, and a sum of durations is one
-- of int64. Times are nanoseconds; each reading of a clock is an argument. What the file system, the
-- process table and a connection answer are arguments too. JSON is a pair of functions that the
-- frames and the preferences take.
--
-- The loop of `Descriptor` runs on fuel, as many rounds as the text has bytes: each round takes at
-- least one byte, so that they are enough. `digits` has as much fuel as the number is large, which a
-- division by ten uses up one by one. The loops of `Handle` run as long as the user goes on, so they take
-- fuel, each as much as `handle` is given; twice the number of the user's actions and three more is
-- enough. The loop of `identity` over directories has as many rounds as the path has bytes: each parent
-- is shorter. All other loops are structural.
--
-- Not modelled: the windows and GTK, system calls on sockets and devices, the command lines, the
-- packaging, labels for windows (`CleanLabel`); and so far `Serve` of internal/cacheipc and the
-- configuration. For `Handle`, the goroutine that waits for the second frame is the answer to one call,
-- and the calls of the store that other connections make come between its own. The end of a popup and
-- its signal to `Run` are one step.
pub mod Base
pub mod Text
pub mod Base64
pub mod Askpass
pub mod Dialog
pub mod Fido
pub mod Cache
pub mod Lifecycle
pub mod Ipc
pub mod Touch
pub mod Preferences
pub mod Service
pub mod Conversation
pub mod Adapter
pub mod Tests
