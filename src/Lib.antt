-- ===== src/Lib.antt =====
-- The client side of this repository's LED installation: small scripts drive an LED strip through a
-- Brick Daemon, which they reach over TCP through the Python bindings under scripts/tinkerforge. The
-- development models the bindings, which are the connection object with its threads
-- (scripts/tinkerforge/ip_connection.py) and all device classes (scripts/tinkerforge/brick_*.py and
-- bricklet_*.py), and the scripts scripts/led.py, scripts/b.py and scripts/a.py.
--
-- The parts and how they interact. `IPConnection` owns a socket, a receive thread, a thread that
-- probes the connection, and a callback context with a queue and a thread of its own. The receive
-- thread cuts the stream into packets and routes each one: responses to the queue of the device
-- object that waits, callbacks to the callback queue. A method of a device class packs a request,
-- sends it and waits on that queue. The callback thread calls the user's functions, closes
-- a socket that the receive thread or the prober has found lost, and reconnects; a failed write in
-- `send` closes the socket at once. A script makes a connection and a device object, and then calls
-- methods of the device.
--
-- The files, and the code of scripts/tinkerforge/ip_connection.py they model:
--   Base: shared names; Base.Monad is state with exceptions, which keep the changes made before
--     them, as in Python; Base.Words has the bounds of bit operations.
--   Wire: get_uid_from_data and the other accessors, and the header of create_packet_header.
--   Base58, Uid: base58encode, base58decode, uid64_to_uid32.
--   Format: the format strings, as lists of parts; Format.Pack is the packing in send_request,
--     Format.Unpack is deserialize_data; Format.Typing says which values a format carries.
--   State: the fields of IPConnection, Device and CallbackContext. Objects that are shared stand in
--     a store under an address. Starting and joining a thread, writing to the socket, sleeping and
--     calling a user's function are effects. A `World` says for each state whether the socket takes
--     a packet that is written in it, and which packets arrive while the caller waits.
--   Device: class Device.
--   Lifecycle: connect, disconnect, connect_unlocked, disconnect_unlocked, send,
--     handle_disconnect_by_peer, and the settings. An `Attempt` says what the environment grants:
--     which threads start and whether the peer accepts.
--   Receive: receive_loop and handle_response. Each read of the socket is an event, with what other
--     threads did before it as a function on the state.
--   Request: get_next_sequence_number, create_packet_header, send_request, enumerate and
--     disconnect_probe_loop. The packets that arrive while a caller waits are a list; when it ends
--     the wait times out. An `Expiry` of the probe timer has what the other threads did before it.
--   Dispatch: dispatch_meta, dispatch_packet, callback_loop. A `Round` has what happens around one
--     item of the queue: what the other threads do before it and while the thread sleeps, what the
--     user's function does, and the outcomes of the reconnect attempts.
--   Steps: the same methods as the steps of all threads, in any order; Steps.Link is a specification
--     that keeps four Booleans of the state. Steps.Loops, Steps.Callbacks, Steps.Calls and
--     Steps.Handshake take the loops of the threads and the calls apart into steps.
--   Maintenance: class BrickDaemon, IPConnection.__init__, and the requests from
--     write_bricklet_plugin to read_bricklet_uid.
--   Authentication: authenticate. HMAC-SHA1, the random bytes and the clock are parameters.
--   Bindings: the device classes as tables, in Bindings.Devices one file for each, and what all their
--     methods do; Bindings.Sound checks the tables.
--   Scripts: what the scripts share, parsePosition and the texts and indexes of Python it needs;
--     Scripts.Led is scripts/led.py, Scripts.Spot is scripts/b.py, Scripts.Blink is scripts/a.py.
--   Tests: a connection with one LED strip and runs on it.
--
-- Bounds and fuel. Only the inner loop of receive_loop runs on fuel, one more than the bytes that are
-- pending; each round that goes on has taken a byte at least, so it is enough. A loop over what the
-- environment does is a recursion on the list of what it does. Header fields are checked for
-- their widths where they are packed, as `struct` does. A timeout is a number of milliseconds.
--
-- Simplifications. The Python 3 branches are modelled. A method that holds the socket lock is one
-- step; joining a thread is an effect and does not wait. Floats are their 32 bit patterns. Of the
-- steps of the threads, the ones in which the receive thread cannot be started, or in which the user
-- disconnects an open connection while a reconnect is pending, are left out of `Step`;
-- Lifecycle.FailedStart and Steps.Window are about them. The texts on a script's command line are
-- ASCII, and `int` reads digits with a sign and with spaces around them, without underscores.
--
-- Not modelled: what the scripts print, scripts/print.py, which only sends a file by FTP, the web
-- pages, and the bundled Brick Daemon.
pub mod Base
pub mod Wire
pub mod Base58
pub mod Format
pub mod Uid
pub mod State
pub mod Device
pub mod Lifecycle
pub mod Receive
pub mod Request
pub mod Dispatch
pub mod Maintenance
pub mod Bindings
pub mod Authentication
pub mod Scripts
pub mod Steps
pub mod Tests
