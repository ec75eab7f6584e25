-- ===== src/Lib.antt =====
-- The gateway: an ESP32 that offers a receipt printer, a barcode scanner, a trigger input, a relay,
-- an LED matrix and a USB camera to clients over WebSockets.
--
-- Parts. A client connects to the server of main/main.c. `wss_open_fd` hands the new socket to the
-- keep-alive task (main/keep_alive.c), which pings silent clients and has them closed. With the
-- handshake for a path `/<number>` the socket enters the table of a device; text frames of the socket
-- then go to the command handler of that device, and messages of the device go, through `device_cb`,
-- to all sockets of its table. A close frame, or the closing of the socket, resets the entry. A watch
-- task restarts the board while no client is connected.
--
-- Files.
--   Prelude, Prelude/*: the libraries' names passed on; Boolean tests, arrays, `int`, small ranges.
--   Words: 64-bit sums and differences. Decimal: `%lu` and the digits of `%d`. Rtos: a FreeRTOS queue
--   and a byte ring buffer as interfaces. Esp: error codes and frame types.
--   KeepAlive/*: main/keep_alive.c. `Storage` is `wss_keep_alive_storage_t`, `task_round` one round of
--   `keep_alive_task`, `check_clients` its loop after a timeout, and `get_max_delay`,
--   `update_client`, … the functions of these names; Life and Silent are about rounds in sequence.
--   Clients/*: the six tables of main/main.c and the loops over them.
--   Server/*: `start_webserver`, `ws_handler`, `camera_client`, `wss_open_fd`, `wss_close_fd`,
--   `device_cb`, `softWD`, the queued answers (Async) and the reactions to a lost link, with the calls
--   that they make as a list of effects.
--   Printer/*: main/printer/ESC.c: the transfer buffer, the printing commands, the jobs of
--   `escHandleCommand`, the printer's status, the USB class driver as a step relation, the semaphores
--   of handler and status task (Exclusion), the transfer between `print` and the USB host (Lending),
--   the questions of `getPrinterStat` (Asking), the starts of the tasks (Startup), the functions
--   `action_get_…` (Descriptors) and a reader of ESC/POS bytes (Reader) to which whole jobs are
--   given (Ticket, Decode). Lines, Receipt and Overrun are about jobs of texts.
--   Devices/*: main/relay, main/trigger (Trigger, and Edges for trigger2.c, which is not built),
--   main/barcode_scanner and main/led_matrix (Led, and Display for the tasks on one line); cJSON is
--   the interface `Cjson`.
--   Camera/*: main/camera/usb_camera.c: the frames' way through the ring buffer (Stream), the start of
--   the USB host (Usb), `main_loop` (Loop, Handle) and `initCamera` (Start).
--   Board/*: the server and the devices together: `board_request` runs the command handlers that
--   `ws_handler` calls and the callbacks that they make; the tasks' rounds act on the same state; Start
--   and Up are about `app_main`.
--   Wifi, Wifi/*: `event_handler` and `wifi_init_sta` in main/main.c.
--   Files whose names end in Tests run the code at concrete inputs, with the data of ListFifo,
--   ListRing and Sample.
--
-- Conventions. State is passed along; a call of a library whose result matters is a parameter that
-- gives the result, and a call with an effect outside is an entry of a list. The timer of the
-- keep-alive task is a function from the number of readings. C strings are lists of bytes without the
-- terminator. Accesses outside an array or through NULL are marked by a `fault` or by an outcome of
-- their own, not given a meaning.
--
-- Bounds. Loops over arrays recurse on the list or on the number of entries left. The loop of
-- `printBarcode` is given a number of rounds, since it may go on for ever: one more than the length of
-- the text is enough for a text of at most 255 bytes; and the negotiation of a camera's format is given
-- a number of attempts, enough if one of them succeeds. 64-bit sums wrap around; sizes and times are
-- assumed to be values of `size_t` of 32 bits and readings of a timer that does not go back.
--
-- Not modelled: the set-up of drivers, logging, and the copies of ESP-IDF components. Allocation by
-- `malloc` of default JSON items and of the USB transfer is taken to succeed, and so is the creation of
-- queues, semaphores and tasks whose results the code does not look at, except in KeepAlive/Engine,
-- Startup and Display.
pub mod Prelude
pub mod Words
pub mod Decimal
pub mod KeepAlive
pub mod Rtos
pub mod Clients
pub mod Esp
pub mod Server
pub mod Printer
pub mod Devices
pub mod Wifi
pub mod Camera
pub mod Board
