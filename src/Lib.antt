-- ===== src/Lib.antt =====
-- A model of the backend of the chalet kiosk, and the theorems that make it correct.
--
-- The kiosk is a Django application (kiosk_agent/) on a box in a chalet. A guest chats or talks
-- with a concierge; the concierge and the kiosk's pages command infrared controllers (ESP32
-- boards) in the local network, and requests for the staff go to an external service. All state is
-- in one database; what the parts say to each other goes through its rows.
--
-- The parts, and the files that model them:
--   Value        JSON values, and what Python does with them (`dict`, `isinstance`, truth values).
--   Models       the rows of kiosk_agent/models.py, and the database as one record of tables.
--   Channel      the channel layer as the list of the events sent (kiosk_agent/consumers.py).
--   Chat         kiosk_agent/services.py: `enqueue_message`, and `ResetView` of views.py.
--   Agent        kiosk_agent/core/agent_engine.py: the run of the model with its tools; and
--                kiosk_agent/tasks.py: `run_concierge_task`.
--   Realtime     the session, message, tool and close endpoints of kiosk_agent/views.py.
--   Tools        kiosk_agent/core/tools.py: the interface through which a tool is run, the models of
--                the inputs, the seven handlers and `execute_tool`.
--   Remote       kiosk_agent/remote_control.py: the press of an infrared button;
--                kiosk_agent/tv_remote.py; and kiosk_agent/ir_capture.py with its two endpoints.
--   Ac           kiosk_agent/ac_control.py: the protocols, the validation of a state, the reading
--                of an ESP32's answer, `set_ac_state`, and the reports of an ESP32.
--   Staff        kiosk_agent/integrations/saas.py and `forward_staff_request_task` of tasks.py.
--   Discovery    kiosk_agent/device_discovery.py: the scan of the network; and kiosk_agent/tasks.py:
--                `sync_remote_ips` and its task.
--   System       the transactions of all these parts as the steps of one system.
--   Wifi         kiosk_agent/wifi.py: `nmcli` and `gdbus`, the scan, the status, and `connect_wifi`.
--   Voice        kiosk_agent/voice/text.py: the text that is spoken.
--   Permissions  kiosk_agent/permissions.py: the key, the origin and the cookie of a request.
--   Examples     a small chalet on which the definitions run and the theorems below are applied.
--
-- How code and model correspond. A function that reads or writes the database takes the database
-- and returns it; an exception that leaves `transaction.atomic` returns the database it found. A
-- UUID, a time and a primary key is a natural number; what the code draws (a fresh UUID) or reads
-- (the clock, the settings) is an argument. `ChaletConfig` is the one row that `load` finds. A
-- query is the list of its rows in the order of the query. JSON objects are association lists with
-- distinct keys. What the code only gets from Python's text library for arbitrary Unicode
-- (casefold, lower, the printing of values, the reading of a float) is the record `Runtime`. A
-- controller in the network is an arbitrary function of the requests that it got so far, so it may
-- answer differently every time, or not at all. A tool is run through the interface `ToolRunner`,
-- whose laws say which tables no tool writes; `tool_runner` fills it with `execute_tool`. A handler of
-- a tool also gives what it has sent to a device. The record `Outside` holds what the tools take from
-- outside: the controllers, pydantic's reading of a value, the signing of a token, the queue of the
-- worker, and the printing of JSON. The language model is a function of the messages and
-- the database, and gives the database back: other processes may have written anything to it.
--
-- Loops over a list are structural recursion and need no fuel; the loop of the agent recurses on
-- the iterations that are left, five at the start as in the code, and reaching none is its
-- exception. The loop that cuts a sentence recurses on fuel, the length of the sentence, which is
-- enough because a round drops at least one character. The press of a button takes from outside, in
-- the record `World`, the controllers, the answer of Redis to the cooldown lock, the time that a
-- request took, and what `int` and `urlsplit` make of unusual texts; the staff service is a
-- function of the settings; the discovered devices are an argument of the refresh. The scan takes
-- from outside what `netifaces` says, the reading of the texts of addresses, and what each host
-- answers; in it an address is its number. The host of the Wi-Fi is a function of the commands so
-- far to the end of the last process.
--
-- A step of the system is one statement or one transaction that writes, and steps come in any
-- order. `_save_message` reads the stay and creates its row without a lock, so its row is a step of
-- its own, which knows nothing of the stay; in a run of the agent the record `Services` says what
-- other processes write between the two, and the record `Worker` what they write before a task
-- claims its request. The steps of a tool call of the Realtime endpoint that stand alone are its
-- end, and its reservation, which is a call whose tool raises.
--
-- The texts of the errors and the log are not modelled, but for those of the Wi-Fi: an error is its
-- code. Not modelled are the exceptions of `full_clean` on the settings row at a reset and of httpx
-- on a malformed URL, the bound of `state_version`, the pages, the health, memory and Wi-Fi views,
-- the button configuration and the field validation of the REST framework, which mostly render and
-- read; the WebSocket consumer, which passes the events on; the welcome speech, the audio of the
-- voice endpoints and the description of a Realtime session, which are calls of the provider; the
-- schemas of the tools for the provider, the Django admin, settings and migrations, which are
-- declarations; the script test_ip_discovery.py; and the JavaScript and the firmware of the ESP32
-- boards, which are other languages.
pub mod Ac
pub mod Agent
pub mod Channel
pub mod Chat
pub mod Discovery
pub mod Examples
pub mod Models
pub mod Permissions
pub mod Prelude
pub mod Realtime
pub mod Remote
pub mod Staff
pub mod System
pub mod Tools
pub mod Value
pub mod Voice
pub mod Wifi
