-- ===== src/Lib.antt =====
-- A model of esp_iot_framework, the C++ library for devices on the ESP32 and the ESP8266, and the
-- theorems about it.
--
-- The program. A device has parameters (base/parameter.h), which the clients of two servers read and
-- write: the WebSocket server (network/server/ws.h), with packets of the binary protocol
-- (network/protocol/), and the MQTT server (network/server/mqtt.cpp), with texts. A change that comes
-- in by one of them goes to the other over the notification bus. The parameters' memory is kept in a
-- file by the storage (misc/storage.h), which writes it when a timer (misc/timer.cpp) runs out. Devices
-- also send each other messages by ESP-NOW (network/base/async_now_interactions.cpp). The Wi-Fi manager
-- (network/wifi.cpp), the LED (misc/led.cpp) and the button (misc/button.cpp) are state machines that the
-- main loop polls.
--
-- The model. A component's state is a record, and each of its operations a function from the state to
-- the state. What it asks of code that is not its own is recorded in the state, in order: messages to
-- AsyncWebSocket, calls of AsyncMqttClient, of the WiFi object and of handlers, writes to pins, calls
-- of the timer. What such code answers, and what `millis()` returns, is an argument. Memory is a list
-- of bytes, a pointer that is written through is the memory behind it, and a length that is cut to
-- eight or sixteen bits, or a sum of 32 bits that may wrap, has its remainder written out.
--
--   Prelude            Boolean tests, words of 16 and 32 bits, lists, memory and maps, for all parts
--   Base.Parameter     base/parameter.h: Parameter, ComplexParameter, FixedString, GeneratedParameter
--   Protocol.Types     network/protocol/type.h: response codes, the packed header
--   Protocol.Binary    network/protocol/binary.h: BinaryProtocol, each of its functions
--   Misc.CircularBuffer   misc/circular_buffer.h: acquire and pop
--   Misc.Timer         misc/timer.cpp: _add, _clear, _grow, handle_timers
--   Misc.Storage       misc/storage.h: begin, save, force_save, _commit_impl, _check_changed
--   Misc.Saving        misc/storage.h and misc/timer.cpp together: a storage whose commits the timer calls
--   Misc.Led           misc/led.cpp: blink, flash, turn_off, tick
--   Misc.Button        misc/button.cpp: the interrupt and handle
--   Network.WebSocket  network/server/ws.h: WebSocketServer, on the protocol, the parameters and the
--                      circular buffer
--   Network.Topics, Network.Mqtt   network/server/mqtt.cpp: MqttServer, on the parameters
--   Network.Bus        misc/notification_bus.h between the two servers: what comes in by one goes out by
--                      the other
--   Network.Wifi       network/wifi.cpp: WifiManager
--   Async.Dispatcher, Async.SystemTimer   async/dispatcher.cpp and async/system_timer.cpp: the queues
--                      of functions that are called later
--   Async.World, Async.Promise, Async.Future, Async.Waiting   async/promise.h, async/promise.cpp,
--                      async/future.h: PromiseBase, Promise, FutureBase, over a store of promises
--   Async.Running      the bodies of their lambdas, and the tasks that call them
--   Now.Transport      network/base/async_now.cpp: AsyncEspNow, on the promises
--   Now.Requests       network/base/async_now_interactions.cpp: begin, end, send, request, respond,
--                      discover_peer_channel, on the transport, Now.Interaction and the promises
--   Now.Interaction    network/base/async_now_interactions.cpp: _send_impl, _on_packet_received
--   Now.Io, Now.Io.Server   network/server/now_io.cpp: packets of items over the interactions, and NowIo
--                      over the requests
--   Now.Running        the bodies of the lambdas of Now.Requests and Now.Io.Server
--   Misc.Vector        misc/vector.h: Vector
--   Misc.EventTopic    misc/event_topic.h: EventTopic, who is called for an event
--   Misc.NtpTime       misc/ntp_time.cpp and misc/ntp_time.h: begin, today_tz, over NTPClient
--   Base.Metadata      base/metadata.h and utils/metadata.h: declarations of parameters and their visitor
--   Network.Web        network/web.h and network/web.cpp: WebServer, WebAuthHandler
--   Bootstrap          bootstrap.h: Bootstrap, on the Wi-Fi manager, the servers, the storage, the timer
--                      and the event topic
--
-- Below each of these stand its theorems, in modules named for what they are about, and in modules
-- called Tests the theorems applied to concrete values.
--
-- Bounds and fuel. The loop of update_string_list_value runs on the size of the packet and that of
-- _send_impl on the size of the message: each round takes at least one byte. The loop of handle_timers
-- runs on the number of entries, which no round that goes on can change. A packet of the WebSocket
-- server has at most 260 bytes and its queue 10 slots, as the source's defaults are; an ESP-NOW message
-- has at most 255 packets of 245 bytes. The loop of timer_task runs on the number of timers that are due,
-- and that of wait on one more than the milliseconds of its timeout: its first check comes before any
-- delay, and every delay makes at least one pass.
--
-- Parameters of the model: the Arduino core's conversions between texts and numbers (`Conversions`, one
-- for the type of each parameter, of which only the size of a number is assumed), the memory that `new` returns, of the size that is asked
-- for (`fresh`, `heap`, `stack`), what a timer's callback does to the timer, the functions that a
-- program hands to promises and futures (`Program`), and NTPClient, with what it documents as a
-- hypothesis. What FreeRTOS and the drivers answer is an argument.
--
-- Not modelled: when a task of async/ yields; two cores inside one promise at a time, for its operations
-- are atomic here; the clock moving on between the readings that misc/ntp_time.h adds up. NtpTime::date,
-- the debug output, and the macros and QR codes of utils/ are calls of libraries or have
-- no state. A callback of the timer is assumed to leave the array where it is, as the source needs; that the program's memory suffices for a message on the stack is not looked at.
pub mod Prelude
pub mod Base
pub mod Protocol
pub mod Misc
pub mod Network
pub mod Now
pub mod Async
pub mod Bootstrap
