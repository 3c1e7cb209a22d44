-- ===== src/Lib.antt =====
-- A BLE gateway: BLE_Scanner talks to a BLE controller over a UART, and LED_Manager drives LEDs.
--
-- The parts and how they interact. The controller's packets arrive byte by byte at
-- `UartCmdRxThread` (BLE_Scanner/src/UartCmdRxThread.c), which puts them together, changes the
-- connection list and sends them on message queues (BLE_Scanner/Drivers/Msg_Def.c) to
-- `CentralModeThread` (BLE_Scanner/src/CentralModeThread.c), which scans for a peripheral and
-- connects to it, to `pipe_0000_Thread`, which cuts out what the peer wrote, and to
-- `Forward_MSG_Queue_Thread`, which writes it to the other peers. Apart from these, a user's
-- command line (LED_Manager/led_manager.c) reaches the two threads of
-- LED_Manager/led_controller.c over a FIFO, and mosquitto_client/sub_client.c sends the cloud's
-- messages on a queue of its own.
--
-- The files:
--   Prelude            Booleans, lists, arrays of bytes, and the faults that C leaves undefined.
--   Hci                BLE_Scanner/src/HCI_Commands.h: opcodes, events, byte macros.
--   Drivers            BLE_Scanner/Drivers/Msg_Def.c and UARTDriver.c: `sys_mq_send`,
--                      `sys_mq_recv`, and what is made of the results of `open`, `read` and
--                      `write`; Queues makes and removes queues, Device is UARTDriver.c as a
--                      whole.
--   Connections        `Conn_Device_List`, `Device_conn_count`, `Upadate_Disconnection`.
--   Commands           the bytes of each packet that the two threads write to the UART.
--   Parameters         BLE_Scanner/src/BLEParameters.c: `SetParamValue`.
--   Receiver           the state machine of `UartCmdRxThread`, one turn for each byte.
--   Router             the ladder of tests of `UartCmdRxThread` on a whole packet, `data_ack`.
--   Central            `CentralModeThread`: State is its state and what a turn meets, Calls the
--                      functions that it calls, Loop its `switch`, Answers two functions that
--                      nothing calls.
--   Pipe               `pipe_0000_Thread`.
--   Forward            `Forward_MSG_Queue_Thread` with its three retry loops.
--   Uart               the body of the loop of `UartCmdRxThread`: Receiver and Router together; Poll
--                      is the loop with its test of `SysExitFlag`, `select` and `read`.
--   Network            the threads of the scanner together, in any order of their turns; Queues
--                      is the same over queues that hold what was sent, Bounded over queues of
--                      limited size, and Running tells the reading of a byte from the end of its turn
--                      and lets `main` set `SysExitFlag`.
--   Start              BLE_Scanner/src/VVDNBLEMeshStack.c: the threads that `main` starts.
--   Gpio               BLE_Scanner/Drivers/GPIOAccess.c.
--   Led                LED_Manager/led_manager.c and led_controller.c; Threads is
--                      `Led_Controller_Processing` and the orders it meets, System both threads
--                      of led_controller.c in any order of their turns, Requests a user's
--                      requests one after the other.
--   Cloud              the callbacks of mosquitto_client/sub_client.c, and its `main`.
--   Relay              the way of a peer's packet through these threads.
--   Tests              the theorems at concrete inputs.
-- The other modules below these hold the theorems, by what they are about.
--
-- How the model stands to the code. An array is a function from its index, and the code that
-- writes or reads behind an array's size yields a fault, as does a variable that is used before
-- it is assigned. The bytes written to the UART and the messages sent are recorded in order.
-- What the system yields (the result of `write`, the message of `msgrcv`) is an input of each
-- turn. A function of `CentralModeThread` that ends without its `return` yields a value that is
-- an input, too. An `int` is its bit pattern below 2 ^ 32, so -1 is 4294967295; a `uint8_t`
-- wraps at 256 and a `uint16_t` at 65536, written out. No loop needs fuel: each goes over the
-- bytes, the replies or the inputs that come in, or over a fixed number of rounds; a loop that
-- waits for ever is one that does not finish on any list of replies.
--
-- In Network, Led/Threads and Led/System a step is a turn of one thread, or half a turn where
-- another thread may come in between: `Led_Controller_Processing` reads a pin's structure and
-- prints, and then assigns. In Network `msgrcv` is taken to yield any message that was sent on
-- its queue, so that no theorem there rests on an order or on a message's being taken once. In
-- Network/Queues a queue is the list of its messages, empty at the start: `msgsnd` adds one at
-- the end and `msgrcv` takes the first, as their manual states. Where `msgrcv` fails,
-- `pipe_0000_Thread` and `Forward_MSG_Queue_Thread` handle the message that was taken last once
-- more, as the code does. The replies that `Forward_MSG_Queue_Thread` takes in the middle of its
-- turn, while others arrive, are any. In Network/Bounded a queue holds at most as many messages
-- as a limit says, which is a parameter, and each step is a turn that has ended; a turn that
-- would put one more message on a full queue has not ended. In Network/Running `UartCmdRxThread`
-- takes two steps: it finds `SysExitFlag` to be 0 and reads a byte, and it ends the turn, which
-- waits while a queue is full. `main` may set `SysExitFlag` there at any time, if a thread could
-- not be created. Network lets all four threads of the scanner take turns; Start says which of
-- them `main` starts. Network, Queues and Bounded leave `SysExitFlag` out: what holds there in
-- all reachable states, holds whether it is set or not.
--
-- Not modelled: BLE_Scanner/generic, what is printed, and most pauses, since all of these are
-- I/O alone; the part of `Forward_MSG_Queue_Thread` under `#if 0`; and the rest of
-- mosquitto_client, which is a copy of another project's clients. `cfmakeraw` is a parameter of
-- Drivers/Device, with what its manual states. `msgget` and `msgctl` are an interface in
-- Drivers/Queues, with the laws that their manual states. `sscanf` is a parameter of Led; the
-- theorems that need it take as a hypothesis that it reads a decimal digit that a zero byte
-- follows. The text of `%d` is a parameter of Gpio, of which only the length matters.
-- `mosquitto_topic_matches_sub` is a parameter of Cloud; the theorems take as a hypothesis that
-- it stores a result for each filter and topic. What client_shared.c and the library return to
-- `main` are arguments of Cloud/Main.
pub mod Prelude
pub mod Hci
pub mod Drivers
pub mod Connections
pub mod Commands
pub mod Parameters
pub mod Receiver
pub mod Router
pub mod Uart
pub mod Central
pub mod Pipe
pub mod Forward
pub mod Led
pub mod Relay
pub mod Network
pub mod Start
pub mod Cloud
pub mod Tests
pub mod Gpio
