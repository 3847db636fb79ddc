-- ===== src/Lib.antt =====
-- A Zephyr application for a development board: an echo bot on the console UART, two example drivers
-- for devices on a UART with their applications, a driver for a thermometer on I2C with its
-- application, a message thread, serial ports over USB, commands for the shell, and some networking
-- samples. src/main.c starts those of them that are enabled. They share no state of their own; each
-- meets the others only in Zephyr.
--
-- Which file models which part:
--   Prelude            shared notation, lists, memory with bounds, C strings, machine words, bit
--                      masks, integers
--   Zephyr             the parts of Zephyr that are called, as interfaces, and plain implementations
--                      of some; ByteRing: what passes through a ring buffer that an interrupt empties
--   CdcAcm             src/main_cdc_acm.c
--   CdcComposite       src/main_cdc_acm_composite.c
--   DhcpClient         src/main_dhcpv4_client.c
--   EchoBot            src/main_echo_bot.c
--   EntryPoint         src/main.c, and the functions of the parts that create their threads
--   UartPeripheral     drivers/my_uart_peripheral/driver.c; Api: api.h beside it;
--                      App: src/main_my_uart_peripheral.c; Life: both from the start;
--                      Torn: a pin that rises inside a call that sets the string;
--                      Registering: an interrupt inside the call that sets the callback
--   UartPeripheralB    drivers/my_uart_peripheral_b/my_uart_peripheral_b.c; Api:
--                      my_uart_peripheral_b_api.h; App: src/main_my_uart_peripheral_b.c;
--                      Delivery: both from the start; Answered: before a peer that answers
--   Mcp9808            drivers/my_i2c_mcp9808/my_i2c_mcp9808.c and .h; App: src/main_mcp9808.c;
--                      App/Boot: both from the start
--   DumbHttp           src/socket_dumb_http.c
--   HttpGet            src/http_get.c
--   HttpExchange       the client of HttpGet in front of the server of DumbHttp
--   MessageApp         src/main_app.c
--   ShellModule        src/main_shell_module.c
--
-- A structure of C is a record with its fields, an operation is a function from the state to a
-- `Result`: the new state and what is sent or called, or a `Fault`, which is an access outside an
-- object or through NULL, a failed assertion, or an overflow of an `int`. A function that only makes
-- calls is the list of these calls. Operations keep their names, without the prefix that names their
-- driver; a static variable is a field of the state. A `char` is its byte as a number; `size_t` has 32
-- bits and wraps around.
--
-- What hardware and Zephyr answer is an argument: the bytes of an interrupt, whether a device is
-- ready, the answers of a GPIO or socket call. A message queue (Zephyr/MsgQueue), a ring buffer in
-- item mode (Zephyr/ItemRing) or in byte mode (Zephyr/ByteRing), an I2C bus and the byte order
-- functions (Zephyr/I2c), the sensor API (Zephyr/Sensor), and net_addr_ntop (Zephyr/NetAddr) are any
-- implementation with the documented behaviour. Interrupts, turns of a thread and expiries of a
-- timer come as a list of events in any order; where an interrupt can come inside a call that a
-- thread makes of a driver (UartPeripheral/Torn, UartPeripheral/Registering, CdcAcm), its moment is
-- an argument too. A thread that waits for an answer ends where the list of answers ends. No loop needs fuel:
-- each runs over the bytes, answers, arguments or events that it is given. A decimal number is
-- printed with at most ten digits, which 32 bits need at most.
--
-- Not modelled: the scheduler, logging, the formatting of a double, the shell's own search for a
-- command, devicetree and Kconfig (the sizes that Kconfig sets are parameters).

pub mod Prelude
pub mod Zephyr
pub mod CdcAcm
pub mod CdcComposite
pub mod DhcpClient
pub mod DumbHttp
pub mod EchoBot
pub mod EntryPoint
pub mod HttpExchange
pub mod HttpGet
pub mod Mcp9808
pub mod MessageApp
pub mod ShellModule
pub mod UartPeripheral
pub mod UartPeripheralB
