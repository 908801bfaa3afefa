-- ===== src/Lib.antt =====
-- ecu-drivers is a header-only C++ library of drivers for control units: contracts (concepts) for
-- buses, pins, flash and time; adapters that build one contract from another; device drivers over
-- the contracts; and platforms that implement them. Templates take the lower parts by reference,
-- and errors are values of result types. This library models the portable core of it, and of the
-- platforms the file-backed flash.
--
-- Foundation models include/hal/foundation: Word (unsigned words, with their wrap-around written
-- out), Result (result.hpp), Span (span.hpp: null pointers with a size are spans that are not
-- valid), Crc32 (crc32.hpp), Deadline (deadline.hpp). Foundation/Action is the calling convention
-- of the models: a state goes in, a result and the new state come out, so what a failed call has
-- done stays done; Action/Rules holds contracts of such calls.
--
-- Nv models include/hal/contracts/nv.hpp (Contract) and the journal of
-- include/hal/adapters/nv_journal_memory.hpp. Journal/Error is journal_error, Bytes the little-
-- endian fields, Layout the compile-time sizes and the static assertions (the record IsConfig),
-- Headers the arrays that are programmed and the tests that accept them, Monad the fields of
-- JournalMemory, Storage the flash accesses with write_region_header, write_region_commit and
-- write_record, Recover inspect_region to load_active_region, and Memory mount, format, read,
-- write, compact. The flash is a template parameter, hence a record of operations over a state of
-- its own, about which the theorems of Memory assume nothing. Those of Journal/Durable assume that
-- it is lawful (Nv/Lawful): a read gives the contents, a program of erased bytes puts its input, an
-- erase puts 0xFF, and a call that fails has changed no bytes but its own. There, Entries is the
-- abstract journal, a list of writes that is replayed; Changes is about bytes that a call leaves
-- alone; Rules, Steps and Chunks are contracts of the calls; Load, Region and Recovery follow a
-- mount, and Program, Append, State, Appending, Seal and Compaction a write, which Survival
-- composes; Formatting follows format. Sizes are plain numbers, since the static assertions keep
-- offsets in range; the one subtraction that the source leaves unguarded, in write, wraps on 64
-- bits.
--
-- Spi models include/hal/contracts/spi.hpp, spi_bus.hpp and the levels of gpio.hpp (Contract), and
-- StaticDevice8 of include/hal/adapters/spi_static_device.hpp (StaticDevice). The bus, the pin, the
-- delay and the lock are template parameters: each call is an event on a log, and every answer is a
-- function of the log (Trace), so the environment may answer anything. The lock guard is with_lock,
-- which unlocks on every way out.
--
-- Devices models the ST7735 display driver of devices/include/hal/devices/st7735.hpp: Panel has its
-- profiles, commands and address arithmetic, Driver its operations, on the same log.
--
-- Adapters models adc_averaging.hpp (Average, with the conversion of a sum as a parameter),
-- pwm_duty_cycle.hpp (DutyCycle) and gpio_active_low.hpp (ActiveLow), all under
-- include/hal/adapters. Can models identifiers, frames and filters of
-- include/hal/contracts/can.hpp.
--
-- Linux models the file-backed NOR flash of platforms/linux/include/hal/nv.hpp (Linux/Nv) and the
-- loops it stands on, pread_exact and pwrite_exact of detail/io.hpp in the same folder (Linux/Io),
-- with the loops without a position beside them (Linux/Stream). The system calls are a record of
-- operations; Linux/Nv/Exact names what POSIX says of them. Linux/Nv/Lawful is about what
-- Journal/Durable assumes of its flash, Refuse and Clears about the checks of the operations.
--
-- Loops run on fuel. The loops over system calls have a round for each byte and for a given number
-- of interruptions; more than these would keep the source retrying, and the model then fails
-- (Linux/Terminates). gcd_loop has one round more than its second number, which falls each round.
-- The loops over a payload have as many rounds as it has bytes, and those over a region as many as
-- the region has bytes; each round takes at least one. fill_chunks has as many rounds as the
-- rectangle has columns. Assertions (HAL_CORE_ASSERT) are taken to do nothing, as in a release
-- build.
--
-- Not modelled: the rest of the platform for Linux and those for STM32 and ESP32, whose behaviour
-- is that of system calls and registers that are not in the repository; the chip tables under mcu;
-- contracts that are concepts without operations of their own; the serial text writer; the
-- polled_frame of can.hpp, which is an optional frame in a union; moves and lifetimes of C++
-- objects, and aliasing between a caller's buffer and the mirror.
pub mod Prelude
pub mod Foundation
pub mod Nv
pub mod Spi
pub mod Devices
pub mod Adapters
pub mod Can
pub mod Linux
