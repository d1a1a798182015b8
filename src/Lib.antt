-- ===== src/Lib.antt =====
-- Verification of the Aura firmware for the BF-K61 hand-held radio.
--
-- The firmware is a Rust program without an operating system. Its main loop polls the keypad and
-- the serial line, keeps its settings and channels in an external NOR flash, and drives the
-- transceiver and the display. The parts modelled here, and the files that model them:
--   * Crc: `crc16_xmodem` (src/hal/wear_leveled.rs), the check sum of frames and of flash slots.
--   * Cps/Frame: the frames of the programming protocol (src/cps/frame.rs). `feed` is
--     `FrameReader::feed`, one clause of `feed_at` for each state; `run` feeds a series of bytes.
--     `begun` is the part of a frame that a reader has taken so far.
--   * Cps/Handshake: `HandshakeDetector` (src/cps/mod.rs); `polls` is the main loop's use of it.
--   * Cps/Session: a programming session (src/cps/mod.rs). `read_region` and `write_region` are the
--     tables of `handle_read` and `handle_write`; Dispatch has the other handlers, the choice
--     between them and the loop of `run_session`, one `round` at a time: whether the millisecond
--     timer has wrapped and the byte that was received are arguments, and so is the program memory
--     that `handle_read_boot` reads. A handler gives the storage and the bytes that it sends.
--   * FlashMap: the records in the flash (src/flash_map.rs), a file for each: Freq (decimal and BCD
--     frequencies), Channel, Contact, Vfo, Sat and Settings. Bytes are numbers, arrays are lists,
--     signed bytes and words are read from their bit patterns.
--   * Drivers/NorFlash: reads, paged writes and sector erases (src/drivers/norflash.rs). The chip is
--     the parameter `Chip`: programming can only clear bits, erasing sets the bytes of a sector.
--     `write_chunks` has the number of bytes as fuel, and each round writes one byte at least.
--   * Hal/WearLeveled: one record in one sector, in a new slot at each save
--     (src/hal/wear_leveled.rs), on top of the NOR flash driver.
--   * Device/Storage: the records of the application in the flash (src/device/storage.rs), on top of
--     the driver, the record formats and the wear-leveled sectors. `Storage` keeps the flash and what
--     a session has erased; an operation that touches only the flash takes and gives the flash.
--     `copy_pages` is each of the two page loops of `rmw_sector_record`.
--   * App/Ax25: frames, line code and position reports (src/app/ax25). Frame/Receiver is what a
--     receiver makes of the line; `Sender` is the state that `process_byte` captures.
--   * App/Scan: the channel search and the phases of a scan (src/app/scan.rs). `poll` gives the state
--     and what it asks for: to stay, to hop to the next channel, or to end the scan.
--   * App/Satellite/Time: the clock and the pass times (src/app/satellite/time.rs).
--   * Hal/Debounce, Hal/Scheduler, Hal/Uart: src/hal/debounce.rs, src/hal/scheduler.rs and the
--     receive ring of src/hal/uart.rs. Counters of the hardware are arguments; 16-bit sums wrap.
--   * Device/Keypad: the scan and the poll of the keys (src/device/keypad.rs). `poll` gives the
--     events in the order in which the source pushes them into its queue.
--   * App/NameEdit, App/Input: names and numbers typed on the keys (src/app/name_edit.rs,
--     src/app/input.rs). Array lengths that are type parameters in the source are arguments.
--   * Device/BandLock: the frequency windows of src/device/radio.rs in which the radio may transmit.
--   * App/Convert: the codes of sub-audio tones, power and modulation (src/app/convert.rs).
--     Index numbers the tones for the menus, Steps has the steps of a value.
--   * Drivers/Fd6818: the transceiver (src/drivers/fd6818.rs), as the last values of the registers
--     that decide whether it transmits, with what power and on what frequency. `transmits` reads the
--     state register. Xtal is about the crystal correction, Dcs has the code words.
--   * Device/Radio: the radio around the chip (src/device/radio.rs). Receive is the squelch, Ani the
--     calls by DTMF, Transmit the keying. What a poll reads from the chip is an argument.
--   * App/Side, App/SideOps: the two sides of the radio and the keys that change them
--     (src/app/side.rs, src/app/side_ops.rs).
--   * App/State, App/Transmit, App/Standby: the part of `App` (src/app/mod.rs) that transmits
--     (src/app/tx.rs) and stands by. An `Event` of Transmit is what the main loop of src/main.rs
--     may do to a transmission in every mode but satellite tracking and pictures, and `run` a
--     sequence of them.
--   * App/Search: the search for a near station (src/app/search.rs).
--   * App/Meters: the signal and the battery meter (src/app/mod.rs).
--   * Prelude holds what they share, and Tests applies the theorems to concrete inputs.
--
-- State is passed explicitly: an operation on `&mut self` takes a record and gives the new one. An
-- index out of range reads as 0 in the model, where the source would panic.
--
-- Not modelled: register access (src/board, the timers, SPI, I2C and ADC of src/hal), the audio,
-- modem and calibration registers of the transceiver, the drivers of the tuner and the display,
-- drawing (src/ui), the generated kd32f328-pac, the host tools, and for now the menus, the spectrum,
-- pictures and the tracking of satellites, with the branches of the main loop for the PTT pin in
-- these two modes.
pub mod Prelude
pub mod Crc
pub mod Cps
pub mod FlashMap
pub mod Drivers
pub mod Hal
pub mod Device
pub mod App
pub mod Tests
