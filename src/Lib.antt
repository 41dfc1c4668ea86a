-- ===== src/Lib.antt =====
-- The firmware of the BlazeNet host-controlled radio (host-radio): a coprocessor that a host
-- drives over SPI. The host interface task receives commands and dispatches them to handlers;
-- the packet handler keeps the buffers and queues of packets; the radio task sends and receives
-- them through RAIL; the interrupt manager drives the host's interrupt line; a watchdog notices
-- a silent host and pauses the periodic beacon; a driver programs the external flash, on which
-- start-up mounts a SPIFFS file system; three lights run small animation scripts; and a logger
-- sends messages over a UART. main starts the parts one after another.
--
-- System models the state of the parts that run on the radio side: every component keeps its
-- state in static members, so the state is one record with a part for each. A call of RAIL, of a
-- FreeRTOS timer or of the indicators is an entry of the trace, and what comes back is a field
-- of Env, a function of the calls so far.
--
-- Packet models host-radio/Sources/Packet/Handler.h and Handler.cpp. Transmit buffers are shared
-- by pointer and live in a store (Packet/Buffers, laws in Packet/Store); Packet/Tx has
-- AllocTxPacket, QueueTxPacket, DiscardTxPacket and PopTxQueue, Packet/Rx has HandleRxPacket,
-- PopRxQueue, DiscardRxPacket and QueueAck of host-radio/Sources/Radio/Task.cpp. Packet/Ledger
-- and Packet/Invariant state the account that the transmit half keeps: the bytes counted are
-- those of the live buffers and within the limit, the pending count is the number of queued
-- packets and of the one in flight, no queue is over its length, every held pointer is live, and
-- no buffer but a sticky one is held twice.
--
-- Radio/Transmit models TxPacketImmediate and Radio/Task the rest of
-- host-radio/Sources/Radio/Task.cpp: the event callback, the main loop, HandleTxComplete, the
-- retries on a busy channel and the configuration; Radio/Setup has the task's set-up and its
-- getters. Theorems on these stand in their child modules; Radio/Task/Traffic and
-- Packet/Rx/Order put the operations together to any sequences from start-up.
--
-- HostIf/Interrupt and HostIf/Irq model host-radio/Sources/HostIf/IrqManager.h and
-- IrqManager.cpp with the flag operators of host-radio/Includes/bitflags.h. HostIf/Handlers
-- models the files of host-radio/Sources/HostIf/Handlers, HostIf/Task models Task.cpp and the
-- table of CommandHandlers.cpp, and HostIf/Watchdog models Watchdog.h and Watchdog.cpp. A
-- transfer's callback and the round of the main loop that it wakes are one step;
-- HostIf/Task/Dispatch and HostIf/Task/Events follow any sequence of them, and HostIf/Task/Early
-- has the callback of a payload apart from its round, as it may interrupt ProcessCommand.
-- HostIf/Handlers/Counters, Info and Radio have the theorems on GetCounters, GetInfo and
-- RadioConfig.
--
-- BlazeNet/Beacon models host-radio/Sources/BlazeNet/Beacon.cpp. Fs/FlashInfo and Fs/Flash model
-- host-radio/Sources/Fs/FlashInfo.cpp and Flash.cpp on the list of SPI transfers. Fs/Superblock
-- and Fs/Setup model host-radio/Sources/Fs/Init.cpp and Init.h, with the superblock as bytes and
-- as a record, and Fs/NorFs models NorFs.cpp on a log of malloc, free and the calls of SPIFFS.
-- Fs/Setup/FirstBoot, SecondBoot, Blank and Choice have the theorems on formatting and mounting.
--
-- Hw/Animations and Hw/Indicators model host-radio/Sources/Hw/Indicators.h and Indicators.cpp:
-- the interpreter of the scripts, and the calls and the timer of the lights. The firmware's
-- calls of the indicators from the radio side stay entries of the trace of System.
-- Crypto/Context models the files of host-radio/Sources/Crypto, Log/Logger models
-- host-radio/Sources/Log/Logger.h and Logger.cpp.
--
-- Numbers are natural numbers with the wrap-around of 32, 16 and 8 bits written out. Outcome has
-- a result, a panic (a failed REQUIRE) and a fault (undefined behaviour, or fuel that ran out).
-- The polling loop of the flash driver has no bound in the source; it runs on fuel, and any fuel
-- within which the chip is done with its command is enough. The loops of write and erase have a
-- round for each byte, which is enough because each round takes at least one. A script of the
-- indicators runs on fuel too: sixteen rounds are enough for scripts of at most seven bytes,
-- which a restart runs through twice at most before a delay.
--
-- Parameters stand for what is not in the repository: malloc, whose blocks are at fresh
-- addresses where a theorem needs it; RAIL, which takes all bytes and starts every transmission
-- where a theorem asks for that; SPIDRV and the flash chip; the flash chip, which carries out a
-- command only directly after a write enable and is done by a bounded number of reads of its
-- status where a theorem asks for that; the tick count, of which 32 bits are read; Util::Crc32,
-- any function into 32 bits; the hash and the Base32 encoding of the serial number; the tasks
-- that the kernel reports, at most as many as there is room for; the calls of SPIFFS and of the
-- security engine manager; snprintf and vsnprintf, as the text that they render, and the UART
-- driver, which may refuse a message.
--
-- Startup models host-radio/Sources/Main.cpp with the initialisers that it calls: the parts of
-- the other modules, in the order of main, the set-up calls of drivers and of RAIL as a list,
-- and the commands for the RTOS's timers, which queue up until the scheduler runs. Startup/Steps
-- and Startup/Host say what each step has done when it returns, Startup/Boots puts them
-- together, Startup/Returns and Startup/Works say when they return, and Startup/FirstRun follows
-- a board with a blank flash through its first two starts. Hw/Identity models
-- host-radio/Sources/Hw/Identity.cpp, and Rtos the hooks of Rtos/Idle.cpp, Rtos/Memory.cpp and
-- Init/FaultHandlers.cpp. Log/Logger/Panic has the start of the logger and the lines that a
-- panic prints, with the machine's state as it stops; elsewhere a panic is the end of the run.
--
-- Not modelled: generated radio and driver configuration; the priorities of
-- host-radio/Sources/Rtos/Rtos.h; and the log messages of the parts other than the logger. Locks
-- are not modelled, since each routine is one step.
--
-- Prelude has the helpers, Tests the concrete states on which the theorems are applied.
pub mod Prelude
pub mod HostIf
pub mod Packet
pub mod Radio
pub mod BlazeNet
pub mod Fs
pub mod Hw
pub mod Crypto
pub mod Log
pub mod System
pub mod Rtos
pub mod Startup
pub mod Tests
