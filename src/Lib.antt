-- ===== src/Lib.antt =====
-- The Inferno kernel for the Marvell Kirkwood SoC (the SheevaPlug): its own drivers and tools,
-- modelled from the C sources at the root of the repository.
--
-- The parts and how they meet. Block devices register themselves with devbs.c
-- (`blockstoreadd`); devbs.c keeps the table of disks, finds their partitions with part.c
-- (`partinit`) and serves reads and writes of a partition by aligned calls of the device's
-- driver. kwsdio.c is such a device, and has sdcard.c take a card's registers apart. devrtc.c
-- is the real time clock: it turns seconds into a calendar date and the BCD digits of two
-- registers, and back. fpiarm.c emulates floating point instructions on behalf of the trap handler.
-- xor.c copies, fills and checks memory with the XOR engines. etherkirkwood.c moves packets
-- between the rings of the ethernet controller and the queues of the portable kernel; devether.c
-- hands them to the connections that are open on the interface and takes those that are written.
-- kwnand.c reads, writes and erases the NAND flash; devefuse.c burns the eFuses. clock.c counts
-- the ticks and calls what is to be done at some of them. trap.c keeps the tables of interrupt handlers, in which the drivers register theirs. mkuimage makes the header
-- that the boot loader wants before a kernel.
--
-- The files:
--   Prelude, Prelude/*: tests, lists, machine words, and the laws of bit operations.
--   Port: the kernel's `error()` as a result, with undefined accesses, panics and endless loops.
--   Rtc: devrtc.c. Rtc/Calendar has `rtc2sec` and `sec2rtc`, Rtc/Registers `setrtc` and
--     `rtctime`, Rtc/Device `rtcread` and `rtcwrite`; Rtc/Seconds, Rtc/Decoding and Rtc/Writing
--     prove.
--   SdCard: sdcard.c. SdCard/Bits has `bits`, SdCard/Registers `parsecid`, `parsecsd` and
--     `parsescr`; SdCard/Fields and SdCard/Parsed prove.
--   Part: part.c and part.h. Part/Names has the names, Part/Check `partcheck`, Part/Init
--     `partinit`; Part/Overlap, Part/Layout, Part/Plan9 and Part/Siblings prove.
--   Bs: devbs.c and bs.h. Bs/Table has `diskget` and `blockstoreadd`, Bs/Disk `diskinit` and
--     `bsinit`, Bs/Open `bsopen` and `bsclose`, Bs/Io `io`, Bs/Command the control files,
--     Bs/Write `bsdevwrite` and `bswrite`; Bs/Added, Bs/Finding, Bs/Opened, Bs/Race, Bs/Started,
--     Bs/Stale, Bs/Reading and Bs/Writing prove.
--   Fpi: fpiarm.c and fpi.h. Fpi/Arith has the operations and their tables, Fpi/Condition
--     `condok` and `fcmp`, Fpi/Emulator `fpemu` and `fpiarm`; Fpi/Flags, Fpi/Comparison, Fpi/Table and
--     Fpi/Frame prove.
--   Xor: xor.c, which allots the ports of the XOR engines. Xor/Ports has `portget`'s look for a
--     port, `portput` and the interrupt handlers, Xor/Setup the registers at start-up,
--     Xor/Transfer the four transfers, Xor/System the steps of processes and interrupts;
--     Xor/Exclusion, Xor/Wakeup and Xor/Descriptors prove.
--   Gbe: etherkirkwood.c. Gbe/Receive has the pool of blocks and the receive ring, Gbe/Transmit
--     the transmit ring, Gbe/Control the interrupt handler and the commands, Gbe/Smi the PHY's
--     registers, Gbe/Setup what `attach` does; Gbe/Polling, Gbe/Refill, Gbe/Round,
--     Gbe/Receiving, Gbe/Overrun, Gbe/Sending, Gbe/Queueing, Gbe/Transmitted,
--     Gbe/Ready and Gbe/Commands prove.
--   Etherdev: devether.c. Etherdev/Netif has the interface and its connections, Etherdev/Input
--     `etheriq`, Etherdev/Output `etheroq`, the writes of packets and commands, the cards and
--     `parseether`; Etherdev/Hub and Etherdev/Address prove.
--   Crc: `ethercrc` of devether.c; Crc/Same compares it with mkuimage's `crc32`.
--   Nand: kwnand.c and nand.c. Nand/Chip has the registers of the chip and the wait for it, Nand/Ident
--     `idchip`, Nand/Erase `erasezone`, Nand/Pages `write` and `read`; Nand/Laws says what is relied
--     on of a chip, Nand/Stored, Nand/Erased and Nand/Claims prove, and Nand/Simulated is a chip for
--     the tests.
--   Sdio: kwsdio.c. Sdio/Host has the registers and the card, Sdio/Command `sdcmd`, Sdio/Init `sdinit`,
--     Sdio/Transfer `sdioio` and `erase`; Sdio/Keeping and Sdio/Triples have the lemmas on what
--     the steps leave, Sdio/Ready, Sdio/Response and Sdio/Pieces prove.
--   Clock: clock.c. Clock/Ticks has the clock interrupt and its links; Clock/Periods proves.
--   Efuse: devefuse.c. Efuse/Device has the reads and writes; Efuse/Burned proves.
--   Trap: trap.c. Trap/Irq has the tables of interrupt handlers and `intrs`, which calls them;
--     Trap/Dispatch proves.
--   Uimage: mkuimage/mkuimage.c and mkuimage/uimage.h. Uimage/Header has `crc32`, `find` and
--     `pack`; Uimage/Packed proves.
--   The files named Tests and OpenTests run the code and apply the theorems to concrete inputs.
--
-- How the code is read. A number is a natural number; a word of w bits wraps by `% 2 ^ w`, and a
-- `vlong` is its 64-bit pattern, compared as a signed number. Text is a list of bytes without
-- the NUL at its end. A function that stores through a pointer returns the new value. `error()`
-- is `err`, an access that C does not define is `fault` or `none`.
--
-- Bounds and fuel. The loop over the years takes `day + 1` rounds at most, since each takes a
-- day off. The search for a free partition name tries one number more than there are
-- partitions. The loop of `fpiarm` ends at an instruction that is not for it, which a program need
-- not have, so its fuel is an argument. The loops that refill the receive ring and free sent
-- packets have fuel for one round more than the ring has cells, since a cell that they come back to
-- ends them; the loop of `receive` need not end when errors fill the whole ring, so its fuel is an
-- argument. `smibusywait` counts its reads down. The loop
-- of `sdioio` has fuel for one round more than the buffer has bytes, and its waits for the card are
-- counted by the code. All other loops go over a list or a counter.
--
-- Processes. Xor/System has the steps of any number of processes and of the interrupt handler in
-- any order, and of the engines. The operations of the other drivers are functions of the state, as
-- they run alone: most hold a lock throughout. `bsopen` of a partition holds only read locks: Bs/Race
-- has its steps, for any number of opens of one partition in any order. A handler of etherkirkwood.c sees the descriptors as the
-- controller left them when the handler began.
--
-- Not modelled: what other processes do between two calls of those drivers, shortage of memory
-- outside the ethernet driver's set-up, printing, and the other drivers. Code that is not in the
-- repository is a parameter: the portable kernel's `seprint`, `tokenize`, `strtoull`, `strtoul`,
-- `readnum`, `devdirread`, `devopen`, `devpermcheck`, `parsecmd`, `lookupcmd`, `atoi`, `smalloc`,
-- `iallocb`, `xspanalloc` and `freeb` of nil, the functions of a device's driver, and the arithmetic
-- of fpi.c and fpimem.c (`Fpi.Defs.Library`). So is what a device answers: the words that reads of
-- `smi` give, and what a register of interrupt causes has after a write; and the functions that an
-- interrupt calls, which Trap/Irq knows by numbers. The ethernet driver's calls of `archetheraddr`
-- and `intrclear` are parameters of its handlers as well. devether.c calls the portable kernel's
-- queues and blocks, `activemulti`, `netifwrite` and `qnoblock`: `Etherdev.Netif.Kernel` and
-- arguments. The NAND chip is `Nand.Chip.Chip`, and `nandecc` and `nandecccorrect` of the portable
-- kernel are arguments. The SDIO controller with its card and the sleeps of the portable kernel are
-- `Sdio.Host.Host`, what the clock interrupt calls `Clock.Ticks.Calls`; `sdioio` keeps its lock
-- between two commands in the model. Whether the eFuses have been burned is an argument, by the
-- number of the read. `fp_loop` leaves out the call of the scheduler between two instructions.
pub mod Prelude
pub mod Port
pub mod Rtc
pub mod SdCard
pub mod Part
pub mod Bs
pub mod Fpi
pub mod Uimage
pub mod Clock
pub mod Crc
pub mod Etherdev
pub mod Efuse
pub mod Nand
pub mod Sdio
pub mod Xor
pub mod Gbe
pub mod Trap
