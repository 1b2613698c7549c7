-- ===== src/Lib.antt =====
-- DAE-Pipeline-CPU: the pipelined RISC-V core in SystemVerilog, and the Snake SoC that it runs
-- against, the C models of the devices with the bus, the clock and the loader between them.
--
-- The program. The core (src/, include/) fetches in order into a queue (frontend.sv, if_stage.sv,
-- id_stage.sv, decoder.sv, fifo.sv) and executes in the stages EXE, MEM and WB (backend.sv and
-- the stages it joins), with a scoreboard that holds back or forwards operands, the register file
-- and the CSRs; a redirect or a trap kills what is younger by epochs and sequence numbers. The
-- bench (tb/tb_top.sv) answers its requests through the bridge. A system on a chip (snake_soc/)
-- owns a boot ROM, a CLINT, a UART, an interrupt aggregator and a DRAM (devices/). Each
-- implements the trait MmioDevice, and three of them the trait Tickable (devices/common/). The
-- memory map routes an access of the bus to the device whose address range holds it; the ticker
-- ticks the CLINT, the UART and the aggregator once for each clock. The loader (elf_loader/)
-- writes a program through the memory map before the core starts. The bench calls the bridge
-- (dpi/), which owns one SoC. Programs are linked with a small C library (runtime/), and the
-- FreeRTOS demo is one of them (freertos_demo/).
--
-- Files. Bus: axi_resp.h, common.h, mmio_device.c. Alloc: calloc and realloc. Host: fputc and the
-- read from the terminal. MemoryMap: devices/common/src/mem_map.c. Ticker: ticker.c and
-- tickable.c. Bytes: the loops over the lanes of a word in boot_rom.c and dram.c. BootRom, Dram,
-- Clint, IrqAgg, Uart: the device of that name under devices/. Soc: snake_soc/src/snake_soc.c,
-- and in Soc.Contract and Soc.Strobes the contract of devices/common/include/mmio_device.h.
-- ElfLoader: elf_loader/src/elf_loader.c. Logging: devices/common/src/logging_mmio_device.c. Pma:
-- devices/common/include/pma_defs.h. Terminal: devices/common/src/terminal_backend.c. Dpi:
-- dpi/snake_soc_dpi.c. Runtime: runtime/src/stdlib/. Hal: runtime/src/hal/uart.c. MockHal:
-- runtime/host_tests/mock_hal.c. FreertosDemo: enable_uart_rx_irq of freertos_demo/app/main.c and
-- the handler of freertos_demo/port_glue/app_irq_handler.c; FreertosDemo.Boot: main of app/main.c
-- and the hooks of port_glue/hooks.c; FreertosDemo.Tasks: the tasks of app/main.c and the handler
-- in turns; FreertosDemo.Timer: the timer of include/FreeRTOSConfig.h on the SoC;
-- FreertosDemo.Session: all of it from the constructor of the SoC on. Cpu: the core, a file for
-- each of src/*.sv but that Alu holds alu.sv and branch_unit.sv, Lsu lsu.sv and
-- load_data_filter.sv, and Frontend the stages of fetch and decode; Cpu.Types: include/uarch.svh;
-- the constants of include/riscv.svh stand in Decoder and CsrFile; Cpu.TbTop: tb/tb_top.sv with
-- an ELF file; Cpu.Isa: the instructions and their meaning by the manual, which is no code.
-- Prelude and Bits hold what these share, Tests concrete inputs. A function keeps the name of its
-- C function without the prefix of its class (`MemoryMap_add_device` is `MemoryMap.add_device`);
-- the method of a trait is `read`, `write` or `tick`, and a wire such as `Clint_mtip` is
-- `mtip_wire`.
--
-- State of the core. The registers of a module are a record, the name of a register kept; `step`
-- (or `if_step`, `frontend_step`, `backend_step`) gives those after an edge from those before it
-- and the inputs, with what is assigned later taking effect over what is assigned before; a wire
-- is a function of the registers and the inputs. `flush_i` and `redirect_valid_i` of the front
-- end are one wire in Top, and one argument. MEM_FORWARDING, WB_FORWARDING and IR_QUEUE_DEPTH are
-- parameters. Words are natural numbers, cut where a register cuts them: an epoch at 2 ^ 2, a
-- sequence number at 2 ^ 8, an address or a result at 2 ^ 32. The tests of the bench on a run are
-- recursion on max_cycles, as its loop is.
--
-- State of the SoC. An object is a record. A pointer to a trait is a vtable over the store that
-- holds all objects (`vtbl_at`, `tick_at`), so that a device reached through the bus and through
-- the ticker is one object. A call gives its response and the new store; DEV_PANIC is `abort`.
-- `value_out` is the value of the reply and is not NULL. Object pointers are not NULL, which the
-- DEV_ASSERTs on them check. Numbers are natural numbers, and what wraps in C is written out: an
-- addr_t at 2 ^ 32, a uint8_t at 2 ^ 8, the counter at 2 ^ 64. A size_t has 64 bits and does not
-- reach its end here.
--
-- Parameters. The answers of the allocator are a list, so that a theorem about every list covers
-- every failure. The host's streams are a record of two functions over the state of the outside
-- world; only the theorems on the bytes of the terminal assume anything of them (InputLaws). The
-- terminal calls of POSIX are a record too, of which nothing is assumed. The table of memory
-- attributes is a list. The FreeRTOS kernel is seen by its answers to main (Kernel), by its
-- semaphore, and by the order in which it lets the tasks and the handler move, which is any list
-- of turns: a delay may end at any time, and no task moves while the handler runs. How often the
-- clock ticks before each access of main is a list of numbers.
--
-- Loops. The loops over an array are recursion on its list. The loops of the loader are recursion
-- on a number of rounds: the length of the segment, of which each round uses up at least one, and
-- the number of program headers. That this is enough is part of the theorems that they finish.
-- strlen and strcmp have the length of the string as rounds, the digits of a number ten and
-- eight, the polling of uart_getc one more than the ticks until a byte waits, and the reset of
-- the test heap its 16384.
--
-- Not modelled: the mode of the bench that reads a HEX file, its plusargs and what it prints; the
-- assertions of the core for simulation; the tests in C, the scripts, the start-up assembly and
-- the FreeRTOS kernel; and the messages that the C code prints to stderr.
pub mod Prelude
pub mod Bits
pub mod Bus
pub mod Alloc
pub mod MemoryMap
pub mod Bytes
pub mod BootRom
pub mod Dram
pub mod Clint
pub mod IrqAgg
pub mod Host
pub mod Terminal
pub mod Uart
pub mod Ticker
pub mod Soc
pub mod ElfLoader
pub mod Runtime
pub mod Hal
pub mod FreertosDemo
pub mod Dpi
pub mod Logging
pub mod Pma
pub mod MockHal
pub mod Cpu
pub mod Tests
