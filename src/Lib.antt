-- ===== src/Lib.antt =====
-- A verification library for the RISC-V virtual prototype in vp/src: parts of its processor core, of
-- its interrupt hardware and of the debugger's protocol, translated from the C and C++ sources, with
-- theorems on what they do.
--
-- The prototype runs guest software on an instruction set simulator. Each memory access of the
-- simulator goes through core/rv32/mem.h, which asks the memory management unit for a translation
-- or the memory protection for a permission; a refusal is a trap, a C++ exception that the simulator
-- catches. Interrupt controllers raise lines of the simulator, which ranks what is pending by
-- comparable priorities. A debugger is served over the GDB remote protocol.
--
-- Base and its children: numbers, tests, lists, integers, and bits: `&`, `|`, `~` of C on unsigned
--   words as the native operations, with their laws as arithmetic.
-- Core: the privilege levels of core/common/irq_if.h, and how a call ends: it returns, raises
--   SimulationTrap (core/common/trap.h), throws std::runtime_error, or stops at an assert.
-- Mmu: core/common/mmu.h. Pte has the constants and registers, Walk the page-table walk, Tlb the
--   translation buffer and translate_virtual_to_physical_addr. Spec says by derivations what a walk
--   should find. The memory behind mmu_memory_if is a parameter: a state and three functions that may
--   trap; where a theorem needs it, its loads give 64-bit words, or return.
-- Spmp: core/common/spmp.h. Config has the registers, Region the search for the matching entry,
--   Access the permission rules, Check the whole check with its cache. First, Granted, Again, Rules
--   and Napot have the proofs. The locals of the search that C++ leaves without a value are a
--   parameter of the model.
-- Instr: core/common/instr.h and instr.cpp. Word has the macros on bits, Fields and Immediates the
--   accessors, Codes the masks and encodings. Tree and Decode hold decode_normal: its nested switches
--   are a tree of tests, which a function follows for a word. Compressed, Expand and Factory have the
--   compressed instructions; Reach, Table, Encodings, Formats, Expansion, Even and RoundTrip the proofs.
-- Iss: core/rv32/iss.cpp and iss.h, exec_step. Alu has the arithmetic of the registers, State the
--   simulator's state and its basic actions, Memory the loads, stores and atomic operations over
--   core/rv32/mem_if.h, whose implementation is a parameter, Execute the switch on the instruction:
--   an action for an integer instruction, `none` for those that are left out, Step the fetch and the
--   step as a whole. Valid, Quiet, Steps and Preserve follow the states through the actions, Boundary
--   through a step; Division is on DIV and REM.
-- Trap: core/rv32/iss.cpp, iss.h and csr.h. State has the registers of a hart that traps read and
--   write, and the operations that are called as a parameter: the memory interface and the interrupt
--   files. Prepare has the delegation of a trap, Enter the entry of a handler, Return the returns and
--   the enable bits, Stack the exchange of stack pointers and the end of a reservation, Step the parts
--   of run_step. Jump, RoundTrip, Delegation, Returns, Interrupts, Reach and Reservation have the
--   proofs; Reach has traps, interrupts and returns as a step relation. Instr.Xtinst has the word of
--   the instruction that a handler is shown.
-- Irq: core/rv32/irq-prio.h. Order has the default order of the major interrupts, Cprio the
--   priorities and their comparison.
-- Plic: platform/common/fu540_plic.h and .cpp. State has the registers and the choice of the next
--   interrupt, Context the callbacks of the registers and a round of the thread.
-- Aplic: platform/common/aplic.h. State has the registers, named by their offsets, and the tests of a
--   source, Config, Pending and Enable the callbacks of writes, Address the address of a message, Write
--   the registers as a whole, Deliver the thread. Bits, Known, Effect and Refine show what writes do to
--   the sets of pending and of enabled sources, Round and Sent what a round of the thread does.
-- Clint: core/common/clint.h. State has the timer registers, the comparisons and a round of the
--   thread; the harts that it signals are parameters.
-- Bus: platform/common/bus.h. Ports has the choice of the target and its address, Lock the bus lock
--   that keeps lr and sc exclusive; a call that waits is `none`.
-- Gdb: core/common/gdb-mc/libgdb/util.c, response.c and the folds of parser1.c. Text has the
--   characters and failures, Checksum, Escape, Runlen and Response the functions.
--
-- Unsigned words of C are natural numbers with the wrap-around written as a remainder; a char is a
-- signed byte, an int of libgdb an integer. Loops over levels, entries, interrupts and characters are
-- structural recursions, so that they end. The digits of "%.2x" take eight rounds, enough for 32
-- bits. Shifts that C++ leaves undefined are taken as the x86 performs them (Spmp.Region.int_bit);
-- check_vaddr_extension shifts by a negative number in the mode SV64, which the core does not let
-- software select, and the model shifts by 0 there; the addresses of the APLIC are shifted by up to 43,
-- which C++ leaves undefined from 32 on, and the model by that much.
--
-- Not modelled: the timing of SystemC, the register ranges behind the bus; allocation in libgdb and
-- the grammar of its parsers, which the third-party library mpc runs; the names of instructions for
-- traces; of the simulator system calls, floating point, and the pending bits of interrupts and
-- the interrupt files (IMSIC) behind them; the control and status registers as a whole, the FE310
-- interrupt controller, the devices and the 64-bit core. SoftFloat under vendor/ is third-party code.
pub mod Aplic
pub mod Base
pub mod Bus
pub mod Clint
pub mod Core
pub mod Gdb
pub mod Instr
pub mod Irq
pub mod Iss
pub mod Mmu
pub mod Plic
pub mod Spmp
pub mod Trap
