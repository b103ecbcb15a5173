-- ===== src/Lib.antt =====
-- SipaaKernel: what its core code does, checked.
--
-- The kernel is C for x86-64 (aarch64 is a stub). At boot `src/init/init.c` brings up the console, the
-- segments and the interrupt table, then the physical memory manager, the kernel heap, the virtual
-- memory manager, the symbols of the kernel, the system calls, the scheduler and the timer, whose
-- interrupt drives the scheduler from then on. This library models the parts that keep state and
-- decide, one module for each, in the words of the source:
--
-- Prelude: shared names, Boolean tests, lists, integers and bit fields over native numbers, and
--   `Prelude.Run`, the result of code whose loops run on fuel.
-- Mem: src/memory/memory.c. Memory is a function from addresses to bytes.
-- Strings: src/klibc/string, but for the tokenizer. A string in memory is described by the list of
--   its characters (`Strings.Holds.HoldsString`).
-- Pmm: src/memory/pmm.c and src/include/sipaa/pmm.h. The page stack and the list of blocks; block
--   headers are a store by address beside the bytes of the blocks.
-- KernelHeap: src/memory/heap.c and src/include/sipaa/heap.h. A circular list of blocks, linked
--   both ways; the space of a block comes from Pmm.
-- Vmm: src/arch/x86_64/vmm.c and src/include/sipaa/x86_64/vmm.h. Page tables as words of memory;
--   pages come from Pmm. `Vmm.Walk.lookup` describes the processor's walk independently, `Vmm.Paging`
--   says what well-formed tables are, and `Vmm.Start` is the start.
-- Boot: src/init/init.c. The start of Pmm, KernelHeap and Vmm over one page stack. `Stacked` is about
--   the pages that Pmm stacks, `Heap` about the two that KernelHeap takes, and `Mapped` about the whole.
-- Vfs: src/fs/vfs.c and src/include/sipaa/fs/vfs.h. Nodes with optional callbacks, the operations
--   that dispatch to them, and path lookup.
-- Sched: src/arch/x86_64/sched.c and src/include/sipaa/sched.h. The ring of processes. The heap and
--   the address spaces are the record `Sched.Services`, an interface that the operations take.
-- Idt: src/arch/x86_64/idt.c and src/include/sipaa/x86_64/idt.h. The interrupt table, registered
--   handlers, and the interrupt handler, which calls Sched to end a process. `Idt.Backtrace` looks the
--   frames on the stack up in Ksym.
-- Spinlock: src/sys/spinlock.c and src/include/sipaa/spinlock.h. The loop of one processor, and the
--   steps of all processors as a relation.
-- Ksym: src/dbg/ksym.c. The tables of symbols and the search for the symbol of an instruction.
-- Io: src/arch/x86_64/io.c. The functions that read and write ports, over the interface `Ports` for
--   the instructions of the processor, which all drivers take.
-- Pci: src/sys/pci.c and src/include/sipaa/pci.h. Device numbers, configuration addresses, and the
--   scan of the buses.
-- Gdt: src/arch/x86_64/gdt.c and src/include/sipaa/x86_64/gdt.h. Segment descriptors and the task
--   state segment.
-- Pit: src/arch/x86_64/pit.c. The timer: its rate, its tick and the waits. Which interrupts arrive
--   during a wait is a sequence of numbers.
-- Syscall: src/arch/x86_64/syscall.c, src/syscall/syscall.c and src/syscall/syscalls/print.c. System
--   calls by number, reached through Idt. `Syscall.Execute` is `execute_syscall` of src/init/init.c.
-- Tokenizer: src/klibc/string/TokenizeString.c. The parts of a string between delimiters; the heap is
--   the interface `Tokenizer.Heap`. `Cut`, `Dictionary` and `Calls` are about the token, the dictionary
--   and the whole call. `Vfs.Walk` follows a path with the tokens.
-- Ramdisk: src/fs/ramdisk.c. An archive in memory and the table of its headers, which Pmm holds.
-- Elf: src/exec/elf.c. The loader of programs: checks, segments and their pages, which Vmm maps.
-- Ata: src/dev/block/ata.c. The disk behind its ports. `Ata.Drive.Drive` is what a transfer relies on.
--   `Select` is about the sectors that a command addresses, `RoundTrip` about reading what was
--   written.
-- ConIo, Kdebug, Logger: src/dev/conio.c, src/dbg/kdebug.c and src/log/logger.c. The console on the
--   screen, the serial line and the log lines that go to both.
-- Bga, Vmsvga, Framebuffer: src/dev/bga.c, src/dev/vmsvgaii.c and src/dev/framebuffer.c. The Bochs and
--   the VMware adapter and the choice between them, which Pci decides. `Pci.Space.ConfigSpace` and
--   `Vmsvga.Device.Adapter` are what is relied on of the hardware.
-- BootSrv: src/srv/bootsrv.c. The responses of the boot loader.
-- Acpi, CmdLine, HelloFs: src/sys/acpi.c, src/sys/cmdline.c and src/fs/hellofs.c. The
--   response of the boot loader is an address, and the literals of the code stand in memory.
-- Tests: the theorems at concrete inputs.
--
-- An operation keeps its name without the prefix of its file: `Pmm_AllocatePage` is
-- `Pmm.allocate_page`, `Scheduler_ExitProcess` is `Sched.exit_process`. State is passed explicitly.
-- Pointers are numbers and `NULL` is 0; machine words wrap where the source can wrap (`% 2 ^ 64`).
-- Loops without a bound in the source run on fuel and give `out_of_fuel` when it ends; each theorem
-- about such a loop states the fuel that is enough, one more than the length of what it walks over,
-- and proves that the code then ends. A scan of buses needs one more than the depth of the bridges, a
-- spinning lock as much as its own bound on tries. The waits for a drive or for the serial line have
-- no bound in the source: the theorems state how many statuses it takes until one decides and prove
-- that fuel for one more is enough.
--
-- Not modelled: the device file system, whose table has no elements, the other calls of the start, and
-- the jump that restarts the machine, which has no state. Log messages are left out but in Logger
-- itself. Headers of blocks are not among the bytes of memory: a copy of `Pmm_Reallocate` that leaves
-- its block ends the model. What the kernel takes from limine, flanterm, sterm and nanoprintf is other
-- projects' code, an argument where it is called.
pub mod BootSrv
pub mod Vmsvga
pub mod Framebuffer
pub mod HelloFs
pub mod Acpi
pub mod CmdLine
pub mod Prelude
pub mod Mem
pub mod Strings
pub mod Pmm
pub mod Vfs
pub mod KernelHeap
pub mod Sched
pub mod Spinlock
pub mod Ksym
pub mod Pci
pub mod Idt
pub mod Vmm
pub mod Io
pub mod Gdt
pub mod Pit
pub mod Syscall
pub mod Ata
pub mod Ramdisk
pub mod Elf
pub mod Tokenizer
pub mod ConIo
pub mod Kdebug
pub mod Logger
pub mod Bga
mod Tests
pub mod Boot
