-- ===== src/Lib.antt =====
-- Orin OS: a verification library for the kernel crate, kernel/src.
--
-- The kernel reads the information structure of the boot loader and the command line in it
-- (kernel/src/multiboot/info.rs), sets the level of its log (kernel/src/log.rs), detects the processor
-- (kernel/src/cpu/cpuid.rs), gives the memory map to the physical frame allocator
-- (kernel/src/memory/pmm.rs), and takes frames for page tables from it (kernel/src/memory/vmm.rs). It
-- then installs its interrupt handlers (kernel/src/interrupts/idt.rs), programs the interrupt
-- controllers (kernel/src/interrupts/pic.rs), probes the keyboard controller and runs a main loop that
-- drains the keyboard (kernel/src/drivers/keyboard.rs), whose interrupt handler fills a ring of
-- scancodes. A fault or a failed check ends in the panic handler (kernel/src/panic.rs), which reports
-- registers (kernel/src/cpu/regs.rs) and a backtrace.
--
-- Files:
--   Prelude          what every file shares: Boolean tests, lists indexed by native numbers
--                    (Prelude/Lists), the outcome of code that may panic (Prelude/Panics), runs
--                    that return (Prelude/Loops), binary digits of native numbers
--                    (Prelude/Bits and below), bytes and text (Prelude/Text), and port accesses
--                    (Prelude/Ports)
--   Log              levels and targets of kernel/src/log.rs, and the filter of
--                    kernel/src/console/log.rs; Log/Filter is about runs of calls
--   Multiboot        the readers of info.rs; Multiboot/Containers is heapless, Multiboot/Tags the
--                    tags, Multiboot/Parse parse and read_from; Multiboot/Settles, Bounds and Total
--                    are about the end of parse, Multiboot/Prefix about the bytes it reads,
--                    Multiboot/Encode and RoundTrip about written memory maps;
--                    Multiboot/Params is parse_params, Multiboot/Words about its words
--   Bitmap           bit_set, bit_clear, bit_test, next_free and next_free_run of pmm.rs, on a list
--                    of 64-bit words; Bitmap/Frames reads it as a set of frames, Bitmap/Scan and
--                    Bitmap/Run are about the two searches
--   Pmm              PmmInner and its operations; Pmm/Count counts free frames, Pmm/Ranges and
--                    Pmm/Bytes are about free_range and reserve_range, Pmm/Init about init,
--                    Pmm/Alloc about allocate, Pmm/Dealloc about deallocate
--   Keyboard         Keyboard/Ring is the ring (ring_push, ring_pop, pending), Keyboard/Keys the key
--                    codes and scancode tables, Keyboard/Decode the state and translate,
--                    Keyboard/Poll poll and drain; Ring/Service is about schedules of arrivals and
--                    takes. Keyboard/Controller is init, interrupt_handler and shutdown with the
--                    exchange with the controller: Controller/Polite and Probe are about the
--                    protocol of the ports, Controller/Handler about interrupt_handler,
--                    Controller/Script and SetUp about the commands that are sent
--   Vmm              page-table flags, permission profiles, indices, and the tests on an entry of
--                    vmm.rs; Vmm/Entries is about leaf entries, Vmm/Indexing about indices.
--                    Vmm/Walk is the pool of table frames, mapping and translate; Walk/Tables
--                    and Walk/Descent are about the tables, Walk/Path about translate,
--                    Walk/Mapping about map_4k. Vmm/Audit is
--                    count_wx_violations and harden_boot_map; Audit/Counts and Audit/Violations
--                    are about the count, Audit/Hardened and Audit/Hardening about the
--                    hardening. Vmm/Init is init, with virt_to_phys and phys_to_virt of kernel/src/arch.rs
--   Interrupts       Interrupts/Pic: vectors and line masks of kernel/src/interrupts/pic.rs, Pic/Ports
--                    its port writes; Pic/Chip is the 8259A, Pic/Mirrored and Acknowledge are about
--                    the two together. Interrupts/Pit: the tick counter and times of
--                    kernel/src/interrupts/pit.rs, Interrupts/Delay its spin_delay_us.
--                    Interrupts/Idt: the counters and the table of kernel/src/interrupts/idt.rs,
--                    Idt/Names, Report and Handlers its reports and handlers; Idt/Table is about the
--                    table, Idt/Masking and Lines about the lines, Idt/PageFault about a report
--   Console          cells and cursor of kernel/src/console/vga.rs
--   Cpu              detect, cstr and entropy_probe of kernel/src/cpu/cpuid.rs; Cpu/Leaves is about the
--                    leaves that are read, Cpu/Detected about the numbers, Cpu/Vendor about names,
--                    Cpu/Entropy about the probes. Cpu/Regs is kernel/src/cpu/regs.rs,
--                    Regs/Problems about the problems of the control registers
--   Panic            kernel/src/panic.rs: state, backtrace, report and action; Panic/Backtrace is about
--                    the walk, Panic/Once about panics inside a panic
--   Syscall          kernel/src/syscall/mod.rs: the errors, dispatch and the value of IA32_STAR;
--                    Syscall/Selectors is about what a processor reads out of it
--   Tests            concrete runs at which the conditions of the theorems hold
--
-- Correspondence. A struct is a record with the source's fields, a function takes the state and
-- returns the new one. The lock around a state is left out, since one function holds it at a time.
-- u64 and usize are native numbers; both cargo profiles keep overflow checks on, so an addition or a
-- subtraction that leaves its type is the outcome `panic overflow`, as an index that is out of bounds
-- is `panic out_of_bounds` and an assertion that fails is `panic assert_failed`. Atomic counters wrap.
-- The sums of the console's cursor and of the ring's indices, which stay small, are not checked.
-- Addresses that the x86_64 crate wraps are their numbers. A pop of the ring is also given as its
-- loads and its store, since an interrupt can come between the two. A result of the Multiboot parser
-- is a value, one of its errors, or a panic. A str is the list of its bytes, and a line of a report
-- the data that it shows. Code that works on ports takes the trace of the accesses so far and returns
-- a longer one. The handlers of interrupts are functions of one machine: counters, clock, ring,
-- interrupt controllers and ports; each runs as a whole.
--
-- Loops over a range, a list or a capacity are structural. The two scans of the bitmap run on fuel:
-- each round moves the index on by at least one frame, so as many rounds as there are frames left
-- are enough, and the theorems about them conclude that the search returns. The walk over the
-- Multiboot tags has the size of the structure as fuel, the loop over a memory map that of the tag's
-- body: each round moves the offset on, and the parser is proved to end without a panic, that of
-- spent fuel included. The polling loops of the keyboard and of spin_delay_us have the source's own
-- bounds, and so has the backtrace, of 24 frames.
--
-- Parameters: the first words of the frames, which the debug canary reads and writes, are a
-- function from addresses to words, as is the memory that holds page tables; the memory that
-- read_from reads is a function from addresses to bytes. The table that CR3 names, the linker's
-- symbols and `cfg!(debug_assertions)` are arguments. The CPUID instruction is a function from
-- leaves to registers, RDRAND a sequence of results. Devices are a function from the accesses so far to
-- the byte that a read gives; the registers that assembly reads are a record. The table that
-- set_general_handler of the x86_64 crate makes for a handler is a function from vectors to entries.
-- The time of a key event is a number, or for a run of bytes a function.
--
-- Not modelled: log lines, the other consoles, the descriptor tables of gdt.rs and the loading of
-- tables, which fill structures of the x86_64 crate, the numbers and names reserved for system calls,
-- which nothing reads, the kernel heap (a wrapper of a crate), processor set-up, start-up and the
-- self-test.
mod Prelude
pub mod Bitmap
pub mod Vmm
pub mod Pmm
pub mod Keyboard
pub mod Interrupts
pub mod Console
pub mod Multiboot
pub mod Cpu
pub mod Log
pub mod Panic
pub mod Syscall
mod Tests
