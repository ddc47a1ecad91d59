-- ===== src/Lib.antt =====
-- MPX, a small teaching kernel: the heap manager, the C string functions, the process control blocks
-- and their queues, the serial driver, the system call handler with its scheduler, interrupt set-up,
-- and the commands of its command handler.
--
-- Base holds what the modules share: Boolean tests, lists over native numbers, signed integers, text
-- literals as bytes, and the result `Run` of C code (a value, a fault, or loops that did not end
-- within the fuel).
--
--   lib/mem.c, include/memory.h      Heap: the header words in memory, `allocate_memory` and
--                                    `free_memory` as loops over them. Heap/Blocks relates the words
--                                    to a list of blocks; Heap/Alloc, Heap/Free and Heap/Release
--                                    compare the code with first fit and release on such lists;
--                                    Heap/Layout, Heap/Client and Heap/Twice draw the consequences.
--   lib/string.c, lib/ctype.c,       CString: the functions by their names, on the bytes from a
--   lib/stdlib.c, lib/core.c         pointer to its array's end; CString/Laws, CString/Strtok and
--   (memcpy, memset)                 CString/Number; CString/Itoa is `itoa`.
--   lib/core.c (sys_alloc_mem ...)   SysMem: the replaceable heap functions.
--   kernel/pcb.c, include/mpx/pcb.h  Pcb: the blocks by address, the queues' heads, `pcb_insert`,
--                                    `pcb_remove`, `pcb_find`; Pcb/Queue is the list view of a
--                                    queue; Pcb/Setup has `pcb_allocate`, `pcb_free`, `pcb_setup`,
--                                    Pcb/Setup/Free is about `pcb_free`, Pcb/Setup/Valid about
--                                    `pcb_setup`, Pcb/Find about `pcb_find`.
--   kernel/serial.c,                 Serial: ports as a list of inputs and a list of outputs, the
--   include/mpx/device.h             driver's set-up and `serial_poll`; Serial/Poll is about the last;
--                                    Serial/Requests: the queue of requests and the interrupt
--                                    handlers; Serial/Queue is the list view of that queue,
--                                    Serial/Transmit and Serial/Write are about
--                                    a write and its output interrupts.
--   kernel/sys_call.c                SysCall: `sys_call` case by case; SysCall/Idle and
--                                    SysCall/Fair are about the IDLE call, SysCall/First about
--                                    the first one, SysCall/Exit about the EXIT call,
--                                    SysCall/Request and SysCall/Write about the WRITE call.
--   user/commhand.c                  Command: what the commands share, and those that delete, resume
--                                    and suspend a process; Command/Suspend is about the last.
--                                    Command/Clock: the clock commands (with Date, Time, RoundTrip);
--                                    Command/Show: the show commands; Command/Texts: help, menu,
--                                    version, shutdown; Command/Priority: set_pcb_priority;
--                                    Command/Load: load_r3 and alarm, with Contexts, Ready, Jobs
--                                    and All of Command/Load on the processes made; Command/Dispatch: `commhand`;
--                                    Command/Line: the first word of a typed line.
--   kernel/core-c.c (paging)         Vm: the frame bitmap, `get_page` and `kmalloc`; Vm/Frames is about
--                                    the bitmap; Vm/Init is `vm_init`, Vm/Span, Vm/Mapping and
--                                    Vm/Tables are about its loops, Vm/Start about what it leaves.
--   kernel/core-c.c (interrupts)     Interrupts: `irq_init`, `pic_init`, `kpanic`; Interrupts/Gates
--                                    is about the first; Interrupts/Handlers: the processor's
--                                    tables and the exception handlers.
--   kernel/kmain.c                   Boot: `klogv` and `kmain`, in parts; Boot/Log is about the
--                                    messages, Boot/Running about the kernel at the IDLE request,
--                                    from Boot/Ports, Boot/Memory, Boot/Started, Boot/First,
--                                    Boot/Processes and Boot/Kmain; Boot/Handover about that
--                                    request.
--   user/core.c                      User: `sys_req` and the test processes' common code;
--                                    User/Processes: the processes; User/Output.
--   user/mem.c                       MemCommand: the `mem` command, `printf` calls as values.
--   Tests                            runs at concrete inputs.
--
-- `sys_call` takes the queues of Pcb, the driver and the heap functions; a finished output interrupt
-- inserts the waiting process again. There, `kmalloc` is a function that the definitions take; Vm has
-- it. The commands work on a session: the queues, the driver, the clock's registers and the bytes of
-- their WRITE requests, one list for each request. In `sys_call` such a request blocks the command and
-- switches to other processes, which relinks the queues: a session has a function `served` that gives
-- the queues and the heap as they are when the request comes back, and the theorems hold for each such
-- function; a request that never comes back is left out. Contexts, ports and the clock are not among
-- what it changes, and a message of the `pcb_find` in `pcb_setup` (which needs a process in the
-- suspended queue) is only recorded.
--
-- Fuel bounds every loop over pointers: one unit for a block that the loop visits, so that the length
-- of the queue, or of the heap's block list, is enough; each theorem says how much it asks for. `itoa`
-- takes fuel for its digits. The waiting loop of `serial_poll` is bounded by the list of inputs
-- instead.
--
-- Machine integers: size_t arithmetic of lib/mem.c wraps at 2 ^ 32, written out, as do the bytes of the
-- clock commands, and the length of a write becomes an int; the digits of atoi fault where an int would overflow. Accesses of NULL and beyond an
-- array are faults. A process's fields, the heap's header words, the page tables and the driver's buffers are
-- separate maps, so stray writes from one into another are out of reach here.
--
-- The loop of `vm_init` that has no fixed bound takes fuel too, one unit for each page.
--
-- Not modelled: the assembly (context switch, interrupt entry), the control registers, and the
-- `io_wait` between the bytes for the interrupt controllers.
pub mod Base
pub mod Heap
pub mod CString
pub mod SysMem
pub mod Pcb
pub mod Serial
pub mod Vm
pub mod SysCall
pub mod Command
pub mod Interrupts
pub mod MemCommand
pub mod Boot
pub mod User
pub mod Tests
