-- ===== src/Lib.antt =====
-- A verification library for muk, a small i386 kernel in C++.
--
-- The program. A boot loader enters the kernel with a map of the physical memory. The kernel then
-- sets up its segment and interrupt descriptors, a bitmap of the free physical pages, the recursive
-- page directory, a heap and the timer, starts four threads (keyboard, screen, message relay and
-- terminal) and lets the timer interrupt switch between them. Threads share memory, guard it by
-- spin locks, and send each other messages through ports. Below them stand a small standard library
-- and drivers for the disk, the keyboard and the screen.
--
-- The files. Each file of this library opens with the code that it is about.
--   Prelude         names of the libraries, Boolean tests, arrays as lists, integers
--   Word            machine words with their wrap written out; Word/Bits has the laws of | & ~ <<
--   Memory/Bitmap   kernel/memory/manager.cpp, BitmapAllocator: page_free is PageFree, page_taken
--                   PageTaken, allocate_page AllocatePage, init the constructor
--   Memory/Paging   kernel/memory/manager.cpp, PageTableManager: new_manager is the constructor,
--                   get_from_virtual_address GetFromVirtualAddress, map_page MapPage, which calls
--                   allocate_page of Memory/Bitmap
--   Memory/Heap     kernel/memory/heap.cpp: map_heap_pages and vmalloc
--   Memory/Bytes    kernel/memory/alloc.cpp: memcpy, memmove, memset, memcmp
--   Proc/Message    kernel/proc/message.cpp and include/kernel/proc/message.hpp: push and pop are
--                   those of MessageList; listen, send_message and receive_from those of the ports;
--                   relay is the loop of postbox_debug
--   Proc/Mutex      kernel/proc/mutex.cpp: SpinlockMutex and RecursiveMutex by whole calls, and in
--                   Proc/Mutex/Threads the accesses of SpinlockMutex one at a time, interleaved
--   Proc/Thread     kernel/proc/thread.cpp, start_thread; kernel/proc/scheduler.cpp, Scheduler::next
--   Proc/Timer      kernel/timer.cpp: timer_irq, Timer::sleep and Timer::yield, and the flag of
--                   Scheduler::lock and Scheduler::unlock
--   Cpu/Gdt         kernel/gdt.cpp: gdt_set_gate and gdt_install
--   Cpu/Idt         kernel/idt.cpp: idt_set_gate, idt_install, Interrupt::Register as register,
--                   isr_handler
--   Cpu/Print       kernel/cpu.cpp: BochsConsolePrint, bcprintf, snprintf and asprintf, on Std/Format
--   Std/Ringbuffer  kernel/std/ringbuffer.cpp: buffer_read, buffer_write, buffer_clear
--   Std/Cstring     kernel/std/stdlib.cpp: strlen, strcmp, strncmp, strcat, strstr, strspn, tolower
--   Std/Number      kernel/std/stdlib.cpp: itoa and atoi
--   Std/Vector      include/std/vector.hpp: reserve, push_back, pop_back, operator= as assign
--   Std/Text        include/std/string.hpp: of_chars is the constructor from a char*, to_chars
--                   operator char*, append operator+=, equals operator==
--   Std/Algorithm   include/std/algorithm.hpp: find, find_if, count_if, move, remove, remove_if
--   Std/Bitset      include/std/bitset.hpp: set_bit is set, at_bit operator[]
--   Std/Strtol      kernel/std/stdlib.cpp, strtol, with the macros of include/std/ctype.hpp
--   Std/Format      kernel/std/stdlib.cpp: ldiv, ltoa, sprintf, vsprintf; convert and convert_v are
--                   the conversions of the two, the loop is shared
--   Std/Tokens      kernel/std/stdlib.cpp: strtok, its later calls as strtok_next, and
--                   strpbrk; kernel/command.cpp: the loop of Command::split as collect;
--                   kernel/tty.cpp: the same loop on a string in the heap as tokens_in
--   Fs              kernel/fs/fat16.cpp and include/kernel/converter.hpp: open_fat16 is open, walk
--                   and walk_sectors those of the table; Fs/Directory has readDirectory of a sector,
--                   Fs/Path readDirectory and readFile of a path, and splitPath of kernel/fs.cpp,
--                   Fs/Listing the command ls of kernel/bin/ls.cpp
--   Drivers/Ata     kernel/drivers/ata.cpp: initialise, wait, prepare, read_u16, read_u8
--   Drivers/Keyboard kernel/drivers/keyboard.cpp: keyboard_irq and getc, on Std/Ringbuffer and
--                   Proc/Message
--   Tty             kernel/tty.cpp: putchar is terminal_putchar, write_string terminal_writestring;
--                   Tty/Shell has parse and terminal_printf, on Std/Tokens, Env and Std/Format;
--                   Tty/Session puts the keys of port 1, relay, read_keys and parse together
--   Cxxabi          kernel/icxxabi.cpp: cxa_atexit, cxa_finalize
--   Env             kernel/user/env.cpp: get_variable is ENV::get, set_variable ENV::set; kernel/ext.cpp:
--                   add_command, present and get_command are add, present and get of Library
--   Gfx             kernel/gfx/surface.cpp: set_pixel is setPixel; kernel/gfx/buffer.cpp:
--                   set_screen_pixel is SetPixel, copy_from CopyFrom of ScreenBuffer. Gfx/Screen has
--                   the other methods of a surface, UpdateBuffers and drawchar_transparent, and
--                   Gfx/Setup the loop of Setup, on Memory/Paging
-- In each, the definitions that translate the code stand in the file of the component, and the
-- theorems and their tests in its children.
--
-- How code becomes definitions. A class is a record and a method takes the record and returns the new
-- one. Machine words are native numbers with the wrap written out. An access outside of an array, a
-- read past the end of a text, the use of a null pointer and a page fault are `none`. A pointer is an
-- index or an address into a store where objects are shared, as the threads and the page tables are; a
-- pointer into a text is the list of the bytes from it on. Physical memory is a function from
-- addresses to words. A loop is recursion on the list that it walks or on the number of its rounds,
-- which is exact where the code counts; a loop without a count gets the number of rounds that a
-- theorem shows to be enough: one for each thread in start_thread, one for each block and each of the
-- 65536 pages of the heap in vmalloc, one for each timer interrupt that comes in Timer::sleep, the 16
-- bytes of its buffer in itoa, twelve polls in ATA::wait, one for each of the 248 clusters in walk,
-- sixteen records in readDirectory, one for each byte of the format in vsprintf, whose loop sprintf
-- shares, one round more than there are messages in the loops of postbox_debug and tty_update, and
-- 1024 for a screen of up to 4 MiB in Setup. A lock that threads contend for is a step relation with
-- one step for each access.
--
-- What is not modelled. Assembly (the switch of contexts, the entry of interrupts, the boot code) and
-- the processor's cache of translations; the arithmetic on doubles in Timer::setCount. The devices are
-- parameters: what the ports of the disk answer, after each sequence of accesses, the bytes of a
-- sector, and the interrupts of the keyboard that come while getc waits. The heap behind a string,
-- which ends without a NUL, is a parameter as well (behind), and so is what stands there when the loop
-- over its words has copied the first one (later), which is the header of the block allocated for it. The streams and the constructor of a surface,
-- which divides floats, have no model. libcxxrt is another project's library.
pub mod Prelude
pub mod Word
pub mod Memory
pub mod Proc
pub mod Std
pub mod Cpu
pub mod Fs
pub mod Drivers
pub mod Tty
pub mod Cxxabi
pub mod Env
pub mod Gfx
