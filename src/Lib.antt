-- ===== src/Lib.antt =====
-- A model of umbongo, a small x86-64 operating system in C++: a kernel, servers in user space
-- that talk over pipes and sockets, and a shell.
--
-- How the parts meet: a key press reaches the shell's line editor, which prints to a pipe that
-- the console server reads and turns into a terminal's rows and cursor (Shell.LineEditor,
-- Console). A finished line goes through the lexer, the parser and the evaluation of the tree to
-- system calls that make processes and pipes (Shell). Processes read and write through file
-- handles, whose files are pipes on a double buffer or files in memory (Files, DoubleBuffer).
-- Physical memory comes from the kernel's frame allocator (Frames), and small blocks of it from
-- the kernel's heap (Heap); a process's regions are placed by its address space (AddressSpace),
-- which maps their pages in the page tables (Paging) and keeps them in a splay tree (SplayTree).
-- The scheduler picks the thread that runs next, and asks those that are blocked on files, pipes
-- or sockets whether they still have to wait (Scheduler). A path names an inode (Vfs), which is
-- opened as a file. User programs ask servers by messages (Messages), as the configuration server
-- is asked (Config), and format and read numbers with ustd (Strings).
--
-- The files:
-- - Base: what the components share. Base.Lists, Base.Slices, Base.Vector and Base.Bits are
-- vectors, memcpy and bit sets over native numbers; Base.Words the wrap-around of 32-bit and
-- 64-bit arithmetic; Base.Panic a step that may end in a failed assertion; Base.Outcome the same
-- with fuel.
-- - DoubleBuffer: kernel/ipc/double_buffer.{hh,cc}. The state is the class's, with the two
-- pointers to its halves as the halves themselves. DoubleBuffer.Inv has the well-formed states,
-- DoubleBuffer.Refine the abstract queue of bytes.
-- - Frames: the frame bitset and the frame allocator of kernel/mem/memory_manager.cc. The state
-- is MemoryManagerData; a bucket is a number below 2^64. Frames.Inv gives the meaning of the
-- bits, Frames.Alloc and Frames.Range treat one frame and ranges of frames.
-- - Heap: the regions of kernel/mem/heap.cc. Heap.Bitset is about the loops that set and clear
-- bits, Heap.Scan and Heap.Search about the search for free chunks, Heap.Blocks about whole
-- blocks.
-- - Files: the interface of kernel/fs/file.hh as a record of operations. Files.Ram is RamFsInode
-- of kernel/fs/ram_fs.cc and InodeFile, Files.Pipe is kernel/ipc/pipe.cc, both as instances of
-- it, Files.ServerSocket is the queue of kernel/ipc/server_socket.cc, and Files.Handle is
-- kernel/fs/file_handle.cc over any of them.
-- - Messages: libs/ipc/message_encoder.hh and libs/ipc/message_decoder.hh, with the bytes of
-- numbers in Messages.Bytes and whole messages in Messages.RoundTrip; Messages.Dispatch is the
-- loop of libs/ipc/client.cc over the messages of a read.
-- - Strings: ustd/string_view.cc, with ustd/string_cast.hh in Strings.Cast and the numbers of
-- ustd/string_builder.hh in Strings.Builder.
-- - Config: servers/config/main.cc. Config has the domains and their files, Config.Requests the
-- handler's switch, Config.Wire the messages of libs/config/ipc_messages.hh, Config.Serve the
-- handler; the other files are about updates, watchers, files and the way of the messages.
-- - Paging: kernel/arch/paging.hh and the maps and unmaps of kernel/mem/address_space.cc. A level
-- is a record of 512 entries and their count; an entry that points to a table holds it.
-- Paging.Entries has the well-formed levels, Paging.Translate the processor's walk through them.
-- - AddressSpace: the regions of kernel/mem/address_space.cc, in AddressSpace.Pages the packed
-- word of kernel/mem/physical_page.hh, and in AddressSpace.Objects kernel/mem/vm_object.cc,
-- kernel/mem/region.cc and virt_to_phys. The splay tree of the regions is kept as the list that a
-- walk from its minimum gives and the list of those in front of it; AddressSpace.Tree relates
-- these lists to SplayTree.
-- - SplayTree: ustd/splay_tree.hh over nodes with an address and a key. A pointer into the tree
-- is a place: the node, its children and the nodes above it.
-- - Scheduler: kernel/proc/scheduler.cc on one processor, with the state of
-- kernel/proc/thread.hh. Scheduler.Queue is about the ring of a priority queue, Scheduler.Pick
-- about one switch and Scheduler.Turns about switches in a row.
-- - Vfs: kernel/fs/vfs.cc, the directories of kernel/fs/ram_fs.cc and kernel/fs/inode.cc, over a
-- list of all inodes; a pointer to an inode is its place in the list.
-- - Console: servers/console. Console.Terminal is terminal.cc, Console.EscapeParser is
-- escape_parser.cc, Console.Feed the read handler in main.cc; Console.Shown and Console.Follow
-- are about a terminal that shows a text.
-- - Shell.Lexer: shell/lexer.cc and shell/token.hh; Shell.Parser: shell/parser.cc and the tree of
-- shell/ast.hh; Shell.Eval: shell/ast.cc, shell/value.hh and execute of shell/main.cc, with the
-- close of a pipe by the destructor in libs/core/file.cc; Shell.LineBuffer and Shell.LineEditor:
-- shell/line_editor.cc, its loops over the buffer and each key with the bytes that it prints.
-- - Posix: ustd/builtin.cc and the moves, comparisons and searches of libs/posix/string.cc.
--
-- Strings and characters are lists of bytes as numbers. State is passed on explicitly; a failed
-- assertion has no result, and the locks make an operation one step.
--
-- Fuel: the parser's recursion is on fuel, one more than the number of characters that are left;
-- each round consumes a token, and Shell.Parser.Ends is about it. alloc_contiguous has one round
-- more than there are frames, and each round moves on by at least one frame. The search of a
-- bucket for free chunks takes at most a round for each of its 64 bits and one more. The loops of
-- the scheduler over a queue take one round more than a queue has slots. The loop over the pages
-- of a memory object ends within a round for each 4 KiB, and the one over the messages of a read
-- within a round for each message and one more. Every other loop is a recursion on its own
-- counter or list.
--
-- Not modelled: code that drives hardware, assembly, locks (an operation that holds a lock for
-- its whole body is one step), formatted output of diagnostics, and the parts of the kernel and
-- of the servers that the list of components in the manifest names.
pub mod Base
pub mod DoubleBuffer
pub mod Frames
pub mod Files
pub mod Heap
pub mod Messages
pub mod Console
pub mod Strings
pub mod Config
pub mod Paging
pub mod SplayTree
pub mod AddressSpace
pub mod Scheduler
pub mod Vfs
pub mod Posix
pub mod Shell
