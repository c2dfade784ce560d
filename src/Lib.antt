-- ===== src/Lib.antt =====
-- The kernel of the operating systems course project, xv6 with a priority lock, modelled function
-- by function from its C sources under xv6/.
--
-- The parts and how they interact. Processes call the kernel through arguments fetched from user
-- memory (`Args`, syscall.c). A read or write goes to an open file (`File`, file.c), which is a
-- pipe (`Pipe`, pipe.c) or an inode. The file system (`Fs`, fs.c) maps the bytes of an inode to
-- blocks of the disk and takes blocks from a free map, and keeps directories in such files; it
-- reads them through the buffer cache (`Bcache`, bio.c) and writes them through the log (`Log`,
-- log.c), which makes a transaction atomic under power failures. Processes are in a table
-- (`Ptable`, proc.c) and wait on spin locks (`Spinlock`, spinlock.c), sleep locks (`Sleeplock`,
-- sleeplock.c) and the course's priority lock (`Priority`, spinlock.c). Pages come from a free list
-- (`Kalloc`, kalloc.c), from which the page tables (`Vm`, vm.c) are made too. The keyboard's input
-- reaches the readers through the console (`Console`, console.c). `CString` has string.c with the
-- loops of x86.h that it uses.
--
-- Processes hold files by descriptors (`Descriptor`, sysfile.c and proc.c), and numbers are printed
-- and read by the code of `Print` (console.c, printf.c, ulib.c).
--
-- Conventions. A function of the source is a function of the same name on an explicit state; a
-- panic is the result `panic` with the source's message (`Prelude.Panics`), a null pointer or -1 is
-- `none`. A word is a native number below 2 ^ 32, with its wrap-around written out
-- (`Prelude.Words`). A table or the disk is a function of its index (`Prelude.Memory`). Code
-- between the `acquire` and the `release` of a spin lock is one step; what processes or CPUs do
-- between such steps is interleaved by a step relation (`Log.Transaction.Steps`, `Priority.Steps`,
-- `Ptable.Steps`, `Spinlock.Exclusion`, `Sleeplock.Exclusion`, `File.References`,
-- `Icache.References`, `Descriptor.Steps`, `Bcache.Unique`).
--
-- Files. `Log.Disk` is the disk as the log sees it, `Log.Commit` its commit and recovery, with
-- power failures before any block write; `Log.Transaction` is begin_op, end_op and log_write.
-- `Fs.Blocks` has the data of blocks, `Fs.Bits` and `Fs.Bitmap` the free map, `Fs.Inode` bmap,
-- `Fs.Dinode` iupdate, `Fs.Truncate` itrunc, `Fs.Content` readi and writei, `Fs.Directory`
-- dirlookup, dirlink and iput, `Fs.Path` skipelem; `Icache` is the cache of inodes of fs.c.
-- `File.Inode` has fileread and filewrite for an inode. The other modules are named for what they
-- prove.
--
-- Bounds and fuel. strlen and fetchstr take fuel for the bytes up to the end of memory; freerange 2
-- ^ 20 rounds, the pages of the address space; balloc a round for each block of the free map and
-- two more; readi and writei a round for each byte, of which each round but the last moves one at
-- least; filewrite likewise, with one round more; dirlookup and dirlink a round for each byte, of
-- which each moves 16; the kill of a console line a round for each byte of it; mappages 2 ^ 20
-- rounds, the pages; printint a round for each of the 16 places of its buffer. The theorems about
-- them show a result, so the fuel is enough.
--
-- Not modelled: device drivers, interrupts, assembly and start-up code, the address spaces above
-- the page tables, the console's screen, the system calls above the modelled parts, the walk along
-- a path, and user programs. The file system is modelled between begin_op and end_op, with each call of
-- log_write recorded and taken to return: the panics of log_write are in `Log`. dirlookup and dirlink
-- take no locks; iput is told which inodes the caller has locked. The tables of device functions are a parameter of readi and writei. sys_open_sharedmem of
-- xv6/sysutils.c does not compile.
pub mod Prelude
pub mod Args
pub mod Bcache
pub mod CString
pub mod Console
pub mod Descriptor
pub mod File
pub mod Fs
pub mod Icache
pub mod Kalloc
pub mod Log
pub mod Pipe
pub mod Print
pub mod Priority
pub mod Ptable
pub mod Sleeplock
pub mod Spinlock
pub mod Vm
