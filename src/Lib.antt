-- ===== src/Lib.antt =====
-- Verification of generic-ebpf: an eBPF interpreter with maps and programs, for several systems.
--
-- The program. Linux, FreeBSD and Darwin glue gives sys/dev/ebpf an allocator, locks and counters
-- (sys/dev/ebpf/ebpf_platform.h). An environment (ebpf_env.c) holds a configuration and counts the
-- objects in it; maps and programs are reference-counted objects (ebpf_obj.c). A program
-- (ebpf_prog.c) has instructions and the maps that are attached to it; `ebpf_prog_run`
-- (ebpf_interpreter.c) executes it, and reaches the maps by helper functions. A map (ebpf_map.c)
-- dispatches to a type: the array (ebpf_map_array.c) or the hash table (ebpf_map_hashtable.c, whose
-- elements come from the pool of ebpf_allocator.c), each plain or per CPU.
--
-- The files. `Base` has tests, lists, machine words, byte blocks and bit operations. `Platform` is
-- the interface of the host's allocator, a record of operations with the laws of an allocator: each
-- function on memory takes an instance; `Regions` adds which bytes are in use. `Isa` is
-- sys/sys/ebpf_vm_isa.h; `Vm` is the interpreter, one function per class of cases, and `Vm.Step` the
-- switch and the loop. `Map` has the attributes, flags and codes that maps share. `Array` is creation
-- and destruction of the array map and `Array.Ops` its element operations; `Allocator` is the pool;
-- `Hashtable` has the table's structures and helpers, `Hashtable.Ops` its element operations and
-- `Hashtable.Lifecycle` its creation and destruction, with the rounding of ebpf_util.h in `Util`.
-- `Api` is ebpf_map.c over an interface `MapOps`, and `Api.Types` fills it with the tables of
-- operations of the four map types; `Api.Calls` has sequences of calls and the abstract table that
-- they are compared with. `Env` is ebpf_env.c and ebpf_obj.c, and `Prog` is ebpf_prog.c, with the
-- creation in `Prog.Create` and systems of maps and programs as a step relation in `Prog.System`.
-- `Epoch` is ebpf_epoch.c. A function has the name that it has in C. The files below these hold
-- proofs, and `Tests` concrete instances.
--
-- How state is written. A C structure is a record, a function that changes one returns the new one,
-- and an `int` result is a `Code`. What C leaves undefined (an access out of bounds, a division by
-- zero, a failed assertion) is `none` or `fault`. Unsigned arithmetic is on natural numbers with
-- the reduction written out. A lock makes the function that holds it one step. Lists of queue.h are
-- lists of addresses; the elements of a hash table are a function from addresses.
-- The buckets of a hash table are a function of the index, also beyond the array: the invariant keeps
-- the index of every operation inside of it, and a table without buckets does not have the invariant.
-- The links of a pool are lists, but each is written to its block only where the segment has room.
--
-- Fuel. `run_from` takes one unit for each round of the interpreter, since a program may loop;
-- without jumps, two units more than the program is long. `carve`, the pre-allocation loop, takes
-- one unit for each block, since each round makes one. The key walk of the array takes one for each
-- key and one for the end, and so does that of the hash table.
--
-- Parameters. The host's allocator (`Platform`); the byte-order macros and the helper functions of
-- a configuration (`Host`), where the macros give numbers of their width; the hash of the hash
-- table, which may be any function of the key's bytes; the constructor and destructor of a pool;
-- `init` of a map type in `Api`; the size of a list entry, which is at least a pointer, and the memory that holds the pointers of
-- per-CPU elements in `Hashtable.Lifecycle`; the epochs of ck_epoch.h and the thread-specific values
-- of pthread.h (`EpochHost`).
--
-- Not modelled. The hash function (ebpf_jhash.h, a copy of a file of FreeBSD) and the list macros
-- (ebpf_queue.h, a part of a BSD header); the interleaving of readers with writers, for which the
-- code relies on epochs; the system glue; and the copies of other libraries under extern.
pub mod Base
pub mod Platform
pub mod Isa
pub mod Vm
pub mod Map
pub mod Util
pub mod Allocator
pub mod Array
pub mod Hashtable
pub mod Env
pub mod Epoch
pub mod Prog
pub mod Api
pub mod Tests
