-- ===== src/Lib.antt =====
-- Verification of psprism, the static recompiler for PSP executables: its loaders, its instruction
-- decoder and the run-time pieces that generated programs rely on.
--
-- The program reads an ELF or PRX file (src/elf), finds the functions in its code with the help of an
-- optional code map (src/elf/code_map.cpp, src/emitter/analysis.cpp), and writes C++ that works on a
-- guest CPU state (include/psprecomp). A generated project embeds the memory image of the module and
-- its relocation records, in a compact byte stream, and patches the image when it starts.
--
-- Base: Boolean tests, lists over the native numbers, fixed-width words as numbers with their
--   wrap written out, laws of the bit operations at every width, ordered sets, and outcomes: a
--   value, an exception, a read outside an array, or a loop that outlasts its fuel.
-- Relocation: include/psprecomp/relocation.hpp and src/emitter/relocations.cpp. Records has the
--   structs, `find_segment`, `relocation_word_offset`, `read_u32` and `write_u32`; Apply has
--   `apply_psp_relocations`, its loop as a recursion on the records that are left; Compact has
--   `CompactRelocationDecoder` and `apply_compact_psp_relocations`; Encode has
--   `compact_relocations`, the writer of the stream. An access outside the image is a value of
--   its own (`wild`, `fault`), so that its absence is a theorem. The writer's tag loop takes ten
--   rounds of fuel, which shift a 64-bit tag out; tags have at most 34 bits.
-- Decoder: include/psprecomp/allegrex_decoder.hpp. Instruction and InstructionFlag have the
--   decoded record and its flags, Decode has `decode_allegrex` with a function per group of
--   opcodes, Tables has the pattern tables and `find_pattern`, Vfpu the two classifiers of
--   include/psprecomp/vfpu.hpp. Patterns and Flags have the theorems.
-- Cpu: the run-time side. State and Memory are `State`, the four regions, and the loads and
--   stores of include/psprecomp/runtime.hpp, on a portable little-endian host without direct
--   access and without the profile counters, which normal builds compile away; an access outside
--   a region, which C++ leaves undefined, is `none`. Bitwise has the word operations. Execute
--   follows `interpret_allegrex` of include/psprecomp/interpreter.hpp, a module per group of
--   opcodes, and Interpret puts them together. Floating-point arithmetic and `execute_vfpu` are
--   parameters: the first is the hardware's, the second is not modelled. Register files are
--   functions of the index. Laws has the theorems: guest memory in Access, FastPath and
--   LoadStore, the interpreter against the decoder in Support, Groups, Transfers, Flow, Executed
--   and Step.
-- CodeMap: src/elf/code_map.cpp and the look-ups of src/elf/image.cpp. Types has the structs of
--   src/elf.hpp, Tokens the tokens and numbers of a line (std::from_chars as it is documented),
--   Lines the directives, Load the file, Normalise what follows the loop, Lookup the three
--   searches. The library's sort is a parameter (Base/Sorting), any function that orders its
--   argument; what it does with equal keys is left open. A binary search is modelled by what it
--   finds in a sorted list. The proofs are in Parsed, Ranges, Merged, Overlaps, Starts and
--   Errors.
-- Elf: src/elf/loader.cpp and the memory image of src/elf/image.cpp. Bytes has `u16`, `u32` and
--   `string_at`, Programs the program table and the preferred base, Sections the section table
--   with the executable and the relocation sections, Modules the gp value and the imports of the
--   module information, Load puts them together. The walk over the imports takes the end of the
--   table as its fuel: each entry has at least 20 bytes. Total, Fits and Contents have the
--   theorems.
-- Analysis: src/emitter/analysis.cpp. Text has the helpers of src/emitter/format.cpp, Control
--   the segments, the direct targets and the executable words, Entries `potential_block_entries`
--   with a function per loop, Functions `discover_functions`. A std::set is its elements in
--   ascending order (Base/Sets), a std::map the function that looks a key up. The loop over the
--   shard boundaries takes the section's end as its fuel; each round adds at least 1 to the
--   boundary until it wraps around. Growth, Pointers, Reached, Complete and Ends have the
--   theorems on the entries, Starts and Discovered and Returns those on the functions, and
--   Targets and Agreement set the analysis against the interpreter.
-- Hash: src/hash.cpp. Block is `transform` as a function of the state and the block, Sha256 the
--   class and its two clients. A file is the chunks that its stream delivers. Standard is SHA-256
--   written again from FIPS 180-4: its constants come from the roots of the primes, and its
--   schedule is a window of sixteen words; it shares the record `Round` and the access `at` with
--   Block, and nothing else. Streaming, Writes, Padding, Agreement and Chain have the theorems.
-- Iso: src/iso.cpp, on a POSIX host. Names has the strings, the numbers and the ranges,
--   Directory the walk of the constructor over the directories, on fuel, Lookup `find` and
--   `read`, Order the order of paths. The library's sort is a parameter again, any function that
--   orders the entries by their paths. Records and Ends have the fuel: each pair of an extent
--   and a size is read once, and lies inside the file. Safe has the paths. An image is the list
--   of its bytes, and a read inside it succeeds.
-- Kernel: the guest kernel's objects, refract/src/runtime.cpp and refract/src/stubs/kernel, as
--   they are compiled for a host. Table is a map from uids, Objects the structs and `int` as a
--   two's complement word whose overflow is `none`. Memory has the heap, the fixed and the
--   variable pools and their stubs; Semaphore, Mailbox, Mutex and EventFlag have the other
--   objects. A critical section is one step, and a stub that waits is two: up to its condition
--   variable, and from it on. Semaphore/System has the steps of all threads as a relation,
--   Semaphore/Order who gets tokens in a run of them, and Next and Progress follow the first
--   blocked thread. The host's locks, the log output and the objects' names are left out.
-- Not modelled: text generation, host frontends, file-system work, the ISO patcher and the
--   metadata of a disc, the vector unit's instructions, threads, and the graphics, audio and
--   media stubs.
pub mod Analysis
pub mod Base
pub mod CodeMap
pub mod Cpu
pub mod Decoder
pub mod Elf
pub mod Hash
pub mod Iso
pub mod Kernel
pub mod Relocation
