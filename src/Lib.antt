-- ===== src/Lib.antt =====
-- A model of parts of DTrace for Linux, with the theorems that make them correct: the data
-- structures that the D compiler and the consumer library stand on (libcommon, libdtrace), the
-- printing and parsing of probe descriptions and attributes, the arithmetic behind stddev(), and the
-- bucket functions that run in the kernel for the aggregations (bpf).
--
-- The parts and how they interact. The compiler (libdtrace/dt_cc.c, dt_cg.c) allocates registers
-- from a register set while it emits code, gathers the code's strings in a string table, whose
-- content dt_strtab_write() later copies into the data of a program, and gathers binary output in
-- resizing buffers. Probes, providers and the USDT parser are kept in the generic hash table. The D
-- lexer and the printing of literals use the string transformations, the option code the version
-- numbers. The compiler's symbol tables are identifier hashes, which are searched together as a stack
-- of scopes, and its constants for BPF programs stand in a read-only data block, which is built like
-- the string table. The macros of a probe description are identifiers in a hash too. quantize() and
-- lquantize() put a value into a bucket by the functions of bpf, and the consumer prints stddev() by
-- arithmetic on 128 bits. speculation(), speculate(), commit() and discard() share the specs map with
-- the consumer, which drains a speculation and then frees its id.
--
-- - Htab (libcommon/dt_htab.c, dt_htab.h): a table is a record of slots, each a list of buckets,
--   each with the intrusive list of the entries that compare equal. The client's callbacks (hash,
--   compare, add, delete, next) are a record Ops, with the laws that the clients keep as hypotheses.
--   dt_htab_create, resize, dt_htab_insert, dt_htab_lookup, dt_htab_find, dt_htab_delete,
--   dt_htab_next and dt_htab_entries are create, resize, insert, lookup, find, delete, htab_next
--   and entries. The retries of an insertion run on fuel, one round more than there are buckets,
--   which is enough as each retry doubles the table; dt_htab_find() runs on the length of the list.
-- - Regset (libdtrace/dt_regset.c): the two bitmaps as functions, and the spill stores and loads
--   that the callbacks emit as a trace. A failed assert is `none`. The trace is that of one list of
--   instructions: dt_cg() of libdtrace/dt_cg.c starts a new one where it resets the set.
-- - Strtab (libdtrace/dt_strtab.c, and str2hval() of libcommon/dt_htab.c): the buffers whole, with
--   what malloc left in them; a byte is addressed by its buffer and an offset. The loops over the
--   pieces of a string run on fuel, one round more than there are bytes, as each round takes one.
--   Flat, Compare and Copy show that the pieces amount to one run of bytes; Search and Store give
--   the invariant.
-- - Rodata (libdtrace/dt_rodata.c, dt_gen_hval() of dt_subr.c): as Strtab, for items with a length.
--   The comparison of an item that is longer than the rest of the buffers is the outcome of a read
--   behind the last buffer. The loop that copies is that of Strtab; the loops run on fuel, one round
--   more than the item has bytes.
-- - Idhash (libdtrace/dt_ident.c, dt_ident.h): chains of identifiers, the counts of ids, and the
--   population that a hash defers to its first use. Whether an allocation succeeds is a function of
--   the elements so far; the defer callback and qsort(), which takes the comparison, are parameters. A
--   longjmp() is an outcome of its own, a failed assert `none`.
-- - Wide (dt_gt_128() to dt_sqrt_128() and dt_stddev() of libdtrace/dt_consume.c): a value is two
--   64-bit words. The loops have at most 128 rounds for dt_nbits_128(), 65 for the count of bits and
--   129 for the division in dt_divide_128(), and one round for each pair of bits in dt_sqrt_128().
-- - Attr, Probedesc (libdtrace/dt_subr.c): strings as lists of bytes before the NUL. The macro
--   variables of a description are a parameter, and the strdup() of an empty string is taken to
--   succeed; a level of dtrace_probespec_t counts from 0 for DTRACE_PROBESPEC_NONE.
-- - LinkedList (libcommon/dt_list.c, dt_list.h): the two pointer fields as functions of the address,
--   with 0 for NULL; the list is a node itself. dt_list_length() runs on fuel for one round more than
--   there are nodes.
-- - Buf (libdtrace/dt_buf.c, dt_zalloc() of dt_subr.c): a buffer is the memory as a list of bytes,
--   an offset and the recorded error. The doubling of the size runs on 64 rounds, which are enough
--   for all content up to 2^62 bytes; sizes wrap at 2^64.
-- - Text (libdtrace/dt_string.c): stresc2chr, strchr2esc, strbasename, strisglob and
--   strhyphenate over lists of bytes. The position in an escape is a mode of the loop.
-- - StringCopy (libport/strlcpy.c, strlcat.c): memory from the destination on as a list of bytes.
-- - Version (libdtrace/dt_version.c, dt_version.h): the packing, the printing by "%u", and the
--   parsing with the int that wraps.
-- - Bins (bpf/agg_qbin.c, bpf/agg_lqbin.c): the functions on 64-bit patterns.
-- - Options (libdtrace/dt_options.c): dt_optval_parse, dt_opt_size and dt_opt_rate, with the strtoull()
--   and strtoll() of base 0 written out; the read before an empty argument is an outcome of its own.
-- - Speculation (bpf/speculation.c, dt_bpf_specs_t of libdtrace/dt_bpf_maps.h): the specs map is a
--   parameter with its operations, and the laws that the kernel documents for them are hypotheses. A
--   run interleaves the calls of all CPUs, in which the test and the addition of
--   dt_speculation_speculate() are steps of their own and the other functions are one step each, with
--   the deletion of dt_spec_buf_destroy() of libdtrace/dt_consume.c. That may come between a test and
--   its addition, which is then to the entry of any id, or to none, as the kernel reuses the memory.
--   The search has the 16 rounds of the source.
-- - Base: lists, Boolean tests and bit operations that these share.
--
-- Whether an allocation succeeds is an argument of each operation, a Boolean or a function of the
-- size asked for, so that the theorems hold for every pattern of failures.
--
-- Not modelled: the code generator, the parser, the disassembler and the loading of programs, whose
-- meaning is that of BPF, of the kernel or of libraries outside the repository (libbpf, libctf,
-- libelf); the providers, process control, dtprobed and the command, which are system calls and
-- files; the classes of identifiers (dt_idops_t of dt_ident.c), which type D expressions by libctf,
-- and the rest of dt_consume.c and dt_subr.c, which is output; the other functions of dt_options.c,
-- which set paths and flags; freeing (dt_htab_destroy, dt_regset_destroy, dt_strtab_destroy,
-- dt_rodata_destroy, dt_idhash_destroy, dt_desc_destroy, dt_buf_destroy) and what only prints
-- (dt_htab_stats, dt_regset_dump, dt_attr_str).
pub mod Attr
pub mod Base
pub mod Bins
pub mod Buf
pub mod Htab
pub mod Idhash
pub mod LinkedList
pub mod Options
pub mod Probedesc
pub mod Regset
pub mod Rodata
pub mod Speculation
pub mod StringCopy
pub mod Strtab
pub mod Text
pub mod Version
pub mod Wide
