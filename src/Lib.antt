-- ===== src/Lib.antt =====
-- xdpacket: a match-execute packet engine. A process takes each packet that an interface receives,
-- finds the first rule whose operations match it, lets that rule write to it, and sends it out.
--
-- Which file models which part:
-- - Memory: the bytes of the packet buffer and of the memrefs, with the memcpy and the memcmp that
--   src/operations.c calls on them. A read or a write outside an array is `none`.
-- - FieldSet: struct field_set and field_hash (include/field.h, src/field.c), and op_pkt_offset of
--   src/operations.c. fnv_hash64 is code of another library, so it is an argument.
-- - Operations: op_common, op_match and op_write (src/operations.c) on a compiled struct op_set.
-- - Checksum: src/checksums.c, whole. Words are those of a little-endian host.
-- - Judy, Judy/Model: include/judyutils.h. The Judy library is an interface, JudySl, with the
--   documented laws of the calls that the header makes; Judy/Model has an instance for runs.
-- - Registry: what field.c, rule.c and iface.c share: objects on the heap under unique names, with the
--   reference counts of include/refcnt.h. An object is an address; `none` is a use after free.
-- - Field: the fields of src/field.c in such a registry. nstralloc is code of another library.
-- - Field/Command: field_parse, and the Y_FOR_MAP loop of include/yamlutils.h over a list of pairs.
-- - Iface: the output path and the handler of an interface (src/iface.c); send is an argument.
-- - Rout: src/rout.c, the packet path: the matches and the writes of one rule.
-- - Rout/Life: rout_new and rout_free, over the rules and over interfaces of any kind that have a name
--   and a count.
-- - Process: process_exec (src/process.c) and iface_callback (src/iface.c), which calls it.
-- - Process/Life: process_new and process_free (src/process.c), with the handler of the interface and
--   the array of the sets of the routs. Which entries of the array get memory is an argument.
-- - Memref: the states and the values of src/memref.c and memref_release.
-- - Op: struct op, op_new and op_free (src/operations.c), over the fields and the memrefs. Op/Books says
--   what an operation holds. What calloc gives for the operation is an argument.
-- - Yaml: the tree of libyaml nodes that the loops of include/yamlutils.h read.
-- - Op/Parse: op_parse_new (src/operations.c). Op/Parse/Read has the mapping that a request is written
--   as.
-- - Rule: src/rule.c; Rule/Command has rule_parse, with the success of rule_emit and the memory for
--   entries of a queue as arguments. Rule/Reach has the states that calls on operations and rules can
--   reach; operations that no rule owns are a bag, from which rules and op_free take in any order.
-- - Value: value_parse and value_render (src/value.c); the regular expressions and the library's
--   parsers are the record Readers.
-- - Parse: parse_callback and parse_cmptail of src/parse2.c. Its loop runs on 130 rounds of fuel, since
--   each full read fills one block of a buffer of at most 128.
-- - Base: lists, words, signed integers and the laws of bit masks that the parts share.
--
-- The other loops are recursions on the data or on the number of rounds left. Machine integers are
-- natural numbers with their wrap-around written out. Pure input and output (sockets, epoll, the
-- YAML parser and emitter, log messages) is not modelled.
pub mod Base
pub mod Checksum
pub mod Memory
pub mod FieldSet
pub mod Operations
pub mod Op
pub mod Judy
pub mod Yaml
pub mod Registry
pub mod Field
pub mod Iface
pub mod Rout
pub mod Rule
pub mod Process
pub mod Parse
pub mod Memref
pub mod Value
