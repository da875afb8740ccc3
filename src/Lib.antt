-- ===== src/Lib.antt =====
-- libshl: a library of small C helpers. Files are named from the root of the repository.
--
-- Parts, and the modules that model them:
--   Base    what the others share: lists over the native numbers, bits, 64-bit words, blocks of
--           memory (`memcpy` is `blit`), and the allocator
--   Macro   src/shl_macro.h: SHL_ALIGN_POWER2, shl_min, shl_max, shl_clamp, shl_mult_*
--   Ring    src/shl_ring.h, src/shl_ring.c: struct shl_ring and all of its operations
--   Atoi    src/shl_util.c, shl_ctoi to shl_atoi_zn
--   Greedy  src/shl_util.c, shl_greedy_realloc and its three variants
--   Buf     src/shl_buf.h: struct shl_buf, on top of Greedy
--   Dlist   src/shl_dlist.h: circular lists; the heap of links is a pair of functions
--   Quote   src/shl_util.c, shl_qstr_unescape_char, shl_qstr_decode_n, shl__qstr_encode,
--           shl__qstr_length, shl_qstr_join
--   Pty     src/shl_pty.c: struct ring and its operations, which have an end in place of a count; in
--           Object and Session, struct shl_pty with its references, reads and writes; in Open, the
--           opening of a terminal with the descriptors of parent and child; in Bridge, the epoll
--           bridge
--   Strings src/shl_util.c, shl_strcat, shl_strjoin, shl_ratelimit_test
--   Paths   src/shl_util.c, shl__path_startswith, and, in Parents, shl__mkdir_parents and shl__mkdir_p
--   Split   src/shl_util.c, shl__split_push and shl_strsplit_n, on top of Greedy
--   Tokens  src/shl_util.c, shl__qstr_push and shl_qstr_tokenize_n, on top of Split and Quote
--   Trie    src/shl_trie.h, src/shl_trie.c: lookup, insertion and removal; in Tag, the marks in
--           the pointers; in Traverse and Visit, on a memory of nodes, shl_trie_traverse,
--           shl_trie_clear and shl_trie_visit
--
-- A C function that updates an object through a pointer is a function from the old state to the new
-- one. Its status is an `Outcome`: a value, an error number, or behaviour that the C standard leaves
-- undefined (a shift by 64, a copy to NULL). Numbers are natural numbers with the wrap-around of
-- their width written out; `size_t` has 64 bits and `unsigned int` 32.
--
-- `malloc` and `realloc` are a parameter, the record `Allocator`; what the C standard says of them is
-- `IsAllocator`. Whether shl_trie_insert gets its node is a Boolean argument of `trie_insert`, and
-- whether shl_qstr_join gets the room that it asks for is a predicate. What a system call answers is an
-- `Answer`, a parameter too: reads are a function of their number or a list in order, and the answer
-- of writev is a function of the bytes; the epoll set and what epoll_ctl does to it are parameters of
-- Pty.Bridge. `address` in Split and Tokens gives the bytes of the pointer to a block, which the arrays
-- of strings store. Callbacks do not call the object or change the trie.
--
-- Fuel: `bit_length` runs on 64, the width of the word; `pow2_loop` runs on 7, for the six shifts
-- below 64 and the test that ends it; the loops over a list of Dlist run on one more than the
-- number of elements; the traversal of a trie runs on its rounds, one for an entry and three for a
-- node, and the search of shl_trie_visit on no more than that; the loops over paths run on one more
-- round than the path or the prefix has bytes. All other loops are recursions on what they walk
-- through.
--
-- Not modelled: shl_htable.c and shl_htable.h (a copy of CCAN's htable with thin functions around
-- it); shl_edbus.c, shl_log.c and shl_llog.h (D-Bus and output); the signal handlers, and the
-- kernel's side of terminals and epoll; clocks, and the rest of shl_util.c; the macros with casts
-- only.
pub mod Base
pub mod Macro
pub mod Ring
pub mod Atoi
pub mod Greedy
pub mod Buf
pub mod Dlist
pub mod Quote
pub mod Pty
pub mod Strings
pub mod Split
pub mod Tokens
pub mod Trie
pub mod Paths
