-- ===== src/Lib.antt =====
-- A verification library of udftools, the tools for UDF filesystems: models of its C code, and
-- theorems about them.
--
-- The program is a library, libudffs, and tools on top of it. The library has the CRC of
-- descriptors (libudffs/crc.c), the list of extents that covers a disc and the lists that hang on
-- an extent (libudffs/extent.c), and conversions of strings and numbers. mkudffs uses it to make
-- a filesystem: it describes the disc as one free extent, cuts the areas of the filesystem out of
-- it (`split_space` of mkudffs/mkudffs.c), fills the areas with descriptors, and writes the
-- extents out. The other tools read or change what mkudffs wrote.
--
-- Files and code:
--
--   Base        what C does: words of 16 and 32 bits, comparisons, and the outcomes of a run;
--               facts on lists, on bits and on multiples of a number
--   Crc         libudffs/crc.c: `udf_crc`, its table, and the generator of the table;
--               Crc/Serial has the bitwise reference, Crc/Detect the errors it detects
--   Extent      libudffs/extent.c and the types of include/libudffs.h: the extent list,
--               `next_extent`, `prev_extent`, `find_extent`, `find_next_extent_size`,
--               `next_extent_size`, `prev_extent_size`, `set_extent`.
--               Extent/Tiling says what a list means (the type of each block), Extent/Search
--               what the searches for room promise, Extent/Place and Extent/Kept what
--               `set_extent` changes and leaves
--   Descs       libudffs/extent.c: `next_desc`, `find_desc`, `set_desc`, `append_data`,
--               `alloc_data`
--   Unicode     libudffs/unicode.c: `decode_utf8` and `encode_utf8`. Unicode/Decode and
--               Unicode/Encode have their bounds, Unicode/Formed the form of UTF-8,
--               Unicode/Chars and Unicode/Units one character of each, and
--               Unicode/RoundTrip and Unicode/Success both together
--   Misc        libudffs/misc.c: `gen_uuid_from_vol_set_ident`
--   Space       mkudffs/mkudffs.c: the disc, and the areas at fixed places of `split_space`;
--               Space/Sane has the invariant that every step keeps
--   Layout      mkudffs/mkudffs.c: the rest of `split_space`, with a module for the sizes,
--               the descriptor areas, the partition, and the whole;
--               Layout/Short has the ways in which it leaves
--   Tag         include/ecma_167.h and mkudffs/file.c: the tag of a descriptor, its bytes,
--               `query_tag` and `udf_query_tag`; Tag/Sealed says when a tag agrees with the
--               bytes behind it
--   Label       udflabel/main.c: `compute_crc`, `compute_checksum`, `check_desc` and
--               `update_desc`
--   Fsck        udffsck/udffsck.c: `calculate_checksum`, `checksum`, `calculate_crc`, `crc`
--               and `check_position`
--   Bitmap      mkudffs/file.c and mkudffs/file.h: `ffz`, `udf_find_next_one_bit`,
--               `udf_find_next_zero_bit`, `clear_bits`; Bitmap/Alloc has
--               `udf_alloc_bitmap_blocks` and the bitmap of `setup_space` in
--               mkudffs/mkudffs.c. Bitmap/Digits and Bitmap/Masks turn words into lists of
--               bits, Bitmap/Search states what a search finds
--   Table       mkudffs/file.c: `udf_alloc_table_blocks`; Table/Found has its loop,
--               Table/Taken and Table/Left the four ways to cut an extent. Table/First has
--               the table of `setup_space` in mkudffs/mkudffs.c, Table/Whole its extents,
--               and Table/Start its theorem
--   Swap        include/bswap.h: the byte swaps and the conversions of both kinds of machine
--   Memory      fields of structures in memory
--   Files       mkudffs/file.c: `insert_data`, over the bytes of a file entry
--   Blocks      mkudffs/file.c: `udf_alloc_blocks` over the two and over a virtual
--               allocation table; Blocks/Setup has the partition header and the number of
--               free blocks of `setup_space` in mkudffs/mkudffs.c
--
-- Numbers are the native natural numbers. Where the source adds or subtracts in 32 bits, `add32`
-- and `sub32` wrap around as it does. A byte block is a list of bytes. A doubly linked list is a
-- list; a pointer to one of its nodes is the node with the lists on its two sides, and NULL is
-- `none`. A function that changes a list returns the pointer that the C function returns, into
-- the changed list, so the head and the tail of the list are the ends of it. No function of the
-- model holds a pointer over a change of the list, as none of the source does.
--
-- A C function that can fail is a `Run`: it returns (`ok`), leaves by `exit(1)` after a message
-- (`exit_failure`), or meets undefined behaviour (`fault`): a null pointer, a read out of bounds,
-- a division by zero. A loop of the source that is no walk over a list runs on fuel, one unit for
-- each extent, byte or pass that it can reach and one for the end; the theorems show that the
-- fuel is enough: they say that a run returns (`Returns`), or that it returns or leaves and where
-- it leaves (`EndsOr`, and predicates on a run with a clause for each outcome), and `out_of_fuel`
-- satisfies none of these.
--
-- Of the disc, `Space` keeps the fields that `split_space` reads and writes. The sparable
-- partition map that the code looks up is a field, and so is the access type of the partition
-- descriptor; what the code writes to the integrity descriptor is a list of words. The messages
-- before `exit(1)` and a failing `malloc`, for which the source has no test, are not modelled.
--
-- A structure on the disc is the record of its fields, with a function to the bytes that it
-- takes: the structures are packed, and their numbers are stored with the lowest byte first. The
-- memory of a descriptor is the list of its bytes from the descriptor on. `unsigned long` has 64
-- bits. The loop of `udf_alloc_bitmap_blocks` runs on fuel that its theorem bounds for one block;
-- for more blocks it need not end. A partition of `Blocks` keeps the space descriptors that its
-- header points to and not their positions.
--
-- Not modelled: the strings of libudffs in the encoding of the locale (the rest of unicode.c) and
-- its numbers (the rest of misc.c), the contents of the descriptors (the rest of mkudffs.c) and
-- the files and directories of mkudffs (the rest of file.c), options and devices, what udflabel
-- and udffsck do behind the tests of a tag, and the tools udfinfo, wrudf, cdrwtool and pktsetup.
-- Of these, cdrwtool, pktsetup and large parts of wrudf are commands to a drive.
pub mod Base
pub mod Crc
pub mod Extent
pub mod Descs
pub mod Unicode
pub mod Misc
pub mod Space
pub mod Swap
pub mod Memory
pub mod Tag
pub mod Bitmap
pub mod Table
pub mod Blocks
pub mod Files
pub mod Label
pub mod Fsck
pub mod Layout
