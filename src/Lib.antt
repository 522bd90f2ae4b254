-- ===== src/Lib.antt =====
-- spfs, a file system for the Linux kernel with its tools mkfs.spfs and fsck.spfs.
--
-- The disk is an array of blocks. Block 0 holds the super block, written by mkfs.spfs and checked by
-- fsck.spfs and by the driver when it mounts. The super block names the first block of a chain of
-- free-list blocks, which the driver reads into a list of extents; every new block is cut off one of
-- them. Inodes are stored one in a block, and a B-tree maps inode numbers to these blocks.
--
-- Files:
--   Base        results of fallible code, shared Boolean tests and their lemmas
--   Wire        util.c: the big-endian integers and strings of a block
--   Device      sb_bread and the data of a buffer head
--   FreeList    free_list.c: reading the chain, spfs_free_alloc, spfs_free_dealloc
--   Super       sp.c, spfs_read_super_block and spfs_super_block_init
--   Mkfs        mkfs.spfs.c: main and all that it calls
--   Fsck        fsck.spfs.c: main and all that it calls
--   Inode       btree.c, spfs_inode_parse and spfs_inode_make
--   Bnode       btree.c: the node in its block, its binary search and its insertion
--   Tree        btree.c, spfs_btree_modify and spfs_btree_lookup
--   Insert      btree.c, spfs_btree_insert with btree_fixup and bnode_alloc_root
--   Dir         sp.c, spfs_add_child and spfs_for_all_children with the blocks of a directory
--   Extent      sp.c: the extents of a file, spfs_read_file_extent and spfs_write_file_extent
--   File        sp.c, spfs_read and spfs_write with spfs_ensure_capacity
--   Icache      sp.c: inodes in memory, spfs_new_inode and spfs_inode_by_id
--   Vfs         sp.c, spfs_create, spfs_mkdir, spfs_lookup, spfs_iterate, spfs_write_inode
--   Mount       sp.c, spfs_fill_super_block and spfs_put_super
--   Slab        sp.c: the slab cache of the inodes, spfs_init and spfs_exit; no result on it
--   System      sp.c: the tables of operations, as the steps of a mounted file system
--   Examples    the results at concrete inputs
-- State, Split, Format, Read and Make hold definitions that their parents pass on; Vfs.Ready
-- says what a file system needs for its first inode, File.Whole and Dir.Chains what the bytes of a
-- file and the children of a directory are on the disk. Any other child holds the lemmas that its
-- name says.
--
-- A function of the source is the definition of its name, without the prefix spfs_ or that of its
-- component: spfs_free_alloc is FreeList.free_alloc. State is passed explicitly: a block is a
-- function from offsets to bytes with its size (Wire.Buffer), a device a function from block numbers
-- to the contents, with the blocks that can be read (Device). `err` is a failure code that the source
-- returns, `bug` a BUG_ON or an access outside the block, `out_of_fuel` the end of the fuel. A BUG_ON
-- of the source that holds on every path is left in the definition.
--
-- Machine: 64-bit pointers and size_t, 32-bit unsigned int, little-endian. Numbers are natural, and
-- wrap-around is written out. A pointer into a node is its offset in the block, modulo 2 ^ 64.
--
-- Fuel: Bnode.find_loop takes one unit for each probe; three are enough in a block of up to 8192
-- bytes, and the statements on the search have them. FreeList.init_chain and Fsck.check_free_list
-- take one for each block of the chain: more than the length of the chain is enough, and a chain
-- that comes back to a block has no end. Tree and Insert take one for each level of the tree.
-- Dir.read_children takes one for each word of the block that it reads, two for a child, and the
-- walks over a directory one for each block and one for the end. Extent.read_loop and
-- Extent.write_tail take one for each block, Extent.blocks_for one for each block and one for the end.
--
-- Parameters: whether kzalloc succeeds; what write, lseek, fstat and read of the C library return;
-- what the kernel does (Icache.Kernel, Mount.Host, Slab.Kernel, and dir_emit and dir_emit_dots in
-- Vfs); the callbacks of spfs_btree_modify and spfs_for_all_children;
-- the stack memory that spfs_sb_write_str reads (`frame`) and that spfs_btree_lookup copies.
--
-- Not modelled: btree_remove.c, which the build does not name and which does not compile; of sp.c
-- spfs_mount, which hands spfs_fill_super_block to mount_bdev; calls that run at the same time, so
-- that an operation is one step; the locks but that of an open file (File, System), messages, brelse
-- and mark_buffer_dirty, which do not change what is read: the model has an ideal buffer cache; of
-- the struct that spfs_btree_lookup copies from its stack over an inode in memory, the fields of the
-- kernel (i_sb, i_state) and the lock.
pub mod Base
pub mod Wire
pub mod Device
pub mod FreeList
pub mod Super
pub mod Mkfs
pub mod Fsck
pub mod Inode
pub mod Bnode
pub mod Tree
pub mod Insert
pub mod Dir
pub mod Extent
pub mod File
pub mod Icache
pub mod Vfs
pub mod Mount
pub mod Slab
pub mod System
pub mod Examples
