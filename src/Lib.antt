-- ===== src/Lib.antt =====
-- backhand: reading and writing SquashFS images.
--
-- The library (backhand/src) reads an image into a tree of nodes, and writes a tree of nodes as an
-- image. Files are cut into blocks, each compressed by itself; the nodes' inodes, the listings of the
-- directories and some lookup tables stand behind them in metadata blocks; the superblock at the front
-- tells where. The modules here follow these parts:
--
-- Common        shared names, tests on numbers, lists, bits, association lists
-- Error         error.rs: BackhandError, and Result, in which a panic and a loop whose fuel is used up
--               are outcomes of their own
-- Compressor    compressor.rs: ids and options; Compressor.Config: FilesystemCompressor and ExtraXz of
--               filesystem/writer.rs (new_compressor, set_options, set_extra, set_level);
--               Compressor.Default: DefaultCompressor (compress, decompress, compression_options)
-- Kinds         kinds.rs: Kind, and the interface of a compressor; Kinds.Targets: the named kinds
-- Superblock    squashfs.rs: the superblock's fields, flags, and the checks on its block size and tables;
--               Superblock.Bytes: its bytes
-- Deku          how the readers that the deku crate derives take the fields of a struct
-- DataSize      data.rs: the size word of a block
-- Data          data.rs: DataWriter, with the chunk reader (read_chunk), the cache of duplicates
--               (find_duplicate, remember), fragments (add_fragment, finalize) and blocks (add_bytes);
--               Data.Copy: just_copy_it
-- Metadata      metadata.rs: MetadataWriter (write, add_block, finalize) and read_block
-- ImageReader   reader.rs: uncompress_metadatas and the lookup tables (fragments, export, id)
-- Offset        reader.rs and filesystem/writer.rs: the wrappers for an image behind an offset
-- Inode         inode.rs: the types of inodes, into_base_type and block_count
-- InodeWriter   entry.rs: a constructor of Entry for each kind of node, and Inode::to_bytes
-- Directory     dir.rs and entry.rs: Dir, DirEntry and Entry::into_dir; Directory.Bytes: their bytes
-- Squashfs      squashfs.rs: dir_from_index, DirEntry::name of dir.rs, and the numbers of inodes;
--               Squashfs.Walk: extract_dir and into_filesystem_reader; Squashfs.Open: the superblock with
--               its options, `inodes` of reader.rs, and inner_from_reader_with_offset_and_kind
-- NodeHeader    filesystem/node.rs: NodeHeader, and lookup_add_id of filesystem/writer.rs
-- FileReader    filesystem/reader.rs: BlockIterator, SquashfsRawData and SquashfsReadFile
-- Tree          filesystem/node.rs and filesystem.rs: Nodes, and normalize_squashfs_path
-- Writer        filesystem/writer.rs: the settings, the push operations, push_dir_all, finalize;
--               Writer.Edit: default, from_fs_reader, replace_file; Writer.Files: write_data;
--               Writer.Lookup: write_lookup_table; Writer.Image: write_inode_dir and write
-- Sample        settings for the tests, which stand in the modules named Tests
--
-- (All paths are below backhand/src.)
--
-- How state is modelled. An output is the list of its bytes; what is written goes to its end, and its
-- stream position is its length. An image that is read is the list of its bytes with a position. A
-- source of file bytes is the list of the answers of its `read`, which are bytes, an interruption, or an
-- error. Methods with `&mut self` take the record and return it. The locks of the reader are taken one
-- at a time and are left out. Numbers are native; where the source casts or computes in a width, the
-- wrap-around is written out, and where it panics on overflow (overflow checks are on in every
-- profile), so does the model.
--
-- Fuel. MetadataWriter's loops take a byte of the buffer in each round, and get as many rounds as it has
-- bytes; the loop over a file's chunks takes a byte of the source in each round but the last; the
-- padding writes a byte in each round at least. The results below say that a value is returned, so that
-- these bounds are enough. A directory table's loop takes twelve bytes in each round. The fuel of
-- extract_dir is the depth of directories inside each other; the source has no bound for it.
-- write_inode_dir goes down at most as often as there are nodes, since a child has a greater number than
-- its directory.
--
-- Parameters. The libraries of the compressors, deku's bytes of numbers, of inodes and of options, and
-- the hash xxh64 are third-party code. They are arguments of the definitions, and theorems that need it
-- assume what their documentation says: a number of a given width is read back as it was written, and a
-- library unpacks what it packed. A struct that deku reads or writes is its fields in the order of the
-- declaration, with the assertions and counts that stand there.
--
-- Not modelled: the parser of one inode, which deku makes with counts that depend on the superblock; the
-- clock of set_current_time; write_with_offset, a seek before write; text conversions, logging, and the
-- command line programs (backhand-cli), which are arguments, progress bars and system calls around the
-- library.
pub mod Common
pub mod Sample
pub mod DataSize
pub mod Inode
pub mod Compressor
pub mod Error
pub mod Kinds
pub mod Squashfs
pub mod Superblock
pub mod Metadata
pub mod Offset
pub mod ImageReader
pub mod Data
pub mod Deku
pub mod Directory
pub mod FileReader
pub mod NodeHeader
pub mod InodeWriter
pub mod Tree
pub mod Writer
