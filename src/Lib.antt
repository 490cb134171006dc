-- ===== src/Lib.antt =====
-- sqlite-temporal-fs: a file system in a SQLite database, with a record of its past.
--
-- The program answers FUSE requests (src/filesystem.rs, struct SqliteFs) from a database behind the
-- trait DbModule (src/db_module.rs), which struct Sqlite implements by SQL statements
-- (src/db_module/sqlite.rs). Triggers copy each change of a table into an audit table; mounting at
-- a past time reads tables that are rebuilt from those.
--
-- The files, and the code that they model:
--   Base, Base/*           shared names; lists, byte strings (Vec<u8>), HashMap, as_bytes
--   Sqerror                src/sqerror.rs: ErrorKind, Result
--   DbModule               src/db_module.rs: DBFileAttr (DbFileAttr here), DEntry, conversions
--   Schema, Schema/*       the tables, audit tables and triggers of Sqlite::init, the DB_IF*
--                          constants, and the connection
--   Sqlite/Monad           statements on a connection, transactions, struct Sqlite
--   Sqlite/Local           the free functions of src/db_module/sqlite.rs
--   Sqlite/Inodes          get_inode, add_inode_and_dentry, update_inode, delete_inode_if_noref,
--                          delete_all_noref_inode, lookup
--   Sqlite/Dentries        get_dentry, link_dentry, delete_dentry, move_dentry,
--                          check_directory_is_empty
--   Sqlite/Content         release_data, get_data, write_data
--   Sqlite/Xattrs          set_xattr, get_xattr, list_xattr, delete_xattr
--   Sqlite/Past            the temporary tables of new_at_time and the ..._at_time methods
--   Sqlite/Diffs           get_max_creation_seq, apply_diffs
--   Sqlite/Tables          the creation of the tables in init
--   Sqlite/Start           the constructors of Sqlite, their pragmas, and init
--   Sqlite/Calls           the calls of DbModule that may change the tables, as values
--   Sqlite/Invariant       the constraints of the tables, as a predicate
--   Sqlite/Recovery        calls in any order, with the log of the deltas
--   Filesystem/State       struct SqliteFs, the replies, and the monad of the handlers
--   Filesystem/Mount       the constructors of SqliteFs, init, destroy, forget
--   Filesystem/Inodes      lookup, getattr, setattr, readlink
--   Filesystem/Tree        mkdir, unlink, rmdir, symlink, rename, link, create
--   Filesystem/Content     read, write
--   Filesystem/Handles     open, release, opendir, readdir, releasedir
--   Filesystem/Attributes  setxattr, getxattr, listxattr, removexattr
--   Filesystem/Statistics  statfs
--   Filesystem/Requests    the requests, as values, and their handlers
--   Filesystem/Session     requests in any order
--   Filesystem/ReadOnly    the requests that a read-only mount refuses
--   Main                   src/main.rs: the arguments, and the mount that they choose
-- The modules below these hold proofs, and Tests the runs at concrete data.
--
-- How the model stands to the code. A table is the list of its rows, newest first, and a statement is
-- the function that SQL gives it, with its primary key, its foreign keys, their cascades and its
-- triggers; `?` on a failed constraint is an error, and a transaction that is dropped restores the
-- tables. Other failures of the engine (I/O, locking) are not modelled. The clock is a sequence of
-- readings in nanoseconds, each of which is taken once: one for each Utc::now() or
-- SystemTime::now(), and one for each statement whose triggers take the time. What the triggers stamp,
-- strftime(..., 'now', 'utc'), is a number of milliseconds that the clock gives for each reading; how
-- SQLite gets it from the time of the machine, and whether it goes up, is left open. Times in the
-- tables are seconds and nanoseconds in place of their text: this is what the code stores for the years
-- 0 to 9999, and a time outside them, which datetime() makes NULL, is not modelled. Nor are more than
-- 2^32 rows of an audit table, past which apply_diffs fails to read their numbers as u32. Of the
-- journal modes only WAL stays with the database file from one connection to the next. A u32 is a
-- number with its wrap-around written out, as a release build has it; a slice out of range or a time
-- outside the years of chrono, which panics, is the reply `panicked`. A handler's reply is its result.
-- The loop of read runs on fuel, one round more than the bytes asked for, and the theorem on
-- read shows that this is enough; the loop of write is counted.
--
-- Parameters: the SQL functions of ext/compress and ext/fossildelta (a delta, and its application,
-- which may fail), the row that SQLite picks for a bare column beside an aggregate, whether the
-- reply buffer of readdir is full, what statvfs says of "/", the clock, and for the command line what
-- clap gives for each argument, the database at a path, whether the files of the extensions are
-- there, and the number that the text of a time stands for.
--
-- Not modelled: the parsing of the arguments by clap, the patched files of the fuse crate
-- (fuse/patches), the C code of the extensions (ext), logging, the texts of errors, and names that
-- are not UTF-8, on which the handlers panic.
pub mod Base
pub mod Sqerror
pub mod DbModule
pub mod Schema
pub mod Sqlite
pub mod Filesystem
pub mod Main
mod Tests
