-- ===== src/Lib.antt =====
-- unionfs-fuse: a union of directories ("branches") as one file system, some of them writable and
-- some not, with copy on write. A file or directory of a lower branch is hidden by a whiteout, a file
-- with the tag `_HIDDEN~` in the directory `.unionfs/` of a branch above it. A large file is copied on
-- write as a sparse file ("cowolf"): the upper branch takes only what is written, and a map file says
-- which bytes those are.
--
-- The parts, and the files that model them:
--   Prelude       Shared names, Boolean tests, lists with native numbers, C integers (`Prelude.Int`).
--   Os            The system calls as a parameter: `act` for those that change something, and one
--                 function for each that only reads. `World` is the system's state with `errno`;
--                 `Os.Monad` passes it on, and has a fault for undefined behaviour. `Os.Safe` says
--                 which calls a computation makes.
--   Drm.Mem       src/drm_mem.c: the sorted array of mapped ranges, as the list of its live records.
--                 `Ranges` says what a list means and when it is well-formed; `Search`, `Insert`,
--                 `Truncate` and `Overlaps` prove the functions of the same names.
--   Drm.Codec     The bytes of a record in memory, which go to the map file as they are: an assumption
--                 about the machine, not code.
--   Drm.File      src/drm_file.c: the map file. `Sentinel` is about the last record, `Io` about calls
--                 that succeed, `Refine` and `Entries` about the operations.
--   Cowolf.Data   src/cowolf.c: `cowolf_read`, `cowolf_write`; `View` is what a reader must see, `Read` and
--                 `Write` prove it.
--   Text          src/string.c: `whiteout_tag`, `build_path` (`Build`), `u_dirname` (`Tag`);
--                 `Length` bounds a built path from below, `Prefix` is about what it begins with.
--   Union         The options, src/opts.h. Its modules are `Hidden` and `Whiteout` (src/general.c),
--                 `Find` and `Writable` (src/findbranch.c), `Create`, `Copy` and `Cow` (src/cow.c,
--                 src/cow_utils.c), `Datamap` (src/cowolf.c), `Readdir` (src/readdir.c), `Remove`
--                 (src/unlink.c, src/rmdir.c). `Hidden.Observe`, `Hidden.Stops`, `Find.Served`,
--                 `Find.Lowest`, `Readdir.Merge` and `Readdir.Listed` hold proofs.
--   Guarded       The modules of this name, one below each part, are about the paths that the part
--                 changes: `Union.Guarded` says which those may be. Calls on descriptors are not
--                 restricted there.
--   Ops           src/fuse_ops.c: the handlers. `Attributes` reads and changes attributes, `Files` is about
--                 open files and `Files.Sparse` about a sparse one, `Names` makes and renames, `Statfs` adds up
--                 the file systems of the branches.
--                 `Union.Writable.Parent` and `Result` are about the branch for a new name.
--   Opts          src/opts.c: the options. `Parse` is about the list of branches, `Post` about their paths.
--   Usyslog       src/usyslog.c: the log queue. `Represents` is about the two lists at the level of pointers
--                 (`Chain`, `Entries`), `Take` and `Return` about moving an entry; `System` has the threads,
--                 `WriterSteps`, `ReaderSteps` and `Runs` their invariant, `Hang` and `Drain` what comes of it.
--   Tests         A small system in memory, and the theorems applied to concrete data.
--
-- How they interact: the options are read at the start (`Opts`) and do not change. A handler finds the
-- branch of a path (`Find`), which asks for whiteouts (`Hidden`). The path in a branch is made by
-- `build_path`. A writing handler makes the directories of the path (`Create`) and whiteouts
-- (`Whiteout`). Reads and writes of a sparse file go through `Cowolf.Data` to the map file
-- (`Drm.File`), whose records are changed in memory (`Drm.Mem`).
--
-- Conventions: a function of the source keeps its name. `true` or `some` stands for the return value 0
-- or a valid result, `false` or `none` for -1, as the comments at the functions say; handlers return
-- an integer of both signs. The global `uopt` is an argument. Bytes are numbers, a C string is the
-- list of its bytes. Numbers of 64 bits wrap around where the source adds and subtracts. The handlers
-- `read` and `write` pass their result through an `int` (`int_result`). File positions are 64-bit
-- numbers; the one comparison of two `off_t` values has a sign (`off_less`). A map file is taken to
-- have less than 2^31 bytes (`load_bytes`).
-- Loops are recursions on the data that the source walks over, with two exceptions. The loop of
-- `copy_file` reads until the file ends, and has fuel for its rounds, with a fault if it goes on;
-- `Copy.Fuel` is about how much is enough. `copy_directory` has fuel for the nesting of directories:
-- `pathlen_max`, since each level makes the path longer and `build_path` fails when it is full.
--
-- The threads of the log queue make one step at a time (`System.step`). A step is what a thread does
-- between two points where it takes a lock, waits or sleeps; the message of an entry is changed only
-- under the lock of the entry. `accepted` and `sent` in the state record what happened. The thread of `do_syslog`
-- unlocks `list_lock` once more than it locks it when it goes on to a second entry. That is undefined
-- behaviour, which may let two threads into the lists: a run of the model ends there, so its theorems
-- are about the runs up to that point, and `Drain` says when a run gets there.
--
-- Parameters: the system calls (`Os`); `bsearch` of the C library, with its documented behaviour
-- (`IsBsearch`); the vendored hash table as a set of names (`IsNameSet`); `filler` of the FUSE
-- library; the sums of `statfs` in `double`, and the calls it makes; what the start asks the system
-- (`getcwd`, `chdir`, `open`) in `Opts`.
--
-- Not modelled: the handlers `unionfs_init` and `unionfs_ioctl`, which set up the process and the
-- debug output; `set_max_open_files` and the help text of src/opts.c; the start of the log thread and the debugging
-- check of its lists; `elfhash`, the main functions. Log messages of the other parts and the release of memory have no
-- effect in the model. Two processes that work on one map file are kept apart by `flock`; the theorems
-- are about one of them.
pub mod Prelude
pub mod Os
pub mod Drm
pub mod Cowolf
pub mod Text
pub mod Union
pub mod Ops
pub mod Opts
pub mod Usyslog
pub mod Tests
