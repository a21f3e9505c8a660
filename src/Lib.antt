-- ===== src/Lib.antt =====
-- A model of ignited, the init program of an initial ramdisk, and what makes its parts correct.
--
-- The program reads the kernel's command line and a configuration file, logs to the kernel's log,
-- loads kernel modules from threads, mounts the root filesystem and hands over to its init. The
-- parts that are modelled, by file:
--
-- Logging: src/early_logging/mod.rs, the levels, `KConsole` and the throttling setting
-- (Throttling). The device is the list of texts written to it. Logging/Buffer is
-- src/early_logging/buf.rs, `KmsgBuf`; Logging/Device is `KmsgFmt` of src/early_logging/kmsg.rs;
-- Logging/Host is a console together with the state of the system.
--
-- Mount/Source: `PartitionSourceBuilder` of src/mount.rs; Mount/Options: `RootOptsBuilder` and
-- `RootOpts` of src/mount.rs, with the words of `rootflags=`. A setter returns the changed builder.
-- Mount/Mounting: `Mount` of src/mount.rs with `mkdirall` and `mount`; a path is its list of names.
-- Mount/Moving: `move_mount` and `move_mount_currdir`. Mount/Efi:
-- `EfiPartitionGptGuid::get_current` of src/mount.rs, on the bytes of the variable's file.
--
-- Module/Params: `ModParams` of src/module.rs; Module/Aliases: `ModAliases` with `load_modalias`
-- and the reading of its file; Module/Finit: `finit`; Module/Loading: `ModLoading`. A `WaitGroup`
-- is a number; a clone of it is a place where the number is kept. Module/Loading/Steps is the
-- threads as a step relation: a request, a thread whose group is free and whose module the kernel
-- takes, its end under the lock, and a thread that ends early. Module/Loading/Kept says which
-- groups are kept, Module/Loading/Ranked which modules a thread may have to wait for,
-- Module/Loading/Cost what is left for the threads to do; of the steps, Steps/Order has what a
-- thread finds when it may go on, Steps/Orderly and Steps/Smooth what holds while no thread ends
-- early, Steps/Sorted the order in which the kernel takes the modules, Steps/Progress, Steps/Ending
-- and Steps/Served what the threads then come to, and Steps/Stuck and Steps/SelfWait the threads
-- that wait forever.
--
-- Config/Cmdline: `CmdlineArgs::parse_inner` of src/config.rs with its handlers, one record for its
-- variables; Config/Current: `parse_current` with `PartitionSourceBuilder::autodiscover_root`;
-- Config/Runtime: `RuntimeConfig` of src/config.rs with its accessors and the reading of its file.
--
-- Time: `InitramfsTimer` of src/time.rs. Util: src/util.rs, the checks on the environment (Sanity),
-- `delete_ramfs` over a file tree (Ramfs), the kind of the target's init (Systemd),
-- `make_shutdown_pivot_dir` (Pivot) and the emergency shell (Shell). Vconsole: src/vconsole.rs, the
-- font and the keymap. Threads: `ThreadHandle` of src/common.rs with the handing over of a waker;
-- Threads/Udev is src/udev.rs, Threads/Sysfs is src/sysfs.rs.
--
-- Boot: src/main.rs. Boot/Init is `init` with its steps in order, Boot/Target is
-- `exec_target_init`, Boot/Switched the calls on the system it makes, Boot/CStrings the texts that
-- it executes the init with, Boot/Evloop the event loop, Boot/Main `main`. Boot/Exit has what these
-- functions end with: an error with its exit code, a panic, or the program that was executed.
--
-- The parts meet as in the program: `init` calls the functions of all the other parts; the handlers
-- of the command line log into a `KmsgBuf`, fill a `RootOptsBuilder` and a `ModParams`, and read
-- partition sources; module loading reads the metadata of the configuration.
--
-- Prelude holds what they share: Boolean tests, list and option lemmas, texts (Prelude/Text, with
-- their laws and the reading of decimal numbers), association lists for `BTreeMap` (Prelude/Assoc),
-- results with an error text or a panic (Prelude/Outcome), and calls on a state that end with one
-- (Prelude/Run). `todo!` and a failed `unwrap` are panics. An error is its message; what the
-- `precisej` crate prints for it, with the program's name and an errno, is a parameter where the
-- program logs it.
--
-- Parameters: the uuid crate (`UuidCrate`: its type and `from_str`), the `MsFlags` of the nix crate
-- (`FlagsCrate`, with the documented laws of a set in `FlagsLaws`), the text of /proc/cmdline, the
-- answers of the kernel about the log setting and the GUID of the booted EFI partition
-- (`Environment`, `SysctlAnswers`), the patterns of the glob crate (`GlobCrate`), the kernel's file
-- tree with `mkdir` and `mount` (`Kernel`), which modules the kernel takes, the readings of the
-- clocks, and what the system answers about the process, its files and its links (`Machine`,
-- `Files`, `Links`), the calls on the terminal (`KeymapCalls`), and, for src/main.rs, all of them
-- together (`World`). Tests have concrete ones.
--
-- Fuel: `load_modules_unlocked` recurses on the dependencies of a module after it has set the
-- module's entry, so fuel above the number of names without an entry is enough
-- (Module/Loading/Enough), and more gives the same (Module/Loading/Fuel). `delete_recursive` has
-- fuel for its depth, and one level is enough as it goes into no directory. The loop of
-- `make_shutdown_pivot_dir` has fuel for its calls; it needs one more than the calls that answer
-- ENOENT. `init` has one fuel for all three and says that it runs on when it is too little. The
-- event loop goes over a list of answers. All other loops are structural.
--
-- Not modelled: the parsing of TOML (the toml and serde crates); the bookkeeping that a panic under
-- the lock of module loading leaves, when a thread cannot be spawned; and what the threads do while
-- `init` goes on: there the answers of the event loop are a list, and whether module loading ends
-- is a parameter.
pub mod Prelude
pub mod Logging
pub mod Mount
pub mod Module
pub mod Config
pub mod Time
pub mod Util
pub mod Vconsole
pub mod Threads
pub mod Boot
