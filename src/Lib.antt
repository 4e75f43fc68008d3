-- ===== src/Lib.antt =====
-- libxdxct-container: the library and the command line tool that make the GPUs of the host
-- available in a container. This development models its parts in C that decide: which devices,
-- libraries and paths are taken, which options and requirements are accepted, in which order the
-- tool works, and what is mounted and taken back. C strings are lists of bytes without their NUL
-- (Libc.Text), a machine's unsigned numbers are natural numbers with their bounds written out, and
-- functions that fail give a Result, whose error is the last call of error_set or error_setx, or
-- none where the code makes no such call.
--
-- The parts, by their files in the repository:
--
-- src/error_generic.c is Error: ErrorState, error_reset, error_vset, and Failure, by which the
-- other modules say how they failed. src/utils.c is in Utils.Str (the str_ functions), Utils.Array
-- (array_new, array_pack, array_size), Utils.Ids (str_to_pid, str_to_ugid; the databases of users
-- and groups are a parameter) and Path (path_append, path_new, path_join), with do_path_resolve in
-- Path.Resolve, where openat and readlinkat are a parameter. src/options.c and src/options.h are
-- Options and Options.Table.
--
-- src/cli/dsl.c is Dsl: dsl_compare_version, dsl_compare_string, evaluate_rule, dsl_evaluate.
-- src/cli/common.c is Devices: the arrays and the adding of devices in Devices itself,
-- matches_pci_format in Devices.Pci, select_devices in Devices.Select, and
-- select_mig_config_devices and select_mig_monitor_devices in Devices.Wanted. A pointer to a GPU
-- is its index in the array of devices, and a pointer to a MIG device the index of its GPU and its
-- own. src/cli/configure.c is Configure: the option parser in Configure.Parser, the rules of the
-- requirements in Configure.Rules, and configure_command in Configure.Command, which runs over the
-- selection of devices and the requirements. The functions of the library that the command calls
-- are the record Library, which answers each call, behind the calls before it, with success or a
-- message.
--
-- src/nvc_container.c is Container, for x86_64 and the legacy cgroups: copy_config in
-- Container.Config, and nvc_container_new in Container; the host is the record Host.
-- src/cgroup_legacy.c is Cgroup: cgroup_mount, cgroup_root, parse_proc_file,
-- find_device_cgroup_path, and setup_device_cgroup in Cgroup.Setup. src/ldcache.c is Ldcache:
-- ldcache_resolve on the entries of the cache. src/nvc_info.c is Info: the tables of names, the
-- callbacks for ldcache_resolve, lookup_libraries, find_binary_paths and lookup_devices.
--
-- src/nvc_mount.c is Mount, over the record Kernel of the module Kernel: the operations are
-- sequences of calls of the kernel, and each call is answered by a function of all the calls
-- before it, so that any of them may fail at any point. Op is such a sequence: it takes the log of
-- the calls so far, the last one first, to a longer log, and ends with a value, with an error, or
-- not at all, where an assertion fails or C leaves the behaviour undefined. Mount itself has the
-- single mounts, unmount, the entering and leaving of the namespace, and allow_device for
-- setup_device_cgroup; Mount.Files has mount_files and mount_driverstore_files, Mount.Libraries
-- the links and filter_libraries, Mount.Profile update_app_profile, Mount.Procfs the three
-- functions that nothing calls, Mount.Device nvc_device_mount, Mount.Driver nvc_driver_mount, and
-- Mount.Caps the operations for MIG devices, with nvc_nvcaps_device_from_proc_path of
-- src/nvc_info.c. The two functions of nvidia-modprobe that they call are the record Modprobe. The
-- two shapes of regular expressions are written out as tests. File has the functions of
-- src/utils.c that make, remove and read files. Mount.View says what a log amounts to: how often a
-- path is mounted on, and which namespace the process is in. Kernel.Holds and Kernel.Gives are the
-- rules for what a sequence keeps and what it gives.
--
-- src/nvc_ldcache.c is Update: nvc_ldcache_update with all that it calls, over the same kernel and
-- the record Process, which answers for the process, libcap and libseccomp. The new process is
-- `child`; its log is its own. The system calls that limit_syscalls allows are in Update.Syscalls.
-- Process has perm_drop_privileges, perm_set_bounds, perm_set_capabilities, file_read_line and
-- file_read_uint32 of src/utils.c.
--
-- src/nvc.c is Context: init_within_userns, copy_config, nvc_init and nvc_shutdown, over the
-- kernel and the record Services, which answers for dxcore, fork, and the services of the driver
-- and of nvcgo. ContextState is the struct nvc_context of these functions; the mounts read the
-- part NvcContext of it.
--
-- Base and Libc hold what the modules share: tests, lists, bits, and the functions of the C
-- library that the program calls, from their documentation.
--
-- Bounds: uintmax_t has 64 bits, pid_t and uid_t 32; PATH_MAX is 4096, NVC_ARG_MAX 256,
-- MAXSYMLINKS 20, EXPR_MAX 128. Fuel: dsl_compare_version has one round more than the first
-- version has characters, and each round reads one of them. do_path_resolve has (MAXSYMLINKS + 1)
-- * (PATH_MAX + 1) rounds: a round takes a component off a path of fewer than PATH_MAX characters,
-- or follows one of at most MAXSYMLINKS links, behind which the path is again that short.
-- make_ancestors has one round more than the path has characters, and each round cuts the path
-- before its last slash. All other loops are structural.
--
-- Not modelled: allocation always succeeds, except where error_vset tests it; log messages and
-- printing are left out. The file system does not change while a path is resolved. The entries of
-- the ldcache are given, not read from the file. nftw and readdir are the lists of what they
-- visit, and lines of the file of MIG minors are shorter than the buffer. Device rules are those
-- of the legacy cgroups. What the new process of load_kernel_modules does, the driver service and
-- its stubs (src/driver.c, src/rpc.c, src/nvc_svc.c, src/nvc_clt.c, src/nvc_xdr.c), the unified
-- cgroups (src/cgroup.c, src/nvcgo.c), and the other commands of the tool are not part of this
-- development; the code under deps is another project's.
pub mod Base
pub mod Libc
pub mod Error
pub mod Utils
pub mod Options
pub mod Dsl
pub mod Path
pub mod Cgroup
pub mod Ldcache
pub mod Kernel
pub mod File
pub mod Info
pub mod Container
pub mod Mount
pub mod Process
pub mod Update
pub mod Context
pub mod Devices
pub mod Configure
pub mod Tests
