-- ===== src/Lib.antt =====
-- InvariOS: an immutable Linux image that installs itself on a disk, brings up the network and
-- runs OpenBao as its one workload. These modules model the core of the Go program.
--
-- The parts and how they interact. cmd/root.go boots: it finds the system disk, asks whether it is
-- installed, and either installs (internal/install, which drives internal/disk, internal/meta and
-- internal/efi) or runs the installed system (internal/network keeps a DHCP lease,
-- internal/supervise runs the workload and remembers the decision, internal/power takes the one
-- power action that ends the node).
--
--   Base        lists, results, texts, bytes, hexadecimal, and computations that record the states
--               they pass through (Base.Visits), which is how a power loss is stated.
--   Efi         internal/efi/efi.go. Utf16: decodeUTF16Z and Go's UTF-16. LoadOption:
--               buildLoadOption and loadOptionHeader.Unmarshal on byte lists. Vars: BootOrder and
--               the variable names. BootEntry: findByLabel, firstFreeNum, EnsureBootEntry and
--               SetDefault as state passing over an unknown store of variables, the record EfiVars.
--   Disk        internal/disk/disk.go and internal/meta/meta.go over the record Hardware, which
--               holds what these packages call of go-blockdevice, go-adv, makefs and the kernel.
--   Install     internal/install/install.go over Hardware, EfiVars and the record Site (registry,
--               files, mounts, reboot).
--   Supervise   internal/supervise. Mode: Bootstrap and StartOpenBao. State: PersistMode and
--               PersistedMode on a file system. Supervisor: one function for each request that
--               Run's select takes; what the outside answers comes with the request.
--   Power       internal/power/power.go: Pending.Request under its mutex, and Do.
--   Network     internal/network/network.go. Config: leaseConfig and configChanged. Timers:
--               leaseTimers. Renew: renewUntil, with the clock and the server as an argument.
--               Link: apply, unapply, withLink, reconfigure, acquireAndApply and Up over the record
--               Node (the kernel's link, resolv.conf and the DHCP client). Maintain: maintain and
--               reacquire.
--   Mgmtapi     internal/mgmtapi/mgmtapi.go: mux, the two handlers, serve and ListenAndServe. A
--               handler takes the function that it calls (Supervisor.Bootstrap,
--               Pending.Request) as an argument.
--   Mount       internal/mount over the record Mounts.
--   Boot        cmd/root.go: runBoot from the recovery of a persisted mode on, and runPower; it
--               puts Supervise, Power, Mgmtapi and Mount together. Root: the root command,
--               runInitialize and runInstall; it puts Mount, Disk and Install together. Service:
--               runBoot behind the mount of the volumes, with its select.
--   Console     internal/console/console.go: Setup as the list of what it does to descriptors,
--               drain over a list of reads, Flush over a clock, and what Fatal prints.
--   Initramfs   internal/initramfs/cpio.go: writeEntry and what it calls, over the record Sink;
--               Archive is WriteCPIO. Reader and Archive.Reading are the newc format from its
--               reader's side.
--   Openbao     internal/openbao/fetch.go: Fetch, downloadIfMissing, verifyChecksum and
--               extractBaoBinary over the record World.
--   Ociimage    internal/ociimage/ociimage.go over the record Registry.
--   Release     internal/version and internal/bootimage, as a record of what the linker bakes in;
--               OsRelease and Agrees: what cmd/build.go reads and writes of the two.
--   Build       cmd/build.go and internal/uki/uki.go over the record Host (Build.Machine): Files
--               (copyFile, copyTree, createSizedFile), Prepare (prepare, gitDescribe,
--               buildInvariosBinary, verifyRootfs), Linked (what its go build links), Images (installKernel and its like,
--               pushBootImage), Uki (uki.Build, verifyUKI), Stage (stageESP, buildFATImage,
--               buildISO), and runBuild, which calls Openbao, Initramfs, Ociimage and Release.
--   Tests       concrete machines and firmware, and the theorems at them.
--
-- Bounds and fuel. Numbers of boot entries are 16 bits and sizes keep their wrap-around
-- (build_load_option); times are natural numbers of nanoseconds, in Console of milliseconds.
-- firstFreeNum's loop has its 0xffff rounds written out; WaitForPartition polls every 50 ms for 5
-- s, which is 102 polls at most; renewUntil recurses on a number of rounds that IsEnough makes
-- sufficient; Flush polls every 10 ms for 2 s, which is 201 rounds at most; maintain and reacquire
-- may run for ever, and recurse on the number of turns that are looked at.
--
-- Third-party code and the kernel are parameters: the records EfiVars, GoUefi, Hardware, Site,
-- Json, Node, Mounts, Sink, World, Screens, Registry, Host and Archiver, with the behaviour that
-- the code relies on in EfiVarsLaws, HardwareLaws, SiteLaws, NodeLaws, MountsLaws, SinkLaws,
-- TempLaws, FileLaws, Apart, GitNames and Willing (a kernel that refuses nothing but an address that
-- is there already). The tests fill each of them with concrete functions. Build.Linked reads a `go
-- build` command the way `go help build` and `go doc cmd/link` describe -ldflags and -X.
--
-- Not modelled: log lines and flag parsing; internal/uki/pe, which is copied from Talos and is an
-- operation of Host; main.go and the version command, which only print; internal/parttype, two
-- constants. Paths in Build are texts, on which filepath.Join puts a slash between and filepath.Dir
-- cuts at the last one, as they do on paths that are clean already; ToLower and TrimSpace are those
-- of ASCII.
pub mod Base
pub mod Efi
pub mod Power
pub mod Supervise
pub mod Network
pub mod Disk
pub mod Install
pub mod Mgmtapi
pub mod Mount
pub mod Boot
pub mod Initramfs
pub mod Openbao
pub mod Release
pub mod Console
pub mod Ociimage
pub mod Build
mod Tests
