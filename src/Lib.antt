-- ===== src/Lib.antt =====
-- A verification library for kdump, the program that saves a kernel's crash dump.
--
-- kdump's `kdumptool` reads a configuration, reads the kernel's memory, and sends the dump to the
-- targets that the configuration names as URLs. The library models the parts that do this work on
-- data of their own, and that other programs or the kernel talk to:
--
-- - KString: the string operations, kdumptool/stringutil.cc and stringvector.cc. `KString.Search`
--   holds std::string's searches and `startsWith`, `endsWith`; `KString.Trim` the trims;
--   `KString.Split` `split` and `join`; `KString.Number` the tests, `asInt`, `asLongLong` and
--   `number2string`; `KString.Url` `hex2int` and `decodeURL`.
-- - Quote: kdumptool/quotedstring.cc. `Quote.Shell` and `Quote.Kernel` are the two classes'
--   `quoted`; `Quote.ShellWord` is a reader of shell words, written for this library from the
--   shell's quoting rules, that the first is measured with.
-- - Config: `Config.KernelParser` is `KernelConfigParser` of kdumptool/configparser.cc with the map
--   of its variables; `Config.Dump` is kdumptool/dumpconfig.cc, which prints with the two quotings.
--   `Config.Options` is the options' values and `readCmdLine` of kdumptool/configuration.cc.
--   `Config.RoundTrip` relates the printer to the parser, `Config.Losses` says what the parser
--   does not keep.
-- - Url: kdumptool/urlparser.cc. `Url.Parser` is the constructor of `URLParser`, cut at the
--   comments that the source has; it calls `KString.Url` and `KString.Number`.
-- - Sftp: kdumptool/sshtransfer.cc and sshtransfer.h. `Sftp.Packet` is `SFTPPacket`,
--   `Sftp.Message` the text of an error code,
--   `Sftp.Session` the state of an `SFTPTransfer` with exceptions that keep it, `Sftp.Stream` the
--   loops over `read` and `write`, `Sftp.Client` the requests, `mkpath` and `perform`. The other
--   modules below Sftp are proofs.
-- - Kconfig: kdumptool/kconfig.cc: the lines of a kernel configuration.
-- - Kernel: `Kernel.Path` is kdumptool/kernelpath.cc, the names of a kernel's files; `Kernel.Search`
--   is the choice of a kernel in findkernel.cc, where the files that exist and what the images say
--   of themselves are parameters; `Kernel.Chosen` and `Kernel.Names` are proofs.
-- - KernelTool: kdumptool/kerneltool.cc with the helpers of util.cc. `KernelTool.Image` is the types
--   and headers of the images, `KernelTool.Ikconfig` the search of the embedded configuration and
--   its extraction, `KernelTool.Relocatable` where a configuration is read from, what it makes of
--   the kernel, and the test of findkernel.cc on the image itself; `KernelTool.Identify` is
--   identifykernel.cc. `Windows`, `Search`, `Extracted`, `Embedded`, `Unseen`, `Configured`
--   and `Header` are proofs. zlib is a parameter; the length of a read, BUFSIZ less 8, is an argument.
-- - Calibrate: kdumptool/calibrate.cc. `Calibrate.MemMap` is `MemRange` and the queries of
--   `MemMap` on 64-bit addresses; `Calibrate.Reserve` the estimate of `Calibrate::execute` and its
--   placing, with the constants for x86_64; `Calibrate.Cpus` is `SystemCPU::count`,
--   `Calibrate.Hyper` `HyperInfo`, `Calibrate.Slabs` `SlabInfo` and `SlabInfos`, and
--   `Calibrate.Framebuffers` the sizes of the framebuffers. The other modules below Calibrate are
--   proofs.
-- - Vmcoreinfo: kdumptool/vmcoreinfo.cc. `Vmcoreinfo.Notes` is the walk over the notes of an ELF
--   segment, `Vmcoreinfo.Info` the map that the note's text is read into.
--
-- - Transfer: kdumptool/dataprovider.cc and transfer.cc. `Transfer.Provider` holds the data
--   providers; `Transfer.Pipe` `FileTransfer::performPipe` with the calls of <stdio.h> that it makes;
--   `Transfer.Targets` `FileTransfer::perform`; `Transfer.Shares` the NFS and CIFS shares;
--   `Transfer.Ftp` `FTPTransfer::perform`. `Transfer.Buffer` puts the buffer's provider and the
--   transfer to a file together; `Transfer.Content` and `Transfer.Events` are proofs.
-- - Files: kdumptool/fileutil.cc and deletedumps.cc. `Files.Names` and `Files.Canonical` are the
--   names of files, `Files.Dirs` the directories, `Files.Delete` the deletion of old dumps; the
--   other modules below Files are proofs.
-- - Save: kdumptool/savedump.cc. `Save.Command` is the choice of the dump's source and the command
--   line of makedumpfile in `saveDump`, with the two questions to configuration.cc; `Save.Steps` is
--   `execute`, where what each step comes to is a parameter; `Save.Places` the search of the kernel,
--   the check of the disk space and the release on the command line. `Save.Reports`, `Save.Parallel`
--   and `Save.First` are proofs.
-- - Mounts: kdumptool/mounts.cc. `Mounts.Table` is the search of a mount table and the choice
--   between the kernel's and that of fstab, with the canonical paths of `Files.Canonical`;
--   `Mounts.Root` is `PathResolver`, with the static root device for its state; `Mounts.Devices` is
--   `FilesystemTypeMap`. The other modules below Mounts are proofs.
-- - DeviceTimeout: init/device-timeout-generator.c. `DeviceTimeout.Args` is the reader of the kernel
--   command line with `strtoul`, `Fstab` and `Unit` make a unit's name of an fstab entry, and
--   `Generator` is `main`. `DeviceTimeout.UnitName` has a reader of unit names, written for this
--   library from systemd's rules.
--
-- Strings and buffers are lists of bytes, each a number below 256 where a theorem asks for it. The
-- C++ integers are natural numbers with their wrap-around written out (`% 2 ^ w`); `int` and
-- `long long` results of the parsers are integers in the range that `>>` clamps to. A function that
-- throws returns a `Result`. Where the source would read a variable that was never set, as in `asInt`
-- of blank text, the model has `none` or an error of its own, `undefined_read`. The two ends of the SFTP pipes are scripts: what each `write` takes
-- and each `read` finds, in order, short transfers, failures and the end of the file among them.
-- The environment of the code is so a parameter, and the theorems hold for every script that their
-- hypotheses allow. The data provider is a script in the same way.
--
-- The file system is a function of paths (`lstat`), or says of each path whether a call on it
-- succeeds; an open file is its content, its position and a script of the calls that fail.
--
-- Loops are recursion on the data. Some have fuel: `recv_loop` is given the length that it has to
-- read, of which every round reads a byte or more, `mkpath_from` the length of the path, which gets
-- shorter with every level, `Vmcoreinfo.Notes.walk` the length of the buffer, of which every
-- round passes twelve bytes or more, `args_from` the length of the line, of which every argument
-- takes a byte or more, `Files.Canonical.walk` the length of the path that is left, and
-- `buffer_chunks` one more than the length of the buffer. The loops over a text (`root_from`,
-- `parse_lsblk`, `count_from`, `read_slabs`, `has_control_d`, `version_from`) are given its length, and
-- more where the last round passes no byte. `scan` and
-- `find_gzip` are given the length of the data, of which every read takes a byte or more. `resolve` recurs on the links that are
-- left of the twenty that the source allows.
--
-- Not modelled: processes, sockets, signals, the file system and the libraries that the program
-- calls (ELF, compression, FTP, makedumpfile), the command line, the shell scripts of the init
-- directory; the messages of the exceptions; logging. Locales: the character tests are those of
-- the "C" locale.
pub mod Prelude
pub mod KString
pub mod Quote
pub mod Config
pub mod Url
pub mod Sftp
pub mod Kconfig
pub mod Kernel
pub mod Vmcoreinfo
pub mod Calibrate
pub mod DeviceTimeout
pub mod Transfer
pub mod Files
pub mod Save
pub mod Mounts
pub mod KernelTool
