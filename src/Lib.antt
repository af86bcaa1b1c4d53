-- ===== src/Lib.antt =====
-- ISDE, a desktop environment in C: models of its parts and the theorems that make them correct.
--
-- Parts and files. Paths are from the repository's root.
--   * isde-mountd (mountd/src), the root daemon that tracks removable devices and mounts them for the
--     callers on the system bus. Mountd/Device is mountd.h. Mountd/Table is the device table of
--     devices.c, Mountd/Refresh its mountd_refresh_mount_state. Mountd/Label is is_fs_type_allowed and
--     sanitize_label of mount_ops.c, Mountd/Mount the rest of that file: mountd_do_mount,
--     mountd_do_unmount and mountd_do_eject, cut at their stages. Mountd/Luks is luks.c, Mountd/Udev and
--     Mountd/Monitor are platform_linux.c, Mountd/Dbus is dbus.c and Mountd/Daemon is the start and the
--     main loop of mountd.c. The monitor and the bus handlers share one state, the daemon's record,
--     and call the operations of the table and of mount_ops.c on it.
--   * The window manager (platform/X11/wm/src). Wm/Client is the client and the state of wm.h. Wm/Focus is
--     wm_focus_client of wm.c, Wm/Desktops the grid of virtual desktops of desktops.c, Wm/Windows the
--     minimising, restoring and moving of windows of wm.c, Wm/Switcher the window list of switcher.c
--     with its keys in keys.c, and Wm/Placement is placement.c. Wm/Control puts the requests of
--     clients and of the user together: all of them share the list of clients and the current desktop.
--   * The display manager (dm/src). Dm/State is the state of dm.h, Dm/Session the start and the end of the
--     session and of the greeter's process and the lock (session.c, greeter_proc.c, dm.c), and Dm/Ipc the
--     socket to the greeter of ipc.c, whose messages call them.
--   * The file manager (fm/src): Fm/History is the history of directories of navigate.c, with the Back and
--     Forward keys of shortcuts.c and the Back button of navbar.c. A read of an entry that is not set is
--     the answer none. Fm/Jobs is the job queue of jobqueue.c: Fm/Jobs/Exec executes a job, and Fm/Jobs/Run
--     has the worker and the main thread as steps that take turns in any order. Fm/Conflict is
--     resolve_conflict of fileops.c, Fm/Trash its .trashinfo files, and Fm/Tree its delete_recursive and
--     copy_recursive, with and without the suffix _cb, and fileops_copy with resolve_conflict in front.
--   * The calculator (calc/src): Calc is the state, the stacks and the digits of math.c, and Calc/Infix its
--     operators in infix mode, with the keys of actions.c. Calc/Editing is the keys that edit the
--     display, and Calc/OneOp those for one operand, the memory and the angles.
--   * The panel (panel/src): Panel/Calendar is the calendar of calendar.c, and Panel/Calendar/Days the count of days
--     that it is compared to.
--   * The shared library (platform/common): Platform/ConfigWrite is the writer of configuration files of
--     isde-config-write.c, and Platform/ConfigWrite/Lookup what the lines of such a file say of a key.
--   * The session (platform/X11/session/src/session.c, platform/common/session): Session is the list of children of
--     child.c with their respawns, and the confirmation of a logout. Its inputs come in any order.
--
-- How the code is modelled. A C string is the list of its bytes before the zero byte, and a write into
-- a buffer of n bytes by snprintf keeps the first n - 1 (Common/Text.fit). A handler of isde-mountd is a
-- function from the daemon's state and a log of calls to a result and both again (Mountd/World.M); what
-- it wrote before it fails stays written. A `Device *` is the first entry with its path, which no
-- operation changes while the entry is tracked.
--
-- Parameters. What the kernel, libcryptsetup, libblkid, the password database and mkdir(2) answer is the
-- record Mountd/World.Os; every answer may depend on all calls before it, and the theorems hold for every
-- such record. PAM, fork(2) and the user database of the display manager are Dm/State.Os in the same way.
-- What libudev says of a device and libdbus of a message are the fields of UdevDevice and Message. The
-- operations of fileops.c that a job of the file manager calls are Fm/Jobs/Exec.FileOps, what the calls
-- below Fm/Tree answer is Fm/Tree.Kernel, whether a path exists is an argument of Fm/Conflict, and
-- reading, printing and computing with doubles is Calc.Doubles.
--
-- In the window manager a `WmClient *` is the id of its window, a loop over the clients that writes them
-- is Wm/Client.sweep, and the requests to the X server are a log. The list of the switcher is sorted by
-- insertion where the code calls qsort with cmp_mru. Positions are integers, and a store into an int16_t
-- wraps (Wm/Placement.to_int16); the number of desktops is kept as 32 bits. A job of the file manager is
-- an address into a store, as the queue and the pipe hold pointers to it; its worker sleeps until a signal
-- of the condition variable, or wakes without one, and a write to the full pipe blocks. The year of the
-- calendar is an integer without a bound.
--
-- Loops are structural recursion over the table, the mount table, the bytes, the clients or the inputs, so
-- they need no fuel, but for five: Fm/Trash.read_lines and Platform/ConfigWrite.read_lines call fgets at
-- most once for each byte of the file, since each call takes a byte of what is left, and
-- Fm/Conflict.first_free and
-- Fm/Tree.first_name count the rounds to 998 of the code. The recursion of Fm/Tree is on a depth, and
-- 4097 levels are enough for every path, since lstat(2) refuses a path of PATH_MAX bytes. The main loop is
-- a run over a finite list of inputs of any length.
--
-- Not modelled: the FreeBSD branches, the opening of the udev monitor and of the bus connection, the SCSI
-- commands behind the eject and messages on stderr; in the window manager the managing and removing of
-- windows, stacking, drags, maximised windows and all drawing; in the display manager the X server, the
-- virtual terminals and the replies that list sessions; the moves of the trash, rename, mkdir, the
-- counters of fileops.c and the clipboard; the RPN mode and the sign key in the calculator; in the session
-- its end, the autostart files and the bus services; and the other parts of the desktop.
pub mod Common
pub mod Mountd
pub mod Wm
pub mod Dm
pub mod Fm
pub mod Panel
pub mod Calc
pub mod Platform
pub mod Session
