-- ===== src/Lib.antt =====
-- yc-360-script captures diagnostics of a running JVM and of the machine that it runs on. Its Go
-- driver calls C code in the same process, and this library models that C code.
--
-- Parts and files. All paths are under internal/capture.
--   Attach      ycattach/posix/jattach.c: jattach1 prepares the process once (identity, namespaces,
--               credentials, temporary directory) and leaves globals; jattach2 uses them and picks
--               one of the two protocols below.
--   Process     ycattach/posix/psutil.c: the status file of a process, the scan of /proc for the
--               process id in a container, setns, and the temporary directory.
--   Openj9      ycattach/posix/jattach_openj9.c. Translate: translate_command. Unescape:
--               print_unescaped. Wire: write_command, read_response, detach. Files: the lock, the
--               listening socket, replyInfo, the semaphore and accept_client. Session:
--               jattach_openj9, whose gotos are the functions open_session, publish, notify_jvm and
--               await_client, each with its way to `error:` (abandon).
--   Hotspot     ycattach/posix/jattach_hotspot.c: the trigger file, the wait for the socket, the
--               command and its answer.
--   Windows     ycattach/windows/jattach.c, for 64-bit Windows: the injected thread and the pipe, over
--               a World of its own with the calls of the Windows API.
--   Vmstat      procps/linux/vmstat.c, with strtol_or_err of procps/linux/strutils.c. Options: the
--               command line. Rows: new_header, unitConvert and new_format. Devices: the reports on
--               disks, partitions and slabs, the sums over disks, and the choice of the report.
--   Top         procps/linux/top.c. Forest: forest_adds and the loops of forest_begin that call it;
--               Rows below it: the loop over Hide_pid, forest_config and forest_display. Text: the
--               texts of columns. Line: ioline, with its buffer and the lines it recalls; Line.Edit
--               is its specification, a text with a cursor. Scroll: window_hlp and window_show, over
--               indices of tasks and tests that say which are visible. Filters: osel_add,
--               osel_matched, user_certify and wins_usrselect; File below it: config_osel and the
--               part of write_rcfile that prints the filters, on lines of text. Screen: what task_show
--               leaves out, which joins the forest view, the filters and the scrolling. Columns:
--               calibrate_fields and the widths of build_headers; EndKey below it: the start that the
--               End key takes; Keys below it: the keys of keys_window that scroll. Frame: frame_hlp
--               and frame_make below the summary, over window_show. Fields: fields_utility, key by
--               key. Inspect: readfile, insp_do_file and insp_cnt_nl, over the blocks that fread
--               yields. Utf8: utf8_cols, utf8_delta, utf8_embody, utf8_justify, utf8_proper_col and
--               make_str_utf8, where mbtowc and wcwidth are a parameter; the loops have a round of
--               fuel for each byte of the text, and each round passes at least one.
--   Posix       the operating system, which is no code of the repository: a World holds the replies
--               that it will give, as a list, and the trace of the calls so far. A reply may carry
--               any value, so a theorem about every World covers every behaviour of the system and
--               of the JVM. A list that has run out answers -1. Posix.Loop runs a loop on fuel: the
--               length of the list plus one, which is enough, since every round that goes on takes
--               a reply.
--               Posix.Trace reads a trace: bytes sent, received and printed, pauses, and which
--               descriptors were handed out and closed.
--   CString     snprintf, atoi, strstr and numerals. Prelude: lists, Boolean tests and integers.
--   Tests       runs on concrete input.
--
-- Conventions. Text is a list of bytes without its NUL unless the code looks at the NUL. An integer
-- type wraps by `% 2 ^ w`; int parameters that only name processes and descriptors are unbounded.
-- `none` is a read outside of what was written. The wait for HotSpot has 24 rounds of fuel
-- (poll_fuel), which is what the limit of 500 ms leaves; out of fuel it gives 1, which the code never
-- gives. A round of a report counts with an int, which wraps as the hardware does it.
--
-- Not modelled: errno and messages that depend on it, the variants for macOS and FreeBSD, the layout
-- of vmstat (field widths, translations, time stamps), the Go driver, and libproc2, whose results are
-- arguments of the reports. Floating point is a parameter (Vmstat.Rows.Float, Top.Text.Numbers). Of
-- top, the terminal, most keys, the rest of the configuration file, the summary area and the threads
-- are left out; the buffers for the texts that the forest view draws are taken to be large enough.
pub mod Prelude
pub mod Posix
pub mod CString
pub mod Openj9
pub mod Hotspot
pub mod Process
pub mod Attach
pub mod Top
pub mod Vmstat
pub mod Windows
mod Tests
