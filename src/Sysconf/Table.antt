-- ===== src/Sysconf/Table.antt =====
-- `sysconf_map` of fake_libc.c as it is written: bionic's numbers, and the names of <unistd.h> whose
-- values stand there where they are macros.
use Prim.Native.String.{String}
use fake_libc.Common.{ℕ, List, [], ◌∷◌, ◌++◌}

abbrev system_names : List (ℕ × String)
system_names =
    (0x00, "_SC_ARG_MAX")
    ∷ (0x01, "_SC_BC_BASE_MAX")
    ∷ (0x02, "_SC_BC_DIM_MAX")
    ∷ (0x03, "_SC_BC_SCALE_MAX")
    ∷ (0x04, "_SC_BC_STRING_MAX")
    ∷ (0x05, "_SC_CHILD_MAX")
    ∷ (0x06, "_SC_CLK_TCK")
    ∷ (0x07, "_SC_COLL_WEIGHTS_MAX")
    ∷ (0x08, "_SC_EXPR_NEST_MAX")
    ∷ (0x09, "_SC_LINE_MAX")
    ∷ (0x0a, "_SC_NGROUPS_MAX")
    ∷ (0x0b, "_SC_OPEN_MAX")
    ∷ (0x0c, "_SC_PASS_MAX")
    ∷ (0x0d, "_SC_2_C_BIND")
    ∷ (0x0e, "_SC_2_C_DEV")
    ∷ (0x0f, "_SC_2_C_VERSION")
    ∷ (0x10, "_SC_2_CHAR_TERM")
    ∷ (0x11, "_SC_2_FORT_DEV")
    ∷ (0x12, "_SC_2_FORT_RUN")
    ∷ (0x13, "_SC_2_LOCALEDEF")
    ∷ (0x14, "_SC_2_SW_DEV")
    ∷ (0x15, "_SC_2_UPE")
    ∷ (0x16, "_SC_2_VERSION")
    ∷ (0x17, "_SC_JOB_CONTROL")
    ∷ (0x18, "_SC_SAVED_IDS")
    ∷ (0x19, "_SC_VERSION")
    ∷ (0x1a, "_SC_RE_DUP_MAX")
    ∷ (0x1b, "_SC_STREAM_MAX")
    ∷ (0x1c, "_SC_TZNAME_MAX")
    ∷ (0x1d, "_SC_XOPEN_CRYPT")
    ∷ (0x1e, "_SC_XOPEN_ENH_I18N")
    ∷ (0x1f, "_SC_XOPEN_SHM")
    ∷ (0x20, "_SC_XOPEN_VERSION")
    ∷ (0x21, "_SC_XOPEN_XCU_VERSION")
    ∷ (0x22, "_SC_XOPEN_REALTIME")
    ∷ (0x23, "_SC_XOPEN_REALTIME_THREADS")
    ∷ []

abbrev realtime_names : List (ℕ × String)
realtime_names =
    (0x24, "_SC_XOPEN_LEGACY")
    ∷ (0x25, "_SC_ATEXIT_MAX")
    ∷ (0x26, "_SC_IOV_MAX")
    ∷ (0x27, "_SC_PAGESIZE")
    ∷ (0x28, "_SC_PAGE_SIZE")
    ∷ (0x29, "_SC_XOPEN_UNIX")
    ∷ (0x2a, "_SC_XBS5_ILP32_OFF32")
    ∷ (0x2b, "_SC_XBS5_ILP32_OFFBIG")
    ∷ (0x2c, "_SC_XBS5_LP64_OFF64")
    ∷ (0x2d, "_SC_XBS5_LPBIG_OFFBIG")
    ∷ (0x2e, "_SC_AIO_LISTIO_MAX")
    ∷ (0x2f, "_SC_AIO_MAX")
    ∷ (0x30, "_SC_AIO_PRIO_DELTA_MAX")
    ∷ (0x31, "_SC_DELAYTIMER_MAX")
    ∷ (0x32, "_SC_MQ_OPEN_MAX")
    ∷ (0x33, "_SC_MQ_PRIO_MAX")
    ∷ (0x34, "_SC_RTSIG_MAX")
    ∷ (0x35, "_SC_SEM_NSEMS_MAX")
    ∷ (0x36, "_SC_SEM_VALUE_MAX")
    ∷ (0x37, "_SC_SIGQUEUE_MAX")
    ∷ (0x38, "_SC_TIMER_MAX")
    ∷ (0x39, "_SC_ASYNCHRONOUS_IO")
    ∷ (0x3a, "_SC_FSYNC")
    ∷ (0x3b, "_SC_MAPPED_FILES")
    ∷ (0x3c, "_SC_MEMLOCK")
    ∷ (0x3d, "_SC_MEMLOCK_RANGE")
    ∷ (0x3e, "_SC_MEMORY_PROTECTION")
    ∷ (0x3f, "_SC_MESSAGE_PASSING")
    ∷ (0x40, "_SC_PRIORITIZED_IO")
    ∷ (0x41, "_SC_PRIORITY_SCHEDULING")
    ∷ (0x42, "_SC_REALTIME_SIGNALS")
    ∷ (0x43, "_SC_SEMAPHORES")
    ∷ (0x44, "_SC_SHARED_MEMORY_OBJECTS")
    ∷ (0x45, "_SC_SYNCHRONIZED_IO")
    ∷ (0x46, "_SC_TIMERS")
    ∷ (0x47, "_SC_GETGR_R_SIZE_MAX")
    ∷ []

abbrev thread_names : List (ℕ × String)
thread_names =
    (0x48, "_SC_GETPW_R_SIZE_MAX")
    ∷ (0x49, "_SC_LOGIN_NAME_MAX")
    ∷ (0x4a, "_SC_THREAD_DESTRUCTOR_ITERATIONS")
    ∷ (0x4b, "_SC_THREAD_KEYS_MAX")
    ∷ (0x4c, "_SC_THREAD_STACK_MIN")
    ∷ (0x4d, "_SC_THREAD_THREADS_MAX")
    ∷ (0x4e, "_SC_TTY_NAME_MAX")
    ∷ (0x4f, "_SC_THREADS")
    ∷ (0x50, "_SC_THREAD_ATTR_STACKADDR")
    ∷ (0x51, "_SC_THREAD_ATTR_STACKSIZE")
    ∷ (0x52, "_SC_THREAD_PRIORITY_SCHEDULING")
    ∷ (0x53, "_SC_THREAD_PRIO_INHERIT")
    ∷ (0x54, "_SC_THREAD_PRIO_PROTECT")
    ∷ (0x55, "_SC_THREAD_SAFE_FUNCTIONS")
    ∷ (0x60, "_SC_NPROCESSORS_CONF")
    ∷ (0x61, "_SC_NPROCESSORS_ONLN")
    ∷ (0x62, "_SC_PHYS_PAGES")
    ∷ (0x63, "_SC_AVPHYS_PAGES")
    ∷ []

abbrev pub initialisers : List (ℕ × String)
initialisers = system_names ++ (realtime_names ++ thread_names)
