-- ===== src/Lib.antt =====
-- A model of fake_libc: a C library with bionic's names, in a namespace of its own, that lets Android
-- libraries run over glibc.
--
-- How the program works. `android_dlopen` (android_namespace/android_namespace.c) loads the fake libc.so
-- into a new namespace and calls its `init_dl`, which loads glibc's libraries and hands the functions
-- of glibc's libdl to the fake libdl.so (dl/dl.c). From then on each function of fake_libc.c
-- looks glibc's function up when it is first called, translates what differs between the two C
-- libraries (standard streams, pthread objects, `struct dirent`, `struct addrinfo`, numbers of
-- `sysconf`) and calls glibc.
--
-- The files, and the code that they are about:
--   Strings          strlcpy.c, strlcat.c, and `__strlcpy_chk`, `__strlcat_chk` of fake_libc.c. Buffers
--                    are lists of bytes; a pointer into the source is the rest of its buffer.
--                    Strings/Buffers has lemmas on buffers, Copy and Concat the theorems.
--   ThreadTable      pthread_gettid_helpers.cpp. Each function holds the mutex from its start to its
--                    end, so it is one function on the array of 512 rows. Lookup, Capacity.
--   Pthread          the pthread functions of fake_libc.c. Glibc has what they use of glibc: calls of
--                    pthread objects, malloc, free and the clock are a record of functions on a state
--                    of glibc's own. A World is the memory's words and this state. Mutex, Cond and
--                    Attr are functions on worlds; Bindings runs any of the mutex and condition
--                    functions in sequence. Create is `pthread_create` with `my_start_routine`, a step
--                    relation between the creator, the new thread and the other threads.
--   Loader           the macros LOAD_GLIBC, LOAD_RT, LOAD_GCC, LOAD_PTHREAD, LOAD_GLIBC_SYMBOL and
--                    LOAD_RT_SYMBOL, `init_dl`, and `_get_actual_fp` of fake_libc.c, as state passing
--                    over the static variables. The dynamic linker, and what a called function
--                    answers, are the parameter Linker; it is called through the pointers that
--                    `init_dl` stores, and through a null one a call is a fault. Ready has the
--                    invariant, Returns the rule for runs that fault nowhere, Streams and Init the
--                    lemmas for wrappers and start-up.
--   Startup          android_namespace/android_namespace.c and dl/dl.c. Namespace is `android_dlopen` over
--                    many calls; Handover follows the addresses through `init_dl` into dl.c.
--   Stdio            the wrappers of fake_libc.c around glibc: Narrow, Wide, Formatted and Numbers, each
--                    with the statement of its family in Forwarding; Irregular has those that do
--                    something else, with Streams, Symbols and Recursion.
--   Sysconf          `sysconf_map` and `sysconf` of fake_libc.c. The macros that the table is compiled with are
--                    a parameter; included_macros are those of the headers that the file includes.
--   SystemProperties `__system_property_get` of fake_libc.c. The lines of build.prop are a parameter; Lookup
--                    has the function itself, Search lemmas on `strstr`, Answers the theorems.
--   Egl              libEGL. Displays is the table of displays of egl.c, with `eglGetDisplay` and
--                    `eglTerminate`, over any vendor's library and window-system plug-in;
--                    Displays/Deletion fills in one that deletes displays. Forwarders has the
--                    functions that HYBRIS_IMPLEMENT_FUNCTION makes, over the lazily loaded pointers;
--                    Surfaces the window surfaces and swaps, with the table of helper.cpp, over any
--                    answers of the vendor and the plug-in; Contexts `eglCreateContext` and
--                    `eglGetProcAddress`; Images the EGLImage wrappers; QueryString `eglQueryString`,
--                    with the plug-ins' list of extensions; Plugin is ws.c, Logging logging.c.
--   Windows          libEGL/platforms: Fbdev is fbdev/fbdev_window.cpp, Hwcomposer
--                    hwcomposer/hwcomposer_window.cpp, Base and Dispatch common/nativewindowbase.cpp:
--                    reference counts, and the queries and operations over the methods of any class,
--                    of which Settings makes both windows instances. What a function does under the
--                    mutex is one function on a record of the fields and of the buffers by address;
--                    Fbdev/Threads interleaves threads, which also wait. Hwcomposer's settings take
--                    no mutex; its operations are taken one after the other. Plugin has the entry points of
--                    fbdev, hwcomposer and null (eglplatform_*), with the life of a window.
--   Gles             libGLESv2/glesv2.c: the wrappers in Attributes, Drawing, Images, Shaders and
--                    Uniforms, the constructor and the resolver of the indirect functions in Gles itself;
--                    Loading is about the pointers, Equivalence about all functions. With no library
--                    open a call never returns, which is a fault here.
--   Helpers          helpers.c: Dirent for `my_readdir` and `my_readdir_r`, Addrinfo for `my_getaddrinfo`
--                    and `my_freeaddrinfo`.
--   Common           native numbers' tests, lists, integers, and Outcome, a result or a fault.
--   Tests            runs on concrete inputs.
--
-- The pthread functions look up the glibc functions that they call, too. Their model starts behind these
-- look-ups, which Loader describes, and does not repeat them.
--
-- A fault is an access out of bounds, a read through or a call of a null or unset pointer, a failed
-- assertion, or, in Gles, a call that never returns. An address is a number; a value that the code
-- only hands on (a pointer, an integer, the bits of a float, a `va_list`) is a number too.
--
-- Fuel and bounds. Only `fgetpos`, `fsetpos` and `funopen`, which call themselves, run on fuel,
-- a unit for each call. The loops of strlcpy and strlcat are structural, in the count
-- or in the source. The fields of `struct timespec` are patterns of 32-bit words
-- in the one place that computes with them. Kernel ids and handles are not bounded.
--
-- Hypotheses on code outside of the repository. Provides: dlmopen finds the four libraries, and dlsym
-- finds the symbols of glibc that the code loads, which are listed (`funopen`, which glibc does not
-- have, is not one). AllocatesHigh: malloc answers addresses above 0xFFFF, which is what tells a
-- translated pthread object from a static initialiser.
--
-- Hypotheses on the windows: AreFresh, the objects that `new` makes in one reallocation are distinct and
-- not at NULL; Held, a buffer counts the window's reference and those of clients. `m_freeBufs` is an
-- integer without bounds, since the code lets it fall below 0.
--
-- Not modelled: the Wayland window and its server side; the native-buffer extension of
-- eglplatformcommon.cpp; libsync and libhardware; the signal and setjmp sources (setjmp), which are
-- bionic's own; dispatch_and_syscalls.cpp, assembly and tables; errno, FD_SET checks and thread-local
-- storage of fake_libc.c; failures of malloc; the memory model below the interleaving of whole steps.
pub mod Common
pub mod Strings
pub mod ThreadTable
pub mod Pthread
pub mod Loader
pub mod Startup
pub mod Stdio
pub mod Helpers
pub mod Sysconf
pub mod SystemProperties
pub mod Egl
pub mod Gles
pub mod Windows
pub mod Tests
