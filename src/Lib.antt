-- ===== src/Lib.antt =====
-- Mopsa, a static analyzer by abstract interpretation: its C code, and its integer intervals.
--
-- The analyzer is written in OCaml. Three parts of it are C. The first is the floating-point
-- arithmetic with directed rounding on which its float domains rest (utils/itvUtils/floats_round.c,
-- called from utils/itvUtils/float.ml and floatItv.ml). The second is the stubs: C files whose
-- declarations carry contracts, by which the analyzer replaces each call of a C library function
-- (share/mopsa/stubs/c). A contract that no memory can meet makes the analyzer drop the rest of the
-- path without an alarm, so what the contracts allow is as much a part of its soundness as the
-- arithmetic is. The third is the C code by which the analyzer replaces parts of CPython's API when it
-- analyzes Python programs with C modules (share/mopsa/stubs/cpython). Of the OCaml code the intervals
-- of integers (utils/itvUtils) and the iteration of loops, which joins and widens them, are modelled.
--
-- Ints: utils/itvUtils/intBound.ml and intItv.ml, utils/core/bot.ml, and lfp of
-- analyzer/languages/universal/iterators/loops.ml.
--   Ints/Zarith: Zarith's integers are a parameter, `Zarith` with the laws `Laws`; Ints/Sample: the integers
--     themselves, which obey them. Running out of memory is not modelled.
--   Ints/Bound, Ints/Interval: the operations of intBound.ml and intItv.ml, by their names; the forward
--     operations are in Interval/Forward, the comparisons in Interval/Logical and the filters in
--     Interval/Filter. Where the code
--     raises Invalid_argument the result is `none`. The pair of bounds need not be a valid interval.
--   Ints/Loops: lfp over any lattice (`man.lattice` on the current flow), as a recursion on fuel; `body`
--     stands for the execution of the condition and the body. With the widening delay 0, which is the
--     default, a fuel of 4 is enough on intervals.
--   Ints/Bound/Order, Signs, Product, Quotient, Division and Remainder, and Interval/Corners, Range, Widen,
--     Magnitude, Residue, Filter/Orders and Filter/Unequal: lemmas. Interval/Lattice, Sums, Product,
--     Division, Remainder, Filter/Kept, Logical/Answered, Wrap and Missed, and Loops/Ends and Delay: the theorems.
--
-- Float: utils/itvUtils/floats_round.c.
--   Float/Fpu: a float format (the processor's operators and the functions of math.h) is a record,
--     `Format`; the rounding mode is a state that a C function reads and writes, the monad `M`.
--     `round` is ROUND_NEAR, ROUND_UP, ROUND_DOWN and ROUND_ZERO; `mulz` and `divz` are MUL and DIV.
--   Float/Laws: what the code relies on in the processor and math.h, as records of laws. Each law is
--     one of IEEE 754 or of math.h, for results that are not NaN.
--   Float/Tiny: a format of seven values that obeys all the laws, so they can be met.
--   Float/Itv/Defs: intervals, set_l, set_u, get_sl and get_su. The pointer to the result is a result.
--   Float/Itv/Add, Sub, Mul, Divpos: the 48 interval operations, by their C names.
--   Float/Itv/Bounds, Mulz, Divz: lemmas; Sum, Product, Quotient, Inner: the theorems.
--   Float/Math: the functions of math.h on floats and the integers of OCaml's runtime, as parameters.
--     Integer overflow is undefined in C; here 64-bit negation and the exponent wrap.
--   Float/Scalar/Sum, Product, Quotient, Convert, Integers: the operations that the macros OP_DD_D,
--     OP_D_D, OP_D_V and OP_V_D define; the boxed and the unboxed function of each are one here.
--   Float/Scalar/Parse: parse_string and the ml_of_string_* functions, on the list of characters.
--     Its loops are recursions on that list.
--   Float/Scalar/Rounding, Sign: the theorems.
--   A `double` that holds a single-precision number is `of_sgl` of it.
--
-- Stub: share/mopsa/stubs/c.
--   Stub/Memory: blocks, pointers with an offset in bytes, and the predicates of mopsa/mopsa.c. The
--     predicates `..._or_fail` differ from the others in the message of the alarm, so they are the
--     same ones here.
--   Stub/Contract: a stub without `assigns` is a `Query`, one with it an `Action`: what it requires of
--     the memory before the call, and how that, the result and the memory after it are related.
--     `local` calls another stub; `assigns` leaves all else as it was.
--   Stub/Overwrite, Frame: a write of a run of bytes, what a contract fixes, and what it leaves alone.
--   Stub/Bytes: the mem* functions of libc/string.c, with bcmp, bcopy and bzero of libc/strings.c.
--   Stub/Text: the str* functions of libc/string.c, libc/strings.c and
--     libc/bsd/string.c. An alias `__builtin_f` is `builtin_f`; the aliases
--     __rawmemchr and __strdup are left out.
--   Stub/Wide: the wide strings and blocks of libc/wchar.c; a wchar_t is four bytes.
--   Stub/Numbers: the conversions of strings to numbers of libc/stdlib.c (strtol, strtod, atoi and their
--     like); what `*__endptr` becomes is a result, and is not part of the memory.
--   Stub/Random: the random numbers of libc/stdlib.c, with the state buffer that initstate and setstate
--     exchange. Stub/Numbers/Ends and Quotients, and Stub/Random/Buffers: the theorems.
--   Stub/Numbers/Maxima and Stub/Wide/Numbers: the conversions of libc/inttypes.c and wchar.c.
--   Stub/Numbers/Divide: abs, div and their like of libc/stdlib.c and inttypes.c. A quotient in a formula
--     wraps around where it overflows, as analyzer/languages/c/memory/machine_numbers.ml has it.
--   Stub/Multibyte, Stub/Search: the multibyte conversions, bsearch and qsort of libc/stdlib.c.
--   Stub/Ctype: libc/ctype.c; EOF is a parameter.
--   A byte is a natural number, a C int an integer. A pointer below its block has a negative offset.
--   A negative size_t does not occur. A product of two size_t wraps around, by `size_t`; a length and
--     the sum of an offset and a length are not bounded by 2^64, except where the contract itself
--     compares with that. No recursion takes fuel.
--
-- System: libc/stdlib.c, fcntl.c, unistd.c, stdio.c, sys/stat.c and sys/socket.c of share/mopsa/stubs/c.
--   System/FileStatus, System/Sockets: sys/stat.c and sys/socket.c; System/Pairs: the theorem on
--     socketpair. System/Terminals: the pseudo-terminals of
--     stdlib.c, and termios.c on descriptors.
--   System/Table: the table behind _mopsa_register_file_resource, _mopsa_register_file_resource_at and
--     _mopsa_find_file_resource, whose laws stand in libc/mopsa_libc_utils.h, and its removal of a
--     resource (analyzer/languages/c/libs/libc/file_descriptor). The analyzer holds sets of resources
--     in each slot; a table here is one that such a state stands for. A resource that is registered
--     again keeps its other descriptors, as the header has it; table.ml drops those from 3 on.
--   System/World: memory, the kind of each block (`new Memory`, `new FileRes`, `new File`), the table
--     and the _fileno of each stream. `Stub` is a contract over it; `freed` is the clause `free:`. To
--     free a resource that is not alive is an alarm, so liveness is among the requirements.
--     `Headers` has what the system's headers define.
--   System/Heap: malloc, calloc, realloc, free, valloc. A block's base and size are those of a pointer
--     to bytes.
--   System/Descriptors: open (`open_file`), creat, close, dup, dup2, dup3, read, write, pread, pwrite and
--     lseek. System/Streams: fopen, freopen, fdopen, tmpfile, fmemopen, popen, fclose, pclose, fflush
--     and fileno. Of a stream only its descriptor is modelled.
--   System/Files, Process, StreamIo: the stubs on paths, on open descriptors and streams, and on
--     processes and ids. C's _exit is `exit_now` and remove is `remove_file`. An argument that a
--     contract does not read is left out.
--   System/Steps: a call whose requirements hold, with one outcome, as a step; sequences of calls.
--   System/Lookup, Invariant, Roundtrip, Reuse, Closing: lemmas on the table and the theorems.
--
-- Math: libc/math.c of share/mopsa/stubs/c.
--   Math/Floats: a float type is a record, `Floats`. C converts a float to double where an expression
--     has a double constant; `wide` is the type it converts to. A contract without `assigns` is a
--     `Function`, one that assigns what its arguments point to a `Writer`, with the values there before
--     the call and after it; an unprimed target is the value before.
--   Math/Trigonometry, Exponential, Exponent, Nearest, Remainder, Classify, Order, Special: the
--     contracts. One definition stands for the three types where their contracts have the same text;
--     otherwise there is one for each. A leading __ is left out, __finite is `builtin_finite`. An
--     argument that the contract does not read is left out, and so is errno.
--   Math/Laws: the laws of comparison that the theorems in Math/Facts rely on.
--
-- Python: share/mopsa/stubs/cpython.
--   Python/State: the pending exception `*exc` and the rest of the interpreter as a state; a function
--     is a state transformer that a failed assertion ends; `Api` has the functions that the analyzer
--     implements, as parameters. The macros for reference counts do nothing in python_stubs.h, so they
--     are left out; so is _mopsa_pyerr_bind_cs_to, which records the call stack for messages.
--   Python/Errors, Index, Wrappers, Slots: the functions of Python.c, PyErr_SetString as
--     py_err_set_string. PyArg_UnpackTuple and other functions that the code calls are the parameters
--     `TupleApi`, `IterApi`, `MemberApi` and `ObjectApi`.
--   Python/Members: PyMember_GetOne and PyMember_SetOne, over what the member's address holds; a read at
--     another type than the one written is undefined, which ends the function as a failed assertion does.
--   Python/Iterate: PySequence_Check, PySequence_Fast, PyObject_GetIter and their like.
--   Python/Objects: _PyObject_New, PyType_GenericAlloc, and PyMem_Malloc and its like over System/Heap.
--     PyType_GenericNew passes its call on to tp_alloc and is left out.
--   Python/Convert: the helpers of python_stubs.c; type_error of that file is in Errors.
--   Python/Types: PyType_ReadyCheat, init_flags and the flags of python_stubs.c, over one record for each of
--     the 19 type objects.
--   Python/Facts, Attributes, Results, Ready: the theorems.
--
-- Not modelled: the bit representations of floats_round.c; the stubs that store pointers or states
-- (strtok_r, strsep, wcstok, the multibyte conversions of wchar.c, wcstod and wcstof) or return strings made
-- up by the analyzer (strerror, strsignal); PyType_GenericNew, PyModuleDef_Init and
-- PyUnicode_AsUCS4Copy of Python.c; the generators' seeds, l64a,
-- ecvt and its like, ptsname, mkstemp and atexit of stdlib.c; accept, getsockopt and the other stubs of
-- sys/socket.c that read the length of an address through a pointer; tcgetattr of termios.c; the tables
-- of ctype.c; the stubs of unistd.c and stdio.c that return strings or store
-- through pointers to pointers, openat and pipe; nan and nexttoward of math.c; the other files of
-- share/mopsa/stubs. Of the OCaml code all but the above: of intItv.ml the Euclidian division and remainder, the Boolean
-- connectives, the bitwise operations and the backward operations; of loops.ml the unrolling,
-- the cache and the decreasing iterations.
pub mod Prelude
pub mod Float
pub mod Stub
pub mod Math
pub mod Python
pub mod System
pub mod Ints
