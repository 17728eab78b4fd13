-- ===== src/Lib.antt =====
-- A verification of CWPack, a MessagePack library in C.
--
-- The program. src/cwpack.c packs values into the memory of a cw_pack_context and unpacks them from
-- that of a cw_unpack_context. The macros of src/cwpack_internals.h reserve space, call the
-- overflow or underflow handler where the memory is at its end, and store and load words in
-- network byte order; src/cwpack_config.h chooses one of three versions of these. A handler is
-- the application's or comes from goodies/basic-contexts.
--
-- The files.
-- - Prelude: shared names, Boolean tests, lists measured by native numbers, integers, bits.
-- - Wire: byte order, the stores cw_store16 .. cw_store64 and the loads cw_load16 .. cw_load64, with
--   their theorems in Wire/Store, Wire/Load and Wire/RoundTrip.
-- - Exec: the body of a C function as explicit state passing: it goes on, returns, or faults, as
--   on an access out of bounds.
-- - ReturnCode: the constants CWP_RC_OK and so on.
-- - Format: the wire format as its specification gives it, independent of the code: the forms of an
--   item, their bytes and their meaning. Format/Choice says which form each routine is to choose.
-- - Pack: cw_pack_context and the macros of packing; Pack/Numbers and Pack/Blobs have the
--   cw_pack_... routines, one function each under its name. Pack/Emit and Pack/Encode reduce each
--   routine to `append`, which reserves space once and writes the bytes of a form. Pack/Sink is the
--   contract of overflow handlers, and Pack/Calls has sequences of calls.
-- - Unpack: cw_unpack_context and the macros of unpacking; Unpack/Next is cw_unpack_next,
--   Unpack/Skip cw_skip_items and Unpack/LookAhead cw_look_ahead. Unpack/Source is the contract of
--   underflow handlers, and the children of Unpack/Next have what is read for each form.
--   Unpack/Safety is about any input, right or wrong, over the contract Guard.
-- - NumericExtensions: goodies/numeric-extensions/numeric_extensions.c.
-- - Utils: the routines of goodies/utils/cwpack_utils.c, those for floats in Utils/Floats, where the
--   compiler's floating point is a parameter. Utils/Expected is about items that are there,
--   Utils/Safety about any input.
-- - Contexts: the five contexts of goodies/basic-contexts/basic_contexts.c, each under its own name:
--   Memory, StreamPack, FilePack, StreamUnpack and FileUnpack. The C library's malloc, realloc, free,
--   fwrite, fread, feof, ferror, read, write and errno are parameters (Memory, Stdio, Unix), with what
--   the code relies on as records of laws. MemorySink, StreamSink, FileSink, FileRoom and FileHandler
--   have the overflow handlers as instances of Sink (a file's without a barrier); Life, StreamLife and
--   FileLife go from init to terminate. Refill, StreamSource, StreamEnd, FileReading, FileOutcome, FileSource and FileInput have
--   the underflow handlers as instances of Source, and FileGuard one as an instance of Guard. Barrier
--   is about the barriers of the file contexts.
-- - RoundTrip: calls of the packing routines, and then of cw_unpack_next on what they packed, in
--   RoundTrip/Files through a file.
-- - Runs: concrete contexts, and runs in its children.
--
-- The model. A context is a record, its buffer the bytes from `start` up to `end`, and `current` an
-- offset in it. A handler is an address that a Platform maps to a function of the context, so that
-- theorems hold for every handler that keeps the contract Sink or Source. A float is its bits. The
-- arithmetic of uint32_t and uint64_t wraps as in C where a value can reach the width; pointers
-- and `unsigned long` do not wrap. The union of cwpack_item is a data type by the member that was
-- written last. The loop of cw_skip_items runs on fuel, and its result says whether the fuel was
-- enough; the loops that double a length have the length to reach as their fuel, which is enough for
-- a buffer that is not empty, and the loop over read has the number of bytes that are asked for, as each
-- round reads one at least.
--
-- memcpy on areas that overlap, which C leaves undefined, leaves bytes that a parameter of the model
-- gives (overlapping in Contexts/Unix).
--
-- Not modelled: goodies/dump, which prints, the bindings in Swift and Objective-C, the example and the
-- tests.
pub mod Prelude
pub mod Wire
pub mod Exec
pub mod ReturnCode
pub mod Format
pub mod Pack
pub mod Unpack
pub mod NumericExtensions
pub mod Utils
pub mod Contexts
pub mod RoundTrip
pub mod Runs
