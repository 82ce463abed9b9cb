-- ===== src/Io/Request.antt =====
-- The I/O requests of src/io/io_request.h and src/io/io_request.cc: the tagged union and the
-- operations on it. A pointer is its 64-bit address, and `iovec* iovec; size_t iov_len` is the
-- list of the elements that the two describe.
pub mod Ops
pub mod Split
pub mod Transfers
pub mod SplitBuffer
pub mod SplitIovec
pub mod Dispatch
pub mod DirAndLen
mod Tests
