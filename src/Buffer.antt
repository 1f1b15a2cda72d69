-- ===== src/Buffer.antt =====
-- include/net/buffer.h and src/net/buffer.cpp: the byte buffer of a connection.
-- A char is a number; `buf` is the std::vector<char>, and the two indices are size_t. Where the
-- kernel is called (readv, write) the answer is an argument.
pub mod Content
pub mod Room
pub mod Io
pub mod Strings
pub mod Queue
mod Examples
use caimr.Prelude.{
  ℕ, ◌+◌, ◌-◌, Bool, List, Bytes, add_size, sub_size, write_at, slice, resize, replicate, length,
  take, drop, ltb, leb, if◌then◌else◌,
}

pub record Buffer : Type 0 where
  pub buf : Bytes
  pub reader_index : ℕ
  pub writer_index : ℕ

abbrev pub cheap_prepend : ℕ
cheap_prepend = 8

abbrev pub initial_size : ℕ
initial_size = 1024

-- The constructor; the vector is filled with zeros.
pub create : ℕ → Buffer
create initial = record {
  buf = replicate (add_size cheap_prepend initial) 0;
  reader_index = cheap_prepend;
  writer_index = cheap_prepend;
}

pub readable_bytes : Buffer → ℕ
readable_bytes b = sub_size b.writer_index b.reader_index

pub writable_bytes : Buffer → ℕ
writable_bytes b = sub_size (length b.buf) b.writer_index

pub prependable_bytes : Buffer → ℕ
prependable_bytes b = b.reader_index

-- What `len` bytes from `peek()` on hold. Past the end of the storage there is nothing to give.
pub peek : Buffer → ℕ → Bytes
peek b len = slice b.buf b.reader_index len

pub retrieve_all : Buffer → Buffer
retrieve_all b = record b { reader_index = cheap_prepend; writer_index = cheap_prepend }

pub retrieve : Buffer → ℕ → Buffer
unfolding readable_bytes retrieve_all
retrieve b len =
    if ltb len (readable_bytes b)
    then record b { reader_index = add_size b.reader_index len }
    else retrieve_all b

pub retrieve_as_string : Buffer → ℕ → Bytes × Buffer
unfolding peek retrieve
retrieve_as_string b len = (peek b len, retrieve b len)

pub retrieve_all_as_string : Buffer → Bytes × Buffer
retrieve_all_as_string b = retrieve_as_string b (readable_bytes b)

pub make_space : Buffer → ℕ → Buffer
unfolding readable_bytes writable_bytes prependable_bytes
make_space b len =
    if ltb (add_size (writable_bytes b) (prependable_bytes b)) (add_size len cheap_prepend)
    then record b { buf = resize b.buf (add_size b.writer_index len) }
    else record {
      buf = write_at b.buf cheap_prepend (slice b.buf b.reader_index (readable_bytes b));
      reader_index = cheap_prepend;
      writer_index = add_size cheap_prepend (readable_bytes b);
    }

pub ensure_writable_bytes : Buffer → ℕ → Buffer
unfolding writable_bytes make_space
ensure_writable_bytes b len = if ltb (writable_bytes b) len then make_space b len else b

-- `append(data, len)`, with `len` the length of the block.
pub append : Buffer → Bytes → Buffer
unfolding ensure_writable_bytes
append b bytes =
    let b' = ensure_writable_bytes b (length bytes) in
    record b' {
      buf = write_at b'.buf b'.writer_index bytes;
      writer_index = add_size b'.writer_index (length bytes);
    }

-- The answer of a system call that moves bytes: -1 with errno, or the number moved.
pub data IoResult : Type 0 where
  failed : (errno : ℕ) → IoResult
  moved : (n : ℕ) → IoResult

-- The answer of readv: -1 with errno, or the bytes that the kernel puts into the blocks in order.
pub data Readv : Type 0 where
  read_failed : (errno : ℕ) → Readv
  received : (bytes : Bytes) → Readv

abbrev pub extra_size : ℕ
extra_size = 65536

-- How many bytes the blocks handed to readv hold: the second one is used if `writable` is small.
pub read_capacity : Buffer → ℕ
unfolding writable_bytes
read_capacity b =
    let writable = writable_bytes b in
    if ltb writable extra_size then add_size writable extra_size else writable

-- `read_fd` returns n, with errno stored when n < 0. The kernel fills the writable part of the
-- storage, then `extrabuf`.
pub read_fd : Buffer → Readv → Buffer × IoResult
read_fd b (read_failed errno) = (b, failed errno)
read_fd b (received bytes) =
    let writable = writable_bytes b in
    let n = length bytes in
    let filled = record b { buf = write_at b.buf b.writer_index (take writable bytes) } in
    let extrabuf = drop writable bytes in
    (
      if leb n writable
          then record filled { writer_index = add_size b.writer_index n }
          else append (record filled { writer_index = length filled.buf })
              (take (sub_size n writable) extrabuf),
      moved n,
    )

-- `write_fd` hands the readable bytes to write and returns its answer; the buffer stays as it is.
pub write_fd : Buffer → IoResult → Bytes × IoResult
unfolding peek readable_bytes
write_fd b answer = (peek b (readable_bytes b), answer)
