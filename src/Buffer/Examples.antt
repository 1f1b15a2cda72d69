-- ===== src/Buffer/Examples.antt =====
-- The buffer of test/buffer_test.cpp on small inputs, and the theorems at such inputs.
use caimr.Prelude.{◌+◌, ◌-◌, ◌≤◌, ◌≡◌, refl, arith, List, [], ◌∷◌, length}
use caimr.Buffer.{
  Buffer, extra_size, append, readable_bytes, writable_bytes, prependable_bytes, read_fd, received,
  moved,
}
use caimr.Buffer.Content.{IsValid, content, counts_lem}
use caimr.Buffer.Io.{read_fd_lem, read_capacity_bounds}
use caimr.Buffer.Queue.{
  Call, appends, ensures, retrieves, takes_string, takes_all, run, run_queue, run_refines,
}

-- "hello", of which "he" has been read, in a storage of 16 bytes.
abbrev hello : Buffer
hello = record {
  buf = 0 ∷ 0 ∷ 0 ∷ 0 ∷ 0 ∷ 0 ∷ 0 ∷ 0 ∷ 104 ∷ 101 ∷ 108 ∷ 108 ∷ 111 ∷ 0 ∷ 0 ∷ 0 ∷ [];
  reader_index = 10;
  writer_index = 13;
}

hello-IsValid : IsValid hello
hello-IsValid = omega arith

-- `append` slides the content to the front when that makes room, and grows the storage otherwise.
append_slides : append hello (1 ∷ 2 ∷ 3 ∷ 4 ∷ []) ≡ record {
  buf = 0 ∷ 0 ∷ 0 ∷ 0 ∷ 0 ∷ 0 ∷ 0 ∷ 0 ∷ 108 ∷ 108 ∷ 111 ∷ 1 ∷ 2 ∷ 3 ∷ 4 ∷ 0 ∷ [];
  reader_index = 8;
  writer_index = 15;
}
unfolding append
append_slides = refl

append_grows : (append hello (1 ∷ 2 ∷ 3 ∷ 4 ∷ 5 ∷ 6 ∷ [])).writer_index ≡ 19
unfolding append
append_grows = refl

read_spills :
    read_fd hello (received (1 ∷ 2 ∷ 3 ∷ 4 ∷ 5 ∷ []))
    ≡ (append hello (1 ∷ 2 ∷ 3 ∷ 4 ∷ 5 ∷ []), moved 5)
unfolding read_fd append
read_spills = refl

abbrev calls : List Call
calls = appends (1 ∷ 2 ∷ []) ∷ takes_string 4 ∷ ensures 20 ∷ retrieves 9 ∷ takes_all ∷ []

run_refines_example :
    ((run hello calls).0 ≡ (run_queue (108 ∷ 108 ∷ 111 ∷ []) calls).0)
    × (content (run hello calls).1 ≡ (run_queue (108 ∷ 108 ∷ 111 ∷ []) calls).1)
    × IsValid (run hello calls).1
run_refines_example = run_refines calls hello-IsValid (omega arith) (omega arith)

counts_lem_example :
    (readable_bytes hello ≡ 3)
    × (readable_bytes hello ≡ 13 - 10)
    × (writable_bytes hello ≡ 16 - 13)
    × (prependable_bytes hello + readable_bytes hello + writable_bytes hello ≡ 16)
counts_lem_example = counts_lem hello hello-IsValid

read_fd_lem_example :
    let (b, n) = read_fd hello (received (1 ∷ 2 ∷ 3 ∷ 4 ∷ 5 ∷ [])) in
    IsValid b
    × (content b ≡ 108 ∷ 108 ∷ 111 ∷ 1 ∷ 2 ∷ 3 ∷ 4 ∷ 5 ∷ [])
    × (n ≡ moved 5)
    × (length b.buf ≤ 16 + extra_size)
read_fd_lem_example =
    read_fd_lem hello (1 ∷ 2 ∷ 3 ∷ 4 ∷ 5 ∷ []) hello-IsValid (omega arith)
      (omega (arith, (read_capacity_bounds hello hello-IsValid).0))
