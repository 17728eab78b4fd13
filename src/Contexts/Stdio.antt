-- ===== src/Contexts/Stdio.antt =====
-- The streams of the C library, as far as goodies/basic-contexts/basic_contexts.c uses them.
use cwpack.Prelude.{ℕ, ◌*◌, ◌≤◌, ◌<◌, ◌≡◌, Bool, true, List, ◌++◌, length, take, min}
use cwpack.Prelude.Int.{ℤ}

-- A `FILE *` is an address. `fwrite ptr size nitems` gives the number of items that it wrote, and
-- `fread size nitems` the bytes that it stored.
pub record Stdio (V : Type 0) : Type 0 where
  pub fwrite : List ℕ → ℕ → ℕ → ℕ → V → ℕ × V
  pub fread : ℕ → ℕ → ℕ → V → List ℕ × V
  pub feof : ℕ → V → Bool
  pub ferror : ℕ → V → ℤ

-- A call that wrote all of its items appended them to what was written to the stream before.
pub record Writes {V : Type 0} (stdio : Stdio V) (written : ℕ → V → List ℕ) : Type 0 where
  pub appends :
      (ptr : List ℕ) (size nitems file : ℕ) (v : V)
      → size * nitems ≤ length ptr
      → (stdio.fwrite ptr size nitems file v).0 ≡ nitems
      → written file (stdio.fwrite ptr size nitems file v).1
        ≡ written file v ++ take (size * nitems) ptr

-- A stream that is read without an error: fewer bytes than asked for only at its end, which feof then
-- tells.
pub record Reads {V : Type 0} (stdio : Stdio V) (unread : ℕ → V → List ℕ) : Type 0 where
  pub takes :
      (n file : ℕ) (v : V)
      → (stdio.fread 1 n file v).0 ++ unread file (stdio.fread 1 n file v).1 ≡ unread file v
  pub count :
      (n file : ℕ) (v : V) → length (stdio.fread 1 n file v).0 ≡ min n (length (unread file v))
  pub at_end :
      (n file : ℕ) (v : V)
      → length (stdio.fread 1 n file v).0 < n
      → stdio.feof file (stdio.fread 1 n file v).1 ≡ true
