-- ===== src/Runs/World.antt =====
-- The C library on a world that is one file: what was written to it, or what is left to be read.
use cwpack.Prelude.{
  ℕ, zero, suc, ◌*◌, ◌≤◌, ◌≡◌, refl, sym, ap, ◌∙◌, none, some, List, [], ◌∷◌, ◌++◌, length,
  length-take, length-drop, take, drop, take-append-drop, ◌==◌, arith, min,
}
use cwpack.Prelude.Int.{pos}
use cwpack.ReturnCode.{rc_ok}
use cwpack.Contexts.Memory.{Heap, Allocates, Reallocates, LeavesAlone}
use cwpack.Contexts.Stdio.{Stdio, Writes, Reads}
use cwpack.Contexts.MemorySink.{take-take}
use cwpack.Contexts.Unix.{CopiesOverlaps, Unix, WritesAll, ReadsFront}
use cwpack.Contexts.Refill.{RunsOut}
use cwpack.Contexts.FileReading.{Fails}

-- A heap that gives zeros.
abbrev pub pad : ℕ → List ℕ → List ℕ
pad zero old = []
pad (suc n) [] = 0 ∷ pad n []
pad (suc n) (x ∷ old) = x ∷ pad n old

length-pad : (n : ℕ) (old : List ℕ) → length (pad n old) ≡ n
length-pad zero old = refl
length-pad (suc n) [] = omega (arith, length-pad n [])
length-pad (suc n) (x ∷ old) = omega (arith, length-pad n old)

take-pad : (n : ℕ) (old : List ℕ) → length old ≤ n → take (length old) (pad n old) ≡ old
unfolding take
take-pad n [] h = refl
take-pad zero (x ∷ old) h = absurd (omega arith)
take-pad (suc n) (x ∷ old) h = ap (λ t. x ∷ t) (take-pad n old (omega arith))

abbrev pub zeros : {V : Type 0} → Heap V
zeros = record {
  malloc = λ n w. (some (pad n []), w);
  realloc = λ old n w. (some (pad n old), w);
  free = λ block w. w;
}

some_injective : (a b : List ℕ) → some a ≡ some b → a ≡ b
some_injective a b e = cc

pub zeros-Reallocates : {V : Type 0} → Reallocates (zeros {V = V})
zeros-Reallocates = record {
  block_length = λ old new n w e.
      ap (λ l. length l) (sym (some_injective (pad n old) new e)) ∙ length-pad n old;
  kept = λ old new n w e longer.
      ap (take (length old)) (sym (some_injective (pad n old) new e)) ∙ take-pad n old longer;
}

pub zeros-Allocates : {V : Type 0} → Allocates (zeros {V = V})
zeros-Allocates = record {
  malloc_length =
      λ new n w e. ap (λ l. length l) (sym (some_injective (pad n []) new e)) ∙ length-pad n [];
}

pub zeros-LeavesAlone : {V X : Type 0} (view : V → X) → LeavesAlone zeros view
zeros-LeavesAlone view = record {
  malloc_apart = λ n w. refl;
  realloc_apart = λ old n w. refl;
  free_apart = λ block w. refl;
}

pub zeros-never : {V : Type 0} → RunsOut (zeros {V = V}) → ⊥
zeros-never (old, n, v, e) = cc

-- The file does not depend on the address or the number that it is known by.
abbrev pub whole : {F : Type 0} → F → List ℕ → List ℕ
whole f v = v

abbrev pub one_stream : Stdio (List ℕ)
one_stream = record {
  fwrite = λ ptr size nitems file v. (nitems, v ++ take (size * nitems) ptr);
  fread = λ size nitems file v. (take (size * nitems) v, drop (size * nitems) v);
  feof = λ file v. length v == 0;
  ferror = λ file v. rc_ok;
}

pub one_stream-Writes : Writes one_stream whole
one_stream-Writes = record { appends = λ ptr size nitems file v fits all. refl }

pub one_stream-Reads : Reads one_stream whole
one_stream-Reads = record {
  takes = λ n file v. take-append-drop (1 * n) v;
  count = λ n file v. length-take (1 * n) v ∙ ap (λ m. min m (length v)) (single n);
  at_end = λ n file v short. ground (arith, length-take (1 * n) v, length-drop (1 * n) v);
}
  where
    single : (n : ℕ) → 1 * n ≡ n
    single n = omega arith

abbrev pub one_file : Unix (List ℕ)
one_file = record {
  write = λ fd buf n v. (pos n, v ++ take n buf);
  read = λ fd n v. (some (take n v), drop n v);
  errno = λ v. rc_ok;
  overlapping = λ block from n. take n (drop from block);
}

pub one_file-WritesAll : WritesAll one_file whole
one_file-WritesAll = record { appends = λ buf n fd v fits all. refl }

pub one_file-ReadsFront : ReadsFront one_file whole
one_file-ReadsFront = record {
  takes = λ n fd v bs e.
      ap (λ l. l ++ drop n v) (sym (some_injective (take n v) bs e)) ∙ take-append-drop n v;
  at_most = λ n fd v bs e.
      let l = ap (λ l. length l) (some_injective (take n v) bs e) in
      omega (arith, l, length-take n v);
  at_end = λ n fd v e one.
      let l = ap (λ l. length l) (some_injective (take n v) [] e) in
      nothing v (omega (arith, l, length-take n v, one));
  failed = λ n fd v e. absurd (not_none (take n v) e);
}
  where
    nothing : (v : List ℕ) → length v ≤ 0 → v ≡ []
    nothing [] h = refl
    nothing (x ∷ v) h = absurd (omega arith)

    not_none : (bs : List ℕ) → some bs ≡ none → ⊥
    not_none bs e = cc

pub one_file-CopiesOverlaps : CopiesOverlaps one_file
one_file-CopiesOverlaps = record {
  copies = λ block from n within. take-take n n (drop from block) (omega arith);
}

pub one_file-delivers : Fails one_file → ⊥
one_file-delivers (fd, n, v, e) = cc
