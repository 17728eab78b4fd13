-- ===== src/Contexts/FileReading.antt =====
-- The loop over read in handle_file_unpack_underflow.
use cwpack.Prelude.{
  ℕ, zero, suc, ◌+◌, ◌-◌, ◌≤◌, ◌<◌, ◌≡◌, refl, ap, ◌∙◌, ◌⊎◌, inl, inr, false, Option, none, some,
  List, [], ◌∷◌, ◌++◌, append_assoc, length, length-append, ltb, Bool-cases, arith,
}
use cwpack.Prelude.Int.{ℤ}
use cwpack.ReturnCode.{rc_ok, rc_end_of_input, rc_error_in_handler}
use cwpack.Contexts.Memory.{Heap}
use cwpack.Contexts.Unix.{Unix, ReadsFront}
use cwpack.Contexts.FileUnpack.{UnpackFile, FileUnpackContext, read_more}

-- A call of read fails.
abbrev pub Fails : {V : Type 0} → Unix V → Type 0
Fails {V} unix = (fd : ℤ) × (n : ℕ) × (v : V) × ((unix.read fd n v).0 ≡ none)

module _ {V : Type 0} (heap : Heap V) (unix : Unix V) (unread : ℤ → V → List ℕ) where
  -- What the file has still to give.
  abbrev pub from_file : UnpackFile V → List ℕ
  from_file w = unread w.file_descriptor w.world

  -- Bytes have moved from the file to the end of the buffer.
  pub record Progress (uc uc' : FileUnpackContext V) : Type 0 where
    pub item : uc'.item ≡ uc.item
    pub return_code : uc'.return_code ≡ uc.return_code
    pub handler : uc'.handle_unpack_underflow ≡ uc.handle_unpack_underflow
    pub current : uc'.current ≡ uc.current
    pub outer : uc'.outer ≡ record uc.outer { world = uc'.outer.world }
    pub longer : length uc.buffer ≤ length uc'.buffer
    pub bound : length uc'.buffer ≤ uc.outer.buffer_length
    pub whole : uc'.buffer ++ from_file uc'.outer ≡ uc.buffer ++ from_file uc.outer

  -- `more` bytes are there, or the file is at its end and they are not, or a call of read has failed.
  abbrev pub Result : ℕ → ℤ → FileUnpackContext V → Type 0
  Result more rc uc =
      ((rc ≡ rc_ok) × (uc.current + more ≤ length uc.buffer))
      ⊎ (((rc ≡ rc_end_of_input)
            × (from_file uc.outer ≡ [])
            × (length uc.buffer < uc.current + more))
          ⊎ ((rc ≡ rc_error_in_handler) × Fails unix))

  abbrev pub Loops : ℕ → FileUnpackContext V → Option (ℤ × FileUnpackContext V) → Type 0
  Loops more uc none = ⊥
  Loops more uc (some (rc, uc')) = Progress uc uc' × Result more rc uc'

  Progress-trans :
      {uc uc' uc'' : FileUnpackContext V} → Progress uc uc' → Progress uc' uc'' → Progress uc uc''
  Progress-trans {uc} {uc'} {uc''} a b = record {
    item = b.item ∙ a.item;
    return_code = b.return_code ∙ a.return_code;
    handler = b.handler ∙ a.handler;
    current = b.current ∙ a.current;
    outer = b.outer ∙ ap (λ (o : UnpackFile V). record o { world = uc''.outer.world }) a.outer;
    longer = omega (arith, a.longer, b.longer);
    bound =
        let same = ap (λ (o : UnpackFile V). o.buffer_length) a.outer in
        omega (arith, b.bound, same);
    whole = b.whole ∙ a.whole;
  }

  Loops-later :
      (more : ℕ) (uc uc' : FileUnpackContext V) (r : Option (ℤ × FileUnpackContext V))
      → Progress uc uc'
      → Loops more uc' r
      → Loops more uc r
  Loops-later more uc uc' none p l = l
  Loops-later more uc uc' (some (rc, uc'')) p (q, result) = (Progress-trans p q, result)

  module _ (reads : ReadsFront unix unread) where
    abbrev got : FileUnpackContext V → Option (List ℕ) × V
    got uc =
        unix.read uc.outer.file_descriptor (uc.outer.buffer_length - length uc.buffer)
          uc.outer.world

    -- The context behind a call of read that stored `bytes`.
    abbrev stored : FileUnpackContext V → List ℕ → ℤ → FileUnpackContext V
    stored uc bytes e = record uc {
      buffer = bytes;
      err_no = e;
      outer = record uc.outer { world = (got uc).1 };
    }

    still : (uc : FileUnpackContext V) → length uc.buffer ≤ uc.outer.buffer_length → Progress uc uc
    still uc fits = record {
      item = refl;
      return_code = refl;
      handler = refl;
      current = refl;
      outer = refl;
      longer = omega arith;
      bound = fits;
      whole = refl;
    }

    read_on :
        (uc : FileUnpackContext V) (bytes : List ℕ) (e : ℤ)
        → length uc.buffer ≤ length bytes
        → length bytes ≤ uc.outer.buffer_length
        → bytes ++ unread uc.outer.file_descriptor (got uc).1 ≡ uc.buffer ++ from_file uc.outer
        → Progress uc (stored uc bytes e)
    read_on uc bytes e longer bound whole = record {
      item = refl;
      return_code = refl;
      handler = refl;
      current = refl;
      outer = refl;
      longer = longer;
      bound = bound;
      whole = whole;
    }

    read_round :
        (more : ℕ) (uc : FileUnpackContext V) (l : Option (List ℕ))
        → (got uc).0 ≡ l
        → uc.current ≤ length uc.buffer
        → length uc.buffer < uc.current + more
        → uc.current + more ≤ uc.outer.buffer_length
        → (rest : FileUnpackContext V → Option (ℤ × FileUnpackContext V))
        → ((x : ℕ) (bytes : List ℕ)
            → let uc' = stored uc (uc.buffer ++ (x ∷ bytes)) uc.err_no in
              l ≡ some (x ∷ bytes) → Progress uc uc' → Loops more uc' (rest uc'))
        → Loops more uc (elim l [
          | none ↦ some (rc_error_in_handler, stored uc uc.buffer (unix.errno (got uc).1))
          | some [] ↦ some (rc_end_of_input, stored uc uc.buffer uc.err_no)
          | some (x ∷ bytes) ↦ rest (stored uc (uc.buffer ++ (x ∷ bytes)) uc.err_no)
        ])
    read_round more uc none e within lacks place rest later =
        let n = uc.outer.buffer_length - length uc.buffer in
        let fd = uc.outer.file_descriptor in
        (
          read_on uc uc.buffer (unix.errno (got uc).1) (omega arith) (omega arith)
              (ap (λ l. uc.buffer ++ l) (reads.failed n fd uc.outer.world e)),
          inr (inr (refl, (fd, n, uc.outer.world, e))),
        )
    read_round more uc (some []) e within lacks place rest later =
        let n = uc.outer.buffer_length - length uc.buffer in
        let fd = uc.outer.file_descriptor in
        let front = reads.takes n fd uc.outer.world [] e in
        (
          read_on uc uc.buffer uc.err_no (omega arith) (omega arith)
              (ap (λ l. uc.buffer ++ l) front),
          inr (inl (refl, front ∙ reads.at_end n fd uc.outer.world e (omega arith), lacks)),
        )
    read_round more uc (some (x ∷ bytes)) e within lacks place rest later =
        let n = uc.outer.buffer_length - length uc.buffer in
        let fd = uc.outer.file_descriptor in
        let len = length-append uc.buffer (x ∷ bytes) in
        let p =
          read_on uc (uc.buffer ++ (x ∷ bytes)) uc.err_no (omega (arith, len))
            (omega (arith, len, reads.at_most n fd uc.outer.world (x ∷ bytes) e))
            (append_assoc uc.buffer (x ∷ bytes) (unread fd (got uc).1)
              ∙ ap (λ l. uc.buffer ++ l) (reads.takes n fd uc.outer.world (x ∷ bytes) e)) in
        Loops-later more uc _ _ p (later x bytes refl p)

    -- With as much fuel as bytes are lacking, the loop ends.
    pub read_more-Loops :
        (fuel more : ℕ) (uc : FileUnpackContext V)
        → uc.current + more ≤ length uc.buffer + fuel
        → uc.current ≤ length uc.buffer
        → uc.current + more ≤ uc.outer.buffer_length
        → length uc.buffer ≤ uc.outer.buffer_length
        → Loops more uc (read_more heap unix fuel more uc)
    unfolding read_more
    read_more-Loops zero more uc enough within place fits =
        let done : ltb (length uc.buffer - uc.current) more ≡ false = ground arith in
        rw done (still uc fits, inl (refl, omega arith))
    read_more-Loops (suc fuel) more uc enough within place fits =
        elim (Bool-cases (ltb (length uc.buffer - uc.current) more)) [
          | inr done ↦ rw (done, read_more) (still uc fits, inl (refl, ground arith))
          | inl lacks ↦
              rw (lacks, read_more)
                (read_round more uc (got uc).0 refl within (ground arith) place
                  (read_more heap unix fuel more)
                  (λ x bytes e p.
                    let len = length-append uc.buffer (x ∷ bytes) in
                    read_more-Loops fuel more (stored uc (uc.buffer ++ (x ∷ bytes)) uc.err_no)
                      (omega (arith, len)) (omega (arith, len)) place p.bound))
        ]
