-- ===== src/Contexts/Barrier.antt =====
-- The barriers of goodies/basic-contexts/basic_contexts.c: offsets from `start`, and `none` for NULL.
use cwpack.Prelude.{ℕ, ◌-◌, ◌≤◌, ◌≡◌, refl, Option, none, some, arith}

-- `bStart`: the barrier, or else `current`.
abbrev pub barrier_or : Option ℕ → ℕ → ℕ
barrier_or none current = current
barrier_or (some p) current = p

-- `if (barrier) barrier = start;`
abbrev pub to_start : Option ℕ → Option ℕ
to_start none = none
to_start (some p) = some 0

-- The barrier does not stand behind `current`.
abbrev pub BarrierWithin : Option ℕ → ℕ → Type 0
BarrierWithin none current = Unit {0}
BarrierWithin (some p) current = p ≤ current

pub barrier_or-le : (o : Option ℕ) (n : ℕ) → BarrierWithin o n → barrier_or o n ≤ n
barrier_or-le none n h = omega arith
barrier_or-le (some p) n h = h

-- What stands behind the barrier is moved to the start.
pub barrier_or-to_start :
    (o : Option ℕ) (current : ℕ) → barrier_or (to_start o) (current - barrier_or o current) ≡ 0
barrier_or-to_start none current = omega arith
barrier_or-to_start (some p) current = refl

pub to_start-BarrierWithin : (o : Option ℕ) (n : ℕ) → BarrierWithin (to_start o) n
to_start-BarrierWithin none n = tt
to_start-BarrierWithin (some p) n = omega arith

pub BarrierWithin-later : (o : Option ℕ) (p q : ℕ) → p ≤ q → BarrierWithin o p → BarrierWithin o q
BarrierWithin-later none p q le h = tt
BarrierWithin-later (some b) p q le h = omega arith

-- A handler is set.
abbrev pub HasHandler : Option ℕ → Type 0
HasHandler none = ⊥
HasHandler (some f) = Unit {0}
