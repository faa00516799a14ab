-- ===== src/Prelude/Io.antt =====
-- What a call of the operating system gives the caller, as a value.

-- The outcome of `recv` or `read`: -1, 0, or what was read.
pub data Recv (A : Type 0) : Type 0 where
  failed : Recv A
  closed : Recv A
  received : A → Recv A
