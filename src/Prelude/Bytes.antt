-- ===== src/Prelude/Bytes.antt =====
-- The buffers that a read fills.
use Prim.Native.Nat.{ℕ, ◌-◌}
use mathlib.Core.Path.{◌≡◌}
use mathlib.Core.List.{List, ◌++◌}
use elgate.Prelude.Lists.{length, take, replicate, take-length-append}

-- The buffer of `size` zeros after a read of `bytes`, up to their number.
abbrev pub truncated : ℕ → List ℕ → List ℕ
truncated size bytes = take (length bytes) (bytes ++ replicate (size - length bytes) 0)

pub truncated_all : (size : ℕ) (bytes : List ℕ) → truncated size bytes ≡ bytes
truncated_all size bytes = take-length-append bytes (replicate (size - length bytes) 0)
