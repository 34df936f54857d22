-- ===== src/Base/Circular.antt =====
-- Circular buffers: the characters from an index on, going round at the end of the buffer.
use Prim.Native.Nat.{ℕ, ◌+◌, ◌-◌, ◌<◌}
use mathlib.Core.Path.{◌≡◌, ◌∙◌}
use mathlib.Core.List.{List, [], ◌∷◌, ◌++◌}
use native.Mathlib.Omega.{arith}
use os_team.Base.Tests.{ltb, leb, if◌then◌else◌}
use os_team.Base.Lists.{length}
use os_team.Base.Chain.{update}

-- A pointer that was just incremented, wrapped around.
abbrev pub wrap_at : (size i : ℕ) → ℕ
wrap_at size i = if leb size i then 0 else i

-- The index `n` cells behind `i`.
abbrev pub around : (size i n : ℕ) → ℕ
around size i n = if ltb (i + n) size then i + n else i + n - size

abbrev pub Round : (size : ℕ) → (ℕ → ℕ) → ℕ → List ℕ → Type 0
Round size m i [] = Unit
Round size m i (c ∷ cs) = (m i ≡ c) × Round size m (wrap_at size (i + 1)) cs

pub Round-snoc :
    (size : ℕ) (m : ℕ → ℕ) (i j c : ℕ) (cs : List ℕ)
    → i < size
    → length cs < size
    → j ≡ around size i (length cs)
    → Round size m i cs
    → Round size (update m j c) i (cs ++ c ∷ [])
Round-snoc size m i j c [] low few at h = (ground arith, tt)
Round-snoc size m i j c (x ∷ cs) low few at h = (
  ground (arith, h.0),
  Round-snoc size m (wrap_at size (i + 1)) j c cs (ground arith) (omega arith) (at ∙ ground arith)
      h.1,
)
