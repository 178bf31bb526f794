-- ===== src/Buffer/Tests.antt =====
-- Buffers on concrete inputs.
use notbit.Common.{◌≡◌, arith, [], ◌∷◌, some}
use notbit.Buffer.{Buffer, ensure_size}
use notbit.Buffer.Append.{IsValid, Holds, ensure_size-Holds}

-- Two bytes in a buffer with room for two.
abbrev two : Buffer
two = record { contents = 1 ∷ (2 ∷ []); size = 2 }

two-IsValid : IsValid two
two-IsValid = record { held = omega arith; fits = omega arith }

ensure_size-Holds_example :
    (b : Buffer) × (ensure_size two 100 ≡ some b) × Holds two 100 (1 ∷ (2 ∷ [])) b
ensure_size-Holds_example = ensure_size-Holds two 100 two-IsValid (omega arith)
