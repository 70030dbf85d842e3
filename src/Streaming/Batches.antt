-- ===== src/Streaming/Batches.antt =====
-- A list cut into batches.
use mcp_xlsm_server.Prelude.{ℕ, ◌+◌, ◌≡◌, ◌<◌, ◌≤◌, List, [], ◌∷◌, ◌++◌, length}

-- The batches, each with the index of its first element, hold the elements from index `i` on in
-- order; none is empty and none has more than `size` elements.
abbrev pub IsBatched {ℓ} : {A : Type ℓ} → ℕ → ℕ → List A → List (ℕ × List A) → Type ℓ
IsBatched {A} size i xs [] = xs ≡ []
IsBatched {A} size i xs ((first, batch) ∷ batches) =
    (first ≡ i)
    × (0 < length batch)
    × (length batch ≤ size)
    × (rest : List A) × (xs ≡ batch ++ rest)
    × IsBatched size (i + length batch) rest batches
