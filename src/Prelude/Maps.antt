-- ===== src/Prelude/Maps.antt =====
-- Go's `map[K]V` as an association list. The order of the entries is not the order in which Go's
-- `range` visits them: a loop over a map takes that order as an argument.
use Prim.Native.Nat.{ℕ}
use Prim.Native.String.{String}
use mathlib.Core.Path.{◌≡◌, refl}
use mathlib.Core.Logic.{◌↔◌, ◌≢◌}
use mathlib.Core.Bool.{Bool, true, false, ◌&&◌}
use mathlib.Core.Option.{Option, none, some}
use mathlib.Core.List.{List, [], ◌∷◌, map}
use native.Mathlib.Omega.{arith}
use text.Mathlib.Text.{◌==◌ as str_eq}
use text.Mathlib.TextEquality.{eq_iff}
use mcp_xlsm_server.Prelude.Tests.{◌==◌, if◌then◌else◌}

-- A key type with a Boolean equality.
pub record Eq {ℓ} (A : Type ℓ) : Type ℓ where
  pub beq : A → A → Bool
  pub beq_iff : (a b : A) → (beq a b ≡ true) ↔ (a ≡ b)

instance abbrev pub string_eq : Eq String
string_eq = record { beq = str_eq; beq_iff = eq_iff }

abbrev pub Dict {ℓ κ} : Type ℓ → Type κ → Type (ℓ ⊔ κ)
Dict K V = List (K × V)

module _ {ℓ κ} {K : Type ℓ} {V : Type κ} where
  abbrev pub keys : Dict K V → List K
  keys = map (λ e. e.0)

module _ {ℓ} {K : Type ℓ} ⦃e : Eq K⦄ where
  pub beq_self : (k : K) → e.beq k k ≡ true
  beq_self k = (e.beq_iff k k).1 refl

  pub beq_ne : (j k : K) → j ≢ k → e.beq j k ≡ false
  beq_ne j k h = ground (arith, e.beq_iff j k)

module _ {ℓ κ} {K : Type ℓ} {V : Type κ} ⦃e : Eq K⦄ where
  -- m[k]
  unfoldable pub lookup : K → Dict K V → Option V
  lookup k [] = none
  lookup k ((j, v) ∷ m) = if e.beq j k then some v else lookup k m

  -- m[k] = v
  unfoldable pub store : K → V → Dict K V → Dict K V
  store k v [] = (k, v) ∷ []
  store k v ((j, w) ∷ m) = if e.beq j k then (k, v) ∷ m else (j, w) ∷ store k v m

  -- delete(m, k)
  unfoldable pub delete : K → Dict K V → Dict K V
  delete k [] = []
  delete k ((j, v) ∷ m) = let rest = delete k m in if e.beq j k then rest else (j, v) ∷ rest

  -- No key stands twice.
  abbrev pub Unique : Dict K V → Type κ
  Unique [] = Unit
  Unique ((k, v) ∷ m) = (lookup k m ≡ none) × Unique m

  pub lookup-store :
      (k j : K) (v : V) (m : Dict K V)
      → lookup j (store k v m) ≡ (if e.beq k j then some v else lookup j m)
  unfolding lookup store
  lookup-store k j v [] = refl
  lookup-store k j v ((i, w) ∷ m) =
      ground (arith, e.beq_iff k j, e.beq_iff i k, e.beq_iff i j, lookup-store k j v m)

  pub lookup-store_self : (k : K) (v w : V) (m : Dict K V) → v ≡ w → lookup k (store k v m) ≡ some w
  lookup-store_self k v w m same = rw (lookup-store, beq_self k, same)

  pub lookup-delete :
      (k j : K) (m : Dict K V) → lookup j (delete k m) ≡ (if e.beq k j then none else lookup j m)
  unfolding lookup delete
  lookup-delete k j [] = ground arith
  lookup-delete k j ((i, w) ∷ m) =
      ground (arith, e.beq_iff k j, e.beq_iff i k, e.beq_iff i j, lookup-delete k j m)

  pub store-Unique : (k : K) (v : V) (m : Dict K V) → Unique m → Unique (store k v m)
  unfolding lookup store
  store-Unique k v [] u = (refl, tt)
  store-Unique k v ((i, w) ∷ m) u =
      ground (arith, e.beq_iff i k, e.beq_iff k i, lookup-store k i v m, store-Unique k v m)

  pub delete-Unique : (k : K) (m : Dict K V) → Unique m → Unique (delete k m)
  unfolding lookup delete
  delete-Unique k [] u = tt
  delete-Unique k ((i, w) ∷ m) u =
      ground (arith, e.beq_iff i k, lookup-delete k i m, delete-Unique k m)

  pub delete_absent : (k : K) (m : Dict K V) → lookup k m ≡ none → delete k m ≡ m
  unfolding lookup delete
  delete_absent k [] h = refl
  delete_absent k ((i, w) ∷ m) h = ground (arith, delete_absent k m)

-- Texts as lists of numbers.
abbrev pub nats_beq : List ℕ → List ℕ → Bool
nats_beq [] [] = true
nats_beq (a ∷ s) (b ∷ t) = a == b && nats_beq s t
nats_beq _ _ = false

pub nats_beq_iff : (s t : List ℕ) → (nats_beq s t ≡ true) ↔ (s ≡ t)
nats_beq_iff [] [] = ground arith
nats_beq_iff [] (b ∷ t) = ground arith
nats_beq_iff (a ∷ s) [] = ground arith
nats_beq_iff (a ∷ s) (b ∷ t) = ground (arith, nats_beq_iff s t)

instance abbrev pub nats_eq : Eq (List ℕ)
nats_eq = record { beq = nats_beq; beq_iff = nats_beq_iff }
