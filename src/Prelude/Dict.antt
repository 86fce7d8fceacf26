-- ===== src/Prelude/Dict.antt =====
-- Dictionaries as association lists, over keys with a Boolean equality: std::map, std::unordered_map
-- and the maps of protobuf messages. No order of iteration is promised to a client.
use Prim.Native.String.{String}
use mathlib.Core.Path.{◌≡◌, refl}
use mathlib.Core.Logic.{◌↔◌}
use mathlib.Core.Bool.{Bool, true}
use mathlib.Core.Option.{Option, none, some}
use mathlib.Core.List.{List, [], ◌∷◌}
use Prim.Native.Nat.{ℕ}
use native.Mathlib.Omega.{arith}
use text.Mathlib.Text.{◌==◌ as text_beq}
use text.Mathlib.TextEquality.{eq_iff}
use kuksa_val_services.Prelude.Tests.{◌==◌ as nat_beq, ==_iff, if◌then◌else◌}

pub record Eq (A : Type 0) : Type 0 where
  pub beq : A → A → Bool
  pub beq_iff : (a b : A) → (beq a b ≡ true) ↔ (a ≡ b)

instance abbrev pub ℕ_eq : Eq ℕ
ℕ_eq = record { beq = nat_beq; beq_iff = ==_iff }

instance abbrev pub String_eq : Eq String
String_eq = record { beq = text_beq; beq_iff = eq_iff }

abbrev pub Dict : Type 0 → Type 0 → Type 0
Dict K V = List (K × V)

-- The value of a key, `other` where there is none.
abbrev pub or_else {ℓ} : {A : Type ℓ} → Option A → Option A → Option A
or_else none other = other
or_else (some a) other = some a

module _ {K V : Type 0} ⦃e : Eq K⦄ where
  unfoldable pub lookup : K → Dict K V → Option V
  lookup k [] = none
  lookup k ((j, v) ∷ m) = if e.beq j k then some v else lookup k m

  -- m[k] = v
  unfoldable pub insert : K → V → Dict K V → Dict K V
  insert k v [] = (k, v) ∷ []
  insert k v ((j, w) ∷ m) = if e.beq j k then (j, v) ∷ m else (j, w) ∷ insert k v m

  -- m.insert({k, v}): a key that is there keeps its value.
  unfoldable pub insert_new : K → V → Dict K V → Dict K V
  insert_new k v [] = (k, v) ∷ []
  insert_new k v ((j, w) ∷ m) = if e.beq j k then (j, w) ∷ m else (j, w) ∷ insert_new k v m

  -- Entry by entry, in the order of the first dictionary.
  unfoldable pub insert_all : Dict K V → Dict K V → Dict K V
  insert_all [] m = m
  insert_all ((k, v) ∷ es) m = insert_all es (insert k v m)

  unfoldable pub insert_new_all : Dict K V → Dict K V → Dict K V
  insert_new_all [] m = m
  insert_new_all ((k, v) ∷ es) m = insert_new_all es (insert_new k v m)

  pub lookup-insert :
      (k j : K) (v : V) (m : Dict K V)
      → lookup j (insert k v m) ≡ (if e.beq k j then some v else lookup j m)
  unfolding lookup insert
  lookup-insert k j v [] = refl
  lookup-insert k j v ((i, w) ∷ m) =
      ground (arith, e.beq_iff k j, e.beq_iff i k, e.beq_iff i j, lookup-insert k j v m)

  pub lookup-insert_new :
      (k j : K) (v : V) (m : Dict K V)
      → lookup j (insert_new k v m) ≡ or_else (lookup j m) (if e.beq k j then some v else none)
  unfolding lookup insert_new
  lookup-insert_new k j v [] = refl
  lookup-insert_new k j v ((i, w) ∷ m) =
      ground (arith, e.beq_iff k j, e.beq_iff i k, e.beq_iff i j, lookup-insert_new k j v m)

  -- Inserting what is not there yet: the values that were there take precedence.
  pub lookup-insert_new_all :
      (es m : Dict K V) (j : K)
      → lookup j (insert_new_all es m) ≡ or_else (lookup j m) (lookup j es)
  unfolding lookup insert_new_all
  lookup-insert_new_all [] m j = ground arith
  lookup-insert_new_all ((k, v) ∷ es) m j =
      ground (arith, lookup-insert_new k j v m, lookup-insert_new_all es (insert_new k v m) j)

  -- Inserting entries none of which has the key.
  pub lookup-insert_all_absent :
      (es m : Dict K V) (j : K) → lookup j es ≡ none → lookup j (insert_all es m) ≡ lookup j m
  unfolding lookup insert_all
  lookup-insert_all_absent [] m j h = refl
  lookup-insert_all_absent ((k, v) ∷ es) m j h =
      ground (arith, lookup-insert k j v m, lookup-insert_all_absent es (insert k v m) j)

  -- Each key stands there once.
  abbrev pub HasDistinctKeys : Dict K V → Type 0
  HasDistinctKeys [] = Unit
  HasDistinctKeys ((k, v) ∷ m) = (lookup k m ≡ none) × HasDistinctKeys m

  pub insert-HasDistinctKeys :
      (k : K) (v : V) (m : Dict K V) → HasDistinctKeys m → HasDistinctKeys (insert k v m)
  unfolding insert
  insert-HasDistinctKeys k v [] d = (unfold lookup in refl, tt)
  insert-HasDistinctKeys k v ((j, w) ∷ m) (n, d) =
      ground
        (arith, e.beq_iff j k, e.beq_iff k j, lookup-insert k j v m, insert-HasDistinctKeys k v m d)

  pub insert_new-HasDistinctKeys :
      (k : K) (v : V) (m : Dict K V) → HasDistinctKeys m → HasDistinctKeys (insert_new k v m)
  unfolding insert_new
  insert_new-HasDistinctKeys k v [] d = (unfold lookup in refl, tt)
  insert_new-HasDistinctKeys k v ((j, w) ∷ m) (n, d) = ground (
    arith,
    e.beq_iff j k,
    e.beq_iff k j,
    lookup-insert_new k j v m,
    insert_new-HasDistinctKeys k v m d,
  )

  pub insert_all-HasDistinctKeys :
      (es m : Dict K V) → HasDistinctKeys m → HasDistinctKeys (insert_all es m)
  unfolding insert_all
  insert_all-HasDistinctKeys [] m d = d
  insert_all-HasDistinctKeys ((k, v) ∷ es) m d =
      insert_all-HasDistinctKeys es (insert k v m) (insert-HasDistinctKeys k v m d)

  pub insert_new_all-HasDistinctKeys :
      (es m : Dict K V) → HasDistinctKeys m → HasDistinctKeys (insert_new_all es m)
  unfolding insert_new_all
  insert_new_all-HasDistinctKeys [] m d = d
  insert_new_all-HasDistinctKeys ((k, v) ∷ es) m d =
      insert_new_all-HasDistinctKeys es (insert_new k v m) (insert_new-HasDistinctKeys k v m d)
