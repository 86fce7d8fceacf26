-- ===== src/Prelude/Order.antt =====
-- Dictionaries up to the order of their entries.
use mathlib.Core.Path.{◌≡◌, refl}
use mathlib.Core.Bool.{Bool, true, false}
use mathlib.Core.List.{[], ◌∷◌}
use native.Mathlib.Omega.{arith}
use kuksa_val_services.Prelude.Tests.{if◌then◌else◌}
use kuksa_val_services.Prelude.Dict.{
  Dict, Eq, lookup, insert, insert_new, insert_all, insert_new_all, or_else, lookup-insert,
  lookup-insert_new, lookup-insert_new_all, lookup-insert_all_absent, HasDistinctKeys,
}

-- Two related branches, under tests that agree.
pub if_related {ℓ κ} :
    {A : Type ℓ} (R : A → A → Type κ) (b c : Bool) (x y x' y' : A)
    → b ≡ c
    → R x x'
    → R y y'
    → R (if b then x else y) (if c then x' else y')
if_related R true true x y x' y' e r s = r
if_related R false false x y x' y' e r s = s
if_related R true false x y x' y' e r s = absurd (cc e)
if_related R false true x y x' y' e r s = absurd (cc e)

module _ {K V : Type 0} ⦃e : Eq K⦄ where
  -- The same value for every key.
  abbrev pub SameEntries : Dict K V → Dict K V → Type 0
  SameEntries m n = (k : K) → lookup k m ≡ lookup k n

  -- Where each key to insert stands once, the order of insertion does not matter.
  pub lookup-insert_all :
      (es m : Dict K V) (j : K)
      → HasDistinctKeys es
      → lookup j (insert_all es m) ≡ or_else (lookup j es) (lookup j m)
  unfolding lookup insert_all
  lookup-insert_all [] m j d = refl
  lookup-insert_all ((k, v) ∷ es) m j (n, d) = ground (
    arith,
    e.beq_iff k j,
    lookup-insert k j v m,
    lookup-insert_all_absent es (insert k v m) j,
    lookup-insert_all es (insert k v m) j d,
  )

  pub insert-SameEntries :
      (k : K) (v : V) (m n : Dict K V) → SameEntries m n → SameEntries (insert k v m) (insert k v n)
  insert-SameEntries k v m n s j = ground (arith, lookup-insert k j v m, lookup-insert k j v n, s j)

  pub insert_new-SameEntries :
      (k : K) (v : V) (m n : Dict K V)
      → SameEntries m n
      → SameEntries (insert_new k v m) (insert_new k v n)
  insert_new-SameEntries k v m n s j =
      ground (arith, lookup-insert_new k j v m, lookup-insert_new k j v n, s j)

  pub insert_all-SameEntries :
      (es fs m n : Dict K V)
      → HasDistinctKeys es
      → HasDistinctKeys fs
      → SameEntries es fs
      → SameEntries m n
      → SameEntries (insert_all es m) (insert_all fs n)
  insert_all-SameEntries es fs m n d c r s j =
      ground (arith, lookup-insert_all es m j d, lookup-insert_all fs n j c, r j, s j)

  pub insert_new_all-SameEntries :
      (es fs m n : Dict K V)
      → SameEntries es fs
      → SameEntries m n
      → SameEntries (insert_new_all es m) (insert_new_all fs n)
  insert_new_all-SameEntries es fs m n r s j =
      ground (arith, lookup-insert_new_all es m j, lookup-insert_new_all fs n j, r j, s j)
