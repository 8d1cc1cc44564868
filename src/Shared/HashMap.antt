-- ===== src/Shared/HashMap.antt =====
-- `std::collections::HashMap` with keys that are numbers, as an association list. The order of
-- the list is the iteration order of the map. `insert` on a known key keeps its place.
use Prim.Native.Nat.{ℕ}
use mathlib.Core.Path.{◌≡◌, refl, subst}
use mathlib.Core.Logic.{inl, inr}
use mathlib.Core.Bool.{Bool, true, false}
use mathlib.Core.List.{Memᴰ, List, [], ◌∷◌, map}
use mathlib.Core.Option.{Option, none, some}
use native.Mathlib.Omega.{arith}
use antarc.Shared.Tests.{◌==◌, if◌then◌else◌, ==_iff, Bool-cases}
use antarc.Shared.Lists.{All}

abbrev pub HashMap : Type 0 → Type 0
HashMap V = List (ℕ × V)

module _ {V : Type 0} where
  unfoldable pub get : ℕ → HashMap V → Option V
  get k [] = none
  get k ((j, v) ∷ m) = if j == k then some v else get k m

  unfoldable pub insert : ℕ → V → HashMap V → HashMap V
  insert k v [] = (k, v) ∷ []
  insert k v ((j, w) ∷ m) = if j == k then (k, v) ∷ m else (j, w) ∷ insert k v m

  unfoldable pub remove : ℕ → HashMap V → HashMap V
  remove k [] = []
  remove k ((j, w) ∷ m) = if j == k then remove k m else (j, w) ∷ remove k m

  abbrev pub is_some : Option V → Bool
  is_some none = false
  is_some (some v) = true

  abbrev pub contains_key : ℕ → HashMap V → Bool
  contains_key k m = is_some (get k m)

  abbrev pub values : HashMap V → List V
  values = map λ e. e.1

  abbrev pub is_empty : HashMap V → Bool
  is_empty [] = true
  is_empty (e ∷ m) = false

module _ {V : Type 0} where
  pub get-insert :
      (k j : ℕ) (v : V) (m : HashMap V)
      → get j (insert k v m) ≡ (if k == j then some v else get j m)
  unfolding get insert
  get-insert k j v [] = refl
  get-insert k j v ((i, w) ∷ m) = ground (arith, get-insert k j v m)

  pub get-remove :
      (k j : ℕ) (m : HashMap V) → get j (remove k m) ≡ (if k == j then none else get j m)
  unfolding get remove
  get-remove k j [] = ground arith
  get-remove k j ((i, w) ∷ m) = ground (arith, get-remove k j m)

  pub All-insert {κ} :
      (P : ℕ × V → Type κ) (k : ℕ) (v : V) (m : HashMap V)
      → P (k, v)
      → All P m
      → All P (insert k v m)
  unfolding insert
  All-insert P k v [] p h = (p, tt)
  All-insert P k v ((j, w) ∷ m) p h = ground (arith, All-insert P k v m p h.1)

  pub All-remove {κ} : (P : ℕ × V → Type κ) (k : ℕ) (m : HashMap V) → All P m → All P (remove k m)
  unfolding remove
  All-remove P k [] h = tt
  All-remove P k ((j, w) ∷ m) h = ground (arith, All-remove P k m h.1)

  All-get_hit {κ} :
      (P : ℕ × V → Type κ) (j k : ℕ) (v w : V) → j ≡ k → some w ≡ some v → P (j, w) → P (k, v)
  All-get_hit P j k v w same e p =
      let found : w ≡ v = cc in subst (λ x. P (x, v)) same (subst (λ x. P (j, x)) found p)

  pub All-get {κ} :
      (P : ℕ × V → Type κ) (k : ℕ) (v : V) (m : HashMap V) → All P m → get k m ≡ some v → P (k, v)
  unfolding get
  All-get P k v [] h e = cc
  All-get P k v ((j, w) ∷ m) h e = elim (Bool-cases (j == k)) [
    | inl same ↦ All-get_hit P j k v w ((==_iff j k).0 same) (rw same at e) h.0
    | inr other ↦ All-get P k v m h.1 (rw other at e)
  ]

  -- Removing an entry that was just written is removing it.
  pub remove-insert : (k : ℕ) (v : V) (m : HashMap V) → remove k (insert k v m) ≡ remove k m
  unfolding remove insert
  remove-insert k v [] = ground arith
  remove-insert k v ((j, w) ∷ m) = ground (arith, remove-insert k v m)

  pub get-insert_self : (k : ℕ) (v : V) (m : HashMap V) → get k (insert k v m) ≡ some v
  get-insert_self k v m = rw get-insert (ground arith)

  pub get-remove_self : (k : ℕ) (m : HashMap V) → get k (remove k m) ≡ none
  get-remove_self k m = rw get-remove (ground arith)

  -- A key of an entry is found.
  pub get_of_mem : (k : ℕ) (v : V) (m : HashMap V) → Memᴰ (k, v) m → (w : V) × (get k m ≡ some w)
  unfolding get
  get_of_mem k v [] t = elim t [ ]
  get_of_mem k v ((j, w) ∷ m) (Memᴰ.head e) = (w, ground arith)
  get_of_mem k v ((j, w) ∷ m) (Memᴰ.tail t) =
      let (x, found) = get_of_mem k v m t in
      elim (Bool-cases (j == k)) [ inl same ↦ (w, rw same) | inr other ↦ (x, rw other found) ]
