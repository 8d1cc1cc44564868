-- ===== src/Protocol/Chunks.antt =====
-- `chunks` and `enumerate` of the standard library, as `schedule_helper` of
-- antarc-protocol/src/lib.rs uses them.
use antarc.Shared.{
  map, ℕ, zero, suc, ◌+◌, ◌<◌, ◌≤◌, ◌≡◌, refl, ap, List, [], ◌∷◌, take, drop, length, concat, arith,
  take-append-drop, length-drop, length-take, All, take_all, drop_all,
}

module _ {A : Type 0} where
  unfoldable pub chunks_fuel : ℕ → ℕ → List A → List (List A)
  chunks_fuel zero n xs = []
  chunks_fuel (suc fuel) n [] = []
  chunks_fuel (suc fuel) n (x ∷ xs) = take n (x ∷ xs) ∷ chunks_fuel fuel n (drop n (x ∷ xs))

  -- Each chunk takes an item at least, so there are no more chunks than items.
  unfoldable pub chunks : ℕ → List A → List (List A)
  unfolding chunks_fuel
  chunks n xs = chunks_fuel (length xs) n xs

  unfoldable pub enumerate : ℕ → List A → List (ℕ × A)
  enumerate index [] = []
  enumerate index (x ∷ xs) = (index, x) ∷ enumerate (index + 1) xs

  concat-chunks_fuel :
      (fuel n : ℕ) (xs : List A) → 0 < n → length xs ≤ fuel → concat (chunks_fuel fuel n xs) ≡ xs
  unfolding chunks_fuel
  concat-chunks_fuel zero n [] pos h = refl
  concat-chunks_fuel zero n (x ∷ xs) pos h = absurd (omega arith)
  concat-chunks_fuel (suc fuel) n [] pos h = refl
  concat-chunks_fuel (suc fuel) n (x ∷ xs) pos h =
      rw (concat-chunks_fuel fuel n (drop n (x ∷ xs)) pos (omega (arith, length-drop n (x ∷ xs))))
        (take-append-drop n (x ∷ xs))

  -- The chunks are the list, cut.
  pub concat-chunks : (n : ℕ) (xs : List A) → 0 < n → concat (chunks n xs) ≡ xs
  unfolding chunks
  concat-chunks n xs pos = concat-chunks_fuel (length xs) n xs pos (omega arith)

  chunks_fuel-short :
      (fuel n : ℕ) (xs : List A)
      → 0 < n
      → All (λ (chunk : List A). (0 < length chunk) × (length chunk ≤ n)) (chunks_fuel fuel n xs)
  unfolding chunks_fuel
  chunks_fuel-short zero n xs pos = tt
  chunks_fuel-short (suc fuel) n [] pos = tt
  chunks_fuel-short (suc fuel) n (x ∷ xs) pos =
      (omega (arith, length-take n (x ∷ xs)), chunks_fuel-short fuel n (drop n (x ∷ xs)) pos)

  -- No chunk is empty, and none is longer than `n`.
  pub chunks_short :
      (n : ℕ) (xs : List A)
      → 0 < n
      → All (λ (chunk : List A). (0 < length chunk) × (length chunk ≤ n)) (chunks n xs)
  unfolding chunks
  chunks_short n xs pos = chunks_fuel-short (length xs) n xs pos

  chunks_fuel-nil : (fuel n : ℕ) → chunks_fuel fuel n [] ≡ []
  unfolding chunks_fuel
  chunks_fuel-nil zero n = refl
  chunks_fuel-nil (suc fuel) n = refl

  chunks_fuel-some :
      (fuel n : ℕ) (xs : List A) → 0 < fuel → 0 < length xs → 0 < length (chunks_fuel fuel n xs)
  unfolding chunks_fuel
  chunks_fuel-some zero n xs some_fuel some_item = absurd (omega arith)
  chunks_fuel-some (suc fuel) n [] some_fuel some_item = absurd (omega arith)
  chunks_fuel-some (suc fuel) n (x ∷ xs) some_fuel some_item = omega arith

  -- A list that fits is one chunk.
  pub chunks_single : (n : ℕ) (xs : List A) → 0 < length xs → length xs ≤ n → chunks n xs ≡ xs ∷ []
  unfolding chunks chunks_fuel
  chunks_single n [] some_item short = absurd (omega arith)
  chunks_single n (x ∷ xs) some_item short =
      rw (take_all n (x ∷ xs) short, drop_all n (x ∷ xs) short, chunks_fuel-nil (length xs) n) refl

  -- A list that does not fit is more than one chunk.
  pub chunks_several : (n : ℕ) (xs : List A) → 0 < n → n < length xs → 1 < length (chunks n xs)
  unfolding chunks chunks_fuel
  chunks_several n [] pos long = absurd (omega arith)
  chunks_several n (x ∷ xs) pos long = omega (
    arith,
    chunks_fuel-some (length xs) n (drop n (x ∷ xs)) (omega arith)
        (omega (arith, length-drop n (x ∷ xs))),
  )

  pub length-enumerate : (index : ℕ) (xs : List A) → length (enumerate index xs) ≡ length xs
  unfolding enumerate
  length-enumerate index [] = refl
  length-enumerate index (x ∷ xs) = ap suc (length-enumerate (index + 1) xs)

  -- The items that were numbered.
  pub map-enumerate : (index : ℕ) (xs : List A) → map (λ (e : ℕ × A). e.1) (enumerate index xs) ≡ xs
  unfolding enumerate
  map-enumerate index [] = refl
  map-enumerate index (x ∷ xs) = ap (λ r. x ∷ r) (map-enumerate (index + 1) xs)
