-- ===== src/Client/Batches.antt =====
-- What the batches of `chunkIDs` are: the IDs in order, in as few calls as the cap allows.
use native.Mathlib.Nat.{div-eq-sub-div, div-eq_of_lt}
use native.Mathlib.Decide.{dec_lt}
use openbao_plugin_secrets_o.Prelude.{
  ℕ, zero, suc, ◌+◌, ◌-◌, ◌/◌, ◌≤◌, ◌<◌, ◌≡◌, refl, ap, ◌∙◌, List, [], ◌∷◌, ◌++◌, length, drop,
  length-take, length-drop, take-append-drop, arith,
}
use openbao_plugin_secrets_o.Client.{batch_size, chunk_loop, chunk_ids}

batch_size_bounds :
    (count size : ℕ)
    → 0 < count
    → 0 < size
    → (0 < batch_size count size) × (batch_size count size ≤ size) × (batch_size count size ≤ count)
unfolding batch_size
batch_size_bounds count size p q = ground arith

batch_size_below : (count size : ℕ) → count < size → batch_size count size ≡ count
unfolding batch_size
batch_size_below count size h = ground arith

batch_size_above : (count size : ℕ) → size ≤ count → batch_size count size ≡ size
unfolding batch_size
batch_size_above count size h = ground arith

-- One batch more, and the rest counted by itself, is the whole count rounded up.
ceil-batch :
    (count size : ℕ)
    → 0 < count
    → 0 < size
    → suc ((count - batch_size count size + size - 1) / size) ≡ (count + size - 1) / size
ceil-batch count size p q =
    let (pos, cap, below) = batch_size_bounds count size p q in
    let step = div-eq-sub-div {m = size} {n = count + size - 1} q (omega arith) in
    let one_less : count + size - 1 - size ≡ count - 1 = omega arith in
    let rest : (count - batch_size count size + size - 1) / size ≡ (count - 1) / size =
      rest_of (dec_lt count size) in
    omega (arith, step, ap (λ (t : ℕ). t / size) one_less, rest)
  where
    rest_of :
        Dec (count < size) → (count - batch_size count size + size - 1) / size ≡ (count - 1) / size
    rest_of (yes h) =
        rw (div-eq_of_lt {n = count - 1} {m = size} (omega arith))
          (div-eq_of_lt (omega (arith, batch_size_below count size h)))
    rest_of (no h) =
        ap (λ (t : ℕ). t / size) (omega (arith, batch_size_above count size (omega arith)))

ceil-zero : (size : ℕ) → 0 < size → 0 ≡ (0 + size - 1) / size
ceil-zero size p = grind arith

module _ {ℓ} {A : Type ℓ} where
  abbrev pub concat : List (List A) → List A
  concat [] = []
  concat (c ∷ cs) = c ++ concat cs

  -- Every batch holds an ID and no more than `size`.
  abbrev pub Fits : ℕ → List (List A) → Type 0
  Fits size [] = Unit
  Fits size (c ∷ cs) = ((0 < length c) × (length c ≤ size)) × Fits size cs

  concat-chunk_loop :
      (fuel : ℕ) (ids : List A) (size : ℕ)
      → 0 < size
      → length ids ≤ fuel
      → concat (chunk_loop fuel ids size) ≡ ids
  unfolding chunk_loop
  concat-chunk_loop zero [] size p h = refl
  concat-chunk_loop zero (x ∷ xs) size p h = absurd (omega arith)
  concat-chunk_loop (suc fuel) [] size p h = refl
  concat-chunk_loop (suc fuel) (x ∷ xs) size p h =
      let n = batch_size (suc (length xs)) size in
      let (pos, _, below) = batch_size_bounds (suc (length xs)) size (omega arith) p in
      rw (concat-chunk_loop fuel (drop n (x ∷ xs)) size p (omega (arith, length-drop n (x ∷ xs))))
        (take-append-drop n (x ∷ xs))

  chunk_loop-Fits :
      (fuel : ℕ) (ids : List A) (size : ℕ) → 0 < size → Fits size (chunk_loop fuel ids size)
  unfolding chunk_loop
  chunk_loop-Fits zero ids size p = tt
  chunk_loop-Fits (suc fuel) [] size p = tt
  chunk_loop-Fits (suc fuel) (x ∷ xs) size p =
      let n = batch_size (suc (length xs)) size in
      let (pos, cap, below) = batch_size_bounds (suc (length xs)) size (omega arith) p in
      (
        (omega (arith, length-take n (x ∷ xs)), omega (arith, length-take n (x ∷ xs))),
        chunk_loop-Fits fuel (drop n (x ∷ xs)) size p,
      )

  length-chunk_loop :
      (fuel : ℕ) (ids : List A) (size : ℕ)
      → 0 < size
      → length ids ≤ fuel
      → length (chunk_loop fuel ids size) ≡ (length ids + size - 1) / size
  unfolding chunk_loop
  length-chunk_loop zero [] size p h = ceil-zero size p
  length-chunk_loop zero (x ∷ xs) size p h = absurd (omega arith)
  length-chunk_loop (suc fuel) [] size p h = ceil-zero size p
  length-chunk_loop (suc fuel) (x ∷ xs) size p h =
      let n = batch_size (suc (length xs)) size in
      let (pos, cap, below) = batch_size_bounds (suc (length xs)) size (omega arith) p in
      ap suc
        (length-chunk_loop fuel (drop n (x ∷ xs)) size p (omega (arith, length-drop n (x ∷ xs))))
      ∙ rw (length-drop n (x ∷ xs)) (ceil-batch (suc (length xs)) size (omega arith) p)

  -- `chunkIDs` keeps every ID in its place, makes no empty batch and none over the cap, and makes
  -- as few batches as that allows: the number of IDs over the cap, rounded up.
  pub chunk_ids-batches :
      (ids : List A) (size : ℕ)
      → 0 < size
      → (concat (chunk_ids ids size) ≡ ids)
        × Fits size (chunk_ids ids size)
        × (length (chunk_ids ids size) ≡ (length ids + size - 1) / size)
  unfolding chunk_ids
  chunk_ids-batches ids size p = (
    concat-chunk_loop (length ids) ids size p (omega arith),
    chunk_loop-Fits (length ids) ids size p,
    length-chunk_loop (length ids) ids size p (omega arith),
  )
