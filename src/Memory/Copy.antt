-- ===== src/Memory/Copy.antt =====
-- `memcpy` of src/HttpBody.c and src/Connection.c on memory as a function.
use http_server_from_scratch.Memory.{Memory, Stands, memcpy}
use http_server_from_scratch.Prelude.{
  ℕ, ◌+◌, ◌≤◌, ◌<◌, ◌≡◌, ◌⊎◌, refl, ◌∙◌, ap, subst, arith, ltb, if_cases, List, [], ◌∷◌, length,
}
use Prim.{tt}

-- The bytes copied.
pub memcpy-at : (m : Memory) (dst src n i : ℕ) → i < n → memcpy m dst src n (dst + i) ≡ m (src + i)
unfolding memcpy
memcpy-at m dst src n i h =
    let P : ℕ → Type 0 = λ x. x ≡ m (src + i) in
    if_cases P (ltb (dst + i) dst) (λ e. ground arith)
      (λ e.
        if_cases P (ltb (dst + i) (dst + n)) (λ f. ap (λ k. m (src + k)) (omega arith))
          (λ f. ground arith))

-- The other bytes.
pub memcpy_outside :
    (m : Memory) (dst src n q : ℕ) → (q < dst) ⊎ (dst + n ≤ q) → memcpy m dst src n q ≡ m q
unfolding memcpy
memcpy_outside m dst src n q h =
    let P : ℕ → Type 0 = λ x. x ≡ m q in
    if_cases P (ltb q dst) (λ e. refl)
      (λ e. if_cases P (ltb q (dst + n)) (λ f. ground (arith, e, f, h)) (λ f. refl))

memcpy_from :
    (m : Memory) (dst src n i : ℕ) (xs : List ℕ)
    → i + length xs ≤ n
    → Stands m (src + i) xs
    → Stands (memcpy m dst src n) (dst + i) xs
memcpy_from m dst src n i [] l h = tt
memcpy_from m dst src n i (x ∷ xs) l h =
    let e : src + i + 1 ≡ src + (i + 1) = omega arith in
    let e' : dst + (i + 1) ≡ dst + i + 1 = omega arith in
    let rest =
      memcpy_from m dst src n (i + 1) xs (omega (arith, l)) (subst (λ t. Stands m t xs) e h.1) in
    (
      memcpy-at m dst src n i (omega (arith, l)) ∙ h.0,
      subst (λ t. Stands (memcpy m dst src n) t xs) e' rest,
    )

-- Bytes that stand at the source stand at the destination.
pub memcpy-Stands :
    (m : Memory) (dst src : ℕ) (xs : List ℕ)
    → Stands m src xs
    → Stands (memcpy m dst src (length xs)) dst xs
memcpy-Stands m dst src xs h =
    let e : src ≡ src + 0 = omega arith in
    let e' : dst + 0 ≡ dst = omega arith in
    subst (λ t. Stands (memcpy m dst src (length xs)) t xs) e'
      (memcpy_from m dst src (length xs) 0 xs (omega arith) (subst (λ t. Stands m t xs) e h))
