-- ===== src/Arena/Blocks.antt =====
-- Blocks from the bump allocator of src/Arena.c.
use http_server_from_scratch.Arena.Bits.{
  pow2, pow2-pos, low, shifted, shifted-low, pow2-add, bit_and-low, bit_and-shifted,
}
use http_server_from_scratch.Arena.{Arena, arena_alloc, align_up}
use http_server_from_scratch.Memory.{null, size_mod}
use native.Mathlib.Nat.{lt-div-mul-add, div-mul-le_self}
use http_server_from_scratch.Prelude.{
  ◌>>=◌, ℕ, ◌+◌, ◌-◌, ◌*◌, ◌/◌, ◌%◌, ◌≤◌, ◌<◌, ◌≡◌, ◌⊎◌, inl, inr, refl, sym, ap, subst, ◌∙◌, arith,
  bit_and, true, false, Bool-cases, ltb, leb, ==_iff, ◌==◌, ◌||◌, if◌then◌else◌, Option, some, List,
  [], ◌∷◌,
}

-- The multiples of `2^k` from `used` on begin here.
abbrev pub ceiling : ℕ → ℕ → ℕ
ceiling used k = (used + (pow2 k - 1)) / pow2 k * pow2 k

align_up-ceiling :
    (used k : ℕ) → k ≤ 64 → used + pow2 k ≤ size_mod → align_up used (pow2 k) ≡ ceiling used k
unfolding align_up
align_up-ceiling used k h l =
    let m = 64 - k in
    let e : k + m ≡ 64 = omega arith in
    let s : pow2 k * pow2 m ≡ size_mod = sym (pow2-add k m) ∙ ap pow2 e in
    let mask : size_mod - 1 - (pow2 k - 1) ≡ shifted k (low m) =
      omega (arith, shifted-low k m, s, pow2-pos k) in
    let small : (used + (pow2 k - 1)) % size_mod ≡ used + (pow2 k - 1) =
      omega (arith, l, pow2-pos k) in
    rw (mask, small) (bit_and-shifted k m (used + (pow2 k - 1)) (omega (arith, s, l, pow2-pos k)))

pub ceiling-bounds : (used k : ℕ) → (used ≤ ceiling used k) × (ceiling used k < used + pow2 k)
ceiling-bounds used k =
    let p = pow2-pos k in
    let lo = lt-div-mul-add {a = used + (pow2 k - 1)} p in
    let hi = div-mul-le_self (used + (pow2 k - 1)) (pow2 k) in
    (omega (arith, lo, p), omega (arith, hi, p))

-- An arena whose memory begins at a multiple of `2^K`, with room for the sums in `size_t`.
pub record IsArena (K : ℕ) (a : Arena) : Type 0 where
  pub word : K ≤ 64
  pub origin : (c : ℕ) × (a.base ≡ c * pow2 K)
  pub used : a.used ≤ a.cap
  pub room : a.cap + pow2 K ≤ size_mod

multiple : (K k c : ℕ) → k ≤ K → (d : ℕ) × (c * pow2 K ≡ d * pow2 k)
multiple K k c h =
    let e : pow2 K ≡ pow2 k * pow2 (K - k) = ap pow2 (omega arith) ∙ pow2-add k (K - k) in
    (c * pow2 (K - k), rw e (grind arith))

pow2-le : (k K : ℕ) → k ≤ K → pow2 k ≤ pow2 K
pow2-le k K h =
    let e : pow2 K ≡ pow2 k * pow2 (K - k) = ap pow2 (omega arith) ∙ pow2-add k (K - k) in
    let p = pow2-pos (K - k) in rw e (grind arith)

-- `arena_alloc` at a power of two up to that of the arena fails no assertion. It returns the first
-- multiple of the alignment from the bytes used on, when `n` bytes fit behind it; the arena is then
-- used up to the end of the block. When they do not fit it returns NULL and leaves the arena alone.
pub arena_alloc_lem :
    (a : Arena) (n k K : ℕ)
    → IsArena K a
    → k ≤ K
    → arena_alloc a n (pow2 k)
      ≡ some (
          if ltb a.cap (ceiling a.used k + n)
          then (null, a)
          else (a.base + ceiling a.used k, record a { used = ceiling a.used k + n }))
unfolding arena_alloc
arena_alloc_lem a n k K w h =
    let x = ceiling a.used k in
    let (c, base) = w.origin in
    let (d, mult) = multiple K k c h in
    let q = (a.used + (pow2 k - 1)) / pow2 k in
    let up : align_up a.used (pow2 k) ≡ x =
      align_up-ceiling a.used k (omega (arith, h, w.word))
        (omega (arith, w.used, w.room, pow2-le k K h)) in
    let start : a.base + x ≡ (d + q) * pow2 k = rw (base ∙ mult) (grind arith) in
    let clear : (bit_and (a.base + x) (pow2 k - 1) == 0) ≡ true =
      (==_iff _ 0).1 (rw start (bit_and-low k (d + q))) in
    let one : 1 * pow2 k ≡ pow2 k = omega arith in
    let power : (bit_and (pow2 k) (pow2 k - 1) == 0) ≡ true =
      (==_iff _ 0).1 (subst (λ t. bit_and t (pow2 k - 1) ≡ 0) one (bit_and-low k 1)) in
    let pos : ltb 0 (pow2 k) ≡ true = ground (arith, pow2-pos k) in
    let ok : leb a.used a.cap ≡ true = ground (arith, w.used) in
    rw (up, pos, power, ok)
      (elim (Bool-cases (ltb a.cap (x + n))) [
        | inl e ↦
            let full : (ltb a.cap x || ltb (a.cap - x) n) ≡ true = ground (arith, e) in
            rw (e, full) refl
        | inr e ↦
            let fits : (ltb a.cap x || ltb (a.cap - x) n) ≡ false = ground (arith, e) in
            let within : leb (x + n) a.cap ≡ true = ground (arith, e) in
            rw (e, fits, clear, within) refl
      ])

-- The calls of `arena_alloc` for sizes and alignments given by their exponents: the blocks, each with
-- its size, and the arena after them.
abbrev pub arena_allocs : Arena → List (ℕ × ℕ) → Option (List (ℕ × ℕ) × Arena)
arena_allocs a [] = some ([], a)
arena_allocs a ((n, k) ∷ requests) = do
  (p, a') ← arena_alloc a n (pow2 k)
  (blocks, a'') ← arena_allocs a' requests
  some ((p, n) ∷ blocks, a'')

-- The blocks that are not NULL lie one behind the other between two addresses.
abbrev pub AreBlocks : ℕ → ℕ → List (ℕ × ℕ) → Type 0
AreBlocks lo hi [] = lo ≤ hi
AreBlocks lo hi ((p, n) ∷ blocks) =
    ((p ≡ null) × AreBlocks lo hi blocks) ⊎ ((lo ≤ p) × AreBlocks (p + n) hi blocks)

abbrev pub AtMost : ℕ → List (ℕ × ℕ) → Type 0
AtMost K [] = Unit {0}
AtMost K ((n, k) ∷ requests) = (k ≤ K) × AtMost K requests

pub alloc_next :
    (a : Arena) (n k K : ℕ)
    → IsArena K a
    → k ≤ K
    → (p : ℕ) × (a' : Arena) × (arena_alloc a n (pow2 k) ≡ some (p, a'))
      × IsArena K a'
      × (a'.base ≡ a.base)
      × (a'.cap ≡ a.cap)
      × (((p ≡ null) × (a' ≡ a)) ⊎ ((a.base + a.used ≤ p) × (p + n ≡ a'.base + a'.used)))
alloc_next a n k K w h =
    let x = ceiling a.used k in
    let lem = arena_alloc_lem a n k K w h in
    elim (Bool-cases (ltb a.cap (x + n))) [
      | inl e ↦ (null, a, rw e at lem, w, refl, refl, inl (refl, refl))
      | inr e ↦ (
        a.base + x,
        record a { used = x + n },
        rw e at lem,
        record { word = w.word; origin = w.origin; used = ground (arith, e); room = w.room },
        refl,
        refl,
        inr (omega (arith, ceiling-bounds a.used k), omega arith),
      )
    ]

-- Any sequence of allocations at alignments up to that of the arena fails no assertion. The blocks
-- that are not NULL lie one behind the other, so no two overlap, between the end of the bytes used
-- before and the end of those used after, which is within the arena.
pub arena_allocs-AreBlocks :
    (K : ℕ) (a : Arena) (requests : List (ℕ × ℕ))
    → IsArena K a
    → AtMost K requests
    → (blocks : List (ℕ × ℕ)) × (a' : Arena) × (arena_allocs a requests ≡ some (blocks, a'))
      × IsArena K a'
      × (a'.base ≡ a.base)
      × (a'.cap ≡ a.cap)
      × AreBlocks (a.base + a.used) (a'.base + a'.used) blocks
arena_allocs-AreBlocks K a [] w h = ([], a, refl, w, refl, refl, omega arith)
arena_allocs-AreBlocks K a ((n, k) ∷ requests) w h =
    let (p, a', e, w', base, cap', place) = alloc_next a n k K w h.0 in
    let (blocks, a'', f, w'', base', cap'', rest) = arena_allocs-AreBlocks K a' requests w' h.1 in
    (
      (p, n) ∷ blocks,
      a'',
      rw (e, f) refl,
      w'',
      base' ∙ base,
      cap'' ∙ cap',
      elim place [
        | inl (z, same) ↦ inl (
          z,
          subst (λ t. AreBlocks t (a''.base + a''.used) blocks) (ap (λ t. t.base + t.used) same)
              rest,
        )
        | inr (lo, end) ↦
            inr (lo, subst (λ t. AreBlocks t (a''.base + a''.used) blocks) (sym end) rest)
      ],
    )
