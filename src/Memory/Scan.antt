-- ===== src/Memory/Scan.antt =====
-- Where the cursor loops stop.
use http_server_from_scratch.Memory.{Memory, advance, retreat, slice, Stands, mem_eq}
use http_server_from_scratch.Prelude.{
  ℕ, zero, suc, ◌+◌, ◌-◌, ◌≤◌, ◌<◌, ◌≡◌, inl, inr, refl, ap, ap₂, subst, Bool, true, false, List,
  [], ◌∷◌, ◌++◌, arith, ltb, ◌==◌, length, str_eq_iff, Bool-cases,
}

-- `advance` stops at `r`: all before passes the test, and `r` fails it unless the range ends.
pub record Stops (test : ℕ → Bool) (n cur r : ℕ) : Type 0 where
  pub lo : cur ≤ r
  pub hi : r ≤ cur + n
  pub passed : (q : ℕ) → cur ≤ q → q < r → test q ≡ true
  pub failed : r < cur + n → test r ≡ false

pub advance-Stops : (test : ℕ → Bool) (n cur : ℕ) → Stops test n cur (advance test n cur)
unfolding advance
advance-Stops test zero cur = record {
  lo = omega arith;
  hi = omega arith;
  passed = λ q a b. absurd (omega arith);
  failed = λ a. absurd (omega arith);
}
advance-Stops test (suc n) cur = elim (Bool-cases (test cur)) [
  | inr e ↦ rw e (record {
    lo = omega arith;
    hi = omega arith;
    passed = λ q a b. absurd (omega arith);
    failed = λ _. e;
  })
  | inl e ↦
      let t = advance-Stops test n (cur + 1) in
      rw e (record {
        lo = omega (arith, t.lo);
        hi = omega (arith, t.hi);
        passed = λ q a b. elim (Bool-cases (q == cur)) [
          | inl same ↦ ground (arith, e)
          | inr other ↦ t.passed q (ground arith) b
        ];
        failed = λ h. t.failed (omega arith);
      })
]

clash :
    {test : ℕ → Bool} {n cur : ℕ} (r s : ℕ) → Stops test n cur r → Stops test n cur s → ¬ (r < s)
clash r s a b h = cc (b.passed r a.lo h, a.failed (omega (arith, b.hi)))

-- `Stops` determines the place.
pub Stops-unique :
    {test : ℕ → Bool} {n cur : ℕ} (r s : ℕ) → Stops test n cur r → Stops test n cur s → r ≡ s
Stops-unique r s a b = elim (Bool-cases (ltb r s)) [
  | inl e ↦ absurd (clash r s a b (ground arith))
  | inr e ↦ elim (Bool-cases (ltb s r)) [
    | inl f ↦ absurd (clash s r b a (ground arith))
    | inr f ↦ ground arith
  ]
]

pub advance-eq : (test : ℕ → Bool) (n cur r : ℕ) → Stops test n cur r → advance test n cur ≡ r
advance-eq test n cur r h = Stops-unique _ _ (advance-Stops test n cur) h

-- `retreat` stops at `r`: all behind it passes the test, and the byte before it fails.
pub record StopsBack (test : ℕ → Bool) (n end r : ℕ) : Type 0 where
  pub lo : end ≤ r + n
  pub hi : r ≤ end
  pub passed : (q : ℕ) → r ≤ q → q < end → test q ≡ true
  pub failed : end < r + n → test (r - 1) ≡ false

pub retreat-StopsBack :
    (test : ℕ → Bool) (n end : ℕ) → n ≤ end → StopsBack test n end (retreat test n end)
unfolding retreat
retreat-StopsBack test zero end b = record {
  lo = omega arith;
  hi = omega arith;
  passed = λ q a b. absurd (omega arith);
  failed = λ a. absurd (omega arith);
}
retreat-StopsBack test (suc n) end b = elim (Bool-cases (test (end - 1))) [
  | inr e ↦ rw e (record {
    lo = omega arith;
    hi = omega arith;
    passed = λ q a b. absurd (omega arith);
    failed = λ _. e;
  })
  | inl e ↦
      let t = retreat-StopsBack test n (end - 1) (omega arith) in
      rw e (record {
        lo = omega (arith, t.lo);
        hi = omega (arith, t.hi);
        passed = λ q a b. elim (Bool-cases (q == (end - 1))) [
          | inl same ↦ ground (arith, e)
          | inr other ↦ t.passed q a (ground arith)
        ];
        failed = λ h. t.failed (omega arith);
      })
]

pub length-slice : (m : Memory) (p n : ℕ) → length (slice m p n) ≡ n
unfolding slice
length-slice m p zero = refl
length-slice m p (suc n) = ap suc (length-slice m (p + 1) n)

pub slice-append : (m : Memory) (a b p : ℕ) → slice m p (a + b) ≡ slice m p a ++ slice m (p + a) b
unfolding slice
slice-append m zero b p =
    let e : zero + b ≡ b = omega arith in let f : p + zero ≡ p = omega arith in rw (e, f)
slice-append m (suc a) b p =
    let e : suc a + b ≡ suc (a + b) = omega arith in
    let f : p + suc a ≡ p + 1 + a = omega arith in
    rw (e, f, slice) (ap (◌∷◌ (m p)) (slice-append m a b (p + 1)))

pub slice-Stands : (m : Memory) (p : ℕ) (xs : List ℕ) → Stands m p xs → slice m p (length xs) ≡ xs
unfolding slice
slice-Stands m p [] h = refl
slice-Stands m p (x ∷ xs) h = ap₂ ◌∷◌ h.0 (slice-Stands m (p + 1) xs h.1)

pub Stands-slice : (m : Memory) (p n : ℕ) → Stands m p (slice m p n)
unfolding slice
Stands-slice m p zero = tt
Stands-slice m p (suc n) = (refl, Stands-slice m (p + 1) n)

pub Stands-append :
    (m : Memory) (p : ℕ) (xs ys : List ℕ)
    → Stands m p (xs ++ ys)
    → Stands m p xs × Stands m (p + length xs) ys
Stands-append m p [] ys h = let e : p + 0 ≡ p = omega arith in (tt, rw e h)
Stands-append m p (x ∷ xs) ys h =
    let (a, b) = Stands-append m (p + 1) xs ys h.1 in
    let e : p + suc (length xs) ≡ p + 1 + length xs = omega arith in ((h.0, a), rw e b)

pub Stands-join :
    (m : Memory) (p : ℕ) (xs ys : List ℕ)
    → Stands m p xs
    → Stands m (p + length xs) ys
    → Stands m p (xs ++ ys)
Stands-join m p [] ys h k = let e : p + 0 ≡ p = omega arith in rw e at k
Stands-join m p (x ∷ xs) ys h k =
    let e : p + suc (length xs) ≡ p + 1 + length xs = omega arith in
    (h.0, Stands-join m (p + 1) xs ys h.1 (rw e at k))

-- `memcmp` against a literal says that the literal stands there.
pub mem_eq-Stands : (m : Memory) (p : ℕ) (xs : List ℕ) → mem_eq m p xs ≡ true → Stands m p xs
unfolding mem_eq
mem_eq-Stands m p xs h =
    subst (Stands m p) ((str_eq_iff (slice m p (length xs)) xs).0 h) (Stands-slice m p (length xs))

pub Stands-mem_eq : (m : Memory) (p : ℕ) (xs : List ℕ) → Stands m p xs → mem_eq m p xs ≡ true
unfolding mem_eq
Stands-mem_eq m p xs h = (str_eq_iff (slice m p (length xs)) xs).1 (slice-Stands m p xs h)

pub slice-pop :
    (m : Memory) (p end : ℕ) → p < end → slice m p (end - p) ≡ m p ∷ slice m (p + 1) (end - (p + 1))
unfolding slice
slice-pop m p end h = let e : end - p ≡ suc (end - (p + 1)) = omega arith in rw (e, slice)

pub slice-cut :
    (m : Memory) (p s end : ℕ)
    → p ≤ s
    → s < end
    → slice m p (end - p) ≡ slice m p (s - p) ++ m s ∷ slice m (s + 1) (end - (s + 1))
slice-cut m p s end h k =
    let e : end - p ≡ s - p + (end - s) = omega arith in
    let f : p + (s - p) ≡ s = omega arith in
    rw (e, slice-append m (s - p) (end - s) p, f, slice-pop m s end k)
