-- ===== src/Memory.antt =====
-- Memory as the C code reads it: a byte at every address, with address 0 for NULL. A pointer is
-- its address, and `p < q`, `p + n`, `q - p` are the same on both. Cursor loops are `advance` and
-- `retreat`; the searches of <string.h> are written with them.
pub mod Scan
pub mod Copy
use http_server_from_scratch.Prelude.{
  ℕ, zero, suc, ◌+◌, ◌-◌, ◌^◌, ◌≡◌, Bool, not, List, [], ◌∷◌, ltb, ◌==◌, if◌then◌else◌, length,
  get_or, CString, str_eq,
}

abbrev pub Memory : Type 0
Memory = ℕ → ℕ

abbrev pub null : ℕ
null = 0

-- The number of values of a 64-bit `size_t`.
abbrev pub size_mod : ℕ
size_mod = 2 ^ 64

-- `while (n-- > 0 && test(cur)) cur++;`
unfoldable pub advance : (ℕ → Bool) → ℕ → ℕ → ℕ
advance test zero cur = cur
advance test (suc n) cur = let rest = advance test n (cur + 1) in if test cur then rest else cur

-- `while (n-- > 0 && test(end - 1)) end--;`
unfoldable pub retreat : (ℕ → Bool) → ℕ → ℕ → ℕ
retreat test zero end = end
retreat test (suc n) end =
    let rest = retreat test n (end - 1) in if test (end - 1) then rest else end

-- The `n` bytes from `p` on.
unfoldable pub slice : Memory → ℕ → ℕ → List ℕ
slice m p zero = []
slice m p (suc n) = m p ∷ slice m (p + 1) n

-- The bytes `xs` stand at `p`.
abbrev pub Stands : Memory → ℕ → List ℕ → Type 0
Stands m p [] = Unit {0}
Stands m p (x ∷ xs) = (m p ≡ x) × Stands m (p + 1) xs

-- A C string as memory, its first byte at address `base`, the NUL and what follows it zero.
unfoldable pub string_memory : ℕ → CString → Memory
string_memory base s p = get_or s (p - base) 0

-- `memcmp(p, s, strlen(s)) == 0`
unfoldable pub mem_eq : Memory → ℕ → CString → Bool
mem_eq m p s = str_eq (slice m p (length s)) s

-- `memchr(p, c, n)`
unfoldable pub memchr : Memory → ℕ → ℕ → ℕ → ℕ
memchr m p c n =
    let found = advance (λ q. not (m q == c)) n p in if ltb found (p + n) then found else null

-- `memcpy(dst, src, n)`
unfoldable pub memcpy : Memory → ℕ → ℕ → ℕ → Memory
memcpy m dst src n p =
    if ltb p dst then m p else if ltb p (dst + n) then m (src + (p - dst)) else m p
