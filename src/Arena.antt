-- ===== src/Arena.antt =====
-- src/Arena.c and include/http_server/Arena.h: the bump allocator. `none` is a failed assert, which
-- stops the program.
pub mod Bounds
pub mod Bits
pub mod Blocks
use http_server_from_scratch.Memory.{null, size_mod}
use http_server_from_scratch.Prelude.{
  ℕ, ◌+◌, ◌-◌, ◌%◌, bit_and, ◌&&◌, ◌||◌, not, ltb, leb, ◌==◌, if◌then◌else◌, Bool, Option, none,
  some,
}

pub record Arena : Type 0 where
  pub base : ℕ
  pub cap : ℕ
  pub used : ℕ

-- `assert(b)` in front of the rest of a function.
abbrev pub assert_then {ℓ} : {A : Type ℓ} → Bool → Option A → Option A
assert_then b rest = if b then rest else none

unfoldable pub arena_init : ℕ → ℕ → Option Arena
arena_init mem cap =
    assert_then (not (mem == null))
      (assert_then (ltb 0 cap) (some (record { base = mem; cap = cap; used = 0 })))

unfoldable pub arena_mark : Arena → Option ℕ
arena_mark arena = assert_then (leb arena.used arena.cap) (some arena.used)

unfoldable pub arena_reset_to : Arena → ℕ → Option Arena
arena_reset_to arena mark =
    assert_then (leb mark arena.used)
      (assert_then (leb mark arena.cap) (some (record arena { used = mark })))

unfoldable pub arena_reset : Arena → Option Arena
arena_reset arena = assert_then (0 == 0) (some (record arena { used = 0 }))

-- `(arena->used + (align - 1)) & ~(align - 1)` on `size_t`; `~x` is `2^64 - 1 - x`.
unfoldable pub align_up : ℕ → ℕ → ℕ
align_up used align = bit_and ((used + (align - 1)) % size_mod) (size_mod - 1 - (align - 1))

-- The pointer (NULL when the arena is full) and the arena after the call.
unfoldable pub arena_alloc : Arena → ℕ → ℕ → Option (ℕ × Arena)
arena_alloc arena n align =
    let aligned = align_up arena.used align in
    let p = arena.base + aligned in
    let arena' = record arena { used = aligned + n } in
    assert_then (ltb 0 align && bit_and align (align - 1) == 0 && leb arena.used arena.cap) (
      if ltb arena.cap aligned || ltb (arena.cap - aligned) n
      then some (null, arena)
      else assert_then (bit_and p (align - 1) == 0 && leb arena'.used arena'.cap)
          (some (p, arena')))
