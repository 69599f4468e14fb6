-- ===== src/Network/Store.antt =====
-- Bytes from the network, stored in the free part of a buffer.
use http_server_from_scratch.Memory.{Memory}
use http_server_from_scratch.Network.{HttpBuffer, take, store}
use http_server_from_scratch.Prelude.{
  ℕ, zero, suc, ◌+◌, ◌-◌, ◌≤◌, ◌<◌, ◌≡◌, ◌⊎◌, arith, List, [], ◌∷◌, length,
}

-- Bytes of memory outside the part of the buffer that was free stay as they were.
abbrev pub Outside : HttpBuffer → Memory → Memory → Type 0
Outside req m m' = (q : ℕ) → (q < req.buffer + req.size) ⊎ (req.buffer + req.cap ≤ q) → m' q ≡ m q

pub length-take-le : (n : ℕ) (xs : List ℕ) → length (take n xs) ≤ n
length-take-le zero xs = omega arith
length-take-le (suc n) [] = omega arith
length-take-le (suc n) (x ∷ xs) = omega (arith, length-take-le n xs)

pub store-Outside :
    (m : Memory) (req : HttpBuffer) (xs : List ℕ)
    → length xs ≤ req.cap - req.size
    → req.size ≤ req.cap
    → Outside req m (store m (req.buffer + req.size) xs)
unfolding store
store-Outside m req xs l c q h = ground arith
