-- ===== src/Network.antt =====
-- The sockets as the code sees them, and include/http_server/HttpBuffer.h. The results of the calls
-- of recv(2), and of send(2), during a wake-up are a list, one entry for each call; a call past the
-- end of its list would block. `recv` hands out at most `room` bytes and `send` takes at most what it
-- is given, so a longer result is cut.
pub mod Store
use http_server_from_scratch.Memory.{Memory}
use http_server_from_scratch.Prelude.{
  ℕ, zero, suc, ◌+◌, ◌-◌, List, [], ◌∷◌, ltb, if◌then◌else◌, length, get_or,
}

pub record HttpBuffer : Type 0 where
  pub cap : ℕ
  pub size : ℕ
  pub buffer : ℕ

abbrev pub take : ℕ → List ℕ → List ℕ
take zero xs = []
take (suc n) [] = []
take (suc n) (x ∷ xs) = x ∷ take n xs

-- The results of recv: bytes (at least one), the end of the stream, and the values of `errno`.
pub data Recv : Type 0 where
  received : ℕ → List ℕ → Recv
  recv_closed recv_again recv_interrupted recv_failed : Recv

-- The bytes `xs` written at `dst`.
unfoldable pub store : Memory → ℕ → List ℕ → Memory
store m dst xs p =
    if ltb p dst then m p else if ltb p (dst + length xs) then get_or xs (p - dst) 0 else m p

-- The results of send: a count, and the values of `errno`.
pub data Send : Type 0 where
  accepted : ℕ → Send
  send_again send_interrupted send_pipe send_reset send_failed : Send
