-- ===== src/TcpClient/Received.antt =====
-- What the client receives of a response that comes in chunks.
use tpool.TcpClient.{receive}
use tpool.Base.{
  List, [], all, append_assoc, arith, false, length, ltb, none, refl, some, true, ◌++◌, ◌<◌, ◌==◌,
  ◌∷◌, ◌≡◌,
}
use tpool.Text.{Text}

abbrev pub concat : List Text → Text
concat [] = []
concat (s ∷ ss) = s ++ concat ss

-- Of chunks of 1024 bytes with a shorter one behind them, the client receives all bytes and no
-- chunk that follows; without a shorter one, recv blocks, so a response whose length is a multiple
-- of 1024 is never handled while the connection stands.
pub receive_lem :
    (full : List Text) (last : Text) (rest : List Text)
    → all (λ s. length s == 1024) full ≡ true
    → length last < 1024
    → (receive (full ++ last ∷ rest) ≡ some (concat full ++ last, rest)) × (receive full ≡ none)
unfolding receive
receive_lem [] last rest h short = ground arith
receive_lem (s ∷ full) last rest h short =
    let (goes, stays) = receive_lem full last rest (ground arith) short in
    let long : ltb (length s) 1024 ≡ false = ground arith in
    (rw (long, goes, append_assoc s (concat full) last) refl, rw (long, stays) refl)
