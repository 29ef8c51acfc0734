-- ===== src/StreamClients/Ends.antt =====
-- Where the loops of the two clients end.
use tpool.StreamClients.{download, read_daytime, send_loop}
use tpool.TcpClient.Received.{concat}
use tpool.Base.{
  Bool, List, [], all, append-nil, append_assoc, arith, false, if◌then◌else◌, length, ltb, min, not,
  refl, some, suc, true, zero, ℕ, ◌++◌, ◌+◌, ◌∷◌, ◌≡◌,
}
use tpool.Text.{Text, is_empty, text}

-- How many sends return before the first one that raises.
pub returning : List Bool → ℕ
returning [] = 0
returning (true ∷ sends) = suc (returning sends)
returning (false ∷ sends) = 0

send_loop-count :
    (i left : ℕ) (sends : List Bool)
    → ((send_loop i left sends).1 ≡ min left (returning sends))
      × (length (send_loop i left sends).0
          ≡ min left (returning sends) + (if ltb (returning sends) left then 1 else 0))
unfolding send_loop returning
send_loop-count i zero sends = ground arith
send_loop-count i (suc left) [] = ground arith
send_loop-count i (suc left) (false ∷ sends) = ground arith
send_loop-count i (suc left) (true ∷ sends) = ground (arith, send_loop-count (suc i) left sends)

-- The download client sends its data ten times, or until a send fails; it prints a line for each
-- send, and one more if one fails.
pub download-count :
    (sends : List Bool)
    → ((download sends).1 ≡ min 10 (returning sends))
      × (length (download sends).0
          ≡ min 10 (returning sends) + (if ltb (returning sends) 10 then 1 else 0))
unfolding download
download-count sends = send_loop-count 0 10 sends

-- The daytime client prints all chunks up to the first empty one.
pub read_daytime_lem :
    (daytime : Text) (chunks rest : List Text)
    → all (λ s. not (is_empty s)) chunks ≡ true
    → read_daytime daytime (chunks ++ [] ∷ rest)
      ≡ some (text "received daytime:  " ++ (daytime ++ concat chunks))
unfolding read_daytime is_empty
read_daytime_lem daytime [] rest h = rw (append-nil daytime) refl
read_daytime_lem daytime (s ∷ chunks) rest h =
    let more : is_empty s ≡ false = ground arith in
    let there = read_daytime_lem (daytime ++ s) chunks rest (ground arith) in
    rw (more, there, append_assoc daytime s (concat chunks)) refl
