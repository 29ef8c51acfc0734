-- ===== src/StreamClients.antt =====
-- examples/download_client.py and examples/daytime_client.py: two clients that read the address of
-- their server from the command line.
pub mod Ends
pub mod Addresses
use tpool.Base.{
  Bool, List, Option, [], all, drop, false, if◌then◌else◌, leb, none, not, some, suc, take, true,
  zero, ℕ, ◌&&◌, ◌*◌, ◌++◌, ◌+◌, ◌-◌, ◌∷◌,
}
use tpool.Text.{Text, count, decimal, find, is_empty, text}

-- parse_address: the host and the port; none is an exception. Without a colon the host is
-- 127.0.0.1. A port that is not made of digits runs into the name `parser`, which is not defined.
unfoldable pub is_digit : ℕ → Bool
is_digit c = leb b'0' c && leb c b'9'

abbrev pub digit_value : ℕ → ℕ → ℕ
digit_value n c = n * 10 + (c - b'0')

-- int(s), for a string of digits
unfoldable pub int_from : ℕ → Text → ℕ
int_from n [] = n
int_from n (c ∷ s) = int_from (digit_value n c) s

unfoldable pub parse_port : Text → Text → Option (Text × ℕ)
unfolding is_digit int_from
parse_port host port =
    if not (is_empty port) && all is_digit port then some (host, int_from 0 port) else none

-- addr.split(':', 1), for an address with a colon at the given place
abbrev pub split_at : ℕ → Text → Text × Text
split_at i addr = (take i addr, drop (suc i) addr)

unfoldable pub parse_address : Text → Option (Text × ℕ)
unfolding parse_port
parse_address addr = elim (find addr (text ":")) [
  | none ↦ parse_port (text "127.0.0.1") addr
  | some i ↦ let (host, port) = split_at i addr in parse_port host port
]

-- The loop of the daytime client over what recv gives: what it prints at the end of the stream;
-- none where recv blocks.
unfoldable pub read_daytime : Text → List Text → Option Text
read_daytime daytime [] = none
read_daytime daytime (data_chunk ∷ chunks) =
    let rest = read_daytime (daytime ++ data_chunk) chunks in
    if is_empty data_chunk then some (text "received daytime:  " ++ daytime) else rest

-- The loop of the download client, with the rounds that are left and whether each sendall returns
-- (after the list it raises socket.error): what is printed, and how often data has been sent.
unfoldable pub send_loop : ℕ → ℕ → List Bool → List Text × ℕ
send_loop i zero sends = ([], 0)
send_loop i (suc left) [] = (text "connection is closed" ∷ [], 0)
send_loop i (suc left) (false ∷ sends) = (text "connection is closed" ∷ [], 0)
send_loop i (suc left) (true ∷ sends) =
    let (printed, count) = send_loop (suc i) left sends in
    ((text "send  " ++ decimal i ++ text "  data") ∷ printed, suc count)

unfoldable pub download : List Bool → List Text × ℕ
unfolding send_loop
download sends = send_loop 0 10 sends
