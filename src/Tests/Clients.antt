-- ===== src/Tests/Clients.antt =====
-- Runs of the example clients and of the servers that they talk to, and their theorems.
use tpool.StreamClients.Addresses.{parse_address-decimal}
use tpool.StreamClients.{parse_address}
use tpool.ForwardServer.Numbers.{handle-pack_all, pack_all}
use tpool.Packing.Laws.{unpack-pack}
use tpool.TcpClient.Received.{receive_lem}
use tpool.MessageReader.RoundTrip.{read_message-get_package}
use tpool.ForwardServer.{handle}
use tpool.Packing.{pack, pack_two, unpack}
use tpool.MessageReader.{read_message}
use tpool.TcpClient.{Message, get_package, receive}
use tpool.Base.{
  Option, [], ap, arith, if◌then◌else◌, length, ltb, none, refl, some, suc, zero, ℕ, ◌++◌, ◌+◌, ◌^◌,
  ◌∷◌, ◌≡◌,
}
use tpool.Text.{Text, decimal, text}

abbrev request : Message
request = record { name = text "Get"; full_name = text "simple.Get"; serialized = 8 ∷ 5 ∷ [] }

abbrev request_package : Text
request_package = 0 ∷ 0 ∷ 0 ∷ 17 ∷ 0 ∷ 0 ∷ 0 ∷ 11 ∷ (text "simple.Get" ++ 0 ∷ 8 ∷ 5 ∷ [])

-- The order of the network, for a long of four bytes.
abbrev or_zero : Option ℕ → ℕ
or_zero none = 0
or_zero (some n) = n

abbrev host_long : Text → ℕ
host_long s = or_zero (unpack s)

read_message-get_package_example :
    (read_message 4 host_long (0 ∷ 0 ∷ 0 ∷ 0 ∷ []) 4 1000 (request_package ++ 9 ∷ [])).1 ≡ (
      if ltb (length request_package) (2 ^ 31 + 4)
      then some ((text "simple.Get", 8 ∷ 5 ∷ []), 9 ∷ [])
      else none)
unfolding text get_package pack_two
read_message-get_package_example =
    read_message-get_package host_long (λ n s h. ap or_zero (unpack-pack n s h)) request
      request_package (9 ∷ []) (0 ∷ 0 ∷ 0 ∷ 0 ∷ []) 4 1000 refl refl refl (omega arith)
      (omega arith)

abbrev bytes : ℕ → Text
bytes zero = []
bytes (suc n) = 65 ∷ bytes n

receive_lem_example :
    (receive (bytes 1024 ∷ (66 ∷ []) ∷ []) ≡ some (bytes 1024 ++ 66 ∷ [], []))
    × (receive (bytes 1024 ∷ []) ≡ none)
receive_lem_example = receive_lem (bytes 1024 ∷ []) (66 ∷ []) [] refl (omega arith)

handle-pack_all_example :
    handle (text "('10.0.0.1', 50001)") (0 ∷ 0 ∷ 1 ∷ 2 ∷ 255 ∷ 255 ∷ 255 ∷ 255 ∷ 3 ∷ [])
    ≡ text "...connected from: ('10.0.0.1', 50001)" ∷ text "258" ∷ text "4294967295" ∷ []
unfolding pack_all pack text decimal
handle-pack_all_example =
    handle-pack_all (text "('10.0.0.1', 50001)") (258 ∷ 4294967295 ∷ [])
      (0 ∷ 0 ∷ 1 ∷ 2 ∷ 255 ∷ 255 ∷ 255 ∷ 255 ∷ []) (3 ∷ []) refl (omega arith) (omega arith)

parse_address-decimal_example :
    parse_address (text "localhost" ++ b':' ∷ decimal 29995) ≡ some (text "localhost", 29995)
unfolding text
parse_address-decimal_example = parse_address-decimal (text "localhost") 29995 refl
