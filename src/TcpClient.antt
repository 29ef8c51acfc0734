-- ===== src/TcpClient.antt =====
-- examples/GetDataChunkServer/TcpClient.py: the client of the data chunk server. The generated
-- protobuf module is a parameter; the socket is the list of what its calls of recv give, and what
-- is printed or sent is a list of events.
pub mod Received
use tpool.Packing.{pack_two}
use tpool.Base.{List, Option, [], if◌then◌else◌, length, ltb, none, some, suc, ℕ, ◌++◌, ◌+◌, ◌∷◌}
use tpool.Text.{Text, decimal, text}

pub data Event : Type 0 where
  prints : Text → Event
  sends : Text → Event

-- How the program ends: the socket is closed, an exception leaves it, or recv blocks for ever.
pub data Outcome : Type 0 where
  closed : Outcome
  raised : Outcome
  blocked : Outcome

-- A message: the name and the full name of its descriptor, and what SerializeToString gives.
pub record Message : Type 0 where
  pub name : Text
  pub full_name : Text
  pub serialized : Text

-- What get_package prints before it packs the lengths, and behind it.
abbrev pub name_prints : Message → List Event
name_prints m =
    prints (text "message old len: " ++ decimal (length m.name))
    ∷ prints (decimal (suc (length m.full_name)))
    ∷ []

abbrev pub size_prints : Message → List Event
size_prints m = prints (text "message len: " ++ decimal (length m.serialized)) ∷ []

-- get_package without its prints; none is struct.error.
unfoldable pub get_package : Message → Option Text
get_package m =
    let message_name = m.full_name ++ 0 ∷ [] in
    let package_length = 4 + length message_name + length m.serialized in
    elim (pack_two package_length (length message_name)) [
      | none ↦ none
      | some head ↦ some (head ++ (message_name ++ m.serialized))
    ]

-- The inner loop: what has been received when a chunk is short, and the chunks that are left; none
-- where recv blocks.
unfoldable pub receive : List Text → Option (Text × List Text)
receive [] = none
receive (recv_chunk ∷ chunks) =
    let rest = receive chunks in
    if ltb (length recv_chunk) 1024
    then some (recv_chunk, chunks)
    else elim rest [ none ↦ none | some (response, left) ↦ some (recv_chunk ++ response, left) ]

module _ {ℓ} {Num : Type ℓ} (int_of : Text → Option Num) (request : Num → Message)
    (chunks_of : Text → Option (List (Text × Text))) where
  abbrev pub chunk_prints : ℕ → List (Text × Text) → List Event
  chunk_prints i [] = []
  chunk_prints i ((x, y) ∷ rest) =
      prints (text "[" ++ decimal i ++ text "] x: " ++ x ++ text ", y: " ++ y)
      ∷ chunk_prints (suc i) rest

  -- One number of the user: the events, the outcome if the program ends, and the chunks left.
  unfoldable pub exchange : Text → List Text → List Event × (Option Outcome × List Text)
  unfolding get_package receive
  exchange line chunks = elim (int_of line) [
    | none ↦ ([], (some raised, chunks))
    | some num ↦ elim (get_package (request num)) [
      | none ↦ (name_prints (request num), (some raised, chunks))
      | some packed ↦
          let sent =
            name_prints (request num)
            ++ size_prints (request num)
            ++ prints (text "length: " ++ decimal (length packed)) ∷ sends packed ∷ [] in
          elim (receive chunks) [
            | none ↦ (sent, (some blocked, []))
            | some (response, left) ↦ elim (chunks_of response) [
              | none ↦ (sent, (some raised, left))
              | some found ↦ (sent ++ chunk_prints 0 found, (none, left))
            ]
          ]
    ]
  ]

  -- The outer loop over what the user enters, a number and then any line; at the end of the input
  -- the socket is closed.
  unfoldable pub session : List Text → List Text → List Event × Outcome
  unfolding exchange
  session [] chunks = ([], closed)
  session (line ∷ []) chunks =
      let (events, (outcome, left)) = exchange line chunks in
      elim outcome [ none ↦ (events, closed) | some ending ↦ (events, ending) ]
  session (line ∷ _ ∷ lines) chunks =
      let (events, (outcome, left)) = exchange line chunks in
      elim outcome [
        | none ↦ let (more, ending) = session lines left in (events ++ more, ending)
        | some ending ↦ (events, ending)
      ]
