-- ===== src/MessageReader.antt =====
-- examples/GetDataChunkServer/MessageReader.cpp: how the server reads a message from its socket.
-- sizeof(long), boost's network_to_host_long, which gives an unsigned number, and how many bytes a
-- read_some gives are parameters; the lookup of the message's type and its parsing belong to
-- protobuf.
pub mod RoundTrip
use tpool.Base.{
  Option, [], drop, if◌then◌else◌, length, ltb, min, negsuc, none, pos, some, take, ℕ, ℤ, ◌%◌, ◌*◌,
  ◌++◌, ◌+◌, ◌-◌, ◌==◌, ◌^◌, ◌∷◌,
}
use tpool.Text.{Text}

-- What is left of the buffer is as it was.
abbrev pub filled : Text → Text → Text
filled got buffer = got ++ drop (length got) buffer

-- A C string: the bytes before the first NUL; none where the search leaves the buffer.
unfoldable pub c_string : Text → Option Text
c_string [] = none
c_string (c ∷ s) =
    let rest = c_string s in
    if c == 0 then some [] else elim rest [ none ↦ none | some name ↦ some (c ∷ name) ]

-- An unsigned number in a signed variable of so many bits, in two's complement.
unfoldable pub signed : ℕ → ℕ → ℤ
signed bits n =
    let w = n % 2 ^ bits in if ltb w (2 ^ (bits - 1)) then pos w else negsuc (2 ^ bits - 1 - w)

-- The message behind its name, where ParseFromArray gets a length, an int, that is not negative.
unfoldable pub message_bytes : ℤ → Text → Option Text
message_bytes (pos message_length) body = some (take message_length body)
message_bytes (negsuc n) body = none

module _ (size_of_long : ℕ) (network_to_host_long : Text → ℕ) where
  -- A number of the network as the code keeps it, in a long.
  unfoldable pub read_long : Text → ℤ
  read_long bytes = signed (8 * size_of_long) (network_to_host_long bytes)

  -- The message with its name, for a name length that is not negative.
  unfoldable pub parse_message : ℕ → ℕ → Text → Option (Text × Text)
  parse_message package_length message_name_length rest =
      if ltb package_length (size_of_long + message_name_length)
      then none
      else elim (c_string rest) [
        | none ↦ none
        | some message_name ↦
            let message_length = signed 32 (package_length - size_of_long - message_name_length) in
            elim (message_bytes message_length (drop message_name_length rest)) [
              | none ↦ none
              | some message ↦ some (message_name, message)
            ]
      ]

  -- The package in its buffer: the name of the message and its bytes; none where the code reads
  -- outside of the package, or gives ParseFromArray a negative length.
  unfoldable pub parse_package : ℕ → Text → Option (Text × Text)
  parse_package package_length buffer = elim (read_long (take size_of_long buffer)) [
    | pos message_name_length ↦
        parse_message package_length message_name_length (drop size_of_long buffer)
    | negsuc n ↦ none
  ]

  -- ProcessMessagePackage, with the bytes that have arrived and how many of them read_some gives:
  -- the message and the bytes left, or none where the buffer has a negative size or is used where it
  -- has not been filled.
  unfoldable pub process_message_package : ℤ → ℕ → Text → Option ((Text × Text) × Text)
  process_message_package (negsuc n) given stream = none
  process_message_package (pos package_length) given stream =
      let package_buffer = take (min given package_length) stream in
      if ltb (length package_buffer) package_length
      then none
      else elim (parse_package package_length package_buffer) [
        | none ↦ none
        | some message ↦ some (message, drop package_length stream)
      ]

  -- A round of Loop: what the length buffer holds afterwards, and what is read.
  unfoldable pub read_message : Text → ℕ → ℕ → Text → Text × Option ((Text × Text) × Text)
  read_message length_buffer given_length given stream =
      let got = take (min given_length size_of_long) stream in
      let buffer = filled got length_buffer in
      (buffer, process_message_package (read_long buffer) given (drop (length got) stream))
