-- ===== src/ForwardServer.antt =====
-- examples/ssh_forward_server.py: the handler of a connection, which prints the numbers it reads.
pub mod Numbers
use tpool.Packing.{word_of}
use tpool.Base.{List, [], map, take, ℕ, ◌++◌, ◌∷◌}
use tpool.Text.{Text, decimal, text}

-- struct.unpack('!I', s[i * 4 : (i + 1) * 4])[0] for each whole word; what is left over at the end
-- is ignored.
unfoldable pub numbers : Text → List ℕ
numbers (a ∷ b ∷ c ∷ d ∷ s) = word_of a b c d ∷ numbers s
numbers _ = []

-- The lines printed, for the client's address as str shows it, and the bytes that come before the
-- end of the stream: rfile.read(1024) gives 1024 of them or all.
unfoldable pub handle : Text → Text → List Text
unfolding numbers
handle client_address stream =
    (text "...connected from: " ++ client_address) ∷ map decimal (numbers (take 1024 stream))
