-- ===== src/Agent/LogTail/Example.antt =====
-- A log in three writes.
use yokai.Prelude.{String, concat, ◌≡◌, List, [], ◌∷◌, Option, some, pos, eqb, if◌then◌else◌, refl}
use yokai.Deployments.Errors.{Err, plain}
use yokai.Agent.LogTail.{Bytes, new_writer, write_all, write, discard_partial_line}
use yokai.Agent.LogTail.Refine.{joined, IsTailOf, new_writer-IsTailOf}

-- "hello", "one\r" and "\ntwo"
abbrev chunks : List Bytes
chunks =
    (104 ∷ 101 ∷ 108 ∷ 108 ∷ 111 ∷ [])
    ∷ (111 ∷ 110 ∷ 101 ∷ 13 ∷ [])
    ∷ (10 ∷ 116 ∷ 119 ∷ 111 ∷ [])
    ∷ []

abbrev text_of : Bytes → String
text_of [] = ""
text_of (b ∷ bs) = concat ((if eqb b 10 then "\n" else "x") ∷ text_of bs ∷ [])

abbrev failed : Option Err
failed = some (plain "exit status 1")

last_bytes : (write_all (new_writer (pos 6)) chunks).buffer ≡ 101 ∷ 13 ∷ 10 ∷ 116 ∷ 119 ∷ 111 ∷ []
unfolding write_all write
last_bytes = refl

whole_line : discard_partial_line (101 ∷ 13 ∷ 10 ∷ 116 ∷ 119 ∷ 111 ∷ []) ≡ 116 ∷ 119 ∷ 111 ∷ []
unfolding discard_partial_line
whole_line = refl

new_writer-IsTailOf_example :
    ((write_all (new_writer (pos 6)) chunks).limit ≡ 6)
    × IsTailOf (joined chunks) (write_all (new_writer (pos 6)) chunks)
new_writer-IsTailOf_example = new_writer-IsTailOf 6 chunks
