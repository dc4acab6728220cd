-- ===== src/Tests/Dump.antt =====
-- Tests of cmd_exec::dump and of the private data.
use hiredis_happ.Common.{◌≡◌, refl, [], ◌∷◌, none, some, pos, negsuc}
use hiredis_happ.Memory.{
  Reply, reply, reply_array, reply_integer, reply_string, reply_status, done, null_elem, elem,
}
use hiredis_happ.Cmd.Dump.{
  digits, print_number, spaces, pad, text_line, element_prefix, dump_reply, dump,
}
use hiredis_happ.Cmd.Dump.Lines.{Writes, dump_lem}
use hiredis_happ.Cmd.Access.{private_data, set_private_data}
use hiredis_happ.Tests.{foo, heap}

-- An array of the string "foo", a null pointer, and an array of -12.
abbrev tree : Reply
tree = reply reply_array (pos 0) none (
    elem (reply reply_string (pos 0) (some foo) done) (
      null_elem (
        elem
          (reply reply_array (pos 0) none (elem (reply reply_integer (negsuc 11) none done) done))
          done)))

dump_lem_example : Writes (dump (some tree) 0) 4
dump_lem_example =
    dump_lem 0 tree (record { text = foo; there = refl; plain = refl }, ((tt, tt), tt))

-- "-12", and the line of the second element at an indent of two.
number_twelve : print_number (negsuc 11) ≡ b'-' ∷ b'1' ∷ b'2' ∷ []
unfolding print_number digits
number_twelve = refl

second_prefix :
    element_prefix 2 2
    ≡ b' ' ∷ b' ' ∷ b' ' ∷ b' ' ∷ b' ' ∷ b' ' ∷ b' ' ∷ b' ' ∷ b'2' ∷ b':' ∷ b' ' ∷ []
unfolding element_prefix pad spaces print_number digits
second_prefix = refl

-- A text that is null is written.
null_text : dump (some (reply reply_status (pos 0) none done)) 0 ≡ none
unfolding dump dump_reply text_line
null_text = refl

-- The private data that is set is read.
private_data_set :
    (elim (set_private_data 0 8 heap) [ none ↦ none | some (u, m) ↦ private_data 0 m ])
    ≡ elim (set_private_data 0 8 heap) [ none ↦ none | some (u, m) ↦ some (8, m) ]
unfolding private_data set_private_data
private_data_set = refl
