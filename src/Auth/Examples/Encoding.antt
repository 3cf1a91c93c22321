-- ===== src/Auth/Examples/Encoding.antt =====
-- A text for every JSON value that is read back: a program for a machine with a stack, in pairs of an
-- instruction and its operand.
use artifact_dev_toolkit.Common.{
  ℕ, ◌≡◌, refl, ap, ◌∙◌, true, false, Option, none, some, List, [], ◌∷◌, ◌==◌, if◌then◌else◌,
}
use artifact_dev_toolkit.Common.Text.{Text, is_truthy}
use artifact_dev_toolkit.Common.Json.{
  Json, null, bool, num, text, array, object, Items, nil, cons, Fields, end, field,
}
use artifact_dev_toolkit.Auth.Sessions.Codec.{JsonText}
use artifact_dev_toolkit.Auth.Sessions.RoundTrip.{IsCodec}

pub data Cell : Type 0 where
  value : Json → Cell
  items : Items → Cell
  fields : Fields → Cell
  string : Text → Cell

abbrev Stack : Type 0
Stack = List Cell

abbrev add_char : ℕ → Stack → Stack
add_char c (string s ∷ stack) = string (c ∷ s) ∷ stack
add_char c stack = stack

abbrev close_text : Stack → Stack
close_text (string s ∷ stack) = value (text s) ∷ stack
close_text stack = stack

abbrev add_item : Stack → Stack
add_item (value v ∷ items vs ∷ stack) = items (cons v vs) ∷ stack
add_item stack = stack

abbrev close_array : Stack → Stack
close_array (items vs ∷ stack) = value (array vs) ∷ stack
close_array stack = stack

abbrev add_field : Stack → Stack
add_field (string s ∷ value v ∷ fields fs ∷ stack) = fields (field s v fs) ∷ stack
add_field stack = stack

abbrev close_object : Stack → Stack
close_object (fields fs ∷ stack) = value (object fs) ∷ stack
close_object stack = stack

abbrev step : ℕ → ℕ → Stack → Stack
step instruction operand stack =
    if instruction == 0
    then value null ∷ stack
    else if instruction == 1
    then value (bool (operand == 1)) ∷ stack
    else if instruction == 2
    then value (num operand) ∷ stack
    else if instruction == 3
    then string [] ∷ stack
    else if instruction == 4
    then add_char operand stack
    else if instruction == 5
    then close_text stack
    else if instruction == 6
    then items nil ∷ stack
    else if instruction == 7
    then add_item stack
    else if instruction == 8
    then close_array stack
    else if instruction == 9
    then fields end ∷ stack
    else if instruction == 10
    then add_field stack
    else close_object stack

unfoldable execute : Text → Stack → Stack
execute (instruction ∷ operand ∷ rest) stack = execute rest (step instruction operand stack)
execute _ stack = stack

unfoldable write_text : Text → Text → Text
write_text [] rest = 3 ∷ 0 ∷ rest
write_text (c ∷ s) rest = write_text s (4 ∷ c ∷ rest)

unfoldable mutual
  write : Json → Text → Text
  write null rest = 0 ∷ 0 ∷ rest
  write (bool false) rest = 1 ∷ 0 ∷ rest
  write (bool true) rest = 1 ∷ 1 ∷ rest
  write (num n) rest = 2 ∷ n ∷ rest
  write (text s) rest = write_text s (5 ∷ 0 ∷ rest)
  write (array vs) rest = write_items vs (8 ∷ 0 ∷ rest)
  write (object fs) rest = write_fields fs (11 ∷ 0 ∷ rest)

  write_items : Items → Text → Text
  write_items nil rest = 6 ∷ 0 ∷ rest
  write_items (cons v vs) rest = write_items vs (write v (7 ∷ 0 ∷ rest))

  write_fields : Fields → Text → Text
  write_fields end rest = 9 ∷ 0 ∷ rest
  write_fields (field s v fs) rest = write_fields fs (write v (write_text s (10 ∷ 0 ∷ rest)))

abbrev top : Stack → Option Json
top (value v ∷ stack) = some v
top _ = none

unfoldable pub write_json : Json → Text
unfolding write write_items write_fields write_text
write_json v = write v []

unfoldable pub read_json : Text → Option Json
unfolding execute
read_json s = top (execute s [])

abbrev pub stack_json : JsonText
stack_json = record { stringify = write_json; parse = read_json }

execute-write_text :
    (s rest : Text) (stack : Stack)
    → execute (write_text s rest) stack ≡ execute rest (string s ∷ stack)
unfolding execute write_text
execute-write_text [] rest stack = refl
execute-write_text (c ∷ s) rest stack = execute-write_text s (4 ∷ c ∷ rest) stack

mutual
  unfolding execute write

  execute-write :
      (v : Json) (rest : Text) (stack : Stack)
      → execute (write v rest) stack ≡ execute rest (value v ∷ stack)
  execute-write null rest stack = refl
  execute-write (bool false) rest stack = refl
  execute-write (bool true) rest stack = refl
  execute-write (num n) rest stack = refl
  execute-write (text s) rest stack = execute-write_text s (5 ∷ 0 ∷ rest) stack
  execute-write (array vs) rest stack = execute-write_items vs (8 ∷ 0 ∷ rest) stack
  execute-write (object fs) rest stack = execute-write_fields fs (11 ∷ 0 ∷ rest) stack

  execute-write_items :
      (vs : Items) (rest : Text) (stack : Stack)
      → execute (write_items vs rest) stack ≡ execute rest (items vs ∷ stack)
  execute-write_items nil rest stack = refl
  execute-write_items (cons v vs) rest stack =
      execute-write_items vs (write v (7 ∷ 0 ∷ rest)) stack
      ∙ execute-write v (7 ∷ 0 ∷ rest) (items vs ∷ stack)

  execute-write_fields :
      (fs : Fields) (rest : Text) (stack : Stack)
      → execute (write_fields fs rest) stack ≡ execute rest (fields fs ∷ stack)
  execute-write_fields end rest stack = refl
  execute-write_fields (field s v fs) rest stack =
      execute-write_fields fs (write v (write_text s (10 ∷ 0 ∷ rest))) stack
      ∙ execute-write v (write_text s (10 ∷ 0 ∷ rest)) (fields fs ∷ stack)
      ∙ execute-write_text s (10 ∷ 0 ∷ rest) (value v ∷ fields fs ∷ stack)

reads_back : (v : Json) → read_json (write_json v) ≡ some v
unfolding execute read_json write_json
reads_back v = ap top (execute-write v [] [])

-- An empty text leaves an empty stack, on which there is no value.
full_of_text : (s : Text) (v : Json) → read_json s ≡ some v → is_truthy s ≡ true
unfolding read_json execute
full_of_text [] v h = cc
full_of_text (c ∷ s) v h = refl

not_empty : (v : Json) → is_truthy (write_json v) ≡ true
not_empty v = full_of_text (write_json v) v (reads_back v)

pub stack_json-IsCodec : IsCodec stack_json
stack_json-IsCodec = record { reads_back = reads_back; not_empty = not_empty }
