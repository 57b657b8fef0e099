-- ===== src/Tests/Records.antt =====
-- Runs of the record builder, its text pools and the scoped context.
use ngin_log.Base.{
  List, ◌<◌, ◌-◌, ◌≤◌, ◌%◌, ◌+◌, ◌^◌, [], ◌∷◌, ◌++◌, ◌≡◌, refl, arith, replicate, length, Bytes,
}
use ngin_log.Base.Int.{pos}
use ngin_log.Level.{codes}
use ngin_log.Types.{default, max_attributes, tag}
use ngin_log.Types.Arena
use ngin_log.Types.Arena.{Arena, View, copy_text, read}
use ngin_log.Builder.{
  RecordBuilder, new, message, attr, append_attribute, normalize_value, get_message, get_attributes,
  signed, string_view, pointer,
}
use ngin_log.Builder.Validity
use ngin_log.Builder.Validity.{new-IsValid, message-IsValid, attr-IsValid}
use ngin_log.Builder
use ngin_log.Builder.Contents.{
  room, room_for_key, text_length, meaning, attr_lem, attr_full, recorded,
}
use ngin_log.Context.{destroy, default_scope, push_log_context, move_assign, blank}
use ngin_log.Context.Nesting.{Blocks, done, dispatches, moves, scope, run, enclosing, run-enclosing}
use ngin_log.Context.Moves.{destroy-default_scope, move_assign_leaks}
use ngin_log.Tests.{with_numbers, more_keys, one_attribute, eight_attributes, a_context}

abbrev six_bytes : Arena
six_bytes = Arena.fresh 6

six_bytes-IsValid : Arena.IsValid 6 six_bytes
six_bytes-IsValid = Arena.fresh-IsValid 6 (omega arith)

-- The pool after one text, and what that text's view shows after a second.
abbrev used_pool : Arena
used_pool = (copy_text 6 six_bytes (codes "ab")).1

used_pool-IsValid :
    Arena.IsValid 6 used_pool
    × (0 ≤ used_pool.used)
    × Arena.IsInside used_pool (copy_text 6 six_bytes (codes "ab")).0
used_pool-IsValid = Arena.copy_text-IsValid 6 six_bytes six_bytes-IsValid (codes "ab")

abbrev long_message : Bytes
long_message = replicate 520 b'm'

one_attribute-IsValid : Validity.IsValid one_attribute
one_attribute-IsValid =
    attr-IsValid new (codes "user") (string_view (codes "ann")) default new-IsValid

with_numbers-IsValid :
    (keys : List Bytes) (b : RecordBuilder)
    → Validity.IsValid b
    → Validity.IsValid (with_numbers keys b)
with_numbers-IsValid [] b v = v
with_numbers-IsValid (key ∷ keys) b v =
    with_numbers-IsValid keys (attr b key (signed (pos 2)) default)
      (attr-IsValid b key (signed (pos 2)) default v)

attr-IsValid_example : Validity.IsValid (attr one_attribute (codes "at") (pointer 255) tag)
attr-IsValid_example =
    attr-IsValid one_attribute (codes "at") (pointer 255) tag one_attribute-IsValid

room_in_one : length one_attribute.attributes < max_attributes
unfolding attr append_attribute normalize_value Builder.copy_text
room_in_one = omega arith

attr_lem_example :
    (get_attributes (attr one_attribute (codes "at") (pointer 255) tag)
      ≡ get_attributes one_attribute ++ recorded one_attribute (codes "at") (pointer 255) tag ∷ [])
    × ((attr one_attribute (codes "at") (pointer 255) tag).pool.truncated_bytes
        ≡ (one_attribute.pool.truncated_bytes
            + (text_length (meaning (pointer 255)) - room one_attribute)
            + (length (codes "at") - room_for_key one_attribute (pointer 255)))
          % 2 ^ 32)
attr_lem_example =
    attr_lem one_attribute (codes "at") (pointer 255) tag one_attribute-IsValid room_in_one

eight : length eight_attributes.attributes ≡ max_attributes
unfolding attr append_attribute normalize_value Builder.copy_text
eight = refl

eight_attributes-IsValid : Validity.IsValid eight_attributes
eight_attributes-IsValid = with_numbers-IsValid more_keys one_attribute one_attribute-IsValid

-- A ninth attribute, of a key that is there: it does not replace the first.
attr_full_example :
    (get_attributes (attr eight_attributes (codes "user") (signed (pos 1)) tag)
      ≡ get_attributes eight_attributes)
    × ((attr eight_attributes (codes "user") (signed (pos 1)) tag).truncated_attribute_count
        ≡ (eight_attributes.truncated_attribute_count + 1) % 2 ^ 32)
attr_full_example =
    attr_full eight_attributes (codes "user") (signed (pos 1)) tag eight_attributes-IsValid eight

-- Two nested scopes, of which the outer is moved inside the inner, and the inner twice.
abbrev some_blocks : Blocks
some_blocks =
    scope a_context
      (dispatches (scope a_context (moves 1 (dispatches (moves 0 (moves 0 done)))) (moves 0 done)))
      (dispatches done)

run-enclosing_example :
    run some_blocks [] [] ≡ (a_context ∷ (a_context ++ a_context) ∷ [] ∷ [], [], [])
unfolding enclosing
run-enclosing_example = run-enclosing some_blocks [] []

destroy-default_scope_example : destroy default_scope a_context ≡ []
destroy-default_scope_example = destroy-default_scope a_context

move_assign_leaks_example :
    let (s, one) = push_log_context [] a_context in
    let (t, both) = push_log_context one a_context in
    let (s', _, after) = move_assign s t both in
    (after ≡ []) × (destroy s' after ≡ blank ∷ blank ∷ [])
move_assign_leaks_example = move_assign_leaks [] a_context a_context
