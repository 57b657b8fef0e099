-- ===== src/Context/Moves.antt =====
-- Scope objects that are moved, and two that cut or fill the storage of others.
use ngin_log.Base.{◌-◌, List, [], ◌++◌, arith, length, replicate, length-append, ◌≡◌, ◌∙◌}
use mathlib.Core.List.{append_assoc}
use ngin_log.Context.{
  ContextAttribute, Storage, blank, default_scope, resize, push_log_context, destroy, move_assign,
}
use ngin_log.Context.Nesting.{resize-append, resize_grow}

-- Destroying a default-constructed scope, which was never pushed, empties the thread's context,
-- whatever enclosing scopes put there.
pub destroy-default_scope : (storage : Storage) → destroy default_scope storage ≡ []
unfolding destroy
destroy-default_scope storage = let z : 0 - length storage ≡ 0 = omega arith in rw z

-- Assigning a new scope to the variable that holds the last one (`s = PushLogContext(b)` where `s`
-- holds `a`) takes the attributes of both out of the context; and destroying the variable then
-- leaves as many blank attributes behind as the first scope had.
pub move_assign_leaks :
    (storage : Storage) (a b : List ContextAttribute)
    → let (s, one) = push_log_context storage a in
      let (t, both) = push_log_context one b in
      let (s', _, after) = move_assign s t both in
      (after ≡ storage) × (destroy s' after ≡ storage ++ replicate (length a) blank)
unfolding push_log_context move_assign destroy
move_assign_leaks storage a b =
    let cut : resize (length storage) (storage ++ a ++ b) ≡ storage =
      rw append_assoc (resize-append storage (a ++ b)) in
    let grown : length (storage ++ a) - length storage ≡ length a =
      omega (arith, length-append storage a) in
    (
      cut,
      rw cut (
          resize_grow (length (storage ++ a)) storage (omega (arith, length-append storage a))
          ∙ (rw grown)),
    )
