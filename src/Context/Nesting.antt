-- ===== src/Context/Nesting.antt =====
-- Scopes that are destroyed in the reverse order of their construction.
use ngin_log.Base.{
  ℕ, zero, suc, ◌-◌, ◌≤◌, List, [], ◌∷◌, ◌++◌, arith, length, replicate, length-append,
  take-append_length, take_all, ◌≡◌, refl, ◌∙◌,
}
use mathlib.Core.List.{append-nil}
use ngin_log.Context.{
  ContextAttribute, blank, Storage, resize, push_log_context, move_construct, destroy,
  ScopedLogContext,
}

-- What a thread does, block by block: it dispatches a record, or opens a scope, does what is inside
-- it and goes on behind it. At any time it may move the object of an open scope, counted from the
-- innermost, into a new object by the move constructor, as where a function returns it or a container
-- takes it; the object that it came from is destroyed at once. There is no move assignment.
pub data Blocks : Type 0 where
  done : Blocks
  dispatches : Blocks → Blocks
  moves : ℕ → Blocks → Blocks
  scope : List ContextAttribute → Blocks → Blocks → Blocks

-- A move of one of the open scopes' objects, the innermost first.
unfoldable pub move : ℕ → List ScopedLogContext → Storage → List ScopedLogContext × Storage
unfolding move_construct destroy
move n [] storage = ([], storage)
move zero (s ∷ held) storage =
    let (t, emptied) = move_construct s in (t ∷ held, destroy emptied storage)
move (suc n) (s ∷ held) storage = let (moved, after) = move n held storage in (s ∷ moved, after)

-- The end of the innermost scope.
unfoldable pub close : List ScopedLogContext → Storage → List ScopedLogContext × Storage
unfolding destroy
close [] storage = ([], storage)
close (s ∷ held) storage = (held, destroy s storage)

-- The contexts that the dispatched records see, in order, and then the objects of the open scopes and
-- the storage at the end.
unfoldable pub run :
    Blocks → List ScopedLogContext → Storage → List Storage × List ScopedLogContext × Storage
unfolding push_log_context move close
run done held storage = ([], held, storage)
run (dispatches rest) held storage =
    let (seen, left, end) = run rest held storage in (storage ∷ seen, left, end)
run (moves n rest) held storage = let (moved, after) = move n held storage in run rest moved after
run (scope attributes inside rest) held storage =
    let (s, opened) = push_log_context storage attributes in
    let (seen, inner, closing) = run inside (s ∷ held) opened in
    let (outer, closed) = close inner closing in
    let (later, left, end) = run rest outer closed in (seen ++ later, left, end)

-- What they should see: the attributes of the enclosing scopes, outer before inner.
unfoldable pub enclosing : Storage → Blocks → List Storage
enclosing outer done = []
enclosing outer (dispatches rest) = outer ∷ enclosing outer rest
enclosing outer (moves n rest) = enclosing outer rest
enclosing outer (scope attributes inside rest) =
    enclosing (outer ++ attributes) inside ++ enclosing outer rest

pub resize-append : (storage more : Storage) → resize (length storage) (storage ++ more) ≡ storage
unfolding resize
resize-append storage more =
    let z : length storage - length (storage ++ more) ≡ 0 =
      omega (arith, length-append storage more) in
    rw z (append-nil _ ∙ take-append_length storage more (length storage) refl)

pub resize_grow :
    (n : ℕ) (storage : Storage)
    → length storage ≤ n
    → resize n storage ≡ storage ++ replicate (n - length storage) blank
unfolding resize
resize_grow n storage h = rw (take_all n storage h)

move_same :
    (n : ℕ) (held : List ScopedLogContext) (storage : Storage)
    → move n held storage ≡ (held, storage)
unfolding move move_construct destroy
move_same n [] storage = refl
move_same zero (s ∷ held) storage = refl
move_same (suc n) (s ∷ held) storage = rw (move_same n held storage)

-- Scopes are opened and closed in any nesting, and the objects of the open ones are moved by the move
-- constructor, any of them at any time and any number of times, each object that is moved from being destroyed at
-- once. Every record dispatched sees the attributes of its enclosing scopes, outer before inner, behind those
-- that the thread had before; and at the end the open scopes and the thread's context are what they were.
pub run-enclosing :
    (b : Blocks) (held : List ScopedLogContext) (storage : Storage)
    → run b held storage ≡ (enclosing storage b, held, storage)
unfolding run enclosing push_log_context destroy close
run-enclosing done held storage = refl
run-enclosing (dispatches rest) held storage = rw (run-enclosing rest held storage)
run-enclosing (moves n rest) held storage =
    rw (move_same n held storage) (run-enclosing rest held storage)
run-enclosing (scope attributes inside rest) held storage =
    let s = (push_log_context storage attributes).0 in
    rw (
      run-enclosing inside (s ∷ held) (storage ++ attributes),
      resize-append storage attributes,
      run-enclosing rest held storage,
    )
