-- ===== src/Logger/Offered.antt =====
-- What the merge of a record is offered, and what it makes of it.
use ngin_log.Base.{
  List, [], ◌∷◌, ◌++◌, Bytes, leb, length, ◌≡◌, inl, inr, subst, ap, ◌∙◌, Bool-cases, Option-cases,
}
use mathlib.Core.List.{append_assoc, append-nil}
use ngin_log.Types.{max_attributes, LogAttribute, default}
use ngin_log.Types.Arena
use ngin_log.Types.Arena.{Arena}
use ngin_log.Builder.{RecordBuilder, get_attributes}
use ngin_log.Context.{ContextAttribute}
use ngin_log.Logger.{
  Merged, context_pool_bytes, copy_context_text, copy_context_value, replace, append_or_replace,
  merge_context, merge_attributes, merge,
}
use ngin_log.Logger.Merge.{
  IsMergeOf, offered_replaced, offered_full, offered_added, nothing_offered,
}

-- The context's attributes as they come out of the text pool, each key before its value.
pub copied : Arena → List ContextAttribute → List (LogAttribute Bytes)
copied a [] = []
copied a (c ∷ cs) =
    let (key, a') = copy_context_text a c.key in
    let (value, a'') = copy_context_value a' c.value in
    record { key = key; value = value; kind = default } ∷ copied a'' cs

append_or_replace-IsMergeOf :
    (m : Merged) (offered : List (LogAttribute Bytes)) (x : LogAttribute Bytes)
    → IsMergeOf offered m.attributes
    → IsMergeOf (offered ++ x ∷ []) (append_or_replace m x).attributes
unfolding append_or_replace
append_or_replace-IsMergeOf m offered x g = elim (Option-cases (replace x m.attributes)) [
  | inl missing ↦ elim (Bool-cases (leb max_attributes (length m.attributes))) [
    | inl full ↦
        rw (missing, append_or_replace, full) (offered_full offered m.attributes x g missing full)
    | inr room ↦
        rw (missing, append_or_replace, room) (offered_added offered m.attributes x g missing room)
  ]
  | inr (ys, found) ↦
      rw (found, append_or_replace) (offered_replaced offered m.attributes ys x g found)
]

pool-append_or_replace :
    (m : Merged) (x : LogAttribute Bytes) → (append_or_replace m x).pool ≡ m.pool
unfolding append_or_replace
pool-append_or_replace m x = elim (Option-cases (replace x m.attributes)) [
  | inl missing ↦ elim (Bool-cases (leb max_attributes (length m.attributes))) [
    | inl full ↦ rw (missing, append_or_replace, full)
    | inr room ↦ rw (missing, append_or_replace, room)
  ]
  | inr (ys, found) ↦ rw (found, append_or_replace)
]

merge_context-IsMergeOf :
    (cs : List ContextAttribute) (m : Merged) (offered : List (LogAttribute Bytes))
    → IsMergeOf offered m.attributes
    → IsMergeOf (offered ++ copied m.pool cs) (merge_context m cs).attributes
unfolding merge_context copied
merge_context-IsMergeOf [] m offered g = rw append-nil g
merge_context-IsMergeOf (c ∷ cs) m offered g =
    let (key, a') = copy_context_text m.pool c.key in
    let (value, a'') = copy_context_value a' c.value in
    let x : LogAttribute Bytes = record { key = key; value = value; kind = default } in
    let next = append_or_replace (record m { pool = a'' }) x in
    let one = append_or_replace-IsMergeOf (record m { pool = a'' }) offered x g in
    let rest = merge_context-IsMergeOf cs next (offered ++ x ∷ []) one in
    subst (λ l. IsMergeOf l (merge_context next cs).attributes)
      (append_assoc offered (x ∷ []) (copied next.pool cs)
        ∙ ap (λ a. offered ++ x ∷ copied a cs) (pool-append_or_replace (record m { pool = a'' }) x))
      rest

merge_attributes-IsMergeOf :
    (xs : List (LogAttribute Bytes)) (m : Merged) (offered : List (LogAttribute Bytes))
    → IsMergeOf offered m.attributes
    → IsMergeOf (offered ++ xs) (merge_attributes m xs).attributes
unfolding merge_attributes
merge_attributes-IsMergeOf [] m offered g = rw append-nil g
merge_attributes-IsMergeOf (x ∷ xs) m offered g =
    subst (λ l. IsMergeOf l (merge_attributes (append_or_replace m x) xs).attributes)
      (append_assoc offered (x ∷ []) xs)
      (merge_attributes-IsMergeOf xs (append_or_replace m x) (offered ++ x ∷ [])
        (append_or_replace-IsMergeOf m offered x g))

-- The attributes of a dispatched record are the merge of the thread's context, as the text pool
-- holds it, and then the builder's attributes: at most eight, no key twice, and for each key the
-- attribute offered last, but for keys that a full list of eight leaves out.
pub merge-IsMergeOf :
    (context : List ContextAttribute) (b : RecordBuilder)
    → IsMergeOf
        (copied
            (record (Arena.fresh context_pool_bytes) { truncated_bytes = b.pool.truncated_bytes })
            context
          ++ get_attributes b)
        (merge context b).attributes
unfolding merge
merge-IsMergeOf context b =
    let pool = record (Arena.fresh context_pool_bytes) {
      truncated_bytes = b.pool.truncated_bytes;
    } in
    let m : Merged = record {
      attributes = [];
      pool = pool;
      truncated_attribute_count = b.truncated_attribute_count;
    } in
    merge_attributes-IsMergeOf (get_attributes b) (merge_context m context) (copied pool context)
      (merge_context-IsMergeOf context m [] nothing_offered)
