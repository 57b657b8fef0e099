-- ===== src/Files/RotatingFileSink/Due.antt =====
-- When `Write` rotates a sound sink, and the day that it keeps.
use ngin_log.Base.{
  ℕ, Bool, true, false, not, ◌&&◌, ◌||◌, Bytes, arith, if◌then◌else◌, ◌≡◌, ◌⊎◌, inl, inr, refl, sym,
  ap, ap₂, ◌∙◌, Bool-cases,
}
use ngin_log.Base.Int.{ℤ, negsuc}
use ngin_log.Types.{LogRecordView}
use ngin_log.Format.Text.{int_eq}
use ngin_log.Files.{Stream}
use ngin_log.Files.RotatingFileSink.{
  RotatingFileSink, make_local_date_key, should_rotate_by_key, should_rotate_by_date_locked,
  too_large, rotate_locked, rotate_if_due,
}
use ngin_log.Files.RotatingFileSink.Rotated.{IsSound, rotated, rotate_locked_eq}

-- A known day, and another one after it.
abbrev pub new_day : ℤ → ℤ → Bool
new_day key last = not (int_eq last (negsuc 0)) && not (int_eq key last)

-- The record calls for a rotation.
abbrev pub is_due : {F : Type 0} → (ℕ → ℕ × ℕ) → LogRecordView → Bytes → RotatingFileSink F → Bool
is_due localtime r line s =
    too_large line s
    || (s.options.rotate_daily_local
        && new_day (make_local_date_key localtime r.timestamp) s.last_local_date_key)

-- The day that the sink keeps: the size is looked at before the day, which is then not taken over.
abbrev pub day_after : {F : Type 0} → (ℕ → ℕ × ℕ) → LogRecordView → Bytes → RotatingFileSink F → ℤ
day_after localtime r line s =
    if too_large line s
    then s.last_local_date_key
    else if s.options.rotate_daily_local
    then make_local_date_key localtime r.timestamp
    else s.last_local_date_key

pub int_eq→eq : (a b : ℤ) → int_eq a b ≡ true → a ≡ b
int_eq→eq a b e = ground arith

pub cond_true : {A : Type 0} (x y : A) {b : Bool} → b ≡ true → (if b then x else y) ≡ x
cond_true x y e = rw e refl

pub cond_false : {A : Type 0} (x y : A) {b : Bool} → b ≡ false → (if b then x else y) ≡ y
cond_false x y e = rw e refl

module _ {F : Type 0} where
  abbrev pub with_key : RotatingFileSink F → ℤ → RotatingFileSink F
  with_key s key = record s { last_local_date_key = key }

  pub with_key-IsSound :
      (s : RotatingFileSink F) (st : Stream) (key : ℤ) → IsSound s st → IsSound (with_key s key) st
  with_key-IsSound s st key v = record {
    open_ = v.open_;
    linked = v.linked;
    identified = v.identified;
    made = v.made;
    apart = v.apart;
    counted = v.counted;
    can_open = v.can_open;
    can_rename = v.can_rename;
  }

  by_key_cases :
      (key : ℤ) (s : RotatingFileSink F)
      → should_rotate_by_key key s ≡ (new_day key s.last_local_date_key, with_key s key)
  unfolding should_rotate_by_key
  by_key_cases key s = elim (Bool-cases (int_eq s.last_local_date_key (negsuc 0))) [
    | inl f ↦
        cond_true _ _ f
        ∙ ap (λ b. (not b && not (int_eq key s.last_local_date_key), with_key s key)) (sym f)
    | inr f ↦ elim (Bool-cases (int_eq key s.last_local_date_key)) [
      | inl g ↦
          cond_false _ _ f
          ∙ cond_false _ _ (ap not g)
          ∙ ap₂ (λ b k. (b, with_key s k)) (ap₂ (λ x y. not x && not y) (sym f) (sym g))
              (sym (int_eq→eq key s.last_local_date_key g))
      | inr g ↦
          cond_false _ _ f
          ∙ cond_true _ _ (ap not g)
          ∙ ap (λ b. (b, with_key s key)) (ap₂ (λ x y. not x && not y) (sym f) (sym g))
    ]
  ]

  -- The test of the date, behind a size that does not call for a rotation.
  should_rotate_cases :
      (localtime : ℕ → ℕ × ℕ) (r : LogRecordView) (line : Bytes) (s : RotatingFileSink F)
      → too_large line s ≡ false
      → should_rotate_by_date_locked localtime r s
        ≡ (is_due localtime r line s, with_key s (day_after localtime r line s))
  unfolding should_rotate_by_date_locked
  should_rotate_cases localtime r line s small =
      let key = make_local_date_key localtime r.timestamp in
      let n = new_day key s.last_local_date_key in
      let result : Bool → Bool → Bool × RotatingFileSink F = λ t d. (
        t || (d && n),
        with_key s (if t then s.last_local_date_key else if d then key else s.last_local_date_key),
      ) in
      elim (Bool-cases s.options.rotate_daily_local) [
        | inl f ↦ cond_true _ _ f ∙ by_key_cases key s ∙ ap₂ result (sym small) (sym f)
        | inr f ↦ cond_false _ _ f ∙ ap₂ result (sym small) (sym f)
      ]

  -- A write rotates at most once, and otherwise sets no more than the day.
  pub due_cases :
      (localtime : ℕ → ℕ × ℕ) (r : LogRecordView) (line : Bytes) (s : RotatingFileSink F)
      (st : Stream)
      → IsSound s st
      → (v : IsSound (with_key s (day_after localtime r line s)) st) × ((is_due localtime r line s
              ≡ false)
            × (rotate_if_due localtime r line s ≡ with_key s (day_after localtime r line s))
          ⊎ (is_due localtime r line s ≡ true)
            × (rotate_if_due localtime r line s
                ≡ rotated (with_key s (day_after localtime r line s)) st v))
  unfolding rotate_if_due
  due_cases localtime r line s st v =
      let key = day_after localtime r line s in
      let w = with_key-IsSound s st key v in
      (
        w,
        elim (Bool-cases (too_large line s)) [
          | inl t ↦
              let kept : s ≡ with_key s key = ap (with_key s) (sym (cond_true _ _ t)) in
              inr (
                ap
                    (λ b.
                      b
                      || (s.options.rotate_daily_local
                          && new_day (make_local_date_key localtime r.timestamp)
                              s.last_local_date_key))
                    t,
                cond_true _ _ t
                    ∙ ap (λ u. (rotate_locked u).1) kept
                    ∙ ap (λ p. p.1) (rotate_locked_eq (with_key s key) st w),
              )
          | inr t ↦
              let e = should_rotate_cases localtime r line s t in
              let go : rotate_if_due localtime r line s ≡ (
                  if is_due localtime r line s
                  then (rotate_locked (with_key s key)).1
                  else with_key s key) =
                cond_false _ _ t
                ∙ ap (λ (p : Bool × RotatingFileSink F). if p.0 then (rotate_locked p.1).1 else p.1)
                    e in
              elim (Bool-cases (is_due localtime r line s)) [
                | inl f ↦ inr (
                  f,
                  go ∙ cond_true _ _ f ∙ ap (λ p. p.1) (rotate_locked_eq (with_key s key) st w),
                )
                | inr f ↦ inl (f, go ∙ cond_false _ _ f)
              ]
        ],
      )
