-- ===== src/Files/RotatingFileSink/Archive.antt =====
-- The bytes that a sink keeps, across its files, and their order.
use ngin_log.Base.{
  ℕ, zero, suc, ◌≤◌, ◌<◌, Bool, ◌++◌, Bytes, arith, ◌≡◌, ◌⊎◌, inl, inr, refl, sym, ap, ap₂, subst,
  ◌∙◌,
}
use mathlib.Core.List.{append_assoc, append-nil}
use ngin_log.Base.Int.{ℤ}
use ngin_log.Files.{Stream}
use ngin_log.Files.RotatingFileSink.{RotatingFileSink, rotate_locked}
use ngin_log.Files.RotatingFileSink.Put.{IsAppended}
use ngin_log.Files.RotatingFileSink.Rotated.{shown_name, IsSound}
use ngin_log.Files.RotatingFileSink.Cases.{IsKept, IsRotated, IsWrite, rotate_locked-IsRotated}

-- What the files show, from the one at the name `n`, which is the oldest, to the current one.
unfoldable pub archive_from : {F : Type 0} → RotatingFileSink F → ℕ → Bytes
archive_from s zero = shown_name s 0
archive_from s (suc n) = shown_name s (suc n) ++ archive_from s n

abbrev pub archive : {F : Type 0} → RotatingFileSink F → Bytes
archive s = archive_from s s.options.max_files

module _ {F : Type 0} where
  pub appended_archive :
      (s u : RotatingFileSink F) (line : Bytes)
      → IsAppended s u line
      → (n : ℕ) → n ≤ s.options.max_files
      → archive_from u n ≡ archive_from s n ++ line
  unfolding archive_from
  appended_archive s u line a zero h = a.current
  appended_archive s u line a (suc n) h =
      ap₂ (λ x y. x ++ y) (a.old n (omega arith)) (appended_archive s u line a n (omega arith))
      ∙ sym (append_assoc (shown_name s (suc n)) (archive_from s n) line)

  kept_archive :
      (s u : RotatingFileSink F) → IsKept s u → (n : ℕ) → archive_from u n ≡ archive_from s n
  unfolding archive_from
  kept_archive s u a zero = a.shows 0
  kept_archive s u a (suc n) = ap₂ (λ x y. x ++ y) (a.shows (suc n)) (kept_archive s u a n)

  rotated_archive :
      (s u : RotatingFileSink F)
      → IsRotated s u
      → (n : ℕ) → n < s.options.max_files
      → archive_from u (suc n) ≡ archive_from s n
  unfolding archive_from
  rotated_archive s u a zero h =
      ap₂ (λ x y. x ++ y) (a.old 0 h) a.current ∙ append-nil (shown_name s 0)
  rotated_archive s u a (suc n) h =
      ap₂ (λ x y. x ++ y) (a.old (suc n) h) (rotated_archive s u a n (omega arith))

  rotated_drops :
      (s u : RotatingFileSink F)
      → IsRotated s u
      → (n : ℕ) → n ≡ s.options.max_files
      → archive_from s n ≡ shown_name s n ++ archive_from u n
  unfolding archive_from
  rotated_drops s u a zero e =
      sym (ap (λ b. shown_name s 0 ++ b) a.current ∙ append-nil (shown_name s 0))
  rotated_drops s u a (suc n) e =
      ap (λ b. shown_name s (suc n) ++ b) (sym (rotated_archive s u a n (omega (arith, e))))

  -- A rotation of a sound sink drops what the oldest file shows from the front of what the files show,
  -- and keeps the rest in its order.
  pub rotate_locked-archive :
      (s : RotatingFileSink F) (st : Stream)
      → IsSound s st
      → archive s ≡ shown_name s s.options.max_files ++ archive (rotate_locked s).1
  rotate_locked-archive s st v =
      let (a, _, _) = rotate_locked-IsRotated s st v in
      rotated_drops s (rotate_locked s).1 a s.options.max_files refl
      ∙ ap (λ o. shown_name s s.options.max_files ++ archive_from (rotate_locked s).1 o.max_files)
          (sym a.options)

  pub write_archive :
      (due : Bool) (day : ℤ) (f : F) (line : Bytes) (s u : RotatingFileSink F)
      → IsWrite due day f line s u
      → (archive s ++ line ≡ archive u)
        ⊎ (archive s ++ line ≡ shown_name s s.options.max_files ++ archive u)
  write_archive due day f line s u w =
      let b = w.before in
      let n = s.options.max_files in
      let grown : b.options ≡ s.options → archive u ≡ archive_from b n ++ line = λ e.
        ap (λ o. archive_from u o.max_files) (w.appended.options ∙ e)
        ∙ appended_archive b u line w.appended n
            (subst (λ o. n ≤ o.max_files) (sym e) (omega arith)) in
      elim w.way [
        | inl (_, a) ↦ inl (sym (grown a.options ∙ ap (λ x. x ++ line) (kept_archive s b a n)))
        | inr (_, a) ↦ inr (
            ap (λ x. x ++ line) (rotated_drops s b a n refl)
            ∙ append_assoc (shown_name s n) (archive_from b n) line
            ∙ ap (λ x. shown_name s n ++ x) (sym (grown a.options)))
      ]
