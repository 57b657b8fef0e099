-- ===== src/Files/RotatingFileSink/Shift.antt =====
-- Where the renames of a rotation put the files.
use ngin_log.Base.{
  ℕ, zero, suc, ◌≤◌, ◌<◌, Bool, true, false, ◌∷◌, ◌++◌, none, Bytes, arith, ltb, if◌then◌else◌,
  length, length-append, drop, drop-append_length, bytes_eq, bytes_eq_iff, bytes_eq_refl, ◌≡◌, ◌≢◌,
  ◌⊎◌, inl, inr, refl, sym, ap, subst, ◌∙◌, Bool-cases, Option-cases,
}
use ngin_log.Base.Digits.{digits, read_onto, read-digits}
use ngin_log.Level.{codes}
use ngin_log.Files.{FileSystem, remove, rename}
use ngin_log.Files.RotatingFileSink.{numbered, move_if_exists, shift_files, rotate_files}

-- The path of the current file, and those of the files behind it.
abbrev pub name : Bytes → ℕ → Bytes
name path zero = path
name path (suc i) = numbered path (suc i)

numbered-injective : (path : Bytes) (i j : ℕ) → numbered path i ≡ numbered path j → i ≡ j
unfolding numbered
numbered-injective path i j e =
    let tail : (b'.' ∷ digits 10 i) ≡ (b'.' ∷ digits 10 j) =
      sym (drop-append_length path (b'.' ∷ digits 10 i) (length path) refl)
      ∙ ap (drop (length path)) e
      ∙ drop-append_length path (b'.' ∷ digits 10 j) (length path) refl in
    let same : digits 10 i ≡ digits 10 j = ap (drop 1) tail in
    sym (read-digits 10 i (omega arith) (omega arith))
    ∙ ap (read_onto 10 0) same
    ∙ read-digits 10 j (omega arith) (omega arith)

path-ne-numbered : (path : Bytes) (i : ℕ) → path ≢ numbered path i
unfolding numbered
path-ne-numbered path i e = omega (arith, ap length e, length-append path (b'.' ∷ digits 10 i))

name-injective : (path : Bytes) (i j : ℕ) → name path i ≡ name path j → i ≡ j
name-injective path zero zero e = refl
name-injective path zero (suc j) e = absurd (path-ne-numbered path (suc j) e)
name-injective path (suc i) zero e = absurd (path-ne-numbered path (suc i) (sym e))
name-injective path (suc i) (suc j) e = numbered-injective path (suc i) (suc j) e

pub name-ne : (path : Bytes) (i j : ℕ) → i ≢ j → bytes_eq (name path i) (name path j) ≡ false
name-ne path i j h = elim (Bool-cases (bytes_eq (name path i) (name path j))) [
  | inl e ↦ absurd (h (name-injective path i j ((bytes_eq_iff (name path i) (name path j)).0 e)))
  | inr e ↦ e
]

-- Every rename is allowed.
abbrev pub CanRename : FileSystem → Type 0
CanRename fs = (from to : Bytes) → fs.can_rename from to ≡ true

-- All but the directory is the same.
pub record SameFiles (fs fs' : FileSystem) : Type 0 where
  pub bytes : fs'.bytes ≡ fs.bytes
  pub next_file : fs'.next_file ≡ fs.next_file
  pub can_open : fs'.can_open ≡ fs.can_open
  pub can_rename : fs'.can_rename ≡ fs.can_rename
  pub spill : fs'.spill ≡ fs.spill

SameFiles-trans : (a b c : FileSystem) → SameFiles a b → SameFiles b c → SameFiles a c
SameFiles-trans a b c h k = record {
  bytes = k.bytes ∙ h.bytes;
  next_file = k.next_file ∙ h.next_file;
  can_open = k.can_open ∙ h.can_open;
  can_rename = k.can_rename ∙ h.can_rename;
  spill = k.spill ∙ h.spill;
}

move-SameFiles : (from to : Bytes) (fs : FileSystem) → SameFiles fs (move_if_exists from to fs)
unfolding move_if_exists rename
move-SameFiles from to fs = elim (Option-cases (fs.entry from)) [
  | inl e ↦
      rw (e, move_if_exists)
        (record {
          bytes = refl;
          next_file = refl;
          can_open = refl;
          can_rename = refl;
          spill = refl;
        })
  | inr (i, e) ↦ elim (Bool-cases (fs.can_rename from to)) [
    | inl c ↦
        rw (e, c, move_if_exists)
          (record {
            bytes = refl;
            next_file = refl;
            can_open = refl;
            can_rename = refl;
            spill = refl;
          })
    | inr c ↦
        rw (e, c, move_if_exists)
          (record {
            bytes = refl;
            next_file = refl;
            can_open = refl;
            can_rename = refl;
            spill = refl;
          })
  ]
]

-- A move to a path that has no file.
move_entry :
    (from to : Bytes) (fs : FileSystem) (q : Bytes)
    → CanRename fs
    → fs.entry to ≡ none
    → (move_if_exists from to fs).entry q
      ≡ (if bytes_eq to q then fs.entry from else if bytes_eq from q then none else fs.entry q)
unfolding move_if_exists rename
move_entry from to fs q c free = elim (Option-cases (fs.entry from)) [
  | inl e ↦
      rw (e, move_if_exists)
        (ground (
          arith,
          bytes_eq_iff to q,
          bytes_eq_iff from q,
          ap fs.entry {x = to} {y = q},
          ap fs.entry {x = from} {y = q},
        ))
  | inr (i, e) ↦ rw (e, c from to, move_if_exists) (rw e refl)
]

-- The loop with the last move, from the name `n` down.
shift_names : Bytes → ℕ → FileSystem → FileSystem
shift_names path zero fs = fs
shift_names path (suc i) fs =
    shift_names path i (move_if_exists (name path i) (name path (suc i)) fs)

shift_files-names :
    (path : Bytes) (i : ℕ) (fs : FileSystem)
    → move_if_exists path (path ++ codes ".1") (shift_files path (suc i) fs)
      ≡ shift_names path (suc i) fs
unfolding shift_files shift_names numbered digits
shift_files-names path zero fs = refl
shift_files-names path (suc i) fs =
    shift_files-names path i
      (move_if_exists (numbered path (suc i)) (numbered path (suc (suc i))) fs)

-- After the renames of a rotation with `n` names behind the current one: each name has the file of the
-- name before it, the current one has none, every other path has the file that it had, and nothing but
-- the directory has changed.
pub record Shifted (path : Bytes) (n : ℕ) (fs fs' : FileSystem) : Type 0 where
  pub shifted : (j : ℕ) → j < n → fs'.entry (name path (suc j)) ≡ fs.entry (name path j)
  pub emptied : fs'.entry path ≡ none
  pub others :
      (q : Bytes) → ((j : ℕ) → j ≤ n → bytes_eq (name path j) q ≡ false) → fs'.entry q ≡ fs.entry q
  pub files : SameFiles fs fs'

lt_cases : (j n : ℕ) → j < suc n → (j < n) ⊎ (j ≡ n)
lt_cases j n h = ground arith

shift_names-Shifted :
    (path : Bytes) (n : ℕ) (fs : FileSystem)
    → CanRename fs
    → fs.entry (name path n) ≡ none
    → Shifted path n fs (shift_names path n fs)
unfolding shift_names
shift_names-Shifted path zero fs c free = record {
  shifted = λ j h. absurd (omega arith);
  emptied = free;
  others = λ q h. refl;
  files = record {
    bytes = refl;
    next_file = refl;
    can_open = refl;
    can_rename = refl;
    spill = refl;
  };
}
shift_names-Shifted path (suc n) fs c free =
    let fs1 = move_if_exists (name path n) (name path (suc n)) fs in
    let moved = λ (q : Bytes). move_entry (name path n) (name path (suc n)) fs q c free in
    let same = move-SameFiles (name path n) (name path (suc n)) fs in
    let gone : fs1.entry (name path n) ≡ none =
      moved (name path n)
      ∙ (rw (name-ne path (suc n) n (λ e. omega (arith, e)), bytes_eq_refl (name path n)) refl) in
    let ih =
      shift_names-Shifted path n fs1
        (λ from to.
          subst (λ (f : Bytes → Bytes → Bool). f from to ≡ true) (sym same.can_rename) (c from to))
        gone in
    record {
      shifted = λ j h. elim (lt_cases j n h) [
        | inl less ↦
            ih.shifted j less
            ∙ moved (name path j)
            ∙ (rw
                (
                  name-ne path (suc n) j (λ e. omega (arith, e)),
                  name-ne path n j (λ e. omega (arith, e)),
                )
                refl)
        | inr e ↦
            subst (λ i. (shift_names path n fs1).entry (name path (suc i)) ≡ fs.entry (name path i))
              (sym e)
              (ih.others (name path (suc n))
                  (λ i hi. name-ne path i (suc n) (λ e. omega (arith, e)))
                ∙ moved (name path (suc n))
                ∙ (rw (bytes_eq_refl (name path (suc n))) refl))
      ];
      emptied = ih.emptied;
      others = λ q h.
          ih.others q (λ j hj. h j (omega arith))
          ∙ moved q
          ∙ (rw (h (suc n) (omega arith), h n (omega arith)) refl);
      files = SameFiles-trans fs fs1 _ same ih.files;
    }

-- A rotation with room for `n` old files, where every rename is allowed, moves each file to the next
-- name: the oldest loses its name, the current path is left without a file, and no other path and no
-- file's bytes are touched.
pub rotate_files-Shifted :
    (path : Bytes) (n : ℕ) (fs : FileSystem)
    → CanRename fs
    → Shifted path n fs (rotate_files path n fs)
unfolding rotate_files remove
rotate_files-Shifted path zero fs c = record {
  shifted = λ j h. absurd (omega arith);
  emptied = rw (bytes_eq_refl path) refl;
  others = λ q h. rw (h 0 (omega arith)) refl;
  files = record {
    bytes = refl;
    next_file = refl;
    can_open = refl;
    can_rename = refl;
    spill = refl;
  };
}
rotate_files-Shifted path (suc n) fs c =
    let fs1 = remove (numbered path (suc n)) fs in
    let gone : fs1.entry (numbered path (suc n)) ≡ none =
      rw (bytes_eq_refl (numbered path (suc n))) refl in
    let g = shift_names-Shifted path (suc n) fs1 c gone in
    let whole : Shifted path (suc n) fs (shift_names path (suc n) fs1) = record {
      shifted = λ j h. g.shifted j h ∙ (rw (name-ne path (suc n) j (λ e. omega (arith, e))) refl);
      emptied = g.emptied;
      others = λ q h. g.others q h ∙ (rw (h (suc n) (omega arith)) refl);
      files = record {
        bytes = g.files.bytes;
        next_file = g.files.next_file;
        can_open = g.files.can_open;
        can_rename = g.files.can_rename;
        spill = g.files.spill;
      };
    } in
    let some_files : ltb 0 (suc n) ≡ true = ground arith in
    rw some_files (
      subst (λ (x : FileSystem). Shifted path (suc n) fs x) (sym (shift_files-names path n fs1))
        whole)
