-- ===== src/Files/RotatingFileSink/Made.antt =====
-- The constructor on a host with old files, and what the files show from there on.
use ngin_log.Base.{
  ℕ, zero, suc, ◌≤◌, ◌<◌, ◌%◌, ◌^◌, Bool, true, false, [], ◌++◌, none, some, Bytes, arith, ◌==◌,
  if◌then◌else◌, length, bytes_eq_refl, ◌≡◌, ◌≢◌, inl, inr, refl, sym, ap, subst, ◌∙◌, Bool-cases,
  Option-cases,
}
use mathlib.Core.List.{append-nil}
use ngin_log.Files.{FileSystem, Stream, bytes_at, store, open_entry, fopen, file_size, shown_at}
use ngin_log.Files.Streams.{new_stream}
use ngin_log.Files.RotatingFileSink.{RotatingFileSink, opened, open_file_locked}
use ngin_log.Files.RotatingFileSink.Shift.{name, name-ne, CanRename}
use ngin_log.Files.RotatingFileSink.Rotated.{
  shown_name, IsSound, with_new, fopen_new, file_size_new,
}

-- The host allows the sink its path and the renames; the files at the sink's names were made, and the
-- one at the path is at no other of the names.
pub record IsFine (path : Bytes) (n : ℕ) (fs : FileSystem) : Type 0 where
  pub can_open : fs.can_open path ≡ true
  pub can_rename : CanRename fs
  pub made : (j i : ℕ) → j ≤ n → fs.entry (name path j) ≡ some i → i < fs.next_file
  pub apart : (j i : ℕ) → j < n → fs.entry path ≡ some i → fs.entry (name path (suc j)) ≢ some i

-- The bytes of the file at a name.
abbrev pub stored : Bytes → FileSystem → ℕ → Bytes
stored path fs j = bytes_at fs (fs.entry (name path j))

-- The bytes of the files at the names from `n` down to the path.
unfoldable pub stored_from : Bytes → FileSystem → ℕ → Bytes
stored_from path fs zero = stored path fs 0
stored_from path fs (suc n) = stored path fs (suc n) ++ stored_from path fs n

-- An opened sink is sound, and shows the stored bytes where it appends.
pub record IsOpened {F : Type 0} (s u : RotatingFileSink F) : Type 0 where
  pub stream : Stream
  pub sound : IsSound u stream
  pub options : u.options ≡ s.options
  pub formatter : u.formatter ≡ s.formatter
  pub shows :
      s.options.append ≡ true
      → (j : ℕ) → j ≤ s.options.max_files
      → shown_name u j ≡ stored s.options.path s.host j

module _ {F : Type 0} (s : RotatingFileSink F)
    (v : IsFine s.options.path s.options.max_files s.host) where
  abbrev path : Bytes
  path = s.options.path

  new_entry :
      (j : ℕ) → (with_new path s.host).entry (name path (suc j)) ≡ s.host.entry (name path (suc j))
  new_entry j = rw (name-ne path 0 (suc j) (λ e. omega (arith, e))) refl

  open_new : s.host.entry path ≡ none → IsOpened s (open_file_locked s).1
  unfolding open_file_locked opened
  open_new e =
      let fs = with_new path s.host in
      let linked : fs.entry path ≡ some s.host.next_file = rw (bytes_eq_refl path) refl in
      let made = λ (i j : ℕ) (h : i ≤ s.options.max_files) (g : fs.entry (name path i) ≡ some j).
        new_made i j h g in
      subst (λ p. IsOpened s (opened p s).1)
        (sym (fopen_new s.options.append path s.host v.can_open e))
        (record {
          stream = new_stream s.host.next_file;
          sound = record {
            open_ = refl;
            linked = linked;
            identified = refl;
            made = made;
            apart = λ j h g.
                let less = v.made (suc j) _ (omega arith) (sym (new_entry j) ∙ g) in
                omega (arith, less);
            counted = ap (λ n. n % 2 ^ 64) (file_size_new path s.host);
            can_open = v.can_open;
            can_rename = v.can_rename;
          };
          options = refl;
          formatter = refl;
          shows = λ a. new_shows;
        })
    where
      new_made :
          (j i : ℕ)
          → j ≤ s.options.max_files
          → (with_new path s.host).entry (name path j) ≡ some i
          → i < (with_new path s.host).next_file
      new_made zero i h g =
          let same : some s.host.next_file ≡ some i = sym (rw (bytes_eq_refl path) refl) ∙ g in
          ground (arith, same)
      new_made (suc j) i h g =
          let less = v.made (suc j) i h (sym (new_entry j) ∙ g) in omega (arith, less)

      new_shows :
          (j : ℕ)
          → j ≤ s.options.max_files
          → shown_at
              (some (new_stream s.host.next_file))
              (with_new path s.host)
              ((with_new path s.host).entry (name path j))
            ≡ stored path s.host j
      new_shows zero h =
          let same : (s.host.next_file == s.host.next_file) ≡ true = ground arith in
          (rw (bytes_eq_refl path) (rw same refl)) ∙ ap (bytes_at s.host) (sym e)
      new_shows (suc j) h =
          ap (shown_at (some (new_stream s.host.next_file)) (with_new path s.host)) (new_entry j)
          ∙ (elim (Option-cases (s.host.entry (name path (suc j)))) [
            | inl g ↦ rw g refl
            | inr (i, g) ↦
                let less = v.made (suc j) i h g in
                let other : (i == s.host.next_file) ≡ false = ground (arith, less) in
                rw g (rw other refl)
          ])

  -- Of an old file, whose bytes the opening may change.
  opened_old :
      (i : ℕ) (after : ℕ → Bytes)
      → s.host.entry path ≡ some i
      → (s.options.append ≡ true → after ≡ s.host.bytes)
      → IsOpened s (opened (some (new_stream i), record s.host { bytes = after }) s).1
  unfolding opened file_size
  opened_old i after e same = record {
    stream = new_stream i;
    sound = record {
      open_ = refl;
      linked = e;
      identified = refl;
      made = v.made;
      apart = λ j h g. v.apart j i h e g;
      counted =
          ap (λ n. n % 2 ^ 64)
            (ap (λ o. length (bytes_at (record s.host { bytes = after }) o)) e
              ∙ ap length (sym (nothing_more i)));
      can_open = v.can_open;
      can_rename = v.can_rename;
    };
    options = refl;
    formatter = refl;
    shows = λ a j h. elim (Option-cases (s.host.entry (name path j))) [
      | inl g ↦ rw g refl
      | inr (x, g) ↦
          ap (shown_at (some (new_stream i)) (record s.host { bytes = after })) g
          ∙ nothing_more x
          ∙ ap (λ (b : ℕ → Bytes). b x) (same a)
          ∙ ap (bytes_at s.host) (sym g)
    ];
  }
    where
      nothing_more : (x : ℕ) → (if x == i then after x ++ [] else after x) ≡ after x
      nothing_more x = elim (Bool-cases (x == i)) [
        | inl g ↦ rw g (append-nil (after x))
        | inr g ↦ rw g refl
      ]

  open_old : (i : ℕ) → s.host.entry path ≡ some i → IsOpened s (open_file_locked s).1
  unfolding open_file_locked fopen open_entry
  open_old i e =
      let rest = λ (b : Bool). λ (p : ℕ × FileSystem).
        (opened (if b then (some (new_stream p.0), p.1) else (none, s.host)) s).1 in
      subst (IsOpened s)
        (sym (
          ap (λ b. rest b (open_entry s.options.append path s.host (s.host.entry path))) v.can_open
          ∙ ap (λ o. rest true (open_entry s.options.append path s.host o)) e))
        (elim (Bool-cases s.options.append) [
          | inl a ↦
              subst (λ b. IsOpened s (rest true (open_entry b path s.host (some i)))) (sym a)
                (opened_old i s.host.bytes e (λ _. refl))
          | inr a ↦
              subst (λ b. IsOpened s (rest true (open_entry b path s.host (some i)))) (sym a)
                (opened_old i (store i [] s.host.bytes) e (λ t. cc))
        ])

  pub open_file_locked-IsOpened : IsOpened s (open_file_locked s).1
  open_file_locked-IsOpened = elim (Option-cases (s.host.entry path)) [
    | inl e ↦ open_new e
    | inr (i, e) ↦ open_old i e
  ]
