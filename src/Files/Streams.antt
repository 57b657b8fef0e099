-- ===== src/Files/Streams.antt =====
-- What the calls on a stream do to the files, and to what the stream shows of them.
use ngin_log.Base.{
  ℕ, [], Bool, true, false, ◌++◌, some, Bytes, ◌==◌, ==_iff, if◌then◌else◌, take, drop,
  take-append-drop, ◌≡◌, inl, inr, refl, sym, ap, ◌∙◌, Bool-cases,
}
use mathlib.Core.List.{append_assoc, append-nil}
use ngin_log.Files.{FileSystem, Stream, shown, fwrite, fflush, fclose, fopen, open_entry}

-- Of a file that was given more bytes, its first ones written and the rest buffered.
pub shown-fwrite :
    (line : Bytes) (st : Stream) (fs : FileSystem) (i : ℕ)
    → shown (some (fwrite line st fs).0) (fwrite line st fs).1 i
      ≡ (if i == st.file then shown (some st) fs i ++ line else shown (some st) fs i)
unfolding fwrite
shown-fwrite line st fs i = elim (Bool-cases (i == st.file)) [
  | inl e ↦
      let n = fs.spill (st.pending ++ line) in
      rw e (
        append_assoc (fs.bytes st.file) (take n (st.pending ++ line)) (drop n (st.pending ++ line))
        ∙ ap (λ b. fs.bytes st.file ++ b) (take-append-drop n (st.pending ++ line))
        ∙ sym (append_assoc (fs.bytes st.file) st.pending line)
        ∙ ap (λ j. (fs.bytes j ++ st.pending) ++ line) (sym ((==_iff i st.file).0 e)))
  | inr e ↦ rw e refl
]

pub shown-fflush :
    (st : Stream) (fs : FileSystem) (i : ℕ)
    → shown (some (fflush st fs).0) (fflush st fs).1 i ≡ shown (some st) fs i
unfolding fflush
shown-fflush st fs i = elim (Bool-cases (i == st.file)) [
  | inl e ↦ rw e (
      append-nil (fs.bytes st.file ++ st.pending)
      ∙ ap (λ j. fs.bytes j ++ st.pending) (sym ((==_iff i st.file).0 e)))
  | inr e ↦ rw e refl
]

-- What the calls on a stream leave as it is, and what they show.
pub record IsStreamed (st st' : Stream) (fs fs' : FileSystem) (line : Bytes) : Type 0 where
  pub file : st'.file ≡ st.file
  pub entry : fs'.entry ≡ fs.entry
  pub next_file : fs'.next_file ≡ fs.next_file
  pub device : fs'.device ≡ fs.device
  pub can_open : fs'.can_open ≡ fs.can_open
  pub can_rename : fs'.can_rename ≡ fs.can_rename
  pub shows :
      (i : ℕ)
      → shown (some st') fs' i
        ≡ (if i == st.file then shown (some st) fs i ++ line else shown (some st) fs i)

pub if_nil : (b : Bool) (x : Bytes) → (if b then x ++ [] else x) ≡ x
if_nil true x = append-nil x
if_nil false x = refl

pub fwrite-IsStreamed :
    (line : Bytes) (st : Stream) (fs : FileSystem)
    → IsStreamed st (fwrite line st fs).0 fs (fwrite line st fs).1 line
unfolding fwrite
fwrite-IsStreamed line st fs = record {
  file = refl;
  entry = refl;
  next_file = refl;
  device = refl;
  can_open = refl;
  can_rename = refl;
  shows = shown-fwrite line st fs;
}

-- A flush behind it changes nothing of that.
pub fflush-IsStreamed :
    (line : Bytes) (st st' : Stream) (fs fs' : FileSystem)
    → IsStreamed st st' fs fs' line
    → IsStreamed st (fflush st' fs').0 fs (fflush st' fs').1 line
unfolding fflush
fflush-IsStreamed line st st' fs fs' h = record {
  file = h.file;
  entry = h.entry;
  next_file = h.next_file;
  device = h.device;
  can_open = h.can_open;
  can_rename = h.can_rename;
  shows = λ i. shown-fflush st' fs' i ∙ h.shows i;
}

-- Closing a stream writes what it held.
pub bytes-fclose :
    (st : Stream) (fs : FileSystem) (i : ℕ) → (fclose st fs).bytes i ≡ shown (some st) fs i
unfolding fclose fflush
bytes-fclose st fs i = elim (Bool-cases (i == st.file)) [
  | inl e ↦ rw e (ap (λ j. fs.bytes j ++ st.pending) (sym ((==_iff i st.file).0 e)))
  | inr e ↦ rw e refl
]

abbrev pub new_stream : ℕ → Stream
new_stream i = record { file = i; pending = [] }

pub fopen_again :
    (path : Bytes) (fs : FileSystem) (i : ℕ)
    → fs.can_open path ≡ true
    → fs.entry path ≡ some i
    → fopen true path fs ≡ (some (new_stream i), fs)
unfolding fopen open_entry
fopen_again path fs i c e =
    (rw c refl)
    ∙ ap (λ (p : ℕ × FileSystem). (some (new_stream p.0), p.1)) (ap (open_entry true path fs) e)

-- Of a stream that is closed, and a new one for the same file.
pub fclose-IsStreamed :
    (st : Stream) (fs : FileSystem) → IsStreamed st (new_stream st.file) fs (fclose st fs) []
unfolding fclose fflush
fclose-IsStreamed st fs = record {
  file = refl;
  entry = refl;
  next_file = refl;
  device = refl;
  can_open = refl;
  can_rename = refl;
  shows = λ i.
      if_nil (i == st.file) ((fclose st fs).bytes i)
      ∙ bytes-fclose st fs i
      ∙ sym (if_nil (i == st.file) (shown (some st) fs i));
}
