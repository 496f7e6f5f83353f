-- ===== src/Agent/Store/Spool/Files.antt =====
-- The files of the spool that are queued, through Enqueue and Drain.
use breakerbox.Prelude.{
  ℕ, true, false, List, [], ◌∷◌, ◌++◌, ◌≡◌, refl, sym, ap, ◌∙◌, arith, Bool-cases, inl, inr, All,
  subst,
}
use mathlib.Core.List.{append-nil}
use breakerbox.Agent.Store.Spool.{
  Access, Codec, SpoolFile, enqueue_op, file_name, insert_file, is_before, is_gone, is_hidden,
  is_queued, keep_queued, left_over, remove_file, same_name, sort_files, write_file, write_hidden,
}
use breakerbox.Agent.Store.Spool.Names.{is_hidden-file_name, same_name-is_before}

abbrev pub ready : Access
ready = record { reads = λ name. true; removes = λ name. true }

-- The file of an operation that was queued at a time.
module _ {A : Type 0} (codec : Codec A) where
  abbrev pub file_of : ℕ × A → SpoolFile
  file_of (now, op) = record {
    name = file_name now (codec.verb op);
    is_dir = false;
    content = codec.encode op;
  }

  unfoldable pub files_of : List (ℕ × A) → List SpoolFile
  files_of [] = []
  files_of (x ∷ xs) = file_of x ∷ files_of xs

pub same_name-hidden : (a name : List ℕ) → same_name a (46 ∷ name) ≡ true → is_hidden a ≡ true
unfolding same_name is_hidden
same_name-hidden [] name h = cc
same_name-hidden (c ∷ a) name h = ground arith

-- Hidden files come and go unseen.
pub keep_queued-remove_hidden :
    (name : List ℕ) (dir : List SpoolFile)
    → keep_queued (remove_file (46 ∷ name) dir) ≡ keep_queued dir
unfolding keep_queued remove_file is_queued
keep_queued-remove_hidden name [] = refl
keep_queued-remove_hidden name (f ∷ dir) =
    ground (arith, same_name-hidden f.name name, keep_queued-remove_hidden name dir)

pub keep_queued-append :
    (xs ys : List SpoolFile) → keep_queued (xs ++ ys) ≡ keep_queued xs ++ keep_queued ys
unfolding keep_queued
keep_queued-append [] ys = refl
keep_queued-append (f ∷ xs) ys = ground (arith, keep_queued-append xs ys)

-- Every queued file comes before a name, so writing that name replaces none.
abbrev pub Before : List ℕ → List SpoolFile → Type 0
Before name = All (λ f. is_before f.name name ≡ true)

pub keep_queued-remove_new :
    (name : List ℕ) (dir : List SpoolFile)
    → Before name (keep_queued dir)
    → keep_queued (remove_file name dir) ≡ keep_queued dir
unfolding keep_queued remove_file is_queued
keep_queued-remove_new name [] h = refl
keep_queued-remove_new name (f ∷ dir) h = elim (Bool-cases (is_queued f)) [
  | inl seen ↦
      let h1 : (is_before f.name name ≡ true) × Before name (keep_queued dir) = rw seen at h in
      rw (same_name-is_before f.name name h1.0, seen)
        (ap (λ l. f ∷ l) (keep_queued-remove_new name dir h1.1))
  | inr other ↦
      let h1 : Before name (keep_queued dir) = rw other at h in
      ground (arith, other, keep_queued-remove_new name dir h1)
]

-- Files in the order of their names are sorted already.
unfoldable pub Ordered : List SpoolFile → Type 0
Ordered [] = Unit
Ordered (f ∷ files) = All (λ g. is_before f.name g.name ≡ true) files × Ordered files

pub is_before_asym : (a b : List ℕ) → is_before a b ≡ true → is_before b a ≡ false
unfolding is_before
is_before_asym [] [] h = cc
is_before_asym [] (d ∷ b) h = refl
is_before_asym (c ∷ a) [] h = cc
is_before_asym (c ∷ a) (d ∷ b) h = ground (arith, is_before_asym a b)

pub insert_file-first :
    (f : SpoolFile) (files : List SpoolFile)
    → All (λ g. is_before f.name g.name ≡ true) files
    → insert_file f files ≡ f ∷ files
unfolding insert_file
insert_file-first f [] h = refl
insert_file-first f (g ∷ files) h = rw (is_before_asym f.name g.name h.0) refl

pub sort_files-Ordered : (files : List SpoolFile) → Ordered files → sort_files files ≡ files
unfolding sort_files Ordered
sort_files-Ordered [] o = refl
sort_files-Ordered (f ∷ files) o =
    ap (insert_file f) (sort_files-Ordered files o.1) ∙ insert_file-first f files o.0

pub seen_file : (f : SpoolFile) → is_queued f ≡ true → keep_queued (f ∷ []) ≡ f ∷ []
unfolding keep_queued
seen_file f h = rw h refl

-- After a drain nothing is queued.
pub keep_queued-left_over : (dir : List SpoolFile) → keep_queued (left_over ready dir) ≡ []
unfolding keep_queued left_over is_gone
keep_queued-left_over [] = refl
keep_queued-left_over (f ∷ dir) = ground (arith, keep_queued-left_over dir)

pub file_of-queued : {A : Type 0} (codec : Codec A) (x : ℕ × A) → is_queued (file_of codec x) ≡ true
unfolding is_queued
file_of-queued codec (now, op) = rw (is_hidden-file_name now (codec.verb op)) refl

-- A file that is written hidden is not queued.
pub write_hidden-queued :
    {A : Type 0} (codec : Codec A) (now : ℕ) (op : A) (dir : List SpoolFile)
    → keep_queued (write_hidden codec now op dir) ≡ keep_queued dir
unfolding write_hidden write_file keep_queued is_queued is_hidden
write_hidden-queued codec now op dir =
    let name = file_name now (codec.verb op) in
    let f : SpoolFile = record { name = 46 ∷ name; is_dir = false; content = codec.encode op } in
    keep_queued-append (remove_file (46 ∷ name) dir) (f ∷ [])
    ∙ append-nil (keep_queued (remove_file (46 ∷ name) dir))
    ∙ keep_queued-remove_hidden name dir

-- Enqueue adds its file at the end of the queue.
pub enqueue_op-queued :
    {A : Type 0} (codec : Codec A) (now : ℕ) (op : A) (dir : List SpoolFile)
    → Before (file_name now (codec.verb op)) (keep_queued dir)
    → keep_queued (enqueue_op codec now op dir) ≡ keep_queued dir ++ file_of codec (now, op) ∷ []
unfolding enqueue_op write_file
enqueue_op-queued codec now op dir before =
    let name = file_name now (codec.verb op) in
    let dir1 = write_hidden codec now op dir in
    let dir2 = remove_file (46 ∷ name) dir1 in
    let unseen : keep_queued dir2 ≡ keep_queued dir =
      keep_queued-remove_hidden name dir1 ∙ write_hidden-queued codec now op dir in
    keep_queued-append (remove_file name dir2) (file_of codec (now, op) ∷ [])
    ∙ ap (λ l. l ++ keep_queued (file_of codec (now, op) ∷ []))
        (keep_queued-remove_new name dir2 (subst (Before name) (sym unseen) before) ∙ unseen)
    ∙ ap (λ l. keep_queued dir ++ l)
        (seen_file (file_of codec (now, op)) (file_of-queued codec (now, op)))
