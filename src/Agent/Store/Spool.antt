-- ===== src/Agent/Store/Spool.antt =====
-- agent/internal/appconfig/store.go: the spool, a directory of files through which CLI invocations hand
-- operations to the daemon. Names and contents are lists of bytes.
pub mod Names
pub mod Files
pub mod Queue
use breakerbox.Prelude.{
  ℕ, zero, suc, ◌+◌, ◌/◌, ◌%◌, Bool, true, false, not, ◌&&◌, List, [], ◌∷◌, ◌++◌, Option, none,
  some, ◌≡◌, ◌==◌, ltb, if◌then◌else◌,
}

-- JSON's encoding of operations, and the bytes of the field `op`.
pub record Codec (A : Type 0) : Type 0 where
  pub verb : A → List ℕ
  pub encode : A → List ℕ
  pub decode : List ℕ → Option A
  pub decode_encode : (a : A) → decode (encode a) ≡ some a

pub record SpoolFile : Type 0 where
  pub name : List ℕ
  pub is_dir : Bool
  pub content : List ℕ

-- %d, with as many digits as the fuel at most
unfoldable pub decimal : ℕ → ℕ → List ℕ
decimal zero n = []
decimal (suc fuel) n =
    let front = decimal fuel (n / 10) in
    if ltb n 10 then (48 + n) ∷ [] else front ++ (48 + n % 10) ∷ []

-- ".json"
abbrev pub extension : List ℕ
extension = 46 ∷ 106 ∷ 115 ∷ 111 ∷ 110 ∷ []

-- fmt.Sprintf("%d-%s.json", time.Now().UnixNano(), op.Op); an int64 has 19 digits at most.
unfoldable pub file_name : ℕ → List ℕ → List ℕ
file_name now verb = decimal 19 now ++ (45 ∷ (verb ++ extension))

unfoldable pub same_name : List ℕ → List ℕ → Bool
same_name [] [] = true
same_name [] (d ∷ b) = false
same_name (c ∷ a) [] = false
same_name (c ∷ a) (d ∷ b) = c == d && same_name a b

unfoldable pub remove_file : List ℕ → List SpoolFile → List SpoolFile
unfolding same_name
remove_file name [] = []
remove_file name (f ∷ dir) =
    let rest = remove_file name dir in if same_name f.name name then rest else f ∷ rest

-- os.WriteFile
unfoldable pub write_file : List ℕ → List ℕ → List SpoolFile → List SpoolFile
unfolding remove_file
write_file name content dir =
    remove_file name dir ++ record { name = name; is_dir = false; content = content } ∷ []

-- The part of Enqueue before the rename: the file "." + name.
unfoldable pub write_hidden : {A : Type 0} → Codec A → ℕ → A → List SpoolFile → List SpoolFile
unfolding write_file file_name
write_hidden codec now op dir =
    write_file (46 ∷ file_name now (codec.verb op)) (codec.encode op) dir

-- Enqueue where no call fails
unfoldable pub enqueue_op : {A : Type 0} → Codec A → ℕ → A → List SpoolFile → List SpoolFile
unfolding write_hidden write_file remove_file file_name
enqueue_op codec now op dir =
    let name = file_name now (codec.verb op) in
    write_file name (codec.encode op) (remove_file (46 ∷ name) (write_hidden codec now op dir))

-- `!e.IsDir() && !strings.HasPrefix(e.Name(), ".")`
unfoldable pub is_hidden : List ℕ → Bool
is_hidden [] = false
is_hidden (c ∷ name) = c == 46

unfoldable pub is_queued : SpoolFile → Bool
unfolding is_hidden
is_queued f = not f.is_dir && not (is_hidden f.name)

unfoldable pub keep_queued : List SpoolFile → List SpoolFile
unfolding is_queued
keep_queued [] = []
keep_queued (f ∷ dir) = let rest = keep_queued dir in if is_queued f then f ∷ rest else rest

-- The order of strings, byte by byte.
unfoldable pub is_before : List ℕ → List ℕ → Bool
is_before [] [] = false
is_before [] (d ∷ b) = true
is_before (c ∷ a) [] = false
is_before (c ∷ a) (d ∷ b) =
    let rest = is_before a b in if ltb c d then true else if c == d then rest else false

-- sort.Strings of the names, with their files
unfoldable pub insert_file : SpoolFile → List SpoolFile → List SpoolFile
unfolding is_before
insert_file f [] = f ∷ []
insert_file f (g ∷ files) =
    let rest = insert_file f files in if is_before g.name f.name then g ∷ rest else f ∷ g ∷ files

unfoldable pub sort_files : List SpoolFile → List SpoolFile
unfolding insert_file
sort_files [] = []
sort_files (f ∷ files) = insert_file f (sort_files files)

-- What os.ReadFile and os.Remove answer for a name.
pub record Access : Type 0 where
  pub reads : List ℕ → Bool
  pub removes : List ℕ → Bool

unfoldable pub op_of : {A : Type 0} → Option A → List A → List A
op_of none ops = ops
op_of (some op) ops = op ∷ ops

unfoldable pub read_ops : {A : Type 0} → Codec A → Access → List SpoolFile → List A
unfolding op_of
read_ops codec e [] = []
read_ops codec e (f ∷ files) =
    let rest = read_ops codec e files in
    if e.reads f.name then op_of (codec.decode f.content) rest else rest

-- A file that was read is removed, if its removal does not fail.
unfoldable pub is_gone : Access → SpoolFile → Bool
unfolding is_queued
is_gone e f = is_queued f && e.reads f.name && e.removes f.name

unfoldable pub left_over : Access → List SpoolFile → List SpoolFile
unfolding is_gone
left_over e [] = []
left_over e (f ∷ dir) = let rest = left_over e dir in if is_gone e f then rest else f ∷ rest

-- Drain where the directory can be read
unfoldable pub drain : {A : Type 0} → Codec A → Access → List SpoolFile → List A × List SpoolFile
unfolding read_ops sort_files keep_queued left_over
drain codec e dir = (read_ops codec e (sort_files (keep_queued dir)), left_over e dir)
