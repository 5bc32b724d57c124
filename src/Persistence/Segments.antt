-- ===== src/Persistence/Segments.antt =====
-- `SegmentManager`: the files of the data directory that hold the log, and which one is written to.
-- A file is known by its name within the directory.
pub mod Names
pub mod Numbered
use ai_coding_training.Base.{
  ℕ, ◌+◌, Bool, true, false, ◌&&◌, ◌||◌, Option, none, some, List, [], ◌∷◌, ◌++◌, leb, ◌==◌,
  if◌then◌else◌, length,
}
use ai_coding_training.Base.Action.{Outcome, ok, Action, gets, modify, raise_if, ◌>>=◌, ◌>>◌}
use ai_coding_training.Text.{Text, codes, text_eq}
use ai_coding_training.Text.Decimal.{padded}
use ai_coding_training.Text.Order.{sorted}
use ai_coding_training.Members.{mem}
use ai_coding_training.Dict.{Dict, lookup, contains, insert, erase, keys}
use ai_coding_training.Persistence.Struct.{Bytes}

-- What the layer raises: too many segments (`RuntimeError`), low disk space (`OSError`), a number
-- that does not fit the format (`struct.error`), and a tuple of the wrong length (`ValueError`).
pub data PersistError : Type 0 where
  too_many_segments : ℕ → PersistError
  disk_low : PersistError
  pack_error : PersistError
  unpack_error : PersistError

pub record Segments : Type 0 where
  pub max_segment_size : ℕ
  pub max_segments : ℕ
  pub active : Option Text
  pub active_size : ℕ
  pub segments : List Text
  pub files : Dict Bytes

abbrev pub SegmentAction : Type 0 → Type 0
SegmentAction = Action Segments PersistError

-- The content of a file; a file that is not there has none.
abbrev pub content : Text → Dict Bytes → Bytes
content name files = elim (lookup name files) [ none ↦ [] | some bs ↦ bs ]

-- `f"mq-{seq:04d}.log"`
unfoldable pub segment_name : ℕ → Text
unfolding padded
segment_name seq = codes "mq-" ++ padded 4 seq ++ codes ".log"

-- `open(path, "ab")` makes a missing file and leaves one that is there alone.
unfoldable pub touch : Text → Dict Bytes → Dict Bytes
touch name files = if contains name files then files else insert name [] files

unfoldable pub roll_segment : SegmentAction Unit
unfolding segment_name touch
roll_segment = do
  count ← gets (λ s. length s.segments)
  limit ← gets (λ s. s.max_segments)
  raise_if (leb limit count) (too_many_segments count)
  let filename = segment_name (count + 1)
  modify (λ s. record s {
    files = touch filename s.files;
    active = some filename;
    active_size = 0;
    segments = s.segments ++ filename ∷ [];
  })

-- `self._active_segment is None or self._active_size >= self.max_segment_size`
unfoldable pub needs_roll : Segments → Bool
needs_roll s = elim s.active [ none ↦ true | some _ ↦ leb s.max_segment_size s.active_size ]

-- After a roll the active segment is a name; the code returns the attribute as it stands.
abbrev pub active_name : Segments → Text
active_name s = elim s.active [ none ↦ [] | some name ↦ name ]

unfoldable pub get_active_segment : SegmentAction Text
unfolding roll_segment needs_roll
get_active_segment s =
    if needs_roll s then (do roll_segment; gets active_name) s else (ok (active_name s), s)

unfoldable pub get_active_size : Segments → ℕ
get_active_size s = s.active_size

-- A copy, in the order in which the segments were made.
unfoldable pub list_segments : Segments → List Text
list_segments s = s.segments

unfoldable pub add_bytes : ℕ → Segments → Segments
add_bytes n s = record s { active_size = s.active_size + n }

-- `list.remove`: the first occurrence.
unfoldable pub remove_first : Text → List Text → List Text
remove_first x [] = []
remove_first x (y ∷ ys) = let rest = remove_first x ys in if text_eq y x then ys else y ∷ rest

-- The index file beside a segment, `log_path.replace(".log", ".idx")`, is never written.
unfoldable pub delete_segment : Text → Segments → Segments
unfolding remove_first
delete_segment filename s = record s {
  files = erase filename s.files;
  segments = if mem filename s.segments then remove_first filename s.segments else s.segments;
}

-- Whether a text begins with another.
unfoldable pub has_prefix : Text → Text → Bool
has_prefix [] s = true
has_prefix (c ∷ p) [] = false
has_prefix (c ∷ p) (d ∷ s) = c == d && has_prefix p s

-- Whether some end of a text is another.
unfoldable pub has_suffix : Text → Text → Bool
has_suffix p [] = text_eq [] p
has_suffix p (c ∷ s) = text_eq (c ∷ s) p || has_suffix p s

-- `glob.glob("mq-*.log")` over the names of the directory.
unfoldable pub matching : List Text → List Text
unfolding has_prefix has_suffix
matching [] = []
matching (n ∷ ns) =
    let rest = matching ns in
    if has_prefix (codes "mq-") n && leb 7 (length n) && has_suffix (codes ".log") n
    then n ∷ rest
    else rest

abbrev pub last_or : Text → List Text → Text
last_or d [] = d
last_or d (x ∷ xs) = last_or x xs

-- `_scan_existing_segments`, on the manager as the constructor has made it so far.
unfoldable pub scan_existing_segments : SegmentAction Unit
unfolding matching roll_segment
scan_existing_segments s = elim (sorted (matching (keys s.files))) [
  | [] ↦ roll_segment (record s { segments = [] })
  | n ∷ ns ↦ (
    ok tt,
    record s {
      segments = n ∷ ns;
      active = some (last_or n ns);
      active_size = length (content (last_or n ns) s.files);
    },
  )
]

-- `SegmentManager(data_dir, max_segment_size, max_segments)` over the files that are there.
unfoldable pub open_segments : ℕ → ℕ → Dict Bytes → Outcome PersistError Unit × Segments
unfolding scan_existing_segments
open_segments size count files = scan_existing_segments (record {
  max_segment_size = size;
  max_segments = count;
  active = none;
  active_size = 0;
  segments = [];
  files = files;
})
